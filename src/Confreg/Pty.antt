-- ===== src/Confreg/Pty.antt =====
-- The pseudo terminal of the UART in verilate/vsrc/confreg.cpp: `uart_open_pty`, the worker thread
-- that reads from it, and `_uart_close_pty`. The files are flags that say whether they are open.
use riscv_single_cycle_cpu.Base.{
  ℕ, Bool, false, Option, none, some, not, ◌>>=◌, ◌>>◌, asserts, List, if◌then◌else◌,
}
use riscv_single_cycle_cpu.Confreg.{Confreg, arrive}
use riscv_single_cycle_cpu.Worker
use riscv_single_cycle_cpu.Worker.{ThreadWorker, World}
use riscv_single_cycle_cpu.Log
use riscv_single_cycle_cpu.Log.{LogCtx}

-- `opty` is a field of the registers.
pub record Pty : Type 0 where
  pub con : Confreg
  pub ipty : Bool
  pub worker : ThreadWorker
  pub world : World
  pub log : LogCtx

-- `reads` and `writes` say whether the path opens; `connected` is the message.
unfoldable pub open_pty : List ℕ → Bool → Bool → Pty → Option Pty
open_pty connected reads writes p = do
  asserts (not p.ipty)
  asserts (not p.con.opty)
  let reading = record p { ipty = reads }
  let writing = record reading { con = record p.con { opty = writes } }
  let started = Worker.loop writing.world
  let moved = Worker.move started.0
  some (
      if not reads then p else if not writes then reading else record writing {
        worker = moved.0;
        world = started.1;
        log = Log.info connected writing.log;
      })

-- One call of the worker's function; `none` is the end of the file.
unfoldable pub fetch : Option ℕ → Pty → Pty
unfolding arrive
fetch got p = elim got [ none ↦ p | some c ↦ record p { con = arrive c p.con } ]

-- What the worker does last.
unfoldable pub finish_worker : Pty → Pty
finish_worker p = record p { ipty = false }

unfoldable pub close_pty : Pty → Option Pty
close_pty p = Worker.stop p.worker p.world >>= λ s.
    some (record p { worker = s.0; world = s.1; con = record p.con { opty = false } })
