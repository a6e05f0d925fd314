-- ===== src/Core/Isa/Retire.antt =====
-- A clock edge of the core at which an instruction that needs no other unit retires.
use riscv_single_cycle_cpu.Base.{ℕ, ◌≡◌, true, false}
use riscv_single_cycle_cpu.Core.Datapath.{Core, Pins, clock}
use riscv_single_cycle_cpu.Core.Isa.{Instr, execute}
use riscv_single_cycle_cpu.Core.Isa.Encoding.{encode}

-- the instruction bus answers, and nothing else does
abbrev pub fetched : ℕ → Pins
fetched word = record {
  reset = false;
  iresp_ok = true;
  iresp_data = word;
  dresp_ok = false;
  dresp_data = 0;
  mul_done = false;
  mulres = 0;
  div_done = false;
  divres = 0;
}

-- The instruction is done: the program counter and the registers are those that it leaves, and the
-- next one is requested.
abbrev pub Retires : Instr → Core → Type 0
Retires i s =
    let s' = clock (fetched (encode i)) s in
    (s'.pc ≡ (execute i s.pc s.regs).0)
    × (s'.regs ≡ (execute i s.pc s.regs).1)
    × (s'.curr_instr ≡ 0)
    × (s'.ireq_valid ≡ true)
