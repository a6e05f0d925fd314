-- ===== src/Tests/Core.antt =====
-- The theorems on the processor core of vsrc/ at concrete inputs.
use riscv_single_cycle_cpu.Base.{ℕ, ◌≤◌, ◌≡◌, refl, arith, true, false, ◌==◌, if◌then◌else◌, if-of}
use riscv_single_cycle_cpu.Core.Signals.{Registers}
use riscv_single_cycle_cpu.Core.Div.Quotient.{remainder, result, operand, is_below_zero, absolute}
use riscv_single_cycle_cpu.Bus.LoadOp.{apply, parse, place, strobe}
use riscv_single_cycle_cpu.Core.Control.{Control}
use riscv_single_cycle_cpu.Core.Datapath.{Core, wires, write_reg}
use riscv_single_cycle_cpu.Core.Datapath
use riscv_single_cycle_cpu.Core.Isa.{Instr, add, addi, bne, reg_op, imm_op, branch}
use riscv_single_cycle_cpu.Core.Isa.Encoding.{IsEncodable}
use riscv_single_cycle_cpu.Core.Isa.Retire
use riscv_single_cycle_cpu.Core.Isa.Words.{IsWords}
use riscv_single_cycle_cpu.Core.Isa.Refinement.{wait, run_core, run_core-run_isa}
use riscv_single_cycle_cpu.Core.Isa.Accesses.{lb, sh, encode_load, encode_store}
use riscv_single_cycle_cpu.Core.Isa.Memory.{answering, load-Completes, store-Completes}
use riscv_single_cycle_cpu.Core.System.{System, clock, fetched, edges}
use riscv_single_cycle_cpu.Core.System.Units.{mulw, rem, encode_mul, encode_div}
use riscv_single_cycle_cpu.Core.System.Steps.{Stays, Completes}
use riscv_single_cycle_cpu.Core.System.MulDiv.{IsReady, mul-Completes, div-Completes}

-- no instruction has been decoded
abbrev cleared : Control
cleared = record {
  jump = 0;
  m2reg = 0;
  branch = false;
  wmem = false;
  aluc = 0;
  shift = false;
  aluimm = false;
  wreg = false;
  d_valid = false;
  d_byte = 0;
  read_sign = false;
  mul_valid = false;
  div_valid = false;
  mul_sign = false;
  div_sign = false;
  mul_w = false;
  div_w = false;
}

-- register 1 holds 0x1006, register 2 holds -7
abbrev some_regs : ℕ → ℕ
some_regs i = if i == 1 then 0x1006 else if i == 2 then 0xfffffffffffffff9 else 0

some_regs-IsWords : IsWords some_regs
some_regs-IsWords i = ground arith

abbrev core : Core
core = record {
  pc = 0x80000000;
  regs = some_regs;
  curr_instr = 0;
  ireq_valid = true;
  held = cleared;
}

-- a loop that counts register 1 up to register 2
abbrev program : ℕ → Instr
program pc =
    if pc == 0x80000000
    then imm_op addi 1 1 1
    else if pc == 0x80000004
    then branch bne 1 2 0xffe
    else reg_op add 3 1 2

program-IsEncodable : (pc : ℕ) → IsEncodable (program pc)
program-IsEncodable pc =
    if-of IsEncodable (pc == 0x80000000) (omega arith, omega arith, omega arith)
      (if-of IsEncodable (pc == 0x80000004) (omega arith, omega arith, omega arith)
        (omega arith, omega arith, omega arith))

run_core-run_isa_example :
    let s' = run_core program (λ n. n) 2 core in
    let looped : ℕ × (ℕ → ℕ) = (0x80000000, write_reg some_regs 1 0x1007) in
    (s'.pc, s'.regs) ≡ looped
run_core-run_isa_example =
    run_core-run_isa program (λ n. n) 2 core program-IsEncodable some_regs-IsWords refl

abbrev idle_unit : Registers
idle_unit = record { state = false; count = 0; p = 0; done = false }

abbrev system : System
system = record { core = core; mul = idle_unit; div = idle_unit }

system-IsReady : IsReady system
system-IsReady = record {
  branch_is = refl;
  mul_is = (refl, refl);
  div_is = (refl, refl);
  words = some_regs-IsWords;
}

mul-Completes_example :
    let fetched_state = clock (fetched (encode_mul mulw 3 1 2)) system in
    ((n : ℕ) → n ≤ 66 → Stays (encode_mul mulw 3 1 2) core (edges n fetched_state).core)
    × Completes 3 0xffffffffffff8fd6 core (edges 67 fetched_state).core
mul-Completes_example =
    mul-Completes mulw 3 1 2 system (omega arith) (omega arith) (omega arith) system-IsReady

div-Completes_example :
    let fetched_state = clock (fetched (encode_div rem 3 2 1)) system in
    ((n : ℕ) → n ≤ 66 → Stays (encode_div rem 3 2 1) core (edges n fetched_state).core)
    × Completes 3 0xfffffffffffffff9 core (edges 67 fetched_state).core
unfolding remainder result operand is_below_zero absolute
div-Completes_example =
    div-Completes rem 3 2 1 system (omega arith) (omega arith) (omega arith) system-IsReady

-- Register 1 plus 1, so byte 7 of the word.
load-Completes_example :
    let s' = wait 5 (Datapath.clock (Retire.fetched (encode_load lb 3 1 1)) core) in
    let asked = wires (answering 0x8011223344556677) s' in
    let next = Datapath.clock (answering 0x8011223344556677) s' in
    (((asked.c.d_valid ≡ true) × (asked.alures ≡ 0x1007) × (asked.c.d_byte ≡ 0))
      × (asked.store.strobe ≡ 0))
    × (next.pc ≡ 0x80000004)
    × (next.regs ≡ write_reg some_regs 3 0xffffffffffffff80)
    × (next.curr_instr ≡ 0)
unfolding apply parse
load-Completes_example =
    load-Completes lb 3 1 1 5 0x8011223344556677 core (omega arith) (omega arith) (omega arith)
      (omega arith) refl

store-Completes_example :
    let s' = wait 5 (Datapath.clock (Retire.fetched (encode_store sh 1 2 0)) core) in
    let asked = wires (answering 0) s' in
    let next = Datapath.clock (answering 0) s' in
    (((asked.c.d_valid ≡ true) × (asked.alures ≡ 0x1006) × (asked.c.d_byte ≡ 1))
      × (asked.store ≡ record { wd = 0xfff9000000000000; strobe = 0b11000000 }))
    × (next.pc ≡ 0x80000004)
    × (next.regs ≡ some_regs)
    × (next.curr_instr ≡ 0)
unfolding place strobe parse
store-Completes_example =
    store-Completes sh 1 2 0 5 0 core (omega arith) (omega arith) (omega arith) some_regs-IsWords
      refl
