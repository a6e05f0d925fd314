-- ===== src/Core/Isa/Refinement.antt =====
-- The core of vsrc/src/core.sv refines the instruction set: instruction by instruction, and over
-- any run of a program.
use riscv_single_cycle_cpu.Base.{ℕ, zero, suc, ◌≡◌, refl, sym, ◌∙◌, false}
use mathlib.Core.Path.{subst}
use riscv_single_cycle_cpu.Core.Decode.{decode}
use riscv_single_cycle_cpu.Core.Control.{control}
use riscv_single_cycle_cpu.Core.Alu.{alu}
use riscv_single_cycle_cpu.Core.Datapath.{Core, Pins, wires, clock}
use riscv_single_cycle_cpu.Core.Isa.{
  Instr, reg_op, imm_op, shift_op, lui, auipc, jal, jalr, branch, execute,
}
use riscv_single_cycle_cpu.Core.Isa.Encoding.{encode, IsEncodable}
use riscv_single_cycle_cpu.Core.Isa.Retire.{fetched, Retires}
use riscv_single_cycle_cpu.Core.Isa.Operations.{reg_op-Retires, imm_op-Retires, shift_op-Retires}
use riscv_single_cycle_cpu.Core.Isa.Jumps.{
  lui-Retires, auipc-Retires, jal-Retires, jalr-Retires, branch-Retires,
}
use riscv_single_cycle_cpu.Core.Isa.Words.{IsWords, execute-IsWords}

clock-execute :
    (i : Instr) (s : Core) → IsEncodable i → IsWords s.regs → s.held.branch ≡ false → Retires i s
clock-execute (reg_op op rd rs1 rs2) s (h, h1, h2) words e =
    reg_op-Retires rd rs1 rs2 h h1 h2 s e op
clock-execute (imm_op op rd rs1 imm) s (h, h1, hi) words e = imm_op-Retires rd rs1 h h1 s op imm hi
clock-execute (shift_op op rd rs1 n) s (h, h1, hn) words e = shift_op-Retires rd rs1 h h1 s op n hn
clock-execute (lui rd imm) s (h, hi) words e = lui-Retires s rd imm h hi
clock-execute (auipc rd imm) s (h, hi) words e = auipc-Retires s rd imm h hi
clock-execute (jal rd imm) s (h, hi) words e = jal-Retires s rd imm h hi
clock-execute (jalr rd rs1 imm) s (h, h1, hi) words e = jalr-Retires s rd rs1 imm h h1 hi
clock-execute (branch op rs1 rs2 imm) s (h1, h2, hi) words e =
    branch-Retires s words rs1 rs2 imm h1 h2 hi op

-- an edge at which no bus and no unit answers
abbrev pub waiting : Pins
waiting = record (fetched 0) { iresp_ok = false }

-- `n` edges without an answer
abbrev pub wait : ℕ → Core → Core
wait zero s = s
wait (suc n) s = wait n (clock waiting s)

-- While no instruction is in flight, an edge without an answer leaves the program counter and the
-- registers, and no branch is held.
abbrev IsIdle : Core → Core → Type 0
IsIdle s s' = (s'.pc ≡ s.pc) × (s'.regs ≡ s.regs) × (s'.curr_instr ≡ 0) × (s'.held.branch ≡ false)

clock-waiting : (s : Core) → s.curr_instr ≡ 0 → IsIdle s (clock waiting s)
unfolding clock wires control alu decode
clock-waiting s e = rw e (refl, refl, refl, refl)

wait-IsIdle : (n : ℕ) (s : Core) → s.curr_instr ≡ 0 → IsIdle s (wait (suc n) s)
wait-IsIdle zero s e = clock-waiting s e
wait-IsIdle (suc n) s e =
    let (pc, regs, none_left, idle) = clock-waiting s e in
    let (pc', regs', rest, idle') = wait-IsIdle n (clock waiting s) none_left in
    (pc' ∙ pc, regs' ∙ regs, rest, idle')

-- `n` instructions of a program: the core waits at least one edge for each fetch.
abbrev pub run_core : (ℕ → Instr) → (ℕ → ℕ) → ℕ → Core → Core
run_core program waits zero s = s
run_core program waits (suc n) s =
    let ready = wait (suc (waits n)) s in
    run_core program waits n (clock (fetched (encode (program ready.pc))) ready)

-- The same instructions, each as a whole.
abbrev pub run_isa : (ℕ → Instr) → ℕ → ℕ × (ℕ → ℕ) → ℕ × (ℕ → ℕ)
run_isa program zero s = s
run_isa program (suc n) (pc, regs) = run_isa program n (execute (program pc) pc regs)

-- Over any number of instructions of a program, however long each fetch takes, the program counter
-- and the registers of the core are those of the instruction set: for the integer instructions
-- that use neither memory nor the multiplier nor the divider, from any state with no instruction
-- in flight, whatever the control signals then hold.
pub run_core-run_isa :
    (program : ℕ → Instr) (waits : ℕ → ℕ) (n : ℕ) (s : Core)
    → ((pc : ℕ) → IsEncodable (program pc))
    → IsWords s.regs
    → s.curr_instr ≡ 0
    → let s' = run_core program waits n s in (s'.pc, s'.regs) ≡ run_isa program n (s.pc, s.regs)
run_core-run_isa program waits zero s fits words e = refl
run_core-run_isa program waits (suc n) s fits words e =
    let ready = wait (suc (waits n)) s in
    let (pc_same, regs_same, none_left, idle) = wait-IsIdle (waits n) s e in
    let i = program ready.pc in
    let words' : IsWords ready.regs = subst IsWords (sym regs_same) words in
    let (pc_next, regs_next, done, _) = clock-execute i ready (fits ready.pc) words' idle in
    let next = clock (fetched (encode i)) ready in
    let after : IsWords next.regs =
      subst IsWords (sym regs_next)
        (execute-IsWords i ready.pc ready.regs (fits ready.pc) words') in
    run_core-run_isa program waits n next fits after done
    ∙ rw (pc_next, regs_next, pc_same, regs_same) refl
