-- ===== src/Core/System/MulDiv.antt =====
-- The instructions of the M extension in the core with its units.
use riscv_single_cycle_cpu.Base.{ℕ, ◌/◌, ◌%◌, ◌^◌, ◌≤◌, ◌<◌, ◌≡◌, ap, ◌∙◌, arith, Bool, true, false}
use riscv_single_cycle_cpu.Core.Signals.{Inputs, Registers}
use riscv_single_cycle_cpu.Core.Mul
use riscv_single_cycle_cpu.Core.Div
use riscv_single_cycle_cpu.Core.Div.{concat}
use riscv_single_cycle_cpu.Core.Div.Output.{quotient-lt}
use riscv_single_cycle_cpu.Core.Div.Quotient.{quotient, remainder}
use riscv_single_cycle_cpu.Core.Mul.Product.{product}
use riscv_single_cycle_cpu.Core.Mul.Run.{hold-product}
use riscv_single_cycle_cpu.Core.Div.Run.{hold-quotient}
use riscv_single_cycle_cpu.Core.Datapath.{read_reg}
use riscv_single_cycle_cpu.Core.Isa.Words.{IsWords, read_reg-lt}
use riscv_single_cycle_cpu.Core.System.{System, clock, quiet, fetched, edges}
use riscv_single_cycle_cpu.Core.System.Units.{
  MulOp, DivOp, div, divu, rem, remu, divw, divuw, remw, remuw, encode_mul, encode_div, mul_word,
  div_signed, div_word, half, divide,
}
use riscv_single_cycle_cpu.Core.System.Requests.{mul-Requested, div-Requested}
use riscv_single_cycle_cpu.Core.System.Steps.{Stays, Completes}
use riscv_single_cycle_cpu.Core.System.Waiting.{IsIdle, Asks, asked, mul_asked, div_asked}
use riscv_single_cycle_cpu.Core.System.Completion.{at_wait, completes, same_operands}

-- No instruction is in flight: the units are idle and no branch is held.
pub record IsReady (s : System) : Type 0 where
  pub branch_is : s.core.held.branch ≡ false
  pub mul_is : IsIdle s.mul
  pub div_is : IsIdle s.div
  pub words : IsWords s.core.regs

-- A multiplication that the core fetches while its units are idle: for 66 edges the program counter
-- and the registers stay and the instruction is kept; the 67th after the fetch edge moves on to the
-- next instruction and writes the product of the two registers.
pub mul-Completes :
    (op : MulOp) (rd rs1 rs2 : ℕ) (s : System)
    → rd < 32
    → rs1 < 32
    → rs2 < 32
    → IsReady s
    → let word = encode_mul op rd rs1 rs2 in
      let fetched_state = clock (fetched word) s in
      ((n : ℕ) → n ≤ 66 → Stays word s.core (edges n fetched_state).core)
      × Completes rd
          (product (mul_word op) (read_reg s.core.regs rs1) (read_reg s.core.regs rs2))
          s.core
          (edges 67 fetched_state).core
mul-Completes op rd rs1 rs2 s h h1 h2 r =
    let (low, high, _, value) =
      hold-product _ _ true (mul_word op) s.mul (read_reg-lt s.core.regs rs1 r.words)
        (read_reg-lt s.core.regs rs2 r.words) r.mul_is.0 in
    completes asks s r.branch_is r.mul_is r.div_is _ low high (λ s' k.
      ap (λ (i : Inputs). Mul.c i s'.mul)
        (mul_asked quiet s' (at_wait asks s r.branch_is r.mul_is r.div_is s' k.core_is) asks
          ∙ same_operands asks s r.branch_is r.mul_is r.div_is 66 s' k)
      ∙ ap (Mul.c (asked true (mul_word op) rs1 rs2 s.core)) k.unit_is
      ∙ value)
  where
    asks : Asks true true (mul_word op) (λ m d. m) rd rs1 rs2 (encode_mul op rd rs1 rs2)
    asks p c e idle unanswered = mul-Requested rd rs1 rs2 h h1 h2 p c idle unanswered op e

halves :
    (x y : ℕ)
    → x < 2 ^ 64
    → y < 2 ^ 64
    → (s w : Bool)
    → let c = concat (remainder w s x y) (quotient w s x y) in
      (c % 2 ^ 64 ≡ quotient w s x y) × (c / 2 ^ 64 ≡ remainder w s x y)
halves x y hx hy s w =
    (omega (arith, quotient-lt x y hx hy s w), omega (arith, quotient-lt x y hx hy s w))

half_of :
    (op : DivOp) (x y : ℕ)
    → x < 2 ^ 64
    → y < 2 ^ 64
    → half op (
        concat
          (remainder (div_word op) (div_signed op) x y)
          (quotient (div_word op) (div_signed op) x y))
      ≡ divide op x y
half_of div x y hx hy = (halves x y hx hy _ _).0
half_of divu x y hx hy = (halves x y hx hy _ _).0
half_of rem x y hx hy = (halves x y hx hy _ _).1
half_of remu x y hx hy = (halves x y hx hy _ _).1
half_of divw x y hx hy = (halves x y hx hy _ _).0
half_of divuw x y hx hy = (halves x y hx hy _ _).0
half_of remw x y hx hy = (halves x y hx hy _ _).1
half_of remuw x y hx hy = (halves x y hx hy _ _).1

-- A division that the core fetches while its units are idle: for 66 edges the program counter and
-- the registers stay and the instruction is kept; the 67th after the fetch edge moves on to the
-- next instruction and writes the quotient or the remainder of the two registers, as the
-- instruction asks.
pub div-Completes :
    (op : DivOp) (rd rs1 rs2 : ℕ) (s : System)
    → rd < 32
    → rs1 < 32
    → rs2 < 32
    → IsReady s
    → let word = encode_div op rd rs1 rs2 in
      let fetched_state = clock (fetched word) s in
      ((n : ℕ) → n ≤ 66 → Stays word s.core (edges n fetched_state).core)
      × Completes rd
          (divide op (read_reg s.core.regs rs1) (read_reg s.core.regs rs2))
          s.core
          (edges 67 fetched_state).core
div-Completes op rd rs1 rs2 s h h1 h2 r =
    let (low, high, _, value) =
      hold-quotient _ _ (div_signed op) (div_word op) s.div (read_reg-lt s.core.regs rs1 r.words)
        (read_reg-lt s.core.regs rs2 r.words) r.div_is.0 in
    completes asks s r.branch_is r.div_is r.mul_is _ low high (λ s' k.
      ap (λ (i : Inputs). half op (Div.c i s'.div))
        (div_asked quiet s' (at_wait asks s r.branch_is r.div_is r.mul_is s' k.core_is) asks
          ∙ same_operands asks s r.branch_is r.div_is r.mul_is 66 s' k)
      ∙ ap
          (λ (t : Registers).
            half op (Div.c (asked (div_signed op) (div_word op) rs1 rs2 s.core) t))
          k.unit_is
      ∙ ap (half op) value
      ∙ half_of op _ _ (read_reg-lt s.core.regs rs1 r.words) (read_reg-lt s.core.regs rs2 r.words))
  where
    asks :
        Asks false
          (div_signed op)
          (div_word op)
          (λ m d. half op d)
          rd
          rs1
          rs2
          (encode_div op rd rs1 rs2)
    asks p c e idle unanswered = div-Requested rd rs1 rs2 h h1 h2 p c idle unanswered op e
