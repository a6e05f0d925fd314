-- ===== src/Core/Isa/Words.antt =====
-- The registers stay words of 64 bits.
use native.Mathlib.Nat.{div-lt_iff_lt-mul, one-le-pow, div-le_self, pow-le-pow_right}
use riscv_single_cycle_cpu.Base.{
  ℕ, ◌+◌, ◌-◌, ◌*◌, ◌/◌, ◌%◌, ◌^◌, ◌<◌, ◌≤◌, ◌≡◌, sym, ap, ◌∙◌, arith,
}
use riscv_single_cycle_cpu.Base.Bits.{bit_and-lt, bit_or-lt}
use riscv_single_cycle_cpu.Base.Commute.{bit_xor-lt}
use riscv_single_cycle_cpu.Core.Powers.{pow-add}
use riscv_single_cycle_cpu.Core.Signals.{sign_extend32}
use riscv_single_cycle_cpu.Core.Alu.{shift_arithmetic}
use riscv_single_cycle_cpu.Core.Datapath.{read_reg, write_reg}
use riscv_single_cycle_cpu.Core.Isa.{
  RegOp, Instr, add, sub, sll, slt, sltu, xor, srl, sra, or, and, addw, subw, sllw, srlw, sraw,
  reg_op, imm_op, shift_op, lui, auipc, jal, jalr, branch, compute, signed_field, execute,
  imm_op_reg, shift_op_reg, ShiftOp, slli, srli, srai, slliw, srliw, sraiw,
}
use riscv_single_cycle_cpu.Core.Isa.Encoding.{amount_bits, IsEncodable}

abbrev pub IsWords : (ℕ → ℕ) → Type 0
IsWords regs = (i : ℕ) → regs i < 2 ^ 64

shift_arithmetic-lt : (x n : ℕ) → x < 2 ^ 64 → n < 64 → shift_arithmetic x n < 2 ^ 64
shift_arithmetic-lt x n h hn =
    let whole : 64 - n + n ≡ 64 = omega arith in
    let split : 2 ^ (64 - n) * 2 ^ n ≡ 2 ^ 64 =
      sym (pow-add 2 (64 - n) n) ∙ ap (λ (t : ℕ). 2 ^ t) whole in
    let small : x / 2 ^ n < 2 ^ (64 - n) =
      (div-lt_iff_lt-mul (one-le-pow n 2 (omega arith))).1 (omega (arith, split)) in
    let bound : 2 ^ (64 - n) ≤ 2 ^ 64 = pow-le-pow_right (omega arith) {j = 64} (omega arith) in
    ground (arith, small, bound)

compute-lt : (op : RegOp) (x y : ℕ) → x < 2 ^ 64 → y < 2 ^ 64 → compute op x y < 2 ^ 64
compute-lt add x y h k = omega arith
compute-lt sub x y h k = omega arith
compute-lt sll x y h k = omega arith
compute-lt slt x y h k = ground arith
compute-lt sltu x y h k = ground arith
compute-lt xor x y h k = bit_xor-lt 64 x y h k
compute-lt srl x y h k = omega (arith, div-le_self x (2 ^ (y % 64)))
compute-lt sra x y h k = shift_arithmetic-lt x (y % 64) h (omega arith)
compute-lt or x y h k = bit_or-lt 64 x y h k
compute-lt and x y h k = bit_and-lt 64 x y k
compute-lt addw x y h k = ground arith
compute-lt subw x y h k = ground arith
compute-lt sllw x y h k = ground arith
compute-lt srlw x y h k = ground arith
compute-lt sraw x y h k =
    shift_arithmetic-lt (sign_extend32 x) (y % 32) (ground arith) (omega arith)

signed_field-lt : (width x : ℕ) → x < 2 ^ width → width ≤ 64 → signed_field width x < 2 ^ 64
signed_field-lt width x h k =
    let bound : 2 ^ width ≤ 2 ^ 64 = pow-le-pow_right (omega arith) {j = 64} k in
    ground (arith, bound)

pub read_reg-lt : (regs : ℕ → ℕ) (k : ℕ) → IsWords regs → read_reg regs k < 2 ^ 64
read_reg-lt regs k h = ground (arith, h k)

write_reg-IsWords :
    (regs : ℕ → ℕ) (rd x : ℕ) → IsWords regs → x < 2 ^ 64 → IsWords (write_reg regs rd x)
write_reg-IsWords regs rd x h k i = ground (arith, h i)

amount-lt : (op : ShiftOp) (n : ℕ) → n < 2 ^ amount_bits op → n < 2 ^ 64
amount-lt slli n h = omega arith
amount-lt srli n h = omega arith
amount-lt srai n h = omega arith
amount-lt slliw n h = omega arith
amount-lt srliw n h = omega arith
amount-lt sraiw n h = omega arith

-- Every instruction leaves words in the registers.
pub execute-IsWords :
    (i : Instr) (pc : ℕ) (regs : ℕ → ℕ)
    → IsEncodable i
    → IsWords regs
    → IsWords (execute i pc regs).1
execute-IsWords (reg_op op rd rs1 rs2) pc regs f h =
    write_reg-IsWords regs rd _ h
      (compute-lt op _ _ (read_reg-lt regs rs1 h) (read_reg-lt regs rs2 h))
execute-IsWords (imm_op op rd rs1 imm) pc regs f h = write_reg-IsWords regs rd _ h (
    compute-lt (imm_op_reg op) _ _ (read_reg-lt regs rs1 h)
      (signed_field-lt 12 imm f.2 (omega arith)))
execute-IsWords (shift_op op rd rs1 n) pc regs f h =
    write_reg-IsWords regs rd _ h
      (compute-lt (shift_op_reg op) _ n (read_reg-lt regs rs1 h) (amount-lt op n f.2))
execute-IsWords (lui rd imm) pc regs f h =
    write_reg-IsWords regs rd _ h
      (signed_field-lt 32 (imm * 2 ^ 12) (omega (arith, f.1)) (omega arith))
execute-IsWords (auipc rd imm) pc regs f h = write_reg-IsWords regs rd _ h (omega arith)
execute-IsWords (jal rd imm) pc regs f h = write_reg-IsWords regs rd _ h (omega arith)
execute-IsWords (jalr rd rs1 imm) pc regs f h = write_reg-IsWords regs rd _ h (omega arith)
execute-IsWords (branch op rs1 rs2 imm) pc regs f h = h
