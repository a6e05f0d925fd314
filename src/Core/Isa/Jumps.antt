-- ===== src/Core/Isa/Jumps.antt =====
-- The jumps, the branches and the upper immediates retire.
use riscv_single_cycle_cpu.Base.{
  ℕ, ◌+◌, ◌-◌, ◌*◌, ◌/◌, ◌%◌, ◌^◌, ◌<◌, ◌≡◌, refl, ap, arith, Bool, true, false, ◌==◌,
  if◌then◌else◌, add64, sub64, ltb, bit_and,
}
use riscv_single_cycle_cpu.Core.Decode.{decode}
use riscv_single_cycle_cpu.Core.Control.{control}
use riscv_single_cycle_cpu.Core.Alu.{alu, signed_lt}
use riscv_single_cycle_cpu.Core.Signals.{is_set, differ}
use riscv_single_cycle_cpu.Core.Datapath.{Core, wires, clock, read_reg, write_reg}
use riscv_single_cycle_cpu.Core.Isa.{
  BranchOp, beq, bne, blt, bge, bltu, bgeu, lui, auipc, jal, jalr, branch, signed_field,
}
use riscv_single_cycle_cpu.Core.Isa.Encoding.{fields}
use riscv_single_cycle_cpu.Core.Isa.Fields.{fields-Fields}
use riscv_single_cycle_cpu.Core.Isa.Decoding.{
  decoded, decode_branch, decode_jalr, decode_lui, decode_auipc, decode_jal,
}
use riscv_single_cycle_cpu.Base.Fields.{bit_and_field}
use riscv_single_cycle_cpu.Core.Isa.Retire.{Retires}

-- The flag `SF` after a subtraction is the comparison, signed or not.
signed_less :
    (x y : ℕ)
    → x < 2 ^ 64
    → y < 2 ^ 64
    → (if differ (is_set 63 x) (is_set 63 y) then is_set 63 x else is_set 63 (sub64 x y))
      ≡ signed_lt x y
signed_less x y hx hy = ground arith

unsigned_less :
    (x y : ℕ)
    → x < 2 ^ 64
    → y < 2 ^ 64
    → (if differ (is_set 63 x) (is_set 63 y) then is_set 63 y else is_set 63 (sub64 x y)) ≡ ltb x y
unsigned_less x y hx hy = ground arith

difference_zero : (x y : ℕ) → x < 2 ^ 64 → y < 2 ^ 64 → (sub64 x y == 0) ≡ (x == y)
difference_zero x y hx hy = ground arith

even : (x : ℕ) → x < 2 ^ 64 → bit_and x (2 ^ 64 - 2) ≡ x / 2 * 2
even x h = omega (arith, bit_and_field 1 63 x)

read_reg-lt : (regs : ℕ → ℕ) (k : ℕ) → ((i : ℕ) → regs i < 2 ^ 64) → read_reg regs k < 2 ^ 64
read_reg-lt regs k h = ground (arith, h k)

pub lui-Retires : (s : Core) (rd imm : ℕ) → rd < 32 → imm < 2 ^ 20 → Retires (lui rd imm) s
unfolding clock wires control alu
lui-Retires s rd imm h hi =
    let all : add64 0 (signed_field 32 (imm * 2 ^ 12)) ≡ signed_field 32 (imm * 2 ^ 12) =
      ground arith in
    rw (decode_lui rd imm h hi) (refl, ap (write_reg s.regs rd) all, refl, refl)

pub auipc-Retires : (s : Core) (rd imm : ℕ) → rd < 32 → imm < 2 ^ 20 → Retires (auipc rd imm) s
unfolding clock wires control alu
auipc-Retires s rd imm h hi = rw (decode_auipc rd imm h hi) (refl, refl, refl, refl)

pub jal-Retires : (s : Core) (rd imm : ℕ) → rd < 32 → imm < 2 ^ 20 → Retires (jal rd imm) s
unfolding clock wires control alu
jal-Retires s rd imm h hi = rw (decode_jal rd imm h hi) (refl, refl, refl, refl)

pub jalr-Retires :
    (s : Core) (rd rs1 imm : ℕ) → rd < 32 → rs1 < 32 → imm < 2 ^ 12 → Retires (jalr rd rs1 imm) s
unfolding clock wires control alu
jalr-Retires s rd rs1 imm h h1 hi =
    rw
      (decode_jalr
        (fields-Fields (imm / 2 ^ 5) (imm % 2 ^ 5) rs1 0b000 rd _ (omega arith) (omega arith) h1
          (omega arith) h (omega arith))
        imm hi (omega arith))
      (even _ (omega arith), refl, refl, refl)

module _ (s : Core) (words : (i : ℕ) → s.regs i < 2 ^ 64) (rs1 rs2 imm : ℕ) (h1 : rs1 < 32)
    (h2 : rs2 < 32) (hi : imm < 2 ^ 12) where
  with_offset :
      (funct3 : ℕ)
      → funct3 < 8
      → decode (
          fields
            (imm / 2 ^ 11 * 2 ^ 6 + imm / 2 ^ 4 % 2 ^ 6)
            rs2
            rs1
            funct3
            (imm % 2 ^ 4 * 2 + imm / 2 ^ 10 % 2)
            0b1100011)
        ≡ decoded rs1 rs2 0 (signed_field 13 (imm * 2)) 0b1100011 funct3 0b1111111
  with_offset funct3 h3 =
      decode_branch
        (fields-Fields _ rs2 rs1 funct3 _ _ (omega arith) h2 h1 h3 (omega arith) (omega arith)) imm
        hi refl refl

  -- a fact about the operands
  compared :
      {P : ℕ → ℕ → Type 0}
      → ((x y : ℕ) → x < 2 ^ 64 → y < 2 ^ 64 → P x y)
      → P (read_reg s.regs rs1) (read_reg s.regs rs2)
  compared fact = fact _ _ (read_reg-lt s.regs rs1 words) (read_reg-lt s.regs rs2 words)

  next :
      (test : Bool) (a b : ℕ)
      → (if test then add64 s.pc a else add64 s.pc b) ≡ add64 s.pc (if test then a else b)
  next true a b = refl
  next false a b = refl

  pub branch-Retires : (op : BranchOp) → Retires (branch op rs1 rs2 imm) s
  unfolding clock wires control alu
  branch-Retires beq =
      rw (with_offset 0b000 (omega arith), compared difference_zero) (next _ _ _, refl, refl, refl)
  branch-Retires bne =
      rw (with_offset 0b001 (omega arith), compared difference_zero) (next _ _ _, refl, refl, refl)
  branch-Retires blt =
      rw (with_offset 0b100 (omega arith), compared signed_less) (next _ _ _, refl, refl, refl)
  branch-Retires bge =
      rw (with_offset 0b101 (omega arith), compared signed_less) (next _ _ _, refl, refl, refl)
  branch-Retires bltu =
      rw (with_offset 0b110 (omega arith), compared unsigned_less) (next _ _ _, refl, refl, refl)
  branch-Retires bgeu =
      rw (with_offset 0b111 (omega arith), compared unsigned_less) (next _ _ _, refl, refl, refl)
