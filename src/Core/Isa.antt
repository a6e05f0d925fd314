-- ===== src/Core/Isa.antt =====
-- The instructions that vsrc/src/decode.sv and vsrc/src/controlunit.sv name in their comments, by
-- the RISC-V manual: their encodings and what they do.
pub mod Encoding
pub mod Fields
pub mod Decoding
pub mod Retire
pub mod Operations
pub mod Jumps
pub mod Words
pub mod Refinement
pub mod Accesses
pub mod Memory
use riscv_single_cycle_cpu.Base.{
  ℕ, ◌+◌, ◌-◌, ◌*◌, ◌/◌, ◌%◌, ◌^◌, ◌<◌, add64, sub64, shl64, shr, bit_and, bit_or, bit_xor, Bool,
  true, false, not, ◌==◌, ltb, leb, if◌then◌else◌,
}
use riscv_single_cycle_cpu.Core.Signals.{sign_extend32}
use riscv_single_cycle_cpu.Core.Alu.{signed_lt, shift_arithmetic, one_if}
use riscv_single_cycle_cpu.Core.Datapath.{read_reg, write_reg}

pub data RegOp : Type 0 where
  add sub sll slt sltu xor srl sra or and : RegOp
  addw subw sllw srlw sraw : RegOp

pub data ImmOp : Type 0 where
  addi slti sltiu xori ori andi addiw : ImmOp

pub data ShiftOp : Type 0 where
  slli srli srai slliw srliw sraiw : ShiftOp

pub data BranchOp : Type 0 where
  beq bne blt bge bltu bgeu : BranchOp

-- Registers are numbers below 32; a branch's and a jump's immediate is half the offset.
pub data Instr : Type 0 where
  reg_op : RegOp → (rd rs1 rs2 : ℕ) → Instr
  imm_op : ImmOp → (rd rs1 imm : ℕ) → Instr
  shift_op : ShiftOp → (rd rs1 amount : ℕ) → Instr
  lui auipc : (rd imm : ℕ) → Instr
  jal : (rd imm : ℕ) → Instr
  jalr : (rd rs1 imm : ℕ) → Instr
  branch : BranchOp → (rs1 rs2 imm : ℕ) → Instr

-- What a two-operand instruction computes.
abbrev pub compute : RegOp → ℕ → ℕ → ℕ
compute add x y = add64 x y
compute sub x y = sub64 x y
compute sll x y = shl64 x (y % 64)
compute slt x y = one_if (signed_lt x y)
compute sltu x y = one_if (ltb x y)
compute xor x y = bit_xor x y
compute srl x y = shr x (y % 64)
compute sra x y = shift_arithmetic x (y % 64)
compute or x y = bit_or x y
compute and x y = bit_and x y
compute addw x y = sign_extend32 (add64 x y)
compute subw x y = sign_extend32 (sub64 x y)
compute sllw x y = sign_extend32 (shl64 x (y % 32))
compute srlw x y = sign_extend32 (shr (x % 2 ^ 32) (y % 32))
compute sraw x y = shift_arithmetic (sign_extend32 x) (y % 32)

abbrev pub imm_op_reg : ImmOp → RegOp
imm_op_reg addi = add
imm_op_reg slti = slt
imm_op_reg sltiu = sltu
imm_op_reg xori = xor
imm_op_reg ori = or
imm_op_reg andi = and
imm_op_reg addiw = addw

abbrev pub shift_op_reg : ShiftOp → RegOp
shift_op_reg slli = sll
shift_op_reg srli = srl
shift_op_reg srai = sra
shift_op_reg slliw = sllw
shift_op_reg srliw = srlw
shift_op_reg sraiw = sraw

abbrev pub taken : BranchOp → ℕ → ℕ → Bool
taken beq x y = x == y
taken bne x y = not (x == y)
taken blt x y = signed_lt x y
taken bge x y = not (signed_lt x y)
taken bltu x y = ltb x y
taken bgeu x y = not (ltb x y)

-- The value of a field of `width` bits in two's complement, as 64 bits.
abbrev pub signed_field : ℕ → ℕ → ℕ
signed_field width x = if leb (2 ^ (width - 1)) x then x + 2 ^ 64 - 2 ^ width else x

-- What an instruction leaves in the program counter and in the registers.
abbrev pub execute : Instr → ℕ → (ℕ → ℕ) → ℕ × (ℕ → ℕ)
execute (reg_op op rd rs1 rs2) pc regs =
    (add64 pc 4, write_reg regs rd (compute op (read_reg regs rs1) (read_reg regs rs2)))
execute (imm_op op rd rs1 imm) pc regs = (
  add64 pc 4,
  write_reg regs rd (compute (imm_op_reg op) (read_reg regs rs1) (signed_field 12 imm)),
)
execute (shift_op op rd rs1 amount) pc regs =
    (add64 pc 4, write_reg regs rd (compute (shift_op_reg op) (read_reg regs rs1) amount))
execute (lui rd imm) pc regs = (add64 pc 4, write_reg regs rd (signed_field 32 (imm * 2 ^ 12)))
execute (auipc rd imm) pc regs =
    (add64 pc 4, write_reg regs rd (add64 pc (signed_field 32 (imm * 2 ^ 12))))
execute (jal rd imm) pc regs =
    (add64 pc (signed_field 21 (imm * 2)), write_reg regs rd (add64 pc 4))
execute (jalr rd rs1 imm) pc regs =
    (add64 (read_reg regs rs1) (signed_field 12 imm) / 2 * 2, write_reg regs rd (add64 pc 4))
execute (branch op rs1 rs2 imm) pc regs = (
  add64 pc
      (if taken op (read_reg regs rs1) (read_reg regs rs2) then signed_field 13 (imm * 2) else 4),
  regs,
)
