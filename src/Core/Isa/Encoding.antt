-- ===== src/Core/Isa/Encoding.antt =====
-- The encodings of the instructions, by the formats of the RISC-V manual.
use riscv_single_cycle_cpu.Base.{ℕ, ◌+◌, ◌*◌, ◌/◌, ◌%◌, ◌^◌, ◌<◌}
use riscv_single_cycle_cpu.Core.Isa.{
  RegOp, ImmOp, ShiftOp, BranchOp, Instr, add, sub, sll, slt, sltu, xor, srl, sra, or, and, addw,
  subw, sllw, srlw, sraw, addi, slti, sltiu, xori, ori, andi, addiw, slli, srli, srai, slliw, srliw,
  sraiw, beq, bne, blt, bge, bltu, bgeu, reg_op, imm_op, shift_op, lui, auipc, jal, jalr, branch,
}

-- the fields from bit 25, 20, 15, 12, 7 and 0 on
abbrev pub fields : ℕ → ℕ → ℕ → ℕ → ℕ → ℕ → ℕ
fields top r2 r1 funct3 low opcode =
    ((((top * 2 ^ 5 + r2) * 2 ^ 5 + r1) * 2 ^ 3 + funct3) * 2 ^ 5 + low) * 2 ^ 7 + opcode

abbrev pub encode_reg : RegOp → ℕ → ℕ → ℕ → ℕ
encode_reg add rd rs1 rs2 = fields 0b0000000 rs2 rs1 0b000 rd 0b0110011
encode_reg sub rd rs1 rs2 = fields 0b0100000 rs2 rs1 0b000 rd 0b0110011
encode_reg sll rd rs1 rs2 = fields 0b0000000 rs2 rs1 0b001 rd 0b0110011
encode_reg slt rd rs1 rs2 = fields 0b0000000 rs2 rs1 0b010 rd 0b0110011
encode_reg sltu rd rs1 rs2 = fields 0b0000000 rs2 rs1 0b011 rd 0b0110011
encode_reg xor rd rs1 rs2 = fields 0b0000000 rs2 rs1 0b100 rd 0b0110011
encode_reg srl rd rs1 rs2 = fields 0b0000000 rs2 rs1 0b101 rd 0b0110011
encode_reg sra rd rs1 rs2 = fields 0b0100000 rs2 rs1 0b101 rd 0b0110011
encode_reg or rd rs1 rs2 = fields 0b0000000 rs2 rs1 0b110 rd 0b0110011
encode_reg and rd rs1 rs2 = fields 0b0000000 rs2 rs1 0b111 rd 0b0110011
encode_reg addw rd rs1 rs2 = fields 0b0000000 rs2 rs1 0b000 rd 0b0111011
encode_reg subw rd rs1 rs2 = fields 0b0100000 rs2 rs1 0b000 rd 0b0111011
encode_reg sllw rd rs1 rs2 = fields 0b0000000 rs2 rs1 0b001 rd 0b0111011
encode_reg srlw rd rs1 rs2 = fields 0b0000000 rs2 rs1 0b101 rd 0b0111011
encode_reg sraw rd rs1 rs2 = fields 0b0100000 rs2 rs1 0b101 rd 0b0111011

abbrev pub funct3_imm : ImmOp → ℕ
funct3_imm addi = 0b000
funct3_imm slti = 0b010
funct3_imm sltiu = 0b011
funct3_imm xori = 0b100
funct3_imm ori = 0b110
funct3_imm andi = 0b111
funct3_imm addiw = 0b000

abbrev pub opcode_imm : ImmOp → ℕ
opcode_imm addiw = 0b0011011
opcode_imm _ = 0b0010011

-- The amount is 6 bits, or 5 in the 32-bit forms.
abbrev pub encode_shift : ShiftOp → ℕ → ℕ → ℕ → ℕ
encode_shift slli rd rs1 n = fields (n / 2 ^ 5) (n % 2 ^ 5) rs1 0b001 rd 0b0010011
encode_shift srli rd rs1 n = fields (n / 2 ^ 5) (n % 2 ^ 5) rs1 0b101 rd 0b0010011
encode_shift srai rd rs1 n = fields (0b0100000 + n / 2 ^ 5) (n % 2 ^ 5) rs1 0b101 rd 0b0010011
encode_shift slliw rd rs1 n = fields 0 n rs1 0b001 rd 0b0011011
encode_shift srliw rd rs1 n = fields 0 n rs1 0b101 rd 0b0011011
encode_shift sraiw rd rs1 n = fields 0b0100000 n rs1 0b101 rd 0b0011011

abbrev pub amount_bits : ShiftOp → ℕ
amount_bits slli = 6
amount_bits srli = 6
amount_bits srai = 6
amount_bits _ = 5

abbrev pub funct3_branch : BranchOp → ℕ
funct3_branch beq = 0b000
funct3_branch bne = 0b001
funct3_branch blt = 0b100
funct3_branch bge = 0b101
funct3_branch bltu = 0b110
funct3_branch bgeu = 0b111

abbrev pub encode : Instr → ℕ
encode (reg_op op rd rs1 rs2) = encode_reg op rd rs1 rs2
encode (imm_op op rd rs1 imm) =
    fields (imm / 2 ^ 5) (imm % 2 ^ 5) rs1 (funct3_imm op) rd (opcode_imm op)
encode (shift_op op rd rs1 n) = encode_shift op rd rs1 n
encode (lui rd imm) = (imm * 2 ^ 5 + rd) * 2 ^ 7 + 0b0110111
encode (auipc rd imm) = (imm * 2 ^ 5 + rd) * 2 ^ 7 + 0b0010111
encode (jal rd imm) =
    ((((imm / 2 ^ 19 * 2 ^ 10 + imm % 2 ^ 10) * 2 + imm / 2 ^ 10 % 2) * 2 ^ 8
            + imm / 2 ^ 11 % 2 ^ 8)
          * 2 ^ 5
        + rd)
      * 2 ^ 7
    + 0b1101111
encode (jalr rd rs1 imm) = fields (imm / 2 ^ 5) (imm % 2 ^ 5) rs1 0b000 rd 0b1100111
encode (branch op rs1 rs2 imm) =
    fields (imm / 2 ^ 11 * 2 ^ 6 + imm / 2 ^ 4 % 2 ^ 6) rs2 rs1 (funct3_branch op)
      (imm % 2 ^ 4 * 2 + imm / 2 ^ 10 % 2) 0b1100011

-- The fields fit their bits.
abbrev pub IsEncodable : Instr → Type 0
IsEncodable (reg_op op rd rs1 rs2) = (rd < 32) × (rs1 < 32) × (rs2 < 32)
IsEncodable (imm_op op rd rs1 imm) = (rd < 32) × (rs1 < 32) × (imm < 2 ^ 12)
IsEncodable (shift_op op rd rs1 n) = (rd < 32) × (rs1 < 32) × (n < 2 ^ amount_bits op)
IsEncodable (lui rd imm) = (rd < 32) × (imm < 2 ^ 20)
IsEncodable (auipc rd imm) = (rd < 32) × (imm < 2 ^ 20)
IsEncodable (jal rd imm) = (rd < 32) × (imm < 2 ^ 20)
IsEncodable (jalr rd rs1 imm) = (rd < 32) × (rs1 < 32) × (imm < 2 ^ 12)
IsEncodable (branch op rs1 rs2 imm) = (rs1 < 32) × (rs2 < 32) × (imm < 2 ^ 12)
