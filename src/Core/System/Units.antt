-- ===== src/Core/System/Units.antt =====
-- The M extension's instructions that vsrc/src/controlunit.sv decodes, by the RISC-V manual.
use riscv_single_cycle_cpu.Base.{ℕ, ◌/◌, ◌%◌, ◌^◌, Bool, true, false}
use riscv_single_cycle_cpu.Core.Div.Quotient.{quotient, remainder}
use riscv_single_cycle_cpu.Core.Isa.Encoding.{fields}

pub data MulOp : Type 0 where
  mul mulw : MulOp

pub data DivOp : Type 0 where
  div divu rem remu divw divuw remw remuw : DivOp

abbrev pub encode_mul : MulOp → ℕ → ℕ → ℕ → ℕ
encode_mul mul rd rs1 rs2 = fields 0b0000001 rs2 rs1 0b000 rd 0b0110011
encode_mul mulw rd rs1 rs2 = fields 0b0000001 rs2 rs1 0b000 rd 0b0111011

abbrev pub encode_div : DivOp → ℕ → ℕ → ℕ → ℕ
encode_div div rd rs1 rs2 = fields 0b0000001 rs2 rs1 0b100 rd 0b0110011
encode_div divu rd rs1 rs2 = fields 0b0000001 rs2 rs1 0b101 rd 0b0110011
encode_div rem rd rs1 rs2 = fields 0b0000001 rs2 rs1 0b110 rd 0b0110011
encode_div remu rd rs1 rs2 = fields 0b0000001 rs2 rs1 0b111 rd 0b0110011
encode_div divw rd rs1 rs2 = fields 0b0000001 rs2 rs1 0b100 rd 0b0111011
encode_div divuw rd rs1 rs2 = fields 0b0000001 rs2 rs1 0b101 rd 0b0111011
encode_div remw rd rs1 rs2 = fields 0b0000001 rs2 rs1 0b110 rd 0b0111011
encode_div remuw rd rs1 rs2 = fields 0b0000001 rs2 rs1 0b111 rd 0b0111011

abbrev pub mul_word : MulOp → Bool
mul_word mul = false
mul_word mulw = true

abbrev pub div_signed : DivOp → Bool
div_signed div = true
div_signed divu = false
div_signed rem = true
div_signed remu = false
div_signed divw = true
div_signed divuw = false
div_signed remw = true
div_signed remuw = false

abbrev pub div_word : DivOp → Bool
div_word div = false
div_word divu = false
div_word rem = false
div_word remu = false
div_word _ = true

-- What an instruction writes.
abbrev pub divide : DivOp → ℕ → ℕ → ℕ
divide div x y = quotient false true x y
divide divu x y = quotient false false x y
divide rem x y = remainder false true x y
divide remu x y = remainder false false x y
divide divw x y = quotient true true x y
divide divuw x y = quotient true false x y
divide remw x y = remainder true true x y
divide remuw x y = remainder true false x y

-- the word of the divider's output that the instruction writes
abbrev pub half : DivOp → ℕ → ℕ
half rem c = c / 2 ^ 64
half remu c = c / 2 ^ 64
half remw c = c / 2 ^ 64
half remuw c = c / 2 ^ 64
half _ c = c % 2 ^ 64
