-- ===== src/Core/Isa/Fields.antt =====
-- The fields of an instruction word, read back.
use riscv_single_cycle_cpu.Base.{ℕ, ◌+◌, ◌*◌, ◌/◌, ◌%◌, ◌^◌, ◌<◌, ◌≡◌, arith}
use riscv_single_cycle_cpu.Core.Decode.{bits}
use riscv_single_cycle_cpu.Core.Isa.Encoding.{fields}

pub record Fields (top r2 r1 funct3 low opcode word : ℕ) : Type 0 where
  pub opcode_of : bits 0 7 word ≡ opcode
  pub low_of : bits 7 5 word ≡ low
  pub funct3_of : bits 12 3 word ≡ funct3
  pub r1_of : bits 15 5 word ≡ r1
  pub r2_of : bits 20 5 word ≡ r2
  pub top_of : bits 25 7 word ≡ top
  pub imm_of : bits 20 12 word ≡ top * 2 ^ 5 + r2
  pub amount_of : bits 20 6 word ≡ top % 2 * 2 ^ 5 + r2
  pub funct6_of : bits 26 6 word ≡ top / 2
  pub sign_of : bits 31 1 word ≡ top / 2 ^ 6
  pub bit7_of : bits 7 1 word ≡ low % 2
  pub middle_of : bits 25 6 word ≡ top % 2 ^ 6
  pub end_of : bits 8 4 word ≡ low / 2

pub fields-Fields :
    (top r2 r1 funct3 low opcode : ℕ)
    → top < 128
    → r2 < 32
    → r1 < 32
    → funct3 < 8
    → low < 32
    → opcode < 128
    → Fields top r2 r1 funct3 low opcode (fields top r2 r1 funct3 low opcode)
fields-Fields top r2 r1 funct3 low opcode ht h2 h1 h3 hl ho = record {
  opcode_of = omega arith;
  low_of = omega arith;
  funct3_of = omega arith;
  r1_of = omega arith;
  r2_of = omega arith;
  top_of = omega arith;
  imm_of = omega arith;
  amount_of = omega arith;
  funct6_of = omega arith;
  sign_of = omega arith;
  bit7_of = omega arith;
  middle_of = omega arith;
  end_of = omega arith;
}
