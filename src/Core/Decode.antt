-- ===== src/Core/Decode.antt =====
-- The instruction decoder, vsrc/src/decode.sv.
use riscv_single_cycle_cpu.Base.{ℕ, ◌+◌, ◌-◌, ◌*◌, ◌/◌, ◌%◌, ◌^◌, ◌==◌, if◌then◌else◌}
use riscv_single_cycle_cpu.Core.Signals.{is_set}

-- `x[low + width - 1 : low]`
abbrev pub bits : ℕ → ℕ → ℕ → ℕ
bits low width x = x / 2 ^ low % 2 ^ width

-- an immediate whose bit `width - 1` fills the bits above it
abbrev pub sext : ℕ → ℕ → ℕ
sext width immediate =
    if is_set (width - 1) immediate
    then (2 ^ (64 - width) - 1) * 2 ^ width + immediate % 2 ^ width
    else immediate

pub record Decoded : Type 0 where
  pub rs1 : ℕ
  pub rs2 : ℕ
  pub rd : ℕ
  pub sextimm : ℕ
  pub opcode : ℕ
  pub func3 : ℕ
  pub func7 : ℕ

-- `7'b0000011`, `7'b1100111`, and the others with an immediate of 12 bits in one piece
i_type : ℕ → Decoded
i_type instr = record {
  rs1 = bits 15 5 instr;
  rs2 = 0b00000;
  rd = bits 7 5 instr;
  sextimm = sext 12 (bits 20 12 instr);
  opcode = bits 0 7 instr;
  func3 = bits 12 3 instr;
  func7 = 0b1111111;
}

-- the shifts by an immediate, whose amount is 6 bits
shift_type : ℕ → Decoded
unfolding i_type
shift_type instr = record (i_type instr) { func7 = bits 26 6 instr * 2; sextimm = bits 20 6 instr }

-- `7'b0010111` and `7'b0110111`
u_type : ℕ → Decoded
u_type instr = record {
  rs1 = 0b00000;
  rs2 = 0b00000;
  rd = bits 7 5 instr;
  sextimm = sext 32 (bits 12 20 instr * 2 ^ 12);
  opcode = bits 0 7 instr;
  func3 = 0b111;
  func7 = 0b1111111;
}

-- `7'b0110011` and `7'b0111011`
r_type : ℕ → Decoded
r_type instr = record {
  rs1 = bits 15 5 instr;
  rs2 = bits 20 5 instr;
  rd = bits 7 5 instr;
  sextimm = 0;
  opcode = bits 0 7 instr;
  func3 = bits 12 3 instr;
  func7 = bits 25 7 instr;
}

-- `7'b0100011`
s_type : ℕ → Decoded
s_type instr = record {
  rs1 = bits 15 5 instr;
  rs2 = bits 20 5 instr;
  rd = 0b00000;
  sextimm = sext 12 (bits 25 7 instr * 2 ^ 5 + bits 7 5 instr);
  opcode = bits 0 7 instr;
  func3 = bits 12 3 instr;
  func7 = 0b1111111;
}

-- `7'b1100011`
b_type : ℕ → Decoded
b_type instr = record {
  rs1 = bits 15 5 instr;
  rs2 = bits 20 5 instr;
  rd = 0b00000;
  sextimm = sext 13 (
      bits 31 1 instr * 2 ^ 12
      + bits 7 1 instr * 2 ^ 11
      + bits 25 6 instr * 2 ^ 5
      + bits 8 4 instr * 2);
  opcode = bits 0 7 instr;
  func3 = bits 12 3 instr;
  func7 = 0b1111111;
}

-- `7'b1101111`
j_type : ℕ → Decoded
j_type instr = record {
  rs1 = 0b00000;
  rs2 = 0b00000;
  rd = bits 7 5 instr;
  sextimm = sext 21 (
      bits 31 1 instr * 2 ^ 20
      + bits 12 8 instr * 2 ^ 12
      + bits 20 1 instr * 2 ^ 11
      + bits 21 10 instr * 2);
  opcode = bits 0 7 instr;
  func3 = 0b111;
  func7 = 0b1111111;
}

unknown : ℕ → Decoded
unknown instr = record {
  rs1 = 0b00000;
  rs2 = 0b00000;
  rd = 0b00000;
  sextimm = 0;
  opcode = bits 0 7 instr;
  func3 = 0b111;
  func7 = 0b1111111;
}

-- `case (func3)` of `7'b0010011` and `7'b0011011`
immediate_type : ℕ → Decoded
unfolding i_type shift_type
immediate_type instr =
    let func3 = bits 12 3 instr in
    if func3 == 0b001
    then shift_type instr
    else if func3 == 0b101
    then shift_type instr
    else i_type instr

unfoldable pub decode : ℕ → Decoded
unfolding i_type shift_type u_type r_type s_type b_type j_type unknown immediate_type
decode instr =
    let opcode = bits 0 7 instr in
    if opcode == 0b0000011
    then i_type instr
    else if opcode == 0b0010011
    then immediate_type instr
    else if opcode == 0b0010111
    then u_type instr
    else if opcode == 0b0011011
    then immediate_type instr
    else if opcode == 0b0100011
    then s_type instr
    else if opcode == 0b0110011
    then r_type instr
    else if opcode == 0b0110111
    then u_type instr
    else if opcode == 0b0111011
    then r_type instr
    else if opcode == 0b1100011
    then b_type instr
    else if opcode == 0b1100111
    then i_type instr
    else if opcode == 0b1101111
    then j_type instr
    else unknown instr
