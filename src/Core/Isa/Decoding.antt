-- ===== src/Core/Isa/Decoding.antt =====
-- vsrc/src/decode.sv reads back the fields of every encoding.
use riscv_single_cycle_cpu.Base.{
  ℕ, ◌+◌, ◌*◌, ◌/◌, ◌%◌, ◌^◌, ◌<◌, ◌≡◌, refl, arith, false, ◌⊎◌, inl, inr, ◌==◌,
}
use riscv_single_cycle_cpu.Core.Decode.{Decoded, decode, bits, sext}
use riscv_single_cycle_cpu.Core.Isa.{signed_field, jal}
use riscv_single_cycle_cpu.Core.Isa.Encoding.{encode}
use riscv_single_cycle_cpu.Core.Isa.Fields.{Fields}

abbrev pub decoded : ℕ → ℕ → ℕ → ℕ → ℕ → ℕ → ℕ → Decoded
decoded rs1 rs2 rd sextimm opcode func3 func7 = record {
  rs1 = rs1;
  rs2 = rs2;
  rd = rd;
  sextimm = sextimm;
  opcode = opcode;
  func3 = func3;
  func7 = func7;
}

pub sext12 : (x : ℕ) → x < 2 ^ 12 → sext 12 x ≡ signed_field 12 x
sext12 x h = ground arith

pub sext13 : (x : ℕ) → x < 2 ^ 13 → sext 13 x ≡ signed_field 13 x
sext13 x h = ground arith

pub sext21 : (x : ℕ) → x < 2 ^ 21 → sext 21 x ≡ signed_field 21 x
sext21 x h = ground arith

pub sext32 : (x : ℕ) → x < 2 ^ 32 → sext 32 x ≡ signed_field 32 x
sext32 x h = ground arith

module _ {top r2 r1 funct3 low word : ℕ} where
  pub decode_reg :
      Fields top r2 r1 funct3 low 0b0110011 word
      → decode word ≡ decoded r1 r2 low 0 0b0110011 funct3 top
  unfolding decode
  decode_reg f = rw (f.opcode_of, f.low_of, f.funct3_of, f.r1_of, f.r2_of, f.top_of) refl

  pub decode_reg_word :
      Fields top r2 r1 funct3 low 0b0111011 word
      → decode word ≡ decoded r1 r2 low 0 0b0111011 funct3 top
  unfolding decode
  decode_reg_word f = rw (f.opcode_of, f.low_of, f.funct3_of, f.r1_of, f.r2_of, f.top_of) refl

  pub decode_branch :
      Fields top r2 r1 funct3 low 0b1100011 word
      → (imm : ℕ) → imm < 2 ^ 12
      → top ≡ imm / 2 ^ 11 * 2 ^ 6 + imm / 2 ^ 4 % 2 ^ 6
      → low ≡ imm % 2 ^ 4 * 2 + imm / 2 ^ 10 % 2
      → decode word ≡ decoded r1 r2 0 (signed_field 13 (imm * 2)) 0b1100011 funct3 0b1111111
  unfolding decode
  decode_branch f imm h et el =
      let pieces : top / 2 ^ 6 * 2 ^ 12 + low % 2 * 2 ^ 11 + top % 2 ^ 6 * 2 ^ 5 + low / 2 * 2
          ≡ imm * 2 =
        rw (et, el) (omega arith) in
      rw
        (
          f.opcode_of,
          f.funct3_of,
          f.r1_of,
          f.r2_of,
          f.sign_of,
          f.bit7_of,
          f.middle_of,
          f.end_of,
          pieces,
          sext13 (imm * 2) (omega arith),
        )
        refl

  pub decode_jalr :
      Fields top r2 r1 funct3 low 0b1100111 word
      → (imm : ℕ) → imm < 2 ^ 12
      → top * 2 ^ 5 + r2 ≡ imm
      → decode word ≡ decoded r1 0 low (signed_field 12 imm) 0b1100111 funct3 0b1111111
  unfolding decode
  decode_jalr f imm h e =
      rw (f.opcode_of, f.low_of, f.funct3_of, f.r1_of, f.imm_of, e, sext12 imm h) refl

  pub decode_imm :
      Fields top r2 r1 funct3 low 0b0010011 word
      → (imm : ℕ) → imm < 2 ^ 12
      → top * 2 ^ 5 + r2 ≡ imm
      → (funct3 == 0b001) ≡ false
      → (funct3 == 0b101) ≡ false
      → decode word ≡ decoded r1 0 low (signed_field 12 imm) 0b0010011 funct3 0b1111111
  unfolding decode
  decode_imm f imm h e ne ne' =
      rw (f.opcode_of, f.low_of, f.funct3_of, ne, ne', f.r1_of, f.imm_of, e, sext12 imm h) refl

  pub decode_shift :
      Fields top r2 r1 funct3 low 0b0010011 word
      → (amount : ℕ) → top % 2 * 2 ^ 5 + r2 ≡ amount
      → (funct3 ≡ 0b001) ⊎ (funct3 ≡ 0b101)
      → decode word ≡ decoded r1 0 low amount 0b0010011 funct3 (top / 2 * 2)
  unfolding decode
  decode_shift f amount e (inl k) =
      rw (f.opcode_of, f.low_of, f.funct3_of, k, f.r1_of, f.amount_of, f.funct6_of, e) refl
  decode_shift f amount e (inr k) =
      rw (f.opcode_of, f.low_of, f.funct3_of, k, f.r1_of, f.amount_of, f.funct6_of, e) refl

  pub decode_imm_word :
      Fields top r2 r1 funct3 low 0b0011011 word
      → (imm : ℕ) → imm < 2 ^ 12
      → top * 2 ^ 5 + r2 ≡ imm
      → (funct3 == 0b001) ≡ false
      → (funct3 == 0b101) ≡ false
      → decode word ≡ decoded r1 0 low (signed_field 12 imm) 0b0011011 funct3 0b1111111
  unfolding decode
  decode_imm_word f imm h e ne ne' =
      rw (f.opcode_of, f.low_of, f.funct3_of, ne, ne', f.r1_of, f.imm_of, e, sext12 imm h) refl

  pub decode_shift_word :
      Fields top r2 r1 funct3 low 0b0011011 word
      → (amount : ℕ) → top % 2 * 2 ^ 5 + r2 ≡ amount
      → (funct3 ≡ 0b001) ⊎ (funct3 ≡ 0b101)
      → decode word ≡ decoded r1 0 low amount 0b0011011 funct3 (top / 2 * 2)
  unfolding decode
  decode_shift_word f amount e (inl k) =
      rw (f.opcode_of, f.low_of, f.funct3_of, k, f.r1_of, f.amount_of, f.funct6_of, e) refl
  decode_shift_word f amount e (inr k) =
      rw (f.opcode_of, f.low_of, f.funct3_of, k, f.r1_of, f.amount_of, f.funct6_of, e) refl

  pub decode_load :
      Fields top r2 r1 funct3 low 0b0000011 word
      → (imm : ℕ) → imm < 2 ^ 12
      → top * 2 ^ 5 + r2 ≡ imm
      → decode word ≡ decoded r1 0 low (signed_field 12 imm) 0b0000011 funct3 0b1111111
  unfolding decode
  decode_load f imm h e =
      rw (f.opcode_of, f.low_of, f.funct3_of, f.r1_of, f.imm_of, e, sext12 imm h) refl

  pub decode_store :
      Fields top r2 r1 funct3 low 0b0100011 word
      → (imm : ℕ) → imm < 2 ^ 12
      → top * 2 ^ 5 + low ≡ imm
      → decode word ≡ decoded r1 r2 0 (signed_field 12 imm) 0b0100011 funct3 0b1111111
  unfolding decode
  decode_store f imm h e =
      rw (f.opcode_of, f.low_of, f.funct3_of, f.r1_of, f.r2_of, f.top_of, e, sext12 imm h) refl

pub decode_lui :
    (rd imm : ℕ)
    → rd < 32
    → imm < 2 ^ 20
    → decode ((imm * 2 ^ 5 + rd) * 2 ^ 7 + 0b0110111)
      ≡ decoded 0 0 rd (signed_field 32 (imm * 2 ^ 12)) 0b0110111 0b111 0b1111111
unfolding decode
decode_lui rd imm hr h =
    let word = (imm * 2 ^ 5 + rd) * 2 ^ 7 + 0b0110111 in
    let opcode_of : bits 0 7 word ≡ 0b0110111 = omega arith in
    let low_of : bits 7 5 word ≡ rd = omega arith in
    let imm_of : bits 12 20 word ≡ imm = omega arith in
    rw (opcode_of, low_of, imm_of, sext32 (imm * 2 ^ 12) (omega arith)) refl

pub decode_auipc :
    (rd imm : ℕ)
    → rd < 32
    → imm < 2 ^ 20
    → decode ((imm * 2 ^ 5 + rd) * 2 ^ 7 + 0b0010111)
      ≡ decoded 0 0 rd (signed_field 32 (imm * 2 ^ 12)) 0b0010111 0b111 0b1111111
unfolding decode
decode_auipc rd imm hr h =
    let word = (imm * 2 ^ 5 + rd) * 2 ^ 7 + 0b0010111 in
    let opcode_of : bits 0 7 word ≡ 0b0010111 = omega arith in
    let low_of : bits 7 5 word ≡ rd = omega arith in
    let imm_of : bits 12 20 word ≡ imm = omega arith in
    rw (opcode_of, low_of, imm_of, sext32 (imm * 2 ^ 12) (omega arith)) refl

pub decode_jal :
    (rd imm : ℕ)
    → rd < 32
    → imm < 2 ^ 20
    → decode (encode (jal rd imm))
      ≡ decoded 0 0 rd (signed_field 21 (imm * 2)) 0b1101111 0b111 0b1111111
unfolding decode
decode_jal rd imm hr h =
    let word = encode (jal rd imm) in
    let opcode_of : bits 0 7 word ≡ 0b1101111 = omega arith in
    let low_of : bits 7 5 word ≡ rd = omega arith in
    let sign_of : bits 31 1 word ≡ imm / 2 ^ 19 = omega arith in
    let high_of : bits 12 8 word ≡ imm / 2 ^ 11 % 2 ^ 8 = omega arith in
    let bit_of : bits 20 1 word ≡ imm / 2 ^ 10 % 2 = omega arith in
    let rest_of : bits 21 10 word ≡ imm % 2 ^ 10 = omega arith in
    let pieces : imm / 2 ^ 19 * 2 ^ 20
          + imm / 2 ^ 11 % 2 ^ 8 * 2 ^ 12
          + imm / 2 ^ 10 % 2 * 2 ^ 11
          + imm % 2 ^ 10 * 2
        ≡ imm * 2 =
      omega arith in
    rw
      (opcode_of, low_of, sign_of, high_of, bit_of, rest_of, pieces, sext21 (imm * 2) (omega arith))
      refl
