-- ===== src/Core/Isa/Operations.antt =====
-- The instructions of vsrc/src/controlunit.sv that compute a value in vsrc/src/alu.sv retire.
use riscv_single_cycle_cpu.Base.{
  ℕ, ◌+◌, ◌*◌, ◌/◌, ◌%◌, ◌^◌, ◌<◌, ◌≡◌, refl, arith, false, ◌==◌, ◌⊎◌, inl, inr,
}
use riscv_single_cycle_cpu.Core.Decode.{decode}
use riscv_single_cycle_cpu.Core.Control.{control}
use riscv_single_cycle_cpu.Core.Alu.{alu}
use riscv_single_cycle_cpu.Core.Datapath.{Core, wires, clock}
use riscv_single_cycle_cpu.Core.Isa.{
  RegOp, ImmOp, ShiftOp, add, sub, sll, slt, sltu, xor, srl, sra, or, and, addw, subw, sllw, srlw,
  sraw, addi, slti, sltiu, xori, ori, andi, addiw, slli, srli, srai, slliw, srliw, sraiw, reg_op,
  imm_op, shift_op, signed_field,
}
use riscv_single_cycle_cpu.Core.Isa.Encoding.{fields, amount_bits}
use riscv_single_cycle_cpu.Core.Isa.Fields.{fields-Fields}
use riscv_single_cycle_cpu.Core.Isa.Decoding.{
  decoded, decode_reg, decode_reg_word, decode_imm, decode_imm_word, decode_shift,
  decode_shift_word,
}
use riscv_single_cycle_cpu.Core.Isa.Retire.{Retires}

module _ (rd rs1 rs2 : ℕ) (h : rd < 32) (h1 : rs1 < 32) (h2 : rs2 < 32) where
  plain :
      (top funct3 : ℕ)
      → top < 128
      → funct3 < 8
      → decode (fields top rs2 rs1 funct3 rd 0b0110011) ≡ decoded rs1 rs2 rd 0 0b0110011 funct3 top
  plain top funct3 ht h3 =
      decode_reg (fields-Fields top rs2 rs1 funct3 rd _ ht h2 h1 h3 h (omega arith))

  plain_word :
      (top funct3 : ℕ)
      → top < 128
      → funct3 < 8
      → decode (fields top rs2 rs1 funct3 rd 0b0111011) ≡ decoded rs1 rs2 rd 0 0b0111011 funct3 top
  plain_word top funct3 ht h3 =
      decode_reg_word (fields-Fields top rs2 rs1 funct3 rd _ ht h2 h1 h3 h (omega arith))

  pub reg_op-Retires :
      (s : Core) → s.held.branch ≡ false → (op : RegOp) → Retires (reg_op op rd rs1 rs2) s
  unfolding clock wires control alu
  reg_op-Retires s idle add =
      rw (plain 0b0000000 0b000 (omega arith) (omega arith), idle) (refl, refl, refl, refl)
  reg_op-Retires s idle sub =
      rw (plain 0b0100000 0b000 (omega arith) (omega arith), idle) (refl, refl, refl, refl)
  reg_op-Retires s idle sll =
      rw (plain 0b0000000 0b001 (omega arith) (omega arith), idle) (refl, refl, refl, refl)
  reg_op-Retires s idle slt =
      rw (plain 0b0000000 0b010 (omega arith) (omega arith), idle) (refl, refl, refl, refl)
  reg_op-Retires s idle sltu =
      rw (plain 0b0000000 0b011 (omega arith) (omega arith), idle) (refl, refl, refl, refl)
  reg_op-Retires s idle xor =
      rw (plain 0b0000000 0b100 (omega arith) (omega arith), idle) (refl, refl, refl, refl)
  reg_op-Retires s idle srl =
      rw (plain 0b0000000 0b101 (omega arith) (omega arith), idle) (refl, refl, refl, refl)
  reg_op-Retires s idle sra =
      rw (plain 0b0100000 0b101 (omega arith) (omega arith), idle) (refl, refl, refl, refl)
  reg_op-Retires s idle or =
      rw (plain 0b0000000 0b110 (omega arith) (omega arith), idle) (refl, refl, refl, refl)
  reg_op-Retires s idle and =
      rw (plain 0b0000000 0b111 (omega arith) (omega arith), idle) (refl, refl, refl, refl)
  reg_op-Retires s idle addw =
      rw (plain_word 0b0000000 0b000 (omega arith) (omega arith)) (refl, refl, refl, refl)
  reg_op-Retires s idle subw =
      rw (plain_word 0b0100000 0b000 (omega arith) (omega arith)) (refl, refl, refl, refl)
  reg_op-Retires s idle sllw =
      rw (plain_word 0b0000000 0b001 (omega arith) (omega arith)) (refl, refl, refl, refl)
  reg_op-Retires s idle srlw =
      rw (plain_word 0b0000000 0b101 (omega arith) (omega arith)) (refl, refl, refl, refl)
  reg_op-Retires s idle sraw =
      rw (plain_word 0b0100000 0b101 (omega arith) (omega arith)) (refl, refl, refl, refl)

module _ (rd rs1 : ℕ) (h : rd < 32) (h1 : rs1 < 32) where
  with_imm :
      (imm funct3 : ℕ)
      → imm < 2 ^ 12
      → funct3 < 8
      → (funct3 == 0b001) ≡ false
      → (funct3 == 0b101) ≡ false
      → decode (fields (imm / 2 ^ 5) (imm % 2 ^ 5) rs1 funct3 rd 0b0010011)
        ≡ decoded rs1 0 rd (signed_field 12 imm) 0b0010011 funct3 0b1111111
  with_imm imm funct3 hi h3 e e' =
      decode_imm
        (fields-Fields _ _ rs1 funct3 rd _ (omega arith) (omega arith) h1 h3 h (omega arith)) imm hi
        (omega arith) e e'

  with_amount :
      (top amount funct3 : ℕ)
      → top < 2 ^ 7
      → top % 2 ≡ amount / 2 ^ 5
      → funct3 < 8
      → (funct3 ≡ 0b001) ⊎ (funct3 ≡ 0b101)
      → decode (fields top (amount % 2 ^ 5) rs1 funct3 rd 0b0010011)
        ≡ decoded rs1 0 rd amount 0b0010011 funct3 (top / 2 * 2)
  with_amount top amount funct3 ht e h3 k =
      decode_shift (fields-Fields top _ rs1 funct3 rd _ ht (omega arith) h1 h3 h (omega arith))
        amount (omega arith) k

  with_amount_word :
      (top amount funct3 : ℕ)
      → top < 2 ^ 7
      → top % 2 ≡ 0
      → amount < 2 ^ 5
      → funct3 < 8
      → (funct3 ≡ 0b001) ⊎ (funct3 ≡ 0b101)
      → decode (fields top amount rs1 funct3 rd 0b0011011)
        ≡ decoded rs1 0 rd amount 0b0011011 funct3 (top / 2 * 2)
  with_amount_word top amount funct3 ht e ha h3 k =
      decode_shift_word (fields-Fields top _ rs1 funct3 rd _ ht (omega arith) h1 h3 h (omega arith))
        amount (omega arith) k

  pub imm_op-Retires :
      (s : Core) (op : ImmOp) (imm : ℕ) → imm < 2 ^ 12 → Retires (imm_op op rd rs1 imm) s
  unfolding clock wires control alu
  imm_op-Retires s addi imm hi =
      rw (with_imm imm 0b000 hi (omega arith) refl refl) (refl, refl, refl, refl)
  imm_op-Retires s slti imm hi =
      rw (with_imm imm 0b010 hi (omega arith) refl refl) (refl, refl, refl, refl)
  imm_op-Retires s sltiu imm hi =
      rw (with_imm imm 0b011 hi (omega arith) refl refl) (refl, refl, refl, refl)
  imm_op-Retires s xori imm hi =
      rw (with_imm imm 0b100 hi (omega arith) refl refl) (refl, refl, refl, refl)
  imm_op-Retires s ori imm hi =
      rw (with_imm imm 0b110 hi (omega arith) refl refl) (refl, refl, refl, refl)
  imm_op-Retires s andi imm hi =
      rw (with_imm imm 0b111 hi (omega arith) refl refl) (refl, refl, refl, refl)
  imm_op-Retires s addiw imm hi =
      rw
        (decode_imm_word
          (fields-Fields (imm / 2 ^ 5) (imm % 2 ^ 5) rs1 0b000 rd _ (omega arith) (omega arith) h1
            (omega arith) h (omega arith))
          imm hi (omega arith) refl refl)
        (refl, refl, refl, refl)

  pub shift_op-Retires :
      (s : Core) (op : ShiftOp) (n : ℕ) → n < 2 ^ amount_bits op → Retires (shift_op op rd rs1 n) s
  unfolding clock wires control alu
  shift_op-Retires s slli n hn =
      rw (with_amount (n / 2 ^ 5) n 0b001 (omega arith) (omega arith) (omega arith) (inl refl))
        (refl, refl, refl, refl)
  shift_op-Retires s srli n hn =
      let funct7 : (n / 2 ^ 5) / 2 * 2 ≡ 0 = omega arith in
      rw
        (
          with_amount (n / 2 ^ 5) n 0b101 (omega arith) (omega arith) (omega arith) (inr refl),
          funct7,
        )
        (refl, refl, refl, refl)
  shift_op-Retires s srai n hn =
      let funct7 : (0b0100000 + n / 2 ^ 5) / 2 * 2 ≡ 32 = omega arith in
      rw
        (
          with_amount (0b0100000 + n / 2 ^ 5) n 0b101 (omega arith) (omega arith) (omega arith)
              (inr refl),
          funct7,
        )
        (refl, refl, refl, refl)
  shift_op-Retires s slliw n hn =
      rw (with_amount_word 0 n 0b001 (omega arith) refl hn (omega arith) (inl refl))
        (refl, refl, refl, refl)
  shift_op-Retires s srliw n hn =
      rw (with_amount_word 0 n 0b101 (omega arith) refl hn (omega arith) (inr refl))
        (refl, refl, refl, refl)
  shift_op-Retires s sraiw n hn =
      rw (with_amount_word 0b0100000 n 0b101 (omega arith) refl hn (omega arith) (inr refl))
        (refl, refl, refl, refl)
