-- ===== src/Core/System/Requests.antt =====
-- The signals that vsrc/src/controlunit.sv gives the multiplier and the divider while an
-- instruction of the M extension is in the core.
use riscv_single_cycle_cpu.Base.{
  ℕ, ◌/◌, ◌%◌, ◌^◌, ◌<◌, ◌≡◌, refl, arith, Bool, true, false, add64, not, ◌&&◌, ◌==◌, ◌||◌,
  if◌then◌else◌,
}
use riscv_single_cycle_cpu.Core.Control.{Control, control}
use riscv_single_cycle_cpu.Core.Decode.{decode}
use riscv_single_cycle_cpu.Core.Datapath.{Core, Pins, wires, read_reg, mux8}
use riscv_single_cycle_cpu.Core.Isa.Encoding.{fields}
use riscv_single_cycle_cpu.Core.Isa.Fields.{fields-Fields}
use riscv_single_cycle_cpu.Core.Isa.Decoding.{decoded, decode_reg, decode_reg_word}
use riscv_single_cycle_cpu.Core.System.Units.{
  MulOp, mul, mulw, DivOp, div, divu, rem, remu, divw, divuw, remw, remuw, encode_mul, encode_div,
  mul_word, div_signed, div_word, half,
}

-- The wires while such an instruction is in the core: the unit has its operands, nothing else is
-- requested, and the core moves on when a unit is done.
pub record Requested (is_mul s w : Bool) (result : ℕ → ℕ → ℕ) (rd rs1 rs2 word : ℕ) (p : Pins)
    (c : Core) : Type 0 where
  pub instr_is : (wires p c).instr ≡ word
  pub alua_is : (wires p c).alua ≡ read_reg c.regs rs1
  pub alub_is : (wires p c).alub ≡ read_reg c.regs rs2
  pub mul_valid_is : (wires p c).c.mul_valid ≡ is_mul
  pub div_valid_is : (wires p c).c.div_valid ≡ not is_mul
  pub sign_is : (if is_mul then (wires p c).c.mul_sign else (wires p c).c.div_sign) ≡ s
  pub w_is : (if is_mul then (wires p c).c.mul_w else (wires p c).c.div_w) ≡ w
  pub branch_is : (wires p c).c.branch ≡ false
  pub next_pc_is : (wires p c).next_pc ≡ add64 c.pc 4
  pub rd_is : (wires p c).d.rd ≡ rd
  pub writeregdata_is : (wires p c).writeregdata ≡ result p.mulres p.divres
  pub if_hold_pc_is : (wires p c).if_hold_pc ≡ (p.mul_done || p.div_done)
  pub if_wreg_is : (wires p c).if_wreg ≡ (p.mul_done || p.div_done)
  pub if_curr_ins_is : (wires p c).if_curr_ins ≡ true

abbrev Facts :
    (is_mul s w : Bool) (result : ℕ → ℕ → ℕ) (rd rs1 rs2 word : ℕ) (p : Pins) (c : Core) → Type 0
Facts is_mul s w result rd rs1 rs2 word p c =
    let n = wires p c in
    (n.instr ≡ word)
    × (n.alua ≡ read_reg c.regs rs1)
    × (n.alub ≡ read_reg c.regs rs2)
    × (n.c.mul_valid ≡ is_mul)
    × (n.c.div_valid ≡ not is_mul)
    × ((if is_mul then n.c.mul_sign else n.c.div_sign) ≡ s)
    × ((if is_mul then n.c.mul_w else n.c.div_w) ≡ w)
    × (n.c.branch ≡ false)
    × (n.next_pc ≡ add64 c.pc 4)
    × (n.d.rd ≡ rd)
    × (n.writeregdata ≡ result p.mulres p.divres)
    × (n.if_hold_pc ≡ (p.mul_done || p.div_done))
    × (n.if_wreg ≡ (p.mul_done || p.div_done))
    × (n.if_curr_ins ≡ true)

Facts-Requested :
    {is_mul s w : Bool} {result : ℕ → ℕ → ℕ} {rd rs1 rs2 word : ℕ} {p : Pins} {c : Core}
    → Facts is_mul s w result rd rs1 rs2 word p c
    → Requested is_mul s w result rd rs1 rs2 word p c
Facts-Requested f = record {
  instr_is = f.0;
  alua_is = f.1;
  alub_is = f.2;
  mul_valid_is = f.3;
  div_valid_is = f.4;
  sign_is = f.5;
  w_is = f.6;
  branch_is = f.7;
  next_pc_is = f.8;
  rd_is = f.9;
  writeregdata_is = f.10;
  if_hold_pc_is = f.11;
  if_wreg_is = f.12;
  if_curr_ins_is = f.13;
}

-- the instruction word in the core
abbrev pub in_core : Pins → Core → ℕ
in_core p c = if p.iresp_ok then p.iresp_data else c.curr_instr

and_false : (x : Bool) → (x && false) ≡ false
and_false true = refl
and_false false = refl

-- the opcode of the instructions on words, and on double words
abbrev opcode_of : Bool → ℕ
opcode_of true = 0b0111011
opcode_of false = 0b0110011

-- The control signals that request a unit.
abbrev requesting : ℕ → Bool → Bool → Bool → Control
requesting m2reg is_mul s w = record {
  jump = 0b00;
  m2reg = m2reg;
  branch = false;
  wmem = false;
  aluc = 0b0000;
  shift = false;
  aluimm = false;
  wreg = true;
  d_valid = false;
  d_byte = 0b000;
  read_sign = false;
  mul_valid = is_mul;
  div_valid = not is_mul;
  mul_sign = is_mul && s;
  div_sign = not is_mul && s;
  mul_w = is_mul && w;
  div_w = not is_mul && w;
}

module _ (rd rs1 rs2 : ℕ) (h : rd < 32) (h1 : rs1 < 32) (h2 : rs2 < 32) where
  abbrev unit_word : Bool → ℕ → ℕ
  unit_word w f3 = fields 0b0000001 rs2 rs1 f3 rd (opcode_of w)

  decode_unit :
      (w : Bool) (f3 : ℕ)
      → f3 < 8
      → decode (unit_word w f3) ≡ decoded rs1 rs2 rd 0 (opcode_of w) f3 0b0000001
  decode_unit true f3 k =
      decode_reg_word
        (fields-Fields 0b0000001 rs2 rs1 f3 rd _ (omega arith) h2 h1 k h (omega arith))
  decode_unit false f3 k =
      decode_reg (fields-Fields 0b0000001 rs2 rs1 f3 rd _ (omega arith) h2 h1 k h (omega arith))

  curr_ins :
      (w : Bool)
      → ((opcode_of w == 0b0000011)
          || (opcode_of w == 0b0100011)
          || ((opcode_of w == 0b0110011) && (0b0000001 == 0b0000001))
          || ((opcode_of w == 0b0111011) && (0b0000001 == 0b0000001)))
        ≡ true
  curr_ins true = refl
  curr_ins false = refl

  -- Control signals that do not depend on the flags reach the wires.
  module _ (s w : Bool) (f3 m2reg : ℕ) (k : f3 < 8) (result : ℕ → ℕ → ℕ) (p : Pins) (c : Core)
      (e : in_core p c ≡ unit_word w f3) (unanswered : p.dresp_ok ≡ false)
      (chosen : (a b d i : ℕ)
        → mux8 a b d i p.mulres (p.divres % 2 ^ 64) (p.divres / 2 ^ 64) 0 m2reg
          ≡ result p.mulres p.divres) where
    unit-Requested :
        (is_mul : Bool)
        → ((zero sf : Bool)
            → control (opcode_of w) 0b0000001 f3 zero sf c.held ≡ requesting m2reg is_mul s w)
        → Requested is_mul s w result rd rs1 rs2 (unit_word w f3) p c
    unfolding wires
    unit-Requested true settled = Facts-Requested (
        rw
          (
            e,
            decode_unit w f3 k,
            settled false false,
            settled _ _,
            unanswered,
            and_false p.iresp_ok,
          )
          (
            refl,
            refl,
            refl,
            refl,
            refl,
            refl,
            refl,
            refl,
            refl,
            refl,
            chosen _ _ _ _,
            refl,
            refl,
            curr_ins w,
          ))
    unit-Requested false settled = Facts-Requested (
        rw
          (
            e,
            decode_unit w f3 k,
            settled false false,
            settled _ _,
            unanswered,
            and_false p.iresp_ok,
          )
          (
            refl,
            refl,
            refl,
            refl,
            refl,
            refl,
            refl,
            refl,
            refl,
            refl,
            chosen _ _ _ _,
            refl,
            refl,
            curr_ins w,
          ))

  module _ (p : Pins) (c : Core) (idle : c.held.branch ≡ false)
      (unanswered : p.dresp_ok ≡ false) where
    pub mul-Requested :
        (op : MulOp)
        → in_core p c ≡ encode_mul op rd rs1 rs2
        → Requested true true (mul_word op) (λ m d. m) rd rs1 rs2 (encode_mul op rd rs1 rs2) p c
    unfolding control
    mul-Requested mul e =
        unit-Requested true false 0b000 0b100 (omega arith) (λ m d. m) p c e unanswered
          (λ a b d i. refl) true (λ zero sf. rw idle refl)
    mul-Requested mulw e =
        unit-Requested true true 0b000 0b100 (omega arith) (λ m d. m) p c e unanswered
          (λ a b d i. refl) true (λ zero sf. refl)

    pub div-Requested :
        (op : DivOp)
        → in_core p c ≡ encode_div op rd rs1 rs2
        → Requested false
            (div_signed op)
            (div_word op)
            (λ m d. half op d)
            rd
            rs1
            rs2
            (encode_div op rd rs1 rs2)
            p
            c
    unfolding control
    div-Requested div e =
        unit-Requested true false 0b100 0b101 (omega arith) (λ m d. half div d) p c e unanswered
          (λ a b d i. refl) false (λ zero sf. rw idle refl)
    div-Requested divu e =
        unit-Requested false false 0b101 0b101 (omega arith) (λ m d. half divu d) p c e unanswered
          (λ a b d i. refl) false (λ zero sf. rw idle refl)
    div-Requested rem e =
        unit-Requested true false 0b110 0b110 (omega arith) (λ m d. half rem d) p c e unanswered
          (λ a b d i. refl) false (λ zero sf. rw idle refl)
    div-Requested remu e =
        unit-Requested false false 0b111 0b110 (omega arith) (λ m d. half remu d) p c e unanswered
          (λ a b d i. refl) false (λ zero sf. rw idle refl)
    div-Requested divw e =
        unit-Requested true true 0b100 0b101 (omega arith) (λ m d. half divw d) p c e unanswered
          (λ a b d i. refl) false (λ zero sf. refl)
    div-Requested divuw e =
        unit-Requested false true 0b101 0b101 (omega arith) (λ m d. half divuw d) p c e unanswered
          (λ a b d i. refl) false (λ zero sf. refl)
    div-Requested remw e =
        unit-Requested true true 0b110 0b110 (omega arith) (λ m d. half remw d) p c e unanswered
          (λ a b d i. refl) false (λ zero sf. refl)
    div-Requested remuw e =
        unit-Requested false true 0b111 0b110 (omega arith) (λ m d. half remuw d) p c e unanswered
          (λ a b d i. refl) false (λ zero sf. refl)
