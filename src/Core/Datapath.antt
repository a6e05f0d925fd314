-- ===== src/Core/Datapath.antt =====
-- The core, vsrc/src/core.sv, with its program counter, register file, multiplexers and pc
-- adder: vsrc/src/pc.sv, regfile.sv, mux2.sv, mux4.sv, mux8.sv and nextpc.sv.
use riscv_single_cycle_cpu.Base.{
  ℕ, ◌-◌, ◌/◌, ◌%◌, ◌^◌, add64, Bool, true, false, not, ◌&&◌, ◌||◌, ◌==◌, if◌then◌else◌, Option,
  none, some, bit_and,
}
use riscv_single_cycle_cpu.Core.Decode.{Decoded, decode}
use riscv_single_cycle_cpu.Core.Control.{Control, control}
use riscv_single_cycle_cpu.Core.Alu.{alu}
use riscv_single_cycle_cpu.Core.Lanes.{rd, Write, wd}

abbrev pub pcinit : ℕ
pcinit = 0x80000000

-- The registers of the core. `held` are the control signals of the last evaluation.
pub record Core : Type 0 where
  pub pc : ℕ
  pub regs : ℕ → ℕ
  pub curr_instr : ℕ
  pub ireq_valid : Bool
  pub held : Control

-- What comes from the buses, and from the multiplier and the divider.
pub record Pins : Type 0 where
  pub reset : Bool
  pub iresp_ok : Bool
  pub iresp_data : ℕ
  pub dresp_ok : Bool
  pub dresp_data : ℕ
  pub mul_done : Bool
  pub mulres : ℕ
  pub div_done : Bool
  pub divres : ℕ

abbrev pub mux2 : ℕ → ℕ → Bool → ℕ
mux2 a b s = if s then b else a

abbrev pub mux4 : ℕ → ℕ → ℕ → ℕ → ℕ → ℕ
mux4 a b c d s = if s == 0b00 then a else if s == 0b01 then b else if s == 0b10 then c else d

abbrev pub mux8 : ℕ → ℕ → ℕ → ℕ → ℕ → ℕ → ℕ → ℕ → ℕ → ℕ
mux8 n1 n2 n3 n4 n5 n6 n7 n8 sel =
    if sel == 0b000
    then n1
    else if sel == 0b001
    then n2
    else if sel == 0b010
    then n3
    else if sel == 0b011
    then n4
    else if sel == 0b100
    then n5
    else if sel == 0b101
    then n6
    else if sel == 0b110
    then n7
    else if sel == 0b111
    then n8
    else n1

-- `q1` and `q2` of the register file
abbrev pub read_reg : (ℕ → ℕ) → ℕ → ℕ
read_reg regs rs = if rs == 0 then 0 else regs rs

-- `regs[rd] <= reg_next[rd]`: the array has no element 0, and `reg_next[0]` is 0.
abbrev pub write_reg : (ℕ → ℕ) → ℕ → ℕ → ℕ → ℕ
write_reg regs rd wd i = if (i == rd) && not (rd == 0) then wd else regs i

-- The wires of a cycle.
pub record Wires : Type 0 where
  pub instr : ℕ
  pub d : Decoded
  pub c : Control
  pub alua : ℕ
  pub alub : ℕ
  pub alures : ℕ
  pub rfq2 : ℕ
  pub readdata : Option ℕ  -- `'x` is `none`
  pub store : Write
  pub next_pc : ℕ
  pub writeregdata : ℕ
  pub if_hold_pc : Bool
  pub if_wreg : Bool
  pub if_curr_ins : Bool

-- the value of a wire that is not `'x`
abbrev pub known : Option ℕ → ℕ
known none = 0
known (some x) = x

-- The control unit and the arithmetic unit feed each other; the operands and the operation do not
-- depend on the flags, so one evaluation without them settles both.
unfoldable pub wires : Pins → Core → Wires
wires p s =
    let instr = if p.iresp_ok then p.iresp_data else s.curr_instr in
    let d = decode instr in
    let first = control d.opcode d.func7 d.func3 false false s.held in
    let rfq1 = read_reg s.regs d.rs1 in
    let rfq2 = read_reg s.regs d.rs2 in
    let alua = mux2 rfq1 s.pc first.shift in
    let alub = mux2 rfq2 d.sextimm first.aluimm in
    let a = alu alua alub first.aluc in
    let c = control d.opcode d.func7 d.func3 a.zero a.sf s.held in
    let pc_4 = add64 s.pc 4 in
    let branch_pc =
      mux4 pc_4 (add64 s.pc d.sextimm) a.result (bit_and a.result (2 ^ 64 - 2)) c.jump in
    let readdata = rd (a.result % 8) c.d_byte (not c.read_sign) p.dresp_data in
    let idle = not c.d_valid && not c.mul_valid && not c.div_valid in
    let answered = p.dresp_ok || p.mul_done || p.div_done in
    record {
      instr = instr;
      d = d;
      c = c;
      alua = alua;
      alub = alub;
      alures = a.result;
      rfq2 = rfq2;
      readdata = readdata;
      store = wd c.wmem (a.result % 8) c.d_byte rfq2;
      next_pc = if c.branch then branch_pc else pc_4;
      writeregdata =
          mux8 a.result (known readdata) pc_4 d.sextimm p.mulres (p.divres % 2 ^ 64)
            (p.divres / 2 ^ 64) 0 c.m2reg;
      if_hold_pc = (p.iresp_ok && idle) || answered;
      if_wreg = c.wreg && (idle || answered);
      if_curr_ins =
          (d.opcode == 0b0000011)
          || (d.opcode == 0b0100011)
          || ((d.opcode == 0b0110011) && (d.func7 == 0b0000001))
          || ((d.opcode == 0b0111011) && (d.func7 == 0b0000001));
    }

-- A clock edge.
unfoldable pub clock : Pins → Core → Core
clock p s =
    let n = wires p s in
    if p.reset
    then record { pc = pcinit; regs = λ i. 0; curr_instr = 0; ireq_valid = true; held = n.c }
    else record {
      pc = if n.if_hold_pc then n.next_pc else s.pc;
      regs = if n.if_wreg then write_reg s.regs n.d.rd n.writeregdata else s.regs;
      curr_instr =
          if p.dresp_ok || p.mul_done || p.div_done || not n.if_curr_ins
          then 0
          else if p.iresp_ok
          then n.instr
          else s.curr_instr;
      ireq_valid = if n.if_hold_pc then true else if p.iresp_ok then false else s.ireq_valid;
      held = n.c;
    }
