-- ===== src/Difftest/Commit.antt =====
-- `Difftest` of difftest/src/test/csrc/difftest/difftest.h, and the handlers of difftest.cpp that
-- drive the reference: first instruction, interrupts, exceptions, commits. The reference is the
-- shared library behind nemuproxy.h, a parameter; `num_cores` is `NUM_CORES`. `none` is a panic
-- or an access past the end of an array.
use riscv_single_cycle_cpu.Base.{
  ℕ, ◌+◌, ◌-◌, ◌%◌, ◌^◌, Bool, true, Option, some, List, ◌==◌, ltb, not, ◌&&◌, ◌||◌, if◌then◌else◌,
  ◌>>=◌, add64, bit_or, get_or,
}
use riscv_single_cycle_cpu.Golden.{Pmem, read_goldenmem, le_bytes}
use riscv_single_cycle_cpu.Difftest.{Regs, CoreState, InstrCommit, LoadEvent, no_commit, no_load}
use riscv_single_cycle_cpu.Difftest.Trace.{
  DiffState, ret_int, ret_exc, record_inst, record_abnormal_inst,
}
use riscv_single_cycle_cpu.Difftest.Regfile.{set_reg, get_reg}

-- `ExecutionGuide` and `SyncState` of nemuproxy.h
pub record ExecutionGuide : Type 0 where
  pub exception_no : ℕ
  pub mtval : ℕ
  pub stval : ℕ

pub record SyncState : Type 0 where
  pub lrsc_valid : ℕ
  pub lrsc_addr : ℕ

-- `NemuProxy`, over the state of the reference: its functions by direction. `store_commit` is
-- `true` when the two sides differ; a copy out of the reference's memory is never used.
pub record NemuProxy (R : Type 0) : Type 0 where
  pub memcpy_to_ref : ℕ → List ℕ → R → R
  pub regcpy_to_dut : R → Regs
  pub regcpy_to_ref : Regs → R → R
  pub uarchstatus_to_ref : SyncState → R → R
  pub store_commit : ℕ → ℕ → ℕ → R → Bool × R
  pub exec : ℕ → R → R
  pub guided_exec : ExecutionGuide → R → R
  pub raise_intr : ℕ → R → R

-- One checker; `model` is the state of its reference.
pub record Difftest (R : Type 0) : Type 0 where
  pub model : R
  pub num_commit : ℕ
  pub has_commit : Bool
  pub dut : CoreState
  pub ref' : Regs
  pub progress : Bool
  pub ticks : ℕ
  pub last_commit : ℕ
  pub nemu_this_pc : ℕ
  pub state : DiffState

abbrev pub first_inst_address : ℕ
first_inst_address = 0x80000000

-- `(int64_t)(intN_t)v`, `w` bits wide
abbrev pub sext : ℕ → ℕ → ℕ
sext w v = if ltb (v % 2 ^ w) (2 ^ (w - 1)) then v % 2 ^ w else v % 2 ^ w + (2 ^ 64 - 2 ^ w)

-- The length of a load; an unknown operation leaves 0.
abbrev pub load_len : LoadEvent → ℕ
load_len l =
    if l.fu_type == 0xC
    then (if l.op_type == 0 || l.op_type == 4
        then 1
        else if l.op_type == 1 || l.op_type == 5
        then 2
        else if l.op_type == 2 || l.op_type == 6
        then 4
        else if l.op_type == 3
        then 8
        else 0)
    else if l.op_type % 2 == 0
    then 4
    else 8

-- The signed loads.
abbrev pub load_value : LoadEvent → ℕ → ℕ
load_value l golden =
    if not (l.fu_type == 0xC)
    then golden
    else if l.op_type == 0
    then sext 8 golden
    else if l.op_type == 1
    then sext 16 golden
    else if l.op_type == 2
    then sext 32 golden
    else golden

module _ {R : Type 0} (proxy : NemuProxy R) where
  unfoldable pub do_first_instr_commit : List ℕ → Difftest R → Difftest R
  do_first_instr_commit img d =
      let c = get_or d.dut.commit 0 no_commit in
      if not d.has_commit && c.valid && (c.pc == first_inst_address)
      then record d {
        has_commit = true;
        nemu_this_pc = d.dut.regs.csr.this_pc;
        model = proxy.regcpy_to_ref d.dut.regs (proxy.memcpy_to_ref 0x80000000 img d.model);
      }
      else d

  unfoldable pub do_interrupt : Difftest R → Difftest R
  unfolding record_abnormal_inst
  do_interrupt d =
      let c = get_or d.dut.commit 0 no_commit in
      record d {
        state = record_abnormal_inst c.pc c.inst ret_int d.dut.event.interrupt d.state;
        model = proxy.raise_intr (bit_or d.dut.event.interrupt (2 ^ 63)) d.model;
        progress = true;
      }

  unfoldable pub do_exception : Difftest R → Difftest R
  unfolding record_abnormal_inst
  do_exception d =
      let cause = d.dut.event.exception in
      let c = get_or d.dut.commit 0 no_commit in
      let guide : ExecutionGuide = record {
        exception_no = cause;
        mtval = d.dut.regs.csr.mtval;
        stval = d.dut.regs.csr.stval;
      } in
      record d {
        state = record_abnormal_inst d.dut.event.exception_pc c.inst ret_exc cause d.state;
        model =
            (if cause == 12 || cause == 13 || cause == 15
              then proxy.guided_exec guide d.model
              else proxy.exec 1 d.model);
        progress = true;
      }

  -- `if (dut.commit[i].skip)`: the registers of the reference move past the instruction.
  unfoldable pub skip_commit : InstrCommit → Difftest R → Option (Difftest R)
  unfolding set_reg
  skip_commit c d =
      let regs = proxy.regcpy_to_dut d.model in
      let moved = record regs {
        csr = record regs.csr { this_pc = add64 regs.csr.this_pc (if c.is_rvc then 2 else 4) };
      } in
      (if c.wen && not (c.wdest == 0) then set_reg c.wdest c.wdata moved else some moved)
      >>= λ final. some (record d { ref' = final; model = proxy.regcpy_to_ref final d.model })

  -- The destination of a load that other cores explain.
  unfoldable pub rectify_dest : InstrCommit → Difftest R → Option (Difftest R)
  unfolding set_reg
  rectify_dest c d =
      if c.wdest == 0
      then some d
      else (set_reg c.wdest c.wdata d.ref' >>= λ final.
          some (record d { ref' = final; model = proxy.regcpy_to_ref final d.model }))

  -- The golden memory decides about a load whose value differs.
  unfoldable pub rectify_load : InstrCommit → LoadEvent → Difftest R → Pmem → Option (Difftest R)
  unfolding rectify_dest
  rectify_load c l d m = do
    raw ← read_goldenmem l.paddr (load_len l) m
    let golden = load_value l raw
    let copied = record d {
      model = proxy.memcpy_to_ref l.paddr (le_bytes (load_len l) golden) d.model;
    }
    if (golden == c.wdata) || (l.fu_type == 0xF) then rectify_dest c copied else some d

  -- `if (NUM_CORES > 1)` after an instruction: loads and atomics are looked at.
  unfoldable pub check_load : ℕ → ℕ → InstrCommit → Difftest R → Pmem → Option (Difftest R)
  unfolding rectify_load get_reg
  check_load num_cores i c d m =
      let l = get_or d.dut.load i no_load in
      let d' = record d { ref' = proxy.regcpy_to_dut d.model } in
      if ltb 1 num_cores && (l.fu_type == 0xC || l.fu_type == 0xF)
      then (if c.wen
          then (get_reg c.wdest d'.ref' >>= λ v.
              if v == c.wdata then some d' else rectify_load c l d' m)
          else some d')
      else some d

  -- The first lines of `do_instr_commit`: progress, the trace, and a store conditional that failed.
  unfoldable pub note_commit : InstrCommit → Difftest R → Difftest R
  unfolding record_inst
  note_commit c d = record d {
    progress = true;
    last_commit = d.ticks;
    state = record_inst c.pc c.inst c.wen c.wdest c.wdata d.state;
    model =
        (if c.sc_failed
          then proxy.uarchstatus_to_ref (record { lrsc_valid = 0; lrsc_addr = 0 }) d.model
          else d.model);
  }

  unfoldable pub do_instr_commit : ℕ → ℕ → Pmem → Difftest R → Option (Difftest R)
  unfolding note_commit skip_commit check_load
  do_instr_commit num_cores i m d =
      let c = get_or d.dut.commit i no_commit in
      let noted = note_commit c d in
      if c.skip
      then skip_commit c noted
      else check_load num_cores i c (record noted { model = proxy.exec 1 noted.model }) m
