-- ===== src/Difftest/Packets.antt =====
-- The DPI functions of difftest/src/test/csrc/difftest/interface.cpp through which the design
-- fills the state of a core. Numbered arguments, `gpr_0` to `gpr_31` and the like, are one list.
-- The cores are `none` before `difftest_init`; a packet is then dropped.
pub mod Delivery
use riscv_single_cycle_cpu.Base.{
  ℕ, zero, suc, [], ◌∷◌, Bool, true, false, Option, none, some, List, get_or, set, if◌then◌else◌,
}
use riscv_single_cycle_cpu.Difftest.{
  CoreState, InstrCommit, ArchCsrState, StoreEvent, LoadEvent, no_commit, no_store, no_load,
}

-- `difftest[coreid]`
abbrev pub update_at : (CoreState → CoreState) → ℕ → List CoreState → List CoreState
update_at f i [] = []
update_at f zero (c ∷ cs) = f c ∷ cs
update_at f (suc i) (c ∷ cs) = c ∷ update_at f i cs

-- `RETURN_NO_NULL`, and the packet for core `coreid`.
unfoldable pub deliver :
    (CoreState → CoreState) → ℕ → Option (List CoreState) → Option (List CoreState)
deliver packet coreid none = none
deliver packet coreid (some cores) = some (update_at packet coreid cores)

unfoldable pub trap_event : Bool → ℕ → ℕ → ℕ → ℕ → CoreState → CoreState
trap_event valid code pc cycle_cnt instr_cnt s = record s {
  trap = record {
    valid = valid;
    code = code;
    pc = pc;
    cycle_cnt = cycle_cnt;
    instr_cnt = instr_cnt;
  };
}

unfoldable pub arch_event : ℕ → ℕ → ℕ → CoreState → CoreState
arch_event intr_no cause exception_pc s = record s {
  event = record { interrupt = intr_no; exception = cause; exception_pc = exception_pc };
}

-- A packet that is not valid leaves the other fields of the commit.
unfoldable pub instr_commit : ℕ → InstrCommit → CoreState → CoreState
instr_commit index packet s =
    let old = get_or s.commit index no_commit in
    record s {
      commit = set s.commit index (if packet.valid then packet else record old { valid = false });
    }

-- The PC is not part of this packet.
unfoldable pub csr_state : ArchCsrState → CoreState → CoreState
csr_state packet s = record s {
  regs = record s.regs { csr = record packet { this_pc = s.regs.csr.this_pc } };
}

unfoldable pub int_reg_state : List ℕ → CoreState → CoreState
int_reg_state gpr s = record s { regs = record s.regs { gpr = gpr } }

unfoldable pub fp_reg_state : List ℕ → CoreState → CoreState
fp_reg_state fpr s = record s { regs = record s.regs { fpr = fpr } }

unfoldable pub sbuffer_event : Bool → ℕ → List ℕ → ℕ → CoreState → CoreState
sbuffer_event resp addr bytes mask s = record s {
  sbuffer =
      (if resp
        then record { resp = true; addr = addr; data' = bytes; mask = mask }
        else record s.sbuffer { resp = false });
}

unfoldable pub store_event : ℕ → StoreEvent → CoreState → CoreState
store_event index packet s =
    let old = get_or s.store index no_store in
    record s {
      store = set s.store index (if packet.valid then packet else record old { valid = false });
    }

unfoldable pub load_event : ℕ → LoadEvent → CoreState → CoreState
load_event index packet s =
    let old = get_or s.load index no_load in
    record s {
      load = set s.load index (if packet.valid then packet else record old { valid = false });
    }

unfoldable pub atomic_event : Bool → ℕ → ℕ → ℕ → ℕ → ℕ → CoreState → CoreState
atomic_event resp addr word mask fuop out s = record s {
  atomic =
      (if resp
        then record { resp = true; addr = addr; data' = word; mask = mask; fuop = fuop; out = out }
        else record s.atomic { resp = false });
}

unfoldable pub ptw_event : Bool → ℕ → List ℕ → CoreState → CoreState
ptw_event resp addr words s = record s {
  ptw =
      (if resp
        then record { resp = true; addr = addr; data' = words }
        else record s.ptw { resp = false });
}
