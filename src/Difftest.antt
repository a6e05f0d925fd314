-- ===== src/Difftest.antt =====
-- The checker that compares the design with a reference, difftest/src/test/csrc/difftest: the
-- structures of difftest.h that the design fills and the checker reads. A C array is a list, and
-- a `uint8_t` that is only ever tested is a `Bool`.
pub mod Trace
pub mod Regfile
pub mod Packets
pub mod Commit
pub mod Step
use riscv_single_cycle_cpu.Base.{ℕ, Bool, true, false, List, [], ◌∷◌, ◌++◌}

pub record TrapEvent : Type 0 where
  pub valid : Bool
  pub code : ℕ
  pub pc : ℕ
  pub cycle_cnt : ℕ
  pub instr_cnt : ℕ

pub record ArchEvent : Type 0 where
  pub interrupt : ℕ
  pub exception : ℕ
  pub exception_pc : ℕ

pub record InstrCommit : Type 0 where
  pub valid : Bool
  pub pc : ℕ
  pub inst : ℕ
  pub skip : Bool
  pub is_rvc : Bool
  pub sc_failed : Bool
  pub wen : Bool
  pub wdest : ℕ
  pub wdata : ℕ

pub record ArchCsrState : Type 0 where
  pub this_pc : ℕ
  pub mstatus : ℕ
  pub mcause : ℕ
  pub mepc : ℕ
  pub sstatus : ℕ
  pub scause : ℕ
  pub sepc : ℕ
  pub satp : ℕ
  pub mip : ℕ
  pub mie : ℕ
  pub mscratch : ℕ
  pub sscratch : ℕ
  pub mideleg : ℕ
  pub medeleg : ℕ
  pub mtval : ℕ
  pub stval : ℕ
  pub mtvec : ℕ
  pub stvec : ℕ
  pub priviledge_mode : ℕ

-- `regs` and `csr` lie behind one another in `difftest_core_state_t`, and the checker reads both
-- through one pointer: `gpr` and `fpr` have 32 words each.
pub record Regs : Type 0 where
  pub gpr : List ℕ
  pub fpr : List ℕ
  pub csr : ArchCsrState

pub record SbufferState : Type 0 where
  pub resp : Bool
  pub addr : ℕ
  pub data' : List ℕ
  pub mask : ℕ

pub record StoreEvent : Type 0 where
  pub valid : Bool
  pub addr : ℕ
  pub data' : ℕ
  pub mask : ℕ

pub record LoadEvent : Type 0 where
  pub valid : Bool
  pub paddr : ℕ
  pub fu_type : ℕ
  pub op_type : ℕ

pub record AtomicEvent : Type 0 where
  pub resp : Bool
  pub addr : ℕ
  pub data' : ℕ
  pub mask : ℕ
  pub fuop : ℕ
  pub out : ℕ

pub record PtwEvent : Type 0 where
  pub resp : Bool
  pub addr : ℕ
  pub data' : List ℕ

pub record CoreState : Type 0 where
  pub trap : TrapEvent
  pub event : ArchEvent
  pub commit : List InstrCommit
  pub regs : Regs
  pub sbuffer : SbufferState
  pub store : List StoreEvent
  pub load : List LoadEvent
  pub atomic : AtomicEvent
  pub ptw : PtwEvent

-- `DIFFTEST_COMMIT_WIDTH` and `DIFFTEST_STORE_WIDTH` of difftest/config/config.h
abbrev pub commit_width : ℕ
commit_width = 6

abbrev pub store_width : ℕ
store_width = 2

abbrev pub csr_words : ArchCsrState → List ℕ
csr_words c =
    c.this_pc ∷ c.mstatus ∷ c.mcause ∷ c.mepc ∷ c.sstatus ∷ c.scause ∷ c.sepc ∷ c.satp ∷ c.mip
    ∷ c.mie ∷ c.mscratch ∷ c.sscratch ∷ c.mideleg ∷ c.medeleg ∷ c.mtval ∷ c.stval ∷ c.mtvec
    ∷ c.stvec ∷ c.priviledge_mode ∷ []

-- The words behind `dut_regs_ptr` and `ref_regs_ptr`.
abbrev pub regs_words : Regs → List ℕ
regs_words r = r.gpr ++ (r.fpr ++ csr_words r.csr)

-- What the checker reads of an array past its end never happens; the values are these.
abbrev pub no_commit : InstrCommit
no_commit = record {
  valid = false;
  pc = 0;
  inst = 0;
  skip = false;
  is_rvc = false;
  sc_failed = false;
  wen = false;
  wdest = 0;
  wdata = 0;
}

abbrev pub no_store : StoreEvent
no_store = record { valid = false; addr = 0; data' = 0; mask = 0 }

abbrev pub no_load : LoadEvent
no_load = record { valid = false; paddr = 0; fu_type = 0; op_type = 0 }
