-- ===== src/Difftest/Trace/History.antt =====
-- The instruction ring of `DiffState` as a history of what retired.
use riscv_single_cycle_cpu.Base.{
  ℕ, ◌+◌, ◌%◌, ◌≤◌, ◌<◌, ◌≡◌, ◌≢◌, refl, arith, Bool, some, List, [], ◌∷◌, get_elem?, set, length,
  length-set, get_elem?-set_self, get_elem?-set_ne, ◌∙◌,
}
use riscv_single_cycle_cpu.Difftest.Trace.{
  DiffState, RetireInstType, ret_normal, inst_trace_size, record_inst, record_abnormal_inst,
}

-- An instruction that retires, in the normal way or by an interrupt or an exception.
pub data Retired : Type 0 where
  normal : (pc inst : ℕ) (en : Bool) (dest word : ℕ) → Retired
  abnormal : (pc inst : ℕ) (kind : RetireInstType) (cause : ℕ) → Retired

abbrev pub retire : Retired → DiffState → DiffState
unfolding record_inst record_abnormal_inst
retire (normal pc inst en dest word) s = record_inst pc inst en dest word s
retire (abnormal pc inst kind cause) s = record_abnormal_inst pc inst kind cause s

abbrev pub retire_all : List Retired → DiffState → DiffState
retire_all [] s = s
retire_all (r ∷ rs) s = retire_all rs (retire r s)

abbrev pub pc_of : Retired → ℕ
pc_of (normal pc inst en dest word) = pc
pc_of (abnormal pc inst kind cause) = pc

abbrev pub inst_of : Retired → ℕ
inst_of (normal pc inst en dest word) = inst
inst_of (abnormal pc inst kind cause) = inst

abbrev pub word_of : Retired → ℕ
word_of (normal pc inst en dest word) = word
word_of (abnormal pc inst kind cause) = cause

abbrev pub type_of : Retired → RetireInstType
type_of (normal pc inst en dest word) = ret_normal
type_of (abnormal pc inst kind cause) = kind

-- The pointer is in the ring, and every queue is as long as the ring.
pub record IsValid (s : DiffState) : Type 0 where
  pub pointer : s.inst_pointer < inst_trace_size
  pub pcs : length s.inst_pc_queue ≡ inst_trace_size
  pub insts : length s.inst_inst_queue ≡ inst_trace_size
  pub words : length s.inst_wdata_queue ≡ inst_trace_size
  pub types : length s.inst_type_queue ≡ inst_trace_size

-- Slot `i` holds what an instruction left.
pub record Holds (s : DiffState) (i : ℕ) (r : Retired) : Type 0 where
  pub pc : get_elem? s.inst_pc_queue i ≡ some (pc_of r)
  pub inst : get_elem? s.inst_inst_queue i ≡ some (inst_of r)
  pub word : get_elem? s.inst_wdata_queue i ≡ some (word_of r)
  pub kind : get_elem? s.inst_type_queue i ≡ some (type_of r)

next_lt : (p : ℕ) → (p + 1) % inst_trace_size < inst_trace_size
next_lt p = omega arith

retire-IsValid : (r : Retired) (s : DiffState) → IsValid s → IsValid (retire r s)
unfolding record_inst record_abnormal_inst
retire-IsValid (normal pc inst en dest word) s v = record {
  pointer = next_lt s.inst_pointer;
  pcs = length-set _ _ _ ∙ v.pcs;
  insts = length-set _ _ _ ∙ v.insts;
  words = length-set _ _ _ ∙ v.words;
  types = length-set _ _ _ ∙ v.types;
}
retire-IsValid (abnormal pc inst kind cause) s v = record {
  pointer = next_lt s.inst_pointer;
  pcs = length-set _ _ _ ∙ v.pcs;
  insts = length-set _ _ _ ∙ v.insts;
  words = length-set _ _ _ ∙ v.words;
  types = length-set _ _ _ ∙ v.types;
}

set_here {ℓ} :
    {A : Type ℓ} (xs : List A) (i : ℕ) (v : A)
    → length xs ≡ inst_trace_size
    → i < inst_trace_size
    → get_elem? (set xs i v) i ≡ some v
set_here xs i v h below = get_elem?-set_self xs i v (omega arith)

retire-Holds : (r : Retired) (s : DiffState) → IsValid s → Holds (retire r s) s.inst_pointer r
unfolding record_inst record_abnormal_inst
retire-Holds (normal pc inst en dest word) s v = record {
  pc = set_here _ _ _ v.pcs v.pointer;
  inst = set_here _ _ _ v.insts v.pointer;
  word = set_here _ _ _ v.words v.pointer;
  kind = set_here _ _ _ v.types v.pointer;
}
retire-Holds (abnormal pc inst kind cause) s v = record {
  pc = set_here _ _ _ v.pcs v.pointer;
  inst = set_here _ _ _ v.insts v.pointer;
  word = set_here _ _ _ v.words v.pointer;
  kind = set_here _ _ _ v.types v.pointer;
}

Holds-retire :
    (q r : Retired) (s : DiffState) (i : ℕ)
    → s.inst_pointer ≢ i
    → Holds s i r
    → Holds (retire q s) i r
unfolding record_inst record_abnormal_inst
Holds-retire (normal pc inst en dest word) r s i ne h = record {
  pc = get_elem?-set_ne _ _ _ _ ne ∙ h.pc;
  inst = get_elem?-set_ne _ _ _ _ ne ∙ h.inst;
  word = get_elem?-set_ne _ _ _ _ ne ∙ h.word;
  kind = get_elem?-set_ne _ _ _ _ ne ∙ h.kind;
}
Holds-retire (abnormal pc inst kind cause) r s i ne h = record {
  pc = get_elem?-set_ne _ _ _ _ ne ∙ h.pc;
  inst = get_elem?-set_ne _ _ _ _ ne ∙ h.inst;
  word = get_elem?-set_ne _ _ _ _ ne ∙ h.word;
  kind = get_elem?-set_ne _ _ _ _ ne ∙ h.kind;
}

pointer-retire :
    (r : Retired) (s : DiffState)
    → (retire r s).inst_pointer ≡ (s.inst_pointer + 1) % inst_trace_size
unfolding record_inst record_abnormal_inst
pointer-retire (normal pc inst en dest word) s = refl
pointer-retire (abnormal pc inst kind cause) s = refl

-- A slot that the pointer does not reach keeps its instruction.
Holds-retire_all :
    (rs : List Retired) (r : Retired) (s : DiffState) (i k : ℕ)
    → IsValid s
    → i < inst_trace_size
    → s.inst_pointer ≡ (i + k) % inst_trace_size
    → 0 < k
    → k + length rs ≤ inst_trace_size
    → Holds s i r
    → Holds (retire_all rs s) i r
Holds-retire_all [] r s i k v below at_k pos room h = h
Holds-retire_all (q ∷ rs) r s i k v below at_k pos room h =
    Holds-retire_all rs r (retire q s) i (k + 1) (retire-IsValid q s v) below
      (pointer-retire q s ∙ omega arith) (omega arith) (omega arith)
      (Holds-retire q r s i (omega arith) h)

-- In a valid trace an instruction that retires is found, with its PC, code, data and kind, in the
-- slot where the pointer stood, as long as at most fifteen more have retired, of whatever kind.
pub Holds-retire_then :
    (r : Retired) (rs : List Retired) (s : DiffState)
    → IsValid s
    → length rs < inst_trace_size
    → Holds (retire_all (r ∷ rs) s) s.inst_pointer r
Holds-retire_then r rs s v room =
    Holds-retire_all rs r (retire r s) s.inst_pointer 1 (retire-IsValid r s v) v.pointer
      (pointer-retire r s) (omega arith) (omega arith) (retire-Holds r s v)
