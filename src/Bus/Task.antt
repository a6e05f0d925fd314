-- ===== src/Bus/Task.antt =====
-- `DBusPipelineGen::Task` of verilate/include/bus.h: one request of the pipeline, and what becomes of
-- its answer. A destination is a pointer of the test bench: an index of `Host`, whose items are the
-- objects behind the pointers, byte by byte. `none` is a failed assertion, or a write past the end
-- of an object.
use riscv_single_cycle_cpu.Base.{
  ℕ, Bool, Option, none, some, List, bit_and, bit_xor, ◌==◌, ltb, not, if◌then◌else◌, ◌>>=◌, ◌>>◌,
  asserts, length, get_elem?, set,
}
use riscv_single_cycle_cpu.Bus.LoadOp.Store.{op_bytes}
use riscv_single_cycle_cpu.Bus.LoadOp.{LoadOp, size8_sht0, mask, apply_to}

pub record Task : Type 0 where
  pub addr : ℕ
  pub size : ℕ
  pub word : ℕ
  pub lanes : ℕ
  pub dest : Option ℕ
  pub load_op : LoadOp

-- The three constructors of `Task`.
abbrev pub load_task : ℕ → ℕ → Option ℕ → LoadOp → Task
load_task addr size dest op = record {
  addr = addr;
  size = size;
  word = 0;
  lanes = 0;
  dest = dest;
  load_op = op;
}

abbrev pub store_task : ℕ → ℕ → ℕ → ℕ → Task
store_task addr size lanes word = record {
  addr = addr;
  size = size;
  word = word;
  lanes = lanes;
  dest = none;
  load_op = size8_sht0;
}

abbrev pub expect_task : ℕ → ℕ → ℕ → LoadOp → Task
expect_task addr size word op = record {
  addr = addr;
  size = size;
  word = word;
  lanes = 0;
  dest = none;
  load_op = op;
}

unfoldable pub is_load : Task → Bool
is_load t = t.lanes == 0

-- `asserts(((data ^ value) & load_op.mask()) == 0)`
unfoldable pub apply_assert : Task → ℕ → Bool
apply_assert t value = bit_and (bit_xor t.word value) (mask t.load_op) == 0

abbrev pub Host : Type 0
Host = List (List ℕ)

unfoldable pub apply_load : LoadOp → ℕ → ℕ → Host → Option Host
apply_load op value dest host = do
  object ← get_elem? host dest
  asserts (not (ltb (length object) (op_bytes op)))
  some (set host dest (apply_to op value object))

-- What `tick` does with the word that answers the task at the front.
unfoldable pub deliver : Task → ℕ → Host → Option Host
unfolding is_load apply_assert apply_load
deliver t value host = elim t.dest [
  | some dest ↦ apply_load t.load_op value dest host
  | none ↦ if is_load t then asserts (apply_assert t value) >> some host else some host
]
