-- ===== src/Memory/Block/Laws.antt =====
-- The accesses to `BlockMemory`, verilate/vsrc/memory.cpp: which words they reach, and loads after
-- stores.
use mathlib.Core.Option
use riscv_single_cycle_cpu.Base.{
  ℕ, ◌*◌, ◌/◌, ◌%◌, ◌≤◌, ◌<◌, ◌≡◌, arith, none, some, ◌==◌, ltb, if◌then◌else◌, sub64, merge,
  length, get_or, set, ltb→lt, Bool-cases, length-set, get_elem?-eq-get_or, length-replicate, inl,
  inr, get_or-set_self, get_or-set_ne,
}
use riscv_single_cycle_cpu.Memory.Block.{BlockMemory, empty_block, reset, load, store}

-- the word that an address falls in
abbrev pub word_index : ℕ → BlockMemory → ℕ
word_index addr m = sub64 addr m.offset / 8

-- The block holds its size in words, and so does the image that `reset` brings back.
pub record IsValid (m : BlockMemory) : Type 0 where
  pub whole : m.size % 8 ≡ 0
  pub words : 8 * length m.mem ≡ m.size
  pub saved : 8 * length m.saved_mem ≡ m.size

abbrev pub InRange : ℕ → BlockMemory → Type 0
InRange addr m = sub64 addr m.offset < m.size

pub empty_block-IsValid :
    (size offset : ℕ) {m : BlockMemory} → empty_block size offset ≡ some m → IsValid m
unfolding empty_block
empty_block-IsValid size offset e = ground (arith, length-replicate {A = ℕ} (size / 8) 0)

pub load_total :
    (addr : ℕ) {m : BlockMemory}
    → IsValid m
    → InRange addr m
    → load addr m ≡ some (get_or m.mem (word_index addr m) 0)
unfolding load
load_total addr {m} v h = ground (arith, get_elem?-eq-get_or m.mem (word_index addr m) 0)

-- the block after a store in range
abbrev pub stored : ℕ → ℕ → ℕ → BlockMemory → BlockMemory
stored addr d mask m =
    let i = word_index addr m in record m { mem = set m.mem i (merge (get_or m.mem i 0) d mask) }

pub store_total :
    (addr d mask : ℕ) {m : BlockMemory}
    → IsValid m
    → InRange addr m
    → store addr d mask m ≡ some (stored addr d mask m)
unfolding store
store_total addr d mask {m} v h = ground (arith, get_elem?-eq-get_or m.mem (word_index addr m) 0)

pub store-none :
    (addr d mask : ℕ) (m : BlockMemory) → m.size ≤ sub64 addr m.offset → store addr d mask m ≡ none
unfolding store
store-none addr d mask m h = ground arith

pub load-none : (addr : ℕ) (m : BlockMemory) → m.size ≤ sub64 addr m.offset → load addr m ≡ none
unfolding load
load-none addr m h = ground arith

-- What a store that succeeds has done.
pub store-eq-some :
    (addr d mask : ℕ) {m m' : BlockMemory}
    → IsValid m
    → store addr d mask m ≡ some m'
    → InRange addr m × (m' ≡ stored addr d mask m)
store-eq-some addr d mask {m} {m'} v e = elim (Bool-cases (ltb (sub64 addr m.offset) m.size)) [
  | inl t ↦
      let inside : InRange addr m = ltb→lt _ _ t in
      let done : store addr d mask m ≡ some (stored addr d mask m) =
        store_total addr d mask v inside in
      (inside, cc)
  | inr f ↦ let outside : store addr d mask m ≡ none = store-none addr d mask m (ground arith) in cc
]

-- A store that succeeds on a valid block leaves a valid block: the words and the saved image still
-- fill its size.
pub store-IsValid :
    (addr d mask : ℕ) {m m' : BlockMemory} → IsValid m → store addr d mask m ≡ some m' → IsValid m'
store-IsValid addr d mask {m} {m'} v e = rw ((store-eq-some addr d mask v e).1) (
    omega (
      arith,
      v,
      length-set m.mem (word_index addr m) (merge (get_or m.mem (word_index addr m) 0) d mask),
    ))

length-stored :
    (addr d mask : ℕ) (m : BlockMemory) → length (stored addr d mask m).mem ≡ length m.mem
length-stored addr d mask m =
    length-set m.mem (word_index addr m) (merge (get_or m.mem (word_index addr m) 0) d mask)

stored-IsValid : (addr d mask : ℕ) {m : BlockMemory} → IsValid m → IsValid (stored addr d mask m)
stored-IsValid addr d mask {m} v = omega (arith, length-stored addr d mask m)

load-stored :
    (addr other d mask : ℕ) {m : BlockMemory}
    → IsValid m
    → InRange addr m
    → load other (stored addr d mask m) ≡ (
        if word_index other m == word_index addr m
        then Option.map (λ w. merge w d mask) (load other m)
        else load other m)
load-stored addr other d mask {m} v h = elim (Bool-cases (ltb (sub64 other m.offset) m.size)) [
  | inl t ↦ ground (
    arith,
    load_total other (stored-IsValid addr d mask v) (ltb→lt _ _ t),
    load_total other v (ltb→lt _ _ t),
    get_or-set_self m.mem (word_index addr m) (merge (get_or m.mem (word_index addr m) 0) d mask) 0,
    get_or-set_ne m.mem (word_index addr m) (word_index other m)
        (merge (get_or m.mem (word_index addr m) 0) d mask) 0,
  )
  | inr f ↦ ground (arith, load-none other m, load-none other (stored addr d mask m))
]

-- After a store that succeeds on a valid block, a load of any address in the same word returns the
-- word with the masked bits replaced, and a load of any other address returns what it returned
-- before, `none` out of range included.
pub load-store :
    (addr other d mask : ℕ) {m m' : BlockMemory}
    → IsValid m
    → store addr d mask m ≡ some m'
    → load other m' ≡ (
        if word_index other m == word_index addr m
        then Option.map (λ w. merge w d mask) (load other m)
        else load other m)
load-store addr other d mask v e =
    let (inside, made) = store-eq-some addr d mask v e in
    rw made (load-stored addr other d mask v inside)

-- After a store that succeeds on a valid block, `reset` gives the block that it gives before it.
pub reset-store :
    (addr d mask : ℕ) {m m' : BlockMemory}
    → IsValid m
    → store addr d mask m ≡ some m'
    → reset m' ≡ reset m
unfolding reset
reset-store addr d mask v e = rw ((store-eq-some addr d mask v e).1)
