-- ===== src/Memory.antt =====
-- `IMemory` and `MemoryRouter` of verilate/include/memory.h and verilate/vsrc/memory.cpp.
--
-- The devices are shared objects: `shared_ptr<IMemory>` may name one device twice. So an
-- `IMemory S` is an object over a store `S` that holds all of them, and its methods read and
-- write the part of `S` that is theirs.
pub mod Block
use riscv_single_cycle_cpu.Base.{
  ℕ, Option, none, some, List, [], ◌∷◌, bit_and, ◌==◌, if◌then◌else◌, ◌>>=◌,
}

pub record IMemory (S : Type 0) : Type 0 where
  pub reset : S → S
  pub load : ℕ → S → Option (ℕ × S)
  pub store : ℕ → ℕ → ℕ → S → Option S
  pub dump : ℕ → ℕ → S → Option (List ℕ)

pub record Entry (S : Type 0) : Type 0 where
  pub mask : ℕ
  pub prefix : ℕ
  pub mem : IMemory S
  pub translate : ℕ → ℕ

module _ {S : Type 0} where
  unfoldable pub search : List (Entry S) → ℕ → Option (Entry S)
  search [] addr = none
  search (e ∷ entries) addr =
      if bit_and addr e.mask == e.prefix then some e else search entries addr

  unfoldable pub reset_all : List (Entry S) → S → S
  reset_all [] s = s
  reset_all (e ∷ entries) s = reset_all entries (e.mem.reset s)

  -- `asserts(e, "no device at …")` is the `none` of `search`.
  unfoldable pub router_load : List (Entry S) → ℕ → S → Option (ℕ × S)
  router_load entries addr s = do e ← search entries addr; e.mem.load (e.translate addr) s

  unfoldable pub router_store : List (Entry S) → ℕ → ℕ → ℕ → S → Option S
  router_store entries addr v mask s = do
    e ← search entries addr
    e.mem.store (e.translate addr) v mask s

  unfoldable pub router_dump : List (Entry S) → ℕ → ℕ → S → Option (List ℕ)
  router_dump entries addr size s = do e ← search entries addr; e.mem.dump (e.translate addr) size s

  abbrev pub memory_router : List (Entry S) → IMemory S
  memory_router entries = record {
    reset = reset_all entries;
    load = router_load entries;
    store = router_store entries;
    dump = router_dump entries;
  }
