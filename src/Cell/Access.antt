-- ===== src/Cell/Access.antt =====
-- Cells of verilate/include/cell.h on a bus that behaves as a memory of words, and the data bus
-- as such a bus.
use mathlib.Core.Option
use mathlib.Core.Path.{fun_ext}
use native.Mathlib.Nat.{le_trans, mod-lt, mod-mod, one-le-pow}
use riscv_single_cycle_cpu.Base.{
  ℕ, ◌*◌, ◌/◌, ◌%◌, ◌^◌, ◌<◌, ◌≤◌, ◌≡◌, sym, ap, ◌∙◌, arith, true, some, inl, inr,
}
use riscv_single_cycle_cpu.Bus.LoadOp.{
  Width, width1, width2, width4, width8, parse, apply, strobe, place,
}
use riscv_single_cycle_cpu.Bus.LoadOp.Placement.{bytes}
use riscv_single_cycle_cpu.Bus.Dbus
use riscv_single_cycle_cpu.Bus.Dbus.{DbusModel, await_limit, add_base}
use riscv_single_cycle_cpu.Bus.Dbus.Contract.{IsServed}
use riscv_single_cycle_cpu.Bus.Dbus.Await.{
  load-respond, store-respond, outcome-eq_some, written-eq_some,
}
use riscv_single_cycle_cpu.Cell.{
  CellBus, Cell, msize_of, to_type, dbus_load, dbus_store, dbus_cells, get, set, swap,
}
use riscv_single_cycle_cpu.Cell.Words.{
  Words, IsPlaced, respond_word, peek, poke, Apart, apply-peek, place-poke, peek-poke,
  peek-poke-Apart,
}

-- A bus over which the loads and the stores at placed addresses are reads and writes
-- of just the bytes of the width at the address.
pub record IsMemory {S : Type 0} (bus : CellBus S) (view : S → Words) : Type 0 where
  pub load_lem :
      (w : Width) (a : ℕ) (s : S)
      → IsPlaced w a
      → (v : ℕ) × (s' : S) × (bus.load w a s ≡ some (v, s'))
        × (to_type w v ≡ peek w a (view s))
        × (view s' ≡ view s)
  pub store_lem :
      (w : Width) (a x : ℕ) (s : S)
      → IsPlaced w a
      → x < 2 ^ 64
      → (s' : S) × (bus.store w a x s ≡ some s') × (view s' ≡ poke w a x (view s))

module _ {V : Type 0} (b : DbusModel V) {latency : ℕ} (s : IsServed b respond_word latency)
    (fast : latency ≤ await_limit) where
  -- On a design that is a memory of words, and answers within the limit of `await`, a load and a
  -- store that a cell makes over the data bus succeed, at an address that is aligned to its width
  -- and below 2^31, which the design sees 2^31 higher. The load yields just the bytes of the width
  -- at the address and leaves the memory, the store of a 64-bit value changes just these bytes.
  pub dbus_cells-IsMemory : IsMemory (dbus_cells b) s.memory
  unfolding dbus_load dbus_store
  dbus_cells-IsMemory = record {
    load_lem = λ w a v aligned.
        let (v', loaded, kept) =
          outcome-eq_some b s (Dbus.load b a (msize_of w) v)
            (load-respond b s a (msize_of w) v fast) in
        (
          apply (parse w a) (s.memory v (add_base a / 8)),
          v',
          rw loaded,
          apply-peek w a (s.memory v) aligned,
          kept,
        );
    store_lem = λ w a x v aligned small.
        let op = parse w a in
        let (v', stored, written) =
          written-eq_some b s (Dbus.store b a (msize_of w) (strobe op) (place op x) v)
            (store-respond b s a (msize_of w) (strobe op) (place op x) v fast) in
        (v', stored, written ∙ fun_ext (place-poke w a x (s.memory v) aligned small));
  }

abbrev pub IsCell : Cell → Type 0
IsCell c = (c.addr % bytes c.width ≡ 0) × (c.addr < 2 ^ 31) × (c.attached ≡ true)

abbrev pub value : Cell → Words → ℕ
value c m = peek c.width c.addr m

value-lt : (c : Cell) (m : Words) → value c m < 2 ^ 64
value-lt c m = le_trans (mod-lt _ (one-le-pow (8 * bytes c.width) 2 (omega arith))) (pow_le c.width)
  where
    pow_le : (w : Width) → 2 ^ (8 * bytes w) ≤ 2 ^ 64
    pow_le width1 = omega arith
    pow_le width2 = omega arith
    pow_le width4 = omega arith
    pow_le width8 = omega arith

-- The value of a cell of the same type, stored and read back.
value-poke :
    (c d : Cell) (m m' : Words)
    → IsCell c
    → c.width ≡ d.width
    → value c (poke c.width c.addr (value d m') m) ≡ value d m'
value-poke c d m m' is_c one_type =
    peek-poke c.width c.addr (value d m') m is_c.0
    ∙ ap (λ (w : Width). value d m' % 2 ^ (8 * bytes w)) one_type
    ∙ mod-mod _ (2 ^ (8 * bytes d.width))

value-poke-Apart :
    (c d : Cell) (x : ℕ) (m : Words)
    → IsCell c
    → IsCell d
    → Apart c.width c.addr d.width d.addr
    → value d (poke c.width c.addr x m) ≡ value d m
value-poke-Apart c d x m is_c is_d apart =
    peek-poke-Apart c.width c.addr x d.width d.addr m is_c.0 is_d.0 apart

Apart-sym : (c d : Cell) → Apart c.width c.addr d.width d.addr → Apart d.width d.addr c.width c.addr
Apart-sym c d (inl before) = inr before
Apart-sym c d (inr after) = inl after

module _ {S : Type 0} (bus : CellBus S) {view : S → Words} (mem : IsMemory bus view) where
  get_lem :
      (c : Cell) (s : S)
      → IsCell c
      → (s' : S) × (get bus c s ≡ some (value c (view s), s')) × (view s' ≡ view s)
  unfolding get
  get_lem c s is_c =
      let (v, s', loaded, same, kept) = mem.load_lem c.width c.addr s (is_c.0, is_c.1) in
      (s', rw (is_c.2, loaded, same), kept)

  set_lem :
      (c : Cell) (x : ℕ) (s : S)
      → IsCell c
      → x < 2 ^ 64
      → (s' : S) × (set bus c x s ≡ some s') × (view s' ≡ poke c.width c.addr x (view s))
  unfolding set
  set_lem c x s is_c small = rw is_c.2 (mem.store_lem c.width c.addr x s (is_c.0, is_c.1) small)

  -- On a bus whose aligned accesses are those of a memory, such as the data bus, a cell that is
  -- attached to it, aligned to its width and below 2^31 takes a 64-bit value, and reads back that
  -- value cut to its width. The store does not change what another such cell reads whose bytes
  -- do not overlap.
  pub get-set :
      (c d : Cell) (x : ℕ) (s : S)
      → IsCell c
      → IsCell d
      → x < 2 ^ 64
      → Apart c.width c.addr d.width d.addr
      → (s' : S) × (set bus c x s ≡ some s')
        × (Option.map (λ r. r.0) (get bus c s') ≡ some (to_type c.width x))
        × (Option.map (λ r. r.0) (get bus d s') ≡ Option.map (λ r. r.0) (get bus d s))
  get-set c d x s is_c is_d small apart =
      let (s', stored, poked) = set_lem c x s is_c small in
      let (t, got, _) = get_lem c s' is_c in
      let (u, got_d, _) = get_lem d s' is_d in
      let (u0, got_d0, _) = get_lem d s is_d in
      (
        s',
        stored,
        rw (got, poked, peek-poke c.width c.addr x (view s) is_c.0),
        rw (got_d, got_d0, poked, value-poke-Apart c d x (view s) is_c is_d apart),
      )

  -- `swap` exchanges the values of two cells of one type whose bytes do not overlap.
  pub swap_lem :
      (c d : Cell) (s : S)
      → IsCell c
      → IsCell d
      → c.width ≡ d.width
      → Apart c.width c.addr d.width d.addr
      → (s' : S) × (swap bus c d s ≡ some s')
        × (value c (view s') ≡ value d (view s))
        × (value d (view s') ≡ value c (view s))
  unfolding swap
  swap_lem c d s is_c is_d one_type apart =
      let (s1, got_c, kept1) = get_lem c s is_c in
      let (s2, got_d, kept2) = get_lem d s1 is_d in
      let (s3, set_c, poked_c) = set_lem c (value d (view s1)) s2 is_c (value-lt d (view s1)) in
      let (s4, set_d, poked_d) = set_lem d (value c (view s)) s3 is_d (value-lt c (view s)) in
      (
        s4,
        rw (got_c, got_d, set_c) set_d,
        ap (value c) poked_d
            ∙ value-poke-Apart d c (value c (view s)) (view s3) is_d is_c (Apart-sym c d apart)
            ∙ ap (value c) poked_c
            ∙ value-poke c d (view s2) (view s1) is_c one_type
            ∙ ap (value d) kept1,
        ap (value d) poked_d ∙ value-poke d c (view s3) (view s) is_d (sym one_type),
      )
