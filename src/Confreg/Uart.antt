-- ===== src/Confreg/Uart.antt =====
-- The UART's input queue. A character is announced in one cycle, may be read in the next ones,
-- and is dropped by the `sync` after the read; meanwhile the worker thread appends others.
use riscv_single_cycle_cpu.Base.{
  ℕ, ◌≡◌, ◌≢◌, refl, arith, true, false, none, some, List, [], ◌∷◌, ◌++◌, inl, inr, ◌⊎◌,
}
use riscv_single_cycle_cpu.Confreg.{Confreg, reset, load, store, sync, arrive}

-- A character that is announced is there, and only an announced one is fetched.
pub record IsValid (c : Confreg) : Type 0 where
  pub announced : (c.ctx.uart_avail ≡ false) ⊎ (c.ififo ≢ [])
  pub fetched : (c.ctx.uart_fetched ≡ false) ⊎ (c.ctx.uart_avail ≡ true)

-- What the bus, the clock and the worker thread may do.
pub data Step : Confreg → Confreg → Type 0 where
  resets : (c : Confreg) → Step c (reset c)
  loads : (addr v : ℕ) (c : Confreg) {c' : Confreg} → load addr c ≡ some (v, c') → Step c c'
  stores :
      (addr v mask : ℕ) (c : Confreg) {c' : Confreg} → store addr v mask c ≡ some c' → Step c c'
  syncs : (c : Confreg) {c' : Confreg} → sync c ≡ some c' → Step c c'
  arrives : (ch : ℕ) (c : Confreg) → Step c (arrive ch c)

pub data Reach (c : Confreg) : Confreg → Type 0 where
  here : Reach c c
  next : {d e : Confreg} → Reach c d → Step d e → Reach c e

reset-IsValid : (c : Confreg) → IsValid (reset c)
unfolding reset
reset-IsValid c = record { announced = inl refl; fetched = inl refl }

load-IsValid :
    (addr v : ℕ) (c : Confreg) {c' : Confreg} → IsValid c → load addr c ≡ some (v, c') → IsValid c'
unfolding load
load-IsValid addr v c h e = ground arith

store-IsValid :
    (addr v mask : ℕ) (c : Confreg) {c' : Confreg}
    → IsValid c
    → store addr v mask c ≡ some c'
    → IsValid c'
unfolding store
store-IsValid addr v mask c h e = ground arith

sync-IsValid : (c : Confreg) {c' : Confreg} → IsValid c → sync c ≡ some c' → IsValid c'
unfolding sync
sync-IsValid c h e = ground arith

append-ne-nil : (xs : List ℕ) (x : ℕ) → xs ++ (x ∷ []) ≢ []
append-ne-nil [] x e = cc
append-ne-nil (y ∷ xs) x e = cc

arrive-IsValid : (ch : ℕ) (c : Confreg) → IsValid c → IsValid (arrive ch c)
unfolding arrive
arrive-IsValid ch c h = record { announced = inr (append-ne-nil c.ififo ch); fetched = h.fetched }

Step-IsValid : {c c' : Confreg} → Step c c' → IsValid c → IsValid c'
Step-IsValid (resets c) h = reset-IsValid c
Step-IsValid (loads addr v c e) h = load-IsValid addr v c h e
Step-IsValid (stores addr v mask c e) h = store-IsValid addr v mask c h e
Step-IsValid (syncs c e) h = sync-IsValid c h e
Step-IsValid (arrives ch c) h = arrive-IsValid ch c h

-- Whatever the interleaving.
pub Reach-IsValid : {c c' : Confreg} → IsValid c → Reach c c' → IsValid c'
Reach-IsValid h here = h
Reach-IsValid h (next r s) = Step-IsValid s (Reach-IsValid h r)

load-ne-none : (addr : ℕ) (c : Confreg) → IsValid c → load addr c ≢ none
unfolding load
load-ne-none addr c h = ground arith

sync-ne-none : (c : Confreg) → IsValid c → sync c ≢ none
unfolding sync
sync-ne-none c h = ground arith

-- After a reset, in whatever order loads, stores, clock edges, resets and arrivals of characters
-- come, no load reads from an empty queue and the assertion of `sync` holds.
pub uart_never_empty :
    (c : Confreg) {c' : Confreg}
    → Reach (reset c) c'
    → (sync c' ≢ none) × ((addr : ℕ) → load addr c' ≢ none)
uart_never_empty c {c'} r =
    let v = Reach-IsValid (reset-IsValid c) r in (sync-ne-none c' v, λ addr. load-ne-none addr c' v)
