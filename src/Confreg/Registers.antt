-- ===== src/Confreg/Registers.antt =====
-- The registers of `Confreg`, verilate/vsrc/confreg.cpp: pending stores and the clock edge.
use mathlib.Core.Option.{get_or}
use mathlib.Core.Option
use riscv_single_cycle_cpu.Base.{
  ℕ, ◌≡◌, ◌≢◌, arith, some, List, [], ◌∷◌, ◌++◌, bit_and, ◌==◌, if◌then◌else◌, ◌>>=◌, add64,
}
use riscv_single_cycle_cpu.Confreg.{
  Confreg, WordMap, find, assign, increment, commit, sync, store, push_change, timer, load,
  addr_mask,
}
use riscv_single_cycle_cpu.Confreg.{
  uart_lsr, uart_rxd, virtual_uart, num, simu_flag, io_simu, open_trace, num_monitor,
}

find-assign :
    (k j v : ℕ) (m : WordMap)
    → find k (assign j v m) ≡ (if j == k then Option.map (λ _. v) (find k m) else find k m)
unfolding find assign
find-assign k j v [] = ground arith
find-assign k j v ((i, w) ∷ m) = ground (arith, find-assign k j v m)

-- the value that the pending changes leave in register `k`
pub latest : ℕ → List (ℕ × ℕ) → ℕ → ℕ
latest k [] v = v
latest k ((j, w) ∷ changes) v = latest k changes (if j == k then w else v)

find-commit :
    (k : ℕ) (changes : List (ℕ × ℕ)) (m : WordMap)
    → find k (commit changes m) ≡ Option.map (latest k changes) (find k m)
unfolding commit latest
find-commit k [] m = ground arith
find-commit k ((j, w) ∷ changes) m =
    ground (arith, find-commit k changes (assign j w m), find-assign k j w m)

find-increment :
    (k j : ℕ) (m : WordMap)
    → find k (increment j m) ≡ (if j == k then some (add64 (get_or (find k m) 0) 1) else find k m)
unfolding find increment
find-increment k j [] = ground arith
find-increment k j ((i, w) ∷ m) = ground (arith, find-increment k j m)

-- At a clock edge that succeeds every register that exists takes the last value that is pending
-- for it, and keeps its value if there is none; one that does not exist stays so; the timer then
-- goes up by one, modulo `2 ^ 64`.
pub find-sync :
    (k : ℕ) (c : Confreg) {c' : Confreg}
    → sync c ≡ some c'
    → let after = Option.map (latest k c.changes) (find k c.mem) in
      find k c'.mem ≡ (if timer == k then some (add64 (get_or after 0) 1) else after)
unfolding sync
find-sync k c e =
    ground (arith, find-increment k timer (commit c.changes c.mem), find-commit k c.changes c.mem)

-- An address with no side effect of its own.
abbrev pub IsPlain : ℕ → Type 0
IsPlain k =
    (k ≢ uart_lsr)
    × (k ≢ uart_rxd)
    × (k ≢ virtual_uart)
    × (k ≢ num)
    × (k ≢ simu_flag)
    × (k ≢ io_simu)
    × (k ≢ open_trace)
    × (k ≢ num_monitor)
    × (k ≢ timer)

latest-append : (k v w : ℕ) (changes : List (ℕ × ℕ)) → latest k (changes ++ ((k, v) ∷ [])) w ≡ v
unfolding latest
latest-append k v w [] = ground arith
latest-append k v w ((j, u) ∷ changes) = latest-append k v (if j == k then u else w) changes

store_plain :
    (addr v mask : ℕ) (c : Confreg)
    → IsPlain (bit_and addr addr_mask)
    → store addr v mask c ≡ some (push_change (bit_and addr addr_mask) v c)
unfolding store
store_plain addr v mask c h = ground arith

find-sync_plain :
    (k v w : ℕ) (c : Confreg) {c' : Confreg}
    → IsPlain k
    → find k c.mem ≡ some w
    → sync (push_change k v c) ≡ some c'
    → find k c'.mem ≡ some v
unfolding push_change
find-sync_plain k v w c h e f =
    ground (arith, find-sync k (push_change k v c) f, latest-append k v w c.changes)

load_plain :
    (addr v : ℕ) (c : Confreg)
    → IsPlain (bit_and addr addr_mask)
    → find (bit_and addr addr_mask) c.mem ≡ some v
    → load addr c ≡ some (v, c)
unfolding load
load_plain addr v c h e = ground arith

-- A register that exists and has no side effect of its own reads back, after a store to it and a
-- clock edge that succeed, the value of the store, and the read changes nothing.
pub load-sync-store :
    (addr v w mask : ℕ) (c : Confreg) {c' : Confreg}
    → IsPlain (bit_and addr addr_mask)
    → find (bit_and addr addr_mask) c.mem ≡ some w
    → (store addr v mask c >>= sync) ≡ some c'
    → load addr c' ≡ some (v, c')
load-sync-store addr v w mask c {c'} h e f =
    load_plain addr v c' h
      (find-sync_plain (bit_and addr addr_mask) v w c h e (rw (store_plain addr v mask c h) at f))
