-- ===== src/Device/Beats.antt =====
-- The beats of one burst: what the device's transaction is at beat `k`, and when it ends.
use riscv_single_cycle_cpu.Base.{
  ℕ, zero, suc, ◌+◌, ◌-◌, ◌^◌, ◌<◌, ◌≡◌, refl, ap, ◌∙◌, arith, Bool, true, Option, some, List, [],
  ◌∷◌, ◌==◌, ◌>>=◌, ==-refl, ==-ne,
}
use riscv_single_cycle_cpu.Axi
use riscv_single_cycle_cpu.Axi.{AxiTransaction, syncs}
use riscv_single_cycle_cpu.Axi.Burst.{beat_addr, syncs-InBurst, addr-syncs, last-syncs}
use riscv_single_cycle_cpu.Memory.{IMemory}
use riscv_single_cycle_cpu.Device.{CBusReq, CBusResp, CBusDevice, consistent, bool_eq, cycle}
use riscv_single_cycle_cpu.Device.Cycle.{next_tx, started}

-- the address of beat `k` of the burst that `req` asks for
abbrev pub beat_place : CBusReq → ℕ → ℕ
beat_place req zero = req.addr
beat_place req (suc k) = beat_addr req.addr (2 ^ req.size) (req.len + 1) (suc k)

-- A request of the same burst: only the data and the strobe may change.
abbrev pub SameBurst : CBusReq → CBusReq → Type 0
SameBurst req r =
    (r.valid ≡ true)
    × (r.is_write ≡ req.is_write)
    × (r.size ≡ req.size)
    × (r.addr ≡ req.addr)
    × (r.len ≡ req.len)

abbrev pub answer : Bool → ℕ → CBusResp
answer last word = record { ready = true; last = last; word = word }

consistent-sync : (r : CBusReq) (tx : AxiTransaction) → consistent r (Axi.sync tx) ≡ consistent r tx
unfolding consistent Axi.sync
consistent-sync r tx = refl

-- the transaction at beat `k`
abbrev pub at_beat : CBusReq → AxiTransaction → ℕ → AxiTransaction
at_beat req tx k = syncs k (started req tx)

module _ (req : CBusReq) (tx : AxiTransaction) (size_fits : req.size < 8) (len_fits : req.len < 256)
    (room : req.addr < 2 ^ 64 - 2 ^ 15) where
  -- the state that `init` starts from
  fresh : AxiTransaction
  fresh = record tx { busy = true; is_write = req.is_write }

  pub at_beat_addr : (k : ℕ) → k < 256 → (at_beat req tx k).addr ≡ beat_place req k
  unfolding Axi.init fresh
  at_beat_addr zero h = refl
  at_beat_addr (suc k) h =
      addr-syncs fresh req.addr req.size req.len size_fits len_fits room k (omega arith)

  pub at_beat_last : (k : ℕ) → k < 256 → Axi.last (at_beat req tx k) ≡ (k == req.len)
  unfolding Axi.init fresh
  at_beat_last k h =
      last-syncs fresh req.addr req.size req.len size_fits len_fits room k (omega arith)

  pub at_beat_busy : (k : ℕ) → (at_beat req tx k).busy ≡ true
  unfolding Axi.sync
  at_beat_busy zero = refl
  at_beat_busy (suc k) = at_beat_busy k

  pub at_beat_write : (k : ℕ) → (at_beat req tx k).is_write ≡ req.is_write
  unfolding Axi.sync Axi.init
  at_beat_write zero = refl
  at_beat_write (suc k) = at_beat_write k

  pub at_beat-consistent :
      (r : CBusReq) → SameBurst req r → (k : ℕ) → consistent r (at_beat req tx k) ≡ true
  unfolding consistent bool_eq Axi.init
  at_beat-consistent r same zero = ground (
    arith,
    syncs-InBurst fresh req.addr req.size req.len size_fits len_fits room 0 (omega arith),
    ap (λ (t : ℕ). 2 ^ t) same.2,
  )
  at_beat-consistent r same (suc k) =
      consistent-sync r (at_beat req tx k) ∙ at_beat-consistent r same k

  pub next_tx-last : next_tx (at_beat req tx req.len) ≡ Axi.reset
  next_tx-last = rw (at_beat_last req.len len_fits, ==-refl req.len)

  pub next_tx-middle : (k : ℕ) → k < req.len → next_tx (at_beat req tx k) ≡ at_beat req tx (suc k)
  next_tx-middle k h = rw (at_beat_last k (omega arith), ==-ne k req.len (omega arith))

module _ {S : Type 0} (mem : IMemory S) where
  -- Cycles with one request after the other, on a device that is never disabled.
  pub run : List CBusReq → CBusDevice S → Option (List CBusResp × CBusDevice S)
  run [] d = some ([], d)
  run (req ∷ reqs) d = do r ← cycle mem true true req d; t ← run reqs r.1; some (r.0 ∷ t.0, t.1)

  pub run-nil : (d : CBusDevice S) → run [] d ≡ some ([], d)
  unfolding run
  run-nil d = refl

  pub run-cons :
      (r : CBusReq) (rs : List CBusReq) (d : CBusDevice S)
      → run (r ∷ rs) d
        ≡ (cycle mem true true r d >>= λ a. run rs a.1 >>= λ t. some (a.0 ∷ t.0, t.1))
  unfolding run
  run-cons r rs d = refl

  -- the device at beat `k`, with its store and what it last latched
  abbrev pub in_burst : CBusReq → AxiTransaction → ℕ → ℕ → ℕ → S → CBusDevice S
  in_burst req tx k strobe word s = record {
    store = s;
    enable = true;
    strobe = strobe;
    word = word;
    tx = at_beat req tx k;
    ntx = at_beat req tx k;
  }
