-- ===== src/Device/Writes.antt =====
-- A burst of writes on the cache bus: the stores that it makes, in order, and its answers.
use riscv_single_cycle_cpu.Base.{
  All, ℕ, zero, suc, ◌+◌, ◌-◌, ◌^◌, ◌≤◌, ◌<◌, ◌≡◌, refl, ◌∙◌, arith, true, false, Option, some,
  List, [], ◌∷◌, ◌==◌, ◌>>=◌, inl, inr, length, ==-refl, ==-ne, Option-cases, >>=-assoc,
}
use riscv_single_cycle_cpu.Axi
use riscv_single_cycle_cpu.Axi.{AxiTransaction, syncs}
use riscv_single_cycle_cpu.Memory.{IMemory}
use riscv_single_cycle_cpu.Device.{CBusReq, CBusResp, CBusDevice, no_response, write_mask, cycle}
use riscv_single_cycle_cpu.Device.Cycle.{next_tx, IsSynced, cycle_start, cycle_write}
use riscv_single_cycle_cpu.Device.Beats.{
  beat_place, SameBurst, answer, at_beat, at_beat_addr, at_beat_last, at_beat_busy, at_beat_write,
  at_beat-consistent, next_tx-last, next_tx-middle, run, run-nil, run-cons, in_burst,
}

-- the answers to a burst of writes
abbrev pub acks : ℕ → List CBusResp
acks zero = []
acks (suc zero) = answer true 0 ∷ []
acks (suc (suc n)) = answer false 0 ∷ acks (suc n)

module _ {S : Type 0} (mem : IMemory S) where
  -- the stores of a burst, from beat `k` on
  pub store_beats : CBusReq → ℕ → List CBusReq → S → Option S
  store_beats req k [] s = some s
  store_beats req k (r ∷ rs) s =
      mem.store (beat_place req k) r.word (write_mask r.strobe) s >>= store_beats req (suc k) rs

  store_beats-nil : (req : CBusReq) (k : ℕ) (s : S) → store_beats req k [] s ≡ some s
  unfolding store_beats
  store_beats-nil req k s = refl

  store_beats-cons :
      (req : CBusReq) (k : ℕ) (r : CBusReq) (rs : List CBusReq) (s : S)
      → store_beats req k (r ∷ rs) s ≡ (
          mem.store (beat_place req k) r.word (write_mask r.strobe) s
          >>= store_beats req (suc k) rs)
  unfolding store_beats
  store_beats-cons req k r rs s = refl

  -- the device after a burst of writes that left the store at `s`
  abbrev pub written : CBusDevice S → S → CBusDevice S
  written d s = record d {
    store = s;
    enable = true;
    strobe = 0;
    word = 0;
    tx = Axi.reset;
    ntx = Axi.reset;
  }

  module _ (req : CBusReq) (tx : AxiTransaction) (size_fits : req.size < 8)
      (len_fits : req.len < 256) (room : req.addr < 2 ^ 64 - 2 ^ 15) (w : req.is_write ≡ true) where
    write_cycle :
        (k : ℕ) (r : CBusReq) (strobe word : ℕ) (s : S)
        → k < 256
        → SameBurst req r
        → cycle mem true true r (in_burst mem req tx k strobe word s) ≡ (
            mem.store (beat_place req k) r.word (write_mask r.strobe) s >>= λ s'. some (
              answer (k == req.len) 0,
              record {
                store = s';
                enable = true;
                strobe = 0;
                word = 0;
                tx = next_tx (at_beat req tx k);
                ntx = next_tx (at_beat req tx k);
              },
            ))
    write_cycle k r strobe word s h same =
        cycle_write mem true true r (in_burst mem req tx k strobe word s) refl refl
          (at_beat_busy req tx size_fits len_fits room k)
          (at_beat_write req tx size_fits len_fits room k ∙ w)
          (at_beat-consistent req tx size_fits len_fits room r same k)
        ∙ rw (
          at_beat_addr req tx size_fits len_fits room k h,
          at_beat_last req tx size_fits len_fits room k h,
        )

    -- The beats from `k` on.
    run_writes :
        (k : ℕ) (reqs : List CBusReq) (strobe word : ℕ) (s : S)
        → All (SameBurst req) reqs
        → k + length reqs ≡ req.len + 1
        → k ≤ req.len
        → run mem reqs (in_burst mem req tx k strobe word s) ≡ (
            store_beats req k reqs s >>= λ s'.
            some (acks (length reqs), written (in_burst mem req tx k strobe word s) s'))
    run_writes k [] strobe word s same e below = absurd (omega arith)
    run_writes k (r ∷ []) strobe word s same e below =
        let final : k ≡ req.len = omega arith in
        rw
          (
            run-cons mem,
            store_beats-cons,
            write_cycle k r strobe word s (omega arith) same.0,
            final,
            next_tx-last req tx size_fits len_fits room,
            ==-refl req.len,
          )
          (elim (Option-cases (mem.store (beat_place req req.len) r.word (write_mask r.strobe) s)) [
            | inl stop ↦ rw stop
            | inr (s', made) ↦ rw (made, run-nil mem, store_beats-nil)
          ])
    run_writes k (r ∷ r' ∷ rs) strobe word s same e below =
        rw
          (
            run-cons mem,
            store_beats-cons,
            write_cycle k r strobe word s (omega arith) same.0,
            next_tx-middle req tx size_fits len_fits room k (omega arith),
            ==-ne k req.len (omega arith),
          )
          (elim (Option-cases (mem.store (beat_place req k) r.word (write_mask r.strobe) s)) [
            | inl stop ↦ rw stop
            | inr (s', made) ↦
                rw (made, run_writes (suc k) (r' ∷ rs) 0 0 s' same.1 (omega arith) (omega arith))
                  (>>=-assoc (store_beats req (suc k) (r' ∷ rs) s') _ _)
          ])

-- A burst of at most 256 writes of at most 128 bytes, below `2 ^ 64 - 2 ^ 15`, on an idle device
-- that is always enabled, with requests that stay the same but for data and strobe: the cycle of
-- the request is not answered, each of the `len + 1` cycles that follow is, the last one with
-- `last`; the memory sees just the stores of the beats, in order, each at its beat's address with
-- that cycle's data and strobe; the device is idle afterwards. If a store fails, so does the run.
pub write_burst :
    {S : Type 0} (mem : IMemory S) (req : CBusReq) (reqs : List CBusReq) (d : CBusDevice S)
    → req.size < 8
    → req.len < 256
    → req.addr < 2 ^ 64 - 2 ^ 15
    → req.is_write ≡ true
    → req.valid ≡ true
    → All (SameBurst req) reqs
    → length reqs ≡ req.len + 1
    → IsSynced mem d
    → d.enable ≡ true
    → d.tx.busy ≡ false
    → run mem (req ∷ reqs) d ≡ (
        store_beats mem req 0 reqs d.store >>= λ s.
        some (no_response ∷ acks (length reqs), written mem d s))
write_burst mem req reqs d size_fits len_fits room w valid same all synced on idle =
    rw
      (
        run-cons mem req reqs d,
        cycle_start mem true true req d synced on idle valid,
        run_writes mem req d.tx size_fits len_fits room w 0 reqs d.strobe d.word d.store same
            (omega arith) (omega arith),
      )
      (>>=-assoc (store_beats mem req 0 reqs d.store) _ _)
