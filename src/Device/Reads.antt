-- ===== src/Device/Reads.antt =====
-- A burst of reads on the cache bus, `CBusDevice` of verilate/vsrc/cbus_device.cpp: the loads that it
-- makes, in order, and its answers.
use riscv_single_cycle_cpu.Base.{
  All, ℕ, suc, ◌+◌, ◌-◌, ◌^◌, ◌<◌, ◌≡◌, refl, ◌∙◌, arith, true, false, Option, some, List, [], ◌∷◌,
  ◌==◌, ◌>>=◌, inl, inr, length, ==-refl, Option-cases, >>=-assoc,
}
use riscv_single_cycle_cpu.Axi
use riscv_single_cycle_cpu.Axi.{AxiTransaction, syncs}
use riscv_single_cycle_cpu.Memory.{IMemory}
use riscv_single_cycle_cpu.Device.{CBusReq, CBusResp, CBusDevice, no_response, cycle}
use riscv_single_cycle_cpu.Device.Cycle.{next_tx, IsSynced, cycle_start, cycle_read}
use riscv_single_cycle_cpu.Device.Beats.{
  beat_place, SameBurst, answer, at_beat, at_beat_addr, at_beat_last, at_beat_busy, at_beat_write,
  at_beat-consistent, next_tx-last, next_tx-middle, run, run-nil, run-cons, in_burst,
}

-- the answers to a burst of reads, from beat `k` on
abbrev pub answers : CBusReq → ℕ → List ℕ → List CBusResp
answers req k [] = []
answers req k (v ∷ vs) = answer (k == req.len) v ∷ answers req (suc k) vs

-- the last request of a burst
abbrev pub last_request : CBusReq → List CBusReq → CBusReq
last_request r [] = r
last_request r (r' ∷ rs) = last_request r' rs

module _ {S : Type 0} (mem : IMemory S) where
  -- the loads of a burst, from beat `k` on
  pub load_beats : CBusReq → ℕ → List CBusReq → S → Option (List ℕ × S)
  load_beats req k [] s = some ([], s)
  load_beats req k (r ∷ rs) s = do
    v ← mem.load (beat_place req k) s
    t ← load_beats req (suc k) rs v.1
    some (v.0 ∷ t.0, t.1)

  load_beats-nil : (req : CBusReq) (k : ℕ) (s : S) → load_beats req k [] s ≡ some ([], s)
  unfolding load_beats
  load_beats-nil req k s = refl

  load_beats-cons :
      (req : CBusReq) (k : ℕ) (r : CBusReq) (rs : List CBusReq) (s : S)
      → load_beats req k (r ∷ rs) s ≡ (
          mem.load (beat_place req k) s >>= λ v.
          load_beats req (suc k) rs v.1 >>= λ t. some (v.0 ∷ t.0, t.1))
  unfolding load_beats
  load_beats-cons req k r rs s = refl

  -- the device after a burst of reads whose last request was `r`
  abbrev pub read_out : CBusReq → S → CBusDevice S
  read_out r s = record {
    store = s;
    enable = true;
    strobe = r.strobe;
    word = r.word;
    tx = Axi.reset;
    ntx = Axi.reset;
  }

  module _ (req : CBusReq) (tx : AxiTransaction) (size_fits : req.size < 8)
      (len_fits : req.len < 256) (room : req.addr < 2 ^ 64 - 2 ^ 15)
      (w : req.is_write ≡ false) where
    read_cycle :
        (k : ℕ) (r : CBusReq) (strobe word : ℕ) (s : S)
        → k < 256
        → SameBurst req r
        → cycle mem true true r (in_burst mem req tx k strobe word s) ≡ (
            mem.load (beat_place req k) s >>= λ v. some (
              answer (k == req.len) v.0,
              record {
                store = v.1;
                enable = true;
                strobe = r.strobe;
                word = r.word;
                tx = next_tx (at_beat req tx k);
                ntx = next_tx (at_beat req tx k);
              },
            ))
    read_cycle k r strobe word s h same =
        cycle_read mem true true r (in_burst mem req tx k strobe word s) refl refl
          (at_beat_busy req tx size_fits len_fits room k)
          (at_beat_write req tx size_fits len_fits room k ∙ w)
          (at_beat-consistent req tx size_fits len_fits room r same k)
        ∙ rw (
          at_beat_addr req tx size_fits len_fits room k h,
          at_beat_last req tx size_fits len_fits room k h,
        )

    -- The beats from `k` on.
    run_reads :
        (k : ℕ) (r : CBusReq) (rs : List CBusReq) (strobe word : ℕ) (s : S)
        → All (SameBurst req) (r ∷ rs)
        → k + length rs ≡ req.len
        → run mem (r ∷ rs) (in_burst mem req tx k strobe word s) ≡ (
            load_beats req k (r ∷ rs) s >>= λ t.
            some (answers req k t.0, read_out (last_request r rs) t.1))
    run_reads k r [] strobe word s same e =
        let final : k ≡ req.len = omega arith in
        rw
          (
            run-cons mem,
            load_beats-cons,
            read_cycle k r strobe word s (omega arith) same.0,
            final,
            next_tx-last req tx size_fits len_fits room,
            ==-refl req.len,
          )
          (elim (Option-cases (mem.load (beat_place req req.len) s)) [
            | inl stop ↦ rw stop
            | inr (v, seen) ↦ rw (seen, run-nil mem, load_beats-nil, ==-refl req.len)
          ])
    run_reads k r (r' ∷ rs) strobe word s same e =
        rw
          (
            run-cons mem,
            load_beats-cons req k r (r' ∷ rs) s,
            read_cycle k r strobe word s (omega arith) same.0,
            next_tx-middle req tx size_fits len_fits room k (omega arith),
          )
          (elim (Option-cases (mem.load (beat_place req k) s)) [
            | inl stop ↦ rw stop
            | inr (v, seen) ↦
                rw (seen, run_reads (suc k) r' rs r.strobe r.word v.1 same.1 (omega arith))
                  (elim (Option-cases (load_beats req (suc k) (r' ∷ rs) v.1)) [
                    | inl stop ↦ rw stop
                    | inr (t, loaded) ↦ rw loaded
                  ])
          ])

-- A burst of at most 256 reads of at most 128 bytes, below `2 ^ 64 - 2 ^ 15`, on an idle device that
-- is always enabled, with requests that stay the same but for data and strobe: the cycle of the
-- request is not answered, each of the `len + 1` cycles that follow is, with the word that the
-- memory loads at its beat's address, in order, and the last one with `last`; the device is idle
-- afterwards. If a load fails, so does the run.
pub read_burst :
    {S : Type 0} (mem : IMemory S) (req r : CBusReq) (rs : List CBusReq) (d : CBusDevice S)
    → req.size < 8
    → req.len < 256
    → req.addr < 2 ^ 64 - 2 ^ 15
    → req.is_write ≡ false
    → req.valid ≡ true
    → All (SameBurst req) (r ∷ rs)
    → length rs ≡ req.len
    → IsSynced mem d
    → d.enable ≡ true
    → d.tx.busy ≡ false
    → run mem (req ∷ r ∷ rs) d ≡ (
        load_beats mem req 0 (r ∷ rs) d.store >>= λ t.
        some (no_response ∷ answers req 0 t.0, read_out mem (last_request r rs) t.1))
read_burst mem req r rs d size_fits len_fits room w valid same all synced on idle =
    rw
      (
        run-cons mem req (r ∷ rs) d,
        cycle_start mem true true req d synced on idle valid,
        run_reads mem req d.tx size_fits len_fits room w 0 r rs d.strobe d.word d.store same
            (omega arith),
      )
      (>>=-assoc (load_beats mem req 0 (r ∷ rs) d.store) _ _)
