-- ===== src/Difftest/Step/Progress.antt =====
-- How far behind the last commit `Difftest::step` may get before it reports.
use riscv_single_cycle_cpu.Base.{
  ℕ, ◌+◌, ◌^◌, ◌≤◌, ◌<◌, ◌≡◌, inl, inr, sym, ◌∙◌, ap, arith, false, some, List, not, add64,
  >>=-eq-some, some-inj, if-eq_cases,
}
use riscv_single_cycle_cpu.Golden.{Pmem}
use riscv_single_cycle_cpu.Difftest.Commit.{NemuProxy, Difftest, do_first_instr_commit}
use riscv_single_cycle_cpu.Difftest.Step.{
  compare_regs, end_step, finish_step, step, do_events, check_timeout, do_store_check,
  update_memory, do_golden_memory_update, begin_step,
}
use riscv_single_cycle_cpu.Difftest.Step.Agreement.{step-eq_zero, stores}
use riscv_single_cycle_cpu.Difftest.Step.Clock.{
  Kept, Clocked, Kept-trans, Clocked-trans, Clocked-of_Kept, do_first_instr_commit-Kept,
  check_timeout-Kept, store_check_from-Kept, do_events-Clocked,
}

module _ {R : Type 0} (proxy : NemuProxy R) where
  end_step-Kept : (m : Pmem) (d : Difftest R) → Kept d (end_step proxy m d).1
  unfolding end_step compare_regs
  end_step-Kept m d = record { ticks = ground arith; last = ground arith }

  finish_step-Clocked :
      (num_cores : ℕ) (m : Pmem) (d : Difftest R) {r : ℕ × Difftest R × Pmem}
      → finish_step proxy num_cores m d ≡ some r
      → Clocked d r.1
  unfolding finish_step
  finish_step-Clocked num_cores m d {r} h = elim (if-eq_cases (not d.has_commit) _ _ h) [
    | inl (_, left) ↦
        let same : d ≡ r.1 = ap (λ (t : ℕ × Difftest R × Pmem). t.1) (some-inj left) in
        record {
          ticks = ap (λ (x : Difftest R). x.ticks) (sym same);
          last = inl (ap (λ (x : Difftest R). x.last_commit) (sym same));
        }
    | inr (_, ran) ↦
        let (mid, events, ended) =
          >>=-eq-some (do_events proxy num_cores m (record d { num_commit = 0 }))
            (λ s. some (end_step proxy m s)) ran in
        let p = do_events-Clocked proxy num_cores m (record d { num_commit = 0 }) events in
        let q = end_step-Kept m mid in
        let all : Clocked d (end_step proxy m mid).1 =
          (let both = Clocked-trans p (Clocked-of_Kept q) in
            record { ticks = both.ticks; last = both.last }) in
        let same : (end_step proxy m mid).1 ≡ r.1 =
          ap (λ (t : ℕ × Difftest R × Pmem). t.1) (some-inj ended) in
        rw same at all
  ]

  update_memory-Kept :
      (num_cores : ℕ) (m : Pmem) (d : Difftest R) {r : ℕ × Difftest R × Pmem}
      → update_memory proxy num_cores m d ≡ some r
      → Kept d r.1
  unfolding update_memory do_golden_memory_update
  update_memory-Kept num_cores m d h = record { ticks = ground arith; last = ground arith }

  -- `check_timeout` is the test of both limits, which are equal.
  check_timeout-in_time :
      (d : Difftest R)
      → d.last_commit + 5000 < 2 ^ 64
      → (check_timeout proxy d).0 ≡ false
      → d.ticks ≤ d.last_commit + 5000
  unfolding check_timeout
  check_timeout-in_time d room h =
      let exact : add64 d.last_commit 5000 ≡ d.last_commit + 5000 = omega arith in ground arith

  -- While `ticks + 1` and `last_commit + 5000` fit in 64 bits, a step that returns 0 is one cycle
  -- later, and at most 5000 cycles after the last commit: a core that stops committing is reported.
  pub step_in_time :
      (num_cores : ℕ) (img : List ℕ) (m : Pmem) (d : Difftest R) {d' : Difftest R} {m' : Pmem}
      → d.ticks + 1 < 2 ^ 64
      → d.last_commit + 5000 < 2 ^ 64
      → step proxy num_cores img m d ≡ some (0, d', m')
      → (d'.ticks ≡ d.ticks + 1) × (d'.ticks ≤ d'.last_commit + 5000)
  unfolding begin_step do_store_check
  step_in_time num_cores img m d {d'} few room h =
      let (r, in_time, _, updated, _, finished) = step-eq_zero proxy num_cores img m d h in
      let start : add64 d.ticks 1 ≡ d.ticks + 1 = omega arith in
      let begun = check_timeout-in_time (begin_step d) room in_time in
      let timed = check_timeout-Kept proxy (begin_step d) in
      let first = do_first_instr_commit-Kept proxy img (check_timeout proxy (begin_step d)).1 in
      let stored =
        store_check_from-Kept proxy 2 0
          (do_first_instr_commit proxy img (check_timeout proxy (begin_step d)).1) in
      let before = Kept-trans timed (Kept-trans first stored) in
      let memory = update_memory-Kept num_cores m (stores proxy d img).1 updated in
      let after = finish_step-Clocked num_cores r.2 r.1 finished in
      let all = Clocked-trans (Clocked-of_Kept (Kept-trans before memory)) after in
      let now : d'.ticks ≡ d.ticks + 1 = all.ticks ∙ start in
      let due : d.ticks + 1 ≤ d.last_commit + 5000 = omega (arith, start, begun) in
      (
        now,
        elim all.last [
          | inl old ↦ omega (arith, now, old, due)
          | inr new ↦ omega (arith, now, new, start)
        ],
      )
