-- ===== src/Difftest/Step/Agreement.antt =====
-- The registers at the end of `Difftest::step`, difftest/src/test/csrc/difftest/difftest.cpp.
use riscv_single_cycle_cpu.Base.{
  ℕ, ◌≢◌, ◌≡◌, ◌⊎◌, inl, inr, refl, sym, ◌∙◌, ap, arith, Bool, true, false, some, List, ◌==◌, not,
  ◌>>=◌, >>=-eq-some, Bool-cases, some-triple, some-inj, if-eq_cases, if◌then◌else◌, length, All,
  suc, [], ◌∷◌,
}
use riscv_single_cycle_cpu.Golden.{Pmem}
use riscv_single_cycle_cpu.Difftest.{regs_words}
use riscv_single_cycle_cpu.Difftest.Regfile.{same_regs_iff}
use riscv_single_cycle_cpu.Difftest.Commit.{NemuProxy, Difftest, do_first_instr_commit}
use riscv_single_cycle_cpu.Difftest.Step.{
  step_from, compare_regs, end_step, finish_step, update_memory, after_memory, begin_step, step,
  do_events, check_timeout, do_store_check,
}

code_zero : (code : ℕ) → not (code == 0) ≡ false → code ≡ 0
code_zero code h = ground arith

code_positive : (code : ℕ) → not (code == 0) ≡ true → code ≢ 0
code_positive code h = ground arith

module _ {R : Type 0} (proxy : NemuProxy R) where
  -- The registers of the design are those of the reference, up to the PC: the reference's is kept
  -- for the next step.
  pub record Agreed (d : Difftest R) : Type 0 where
    pub words : regs_words d.dut.regs ≡ regs_words d.ref'
    pub gpr : d.ref'.gpr ≡ (proxy.regcpy_to_dut d.model).gpr
    pub fpr : d.ref'.fpr ≡ (proxy.regcpy_to_dut d.model).fpr
    pub csr : d.ref'.csr ≡ record (proxy.regcpy_to_dut d.model).csr { this_pc = d.ref'.csr.this_pc }
    pub pc : d.nemu_this_pc ≡ (proxy.regcpy_to_dut d.model).csr.this_pc

  compare_regs-Agreed :
      (d : Difftest R) → (compare_regs proxy d).0 ≡ true → Agreed (compare_regs proxy d).1
  unfolding compare_regs
  compare_regs-Agreed d h = record {
    words = (same_regs_iff _ _).0 h;
    gpr = refl;
    fpr = refl;
    csr = refl;
    pc = refl;
  }

  end_step-Agreed :
      (m : Pmem) (d : Difftest R) {d' : Difftest R} {m' : Pmem}
      → end_step proxy m d ≡ (0, d', m')
      → (d'.progress ≡ false) ⊎ Agreed d'
  unfolding end_step
  end_step-Agreed m d {d'} {m'} h = elim (if-eq_cases (not d.progress) (0, d, m) _ h) [
    | inl (still, left) ↦
        let (_, same, _) = some-triple (ap some left) in
        let idle : d.progress ≡ false = ground arith in
        inl (ap (λ (x : Difftest R). x.progress) (sym same) ∙ idle)
    | inr (moved, compared) ↦
        let (code, same, _) = some-triple (ap some compared) in
        inr (elim (Bool-cases (compare_regs proxy d).0) [
          | inl agree ↦ rw same at (compare_regs-Agreed d agree)
          | inr differ ↦ absurd (let bad = rw differ at code in omega arith)
        ])
  ]

  finish_step-Agreed :
      (num_cores : ℕ) (m : Pmem) (d : Difftest R) {d' : Difftest R} {m' : Pmem}
      → finish_step proxy num_cores m d ≡ some (0, d', m')
      → (d'.has_commit ≡ false) ⊎ (d'.progress ≡ false) ⊎ Agreed d'
  unfolding finish_step
  finish_step-Agreed num_cores m d {d'} {m'} h =
      elim (if-eq_cases (not d.has_commit) (some (0, d, m)) _ h) [
        | inl (off, left) ↦
            let (_, same, _) = some-triple left in
            let idle : d.has_commit ≡ false = ground arith in
            inl (ap (λ (x : Difftest R). x.has_commit) (sym same) ∙ idle)
        | inr (on, ran) ↦
            let (mid, events, ended) =
              >>=-eq-some (do_events proxy num_cores m (record d { num_commit = 0 }))
                (λ s. some (end_step proxy m s)) ran in
            inr (end_step-Agreed m mid (some-inj ended))
      ]

  after_memory-eq_zero :
      (num_cores : ℕ) (r : ℕ × Difftest R × Pmem) {d' : Difftest R} {m' : Pmem}
      → after_memory proxy num_cores r ≡ some (0, d', m')
      → (r.0 ≡ 0) × (finish_step proxy num_cores r.2 r.1 ≡ some (0, d', m'))
  unfolding after_memory
  after_memory-eq_zero num_cores r h = elim (if-eq_cases (not (r.0 == 0)) _ _ h) [
    | inl (_, refused) ↦ absurd (let (code, _, _) = some-triple refused in omega arith)
    | inr (kept, finished) ↦ (ground arith, finished)
  ]

  -- The store check of a step, after the first instruction.
  abbrev pub stores : Difftest R → List ℕ → Bool × Difftest R
  stores d img =
      do_store_check proxy (do_first_instr_commit proxy img (check_timeout proxy (begin_step d)).1)

  -- What a step that passes has gone through.
  pub step-eq_zero :
      (num_cores : ℕ) (img : List ℕ) (m : Pmem) (d : Difftest R) {d' : Difftest R} {m' : Pmem}
      → step proxy num_cores img m d ≡ some (0, d', m')
      → (r : ℕ × Difftest R × Pmem) × ((check_timeout proxy (begin_step d)).0 ≡ false)
        × ((stores d img).0 ≡ false)
        × (update_memory proxy num_cores m (stores d img).1 ≡ some r)
        × (r.0 ≡ 0)
        × (finish_step proxy num_cores r.2 r.1 ≡ some (0, d', m'))
  unfolding step
  step-eq_zero num_cores img m d {d'} {m'} h =
      elim (if-eq_cases (check_timeout proxy (begin_step d)).0 _ _ h) [
        | inl (_, late) ↦ absurd (let (code, _, _) = some-triple late in omega arith)
        | inr (in_time, checked) ↦
            elim (if-eq_cases (stores d img).0 (some (1, (stores d img).1, m))
              (update_memory proxy num_cores m (stores d img).1 >>= after_memory proxy num_cores)
              checked) [
                | inl (_, differ) ↦ absurd (let (code, _, _) = some-triple differ in omega arith)
                | inr (stored, went_on) ↦
                    let (r, updated, ended) =
                      >>=-eq-some (update_memory proxy num_cores m (stores d img).1)
                        (after_memory proxy num_cores) went_on in
                    let (zero_code, finished) = after_memory-eq_zero num_cores r ended in
                    (r, in_time, stored, updated, zero_code, finished)
              ]
      ]

  -- A step that returns 0 leaves a core that has not started, or one where nothing retired in the
  -- step, or one whose registers, general, floating point and control, all equal those read from
  -- the reference but for the PC, the reference's PC being kept for the next step.
  pub step-Agreed :
      (num_cores : ℕ) (img : List ℕ) (m : Pmem) (d : Difftest R) {d' : Difftest R} {m' : Pmem}
      → step proxy num_cores img m d ≡ some (0, d', m')
      → (d'.has_commit ≡ false) ⊎ (d'.progress ≡ false) ⊎ Agreed d'
  step-Agreed num_cores img m d h =
      let (r, _, _, _, _, finished) = step-eq_zero num_cores img m d h in
      finish_step-Agreed num_cores r.2 r.1 finished

  -- What a core that passes a step is like.
  abbrev pub Passed : Difftest R → Type 0
  Passed d = (d.has_commit ≡ false) ⊎ (d.progress ≡ false) ⊎ Agreed d

  -- When the loop of `difftest_step` over the cores returns 0, it has stepped every core, and each is
  -- not started, or without an instruction that retired, or equal in all registers to its reference.
  pub step_from-Passed :
      (num_cores : ℕ) (img : List ℕ) (m : Pmem) (ds : List (Difftest R)) {ds' : List (Difftest R)}
      {m' : Pmem}
      → step_from proxy num_cores img m ds ≡ some (0, ds', m')
      → (length ds' ≡ length ds) × All Passed ds'
  unfolding step_from
  step_from-Passed num_cores img m [] {ds'} h =
      let (_, same, _) = some-triple h in rw (← same) (refl, tt)
  step_from-Passed num_cores img m (d ∷ ds) {ds'} {m'} h =
      let (r, one, rest) =
        >>=-eq-some (step proxy num_cores img m d)
          (λ r.
            if not (r.0 == 0)
            then some (r.0, r.1 ∷ ds, r.2)
            else (step_from proxy num_cores img r.2 ds >>= λ t. some (t.0, r.1 ∷ t.1, t.2)))
          h in
      elim (if-eq_cases (not (r.0 == 0)) _ _ rest) [
        | inl (bad, refused) ↦
            absurd (let (code, _, _) = some-triple refused in code_positive r.0 bad code)
        | inr (good, went_on) ↦
            let code = code_zero r.0 good in
            let (t, others, done) =
              >>=-eq-some (step_from proxy num_cores img r.2 ds) (λ t. some (t.0, r.1 ∷ t.1, t.2))
                went_on in
            let (last_code, same, _) = some-triple done in
            let (count, all) =
              step_from-Passed num_cores img r.2 ds
                (others ∙ ap some (ap (λ (c : ℕ). (c, t.1, t.2)) last_code)) in
            let first =
              step-Agreed num_cores img m d (one ∙ ap some (ap (λ (c : ℕ). (c, r.1, r.2)) code)) in
            rw (← same) (ap suc count, (first, all))
      ]
