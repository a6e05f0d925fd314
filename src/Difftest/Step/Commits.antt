-- ===== src/Difftest/Step/Commits.antt =====
-- The loop of `Difftest::step` over the commits of a cycle.
use riscv_single_cycle_cpu.Base.{
  ℕ, zero, suc, ◌+◌, ◌≤◌, ◌<◌, ◌≡◌, ◌≢◌, ◌⊎◌, inl, inr, sym, ◌∙◌, ap, arith, true, false, Option,
  some, ◌>>=◌, List, [], ◌∷◌, >>=-eq-some, Bool-cases, some-inj, if-eq_cases, get_or, set, length,
  get_or-set_self, get_or-set_ne, ◌==◌, ==_iff,
}
use riscv_single_cycle_cpu.Golden.{Pmem}
use riscv_single_cycle_cpu.Difftest.{CoreState, InstrCommit, no_commit}
use riscv_single_cycle_cpu.Difftest.Commit.{
  NemuProxy, Difftest, do_instr_commit, note_commit, skip_commit, check_load, rectify_load,
  rectify_dest,
}
use riscv_single_cycle_cpu.Difftest.Step.{commit_from, retire_commit, clear_commit}

abbrev pub commit_at : List InstrCommit → ℕ → InstrCommit
commit_at cs i = get_or cs i no_commit

-- What up to `n` rounds of the loop do to the commits, from `num_commit` being `k` on.
pub record Committed (n : ℕ) (cs : List InstrCommit) (k : ℕ) (cs' : List InstrCommit) (k' : ℕ)
    : Type 0 where
  pub forth : k ≤ k'
  pub valid : (i : ℕ) → k ≤ i → i < k' → (commit_at cs i).valid ≡ true
  pub cleared : (i : ℕ) → k ≤ i → i < k' → (commit_at cs' i).valid ≡ false
  pub others : (i : ℕ) → (i < k) ⊎ (k' ≤ i) → commit_at cs' i ≡ commit_at cs i
  pub stop : (k' ≡ k + n) ⊎ ((commit_at cs k').valid ≡ false)

in_range : (cs : List InstrCommit) (i : ℕ) → (get_or cs i no_commit).valid ≡ true → i < length cs
in_range [] i h = cc
in_range (c ∷ cs) zero h = omega arith
in_range (c ∷ cs) (suc i) h = omega (arith, in_range cs i h)

-- One round: the commit at `num_commit` is cleared, and no other.
abbrev after_one : List InstrCommit → ℕ → List InstrCommit
after_one cs k = set cs k (clear_commit (commit_at cs k))

after_one_self :
    (cs : List InstrCommit) (k : ℕ)
    → (commit_at cs k).valid ≡ true
    → (commit_at (after_one cs k) k).valid ≡ false
after_one_self cs k h =
    ap (λ (c : InstrCommit). c.valid)
      (get_or-set_self cs k (clear_commit (commit_at cs k)) no_commit (in_range cs k h))

after_one_other :
    (cs : List InstrCommit) (k i : ℕ) → k ≢ i → commit_at (after_one cs k) i ≡ commit_at cs i
after_one_other cs k i ne = get_or-set_ne cs k i _ no_commit ne

Committed-suc :
    (n : ℕ) (cs : List InstrCommit) (k : ℕ) {cs' : List InstrCommit} {k' : ℕ}
    → (commit_at cs k).valid ≡ true
    → Committed n (after_one cs k) (k + 1) cs' k'
    → Committed (suc n) cs k cs' k'
Committed-suc n cs k {cs'} {k'} first rest = record {
  forth = omega (arith, rest.forth);
  valid = λ i lo hi. elim (Bool-cases (i == k)) [
    | inl here ↦ rw (sym ((==_iff i k).0 here)) at first
    | inr away ↦ rw (after_one_other cs k i (ground arith)) at (rest.valid i (ground arith) hi)
  ];
  cleared = λ i lo hi. elim (Bool-cases (i == k)) [
    | inl here ↦
        let same : i ≡ k = (==_iff i k).0 here in
        rw (same, rest.others k (omega arith)) (after_one_self cs k first)
    | inr away ↦ rest.cleared i (ground arith) hi
  ];
  others =
      λ i out. rest.others i (omega arith) ∙ after_one_other cs k i (omega (arith, rest.forth));
  stop = elim rest.stop [
    | inl full ↦ inl (omega arith)
    | inr halt ↦ inr (rw (after_one_other cs k k' (omega (arith, rest.forth))) at halt)
  ];
}

Committed-none :
    (n : ℕ) (cs : List InstrCommit) (k : ℕ) {cs' : List InstrCommit} {k' : ℕ}
    → cs ≡ cs'
    → k ≡ k'
    → (k ≡ k + n) ⊎ ((commit_at cs k).valid ≡ false)
    → Committed n cs k cs' k'
Committed-none n cs k {cs'} {k'} same count stop = record {
  forth = omega arith;
  valid = λ i lo hi. absurd (omega arith);
  cleared = λ i lo hi. absurd (omega arith);
  others = λ i out. ap (λ (xs : List InstrCommit). commit_at xs i) (sym same);
  stop = elim stop [ inl full ↦ inl (omega arith) | inr halt ↦ inr (rw count at halt) ];
}

module _ {R : Type 0} (proxy : NemuProxy R) where
  skip_commit-dut :
      (c : InstrCommit) (d : Difftest R) {d' : Difftest R}
      → skip_commit proxy c d ≡ some d'
      → (d'.dut ≡ d.dut) × (d'.num_commit ≡ d.num_commit)
  unfolding skip_commit
  skip_commit-dut c d h = ground arith

  check_load-dut :
      (num_cores i : ℕ) (c : InstrCommit) (d : Difftest R) (m : Pmem) {d' : Difftest R}
      → check_load proxy num_cores i c d m ≡ some d'
      → (d'.dut ≡ d.dut) × (d'.num_commit ≡ d.num_commit)
  unfolding check_load rectify_load rectify_dest
  check_load-dut num_cores i c d m h = ground arith

  do_instr_commit-dut :
      (num_cores i : ℕ) (m : Pmem) (d : Difftest R) {d' : Difftest R}
      → do_instr_commit proxy num_cores i m d ≡ some d'
      → (d'.dut ≡ d.dut) × (d'.num_commit ≡ d.num_commit)
  unfolding do_instr_commit note_commit
  do_instr_commit-dut num_cores i m d {d'} h =
      elim (if-eq_cases (commit_at d.dut.commit i).skip
        (skip_commit proxy (commit_at d.dut.commit i) noted)
        (check_load proxy num_cores i (commit_at d.dut.commit i)
          (record noted { model = proxy.exec 1 noted.model }) m)
        h) [
          | inl (_, skipped) ↦ skip_commit-dut (commit_at d.dut.commit i) noted skipped
          | inr (_, ran) ↦
              check_load-dut num_cores i (commit_at d.dut.commit i)
                (record noted { model = proxy.exec 1 noted.model }) m ran
        ]
    where
      noted : Difftest R
      noted = note_commit proxy (commit_at d.dut.commit i) d

  -- `do_instr_commit` and the end of a round for the next `c` commits, whatever their valid bits.
  abbrev pub handle : ℕ → ℕ → Pmem → Difftest R → Option (Difftest R)
  handle num_cores zero m d = some d
  handle num_cores (suc c) m d = do_instr_commit proxy num_cores d.num_commit m d >>= λ s.
      handle num_cores c m (retire_commit s)

  handle-suc :
      (num_cores c : ℕ) (m : Pmem) (d : Difftest R) {mid d' : Difftest R}
      → do_instr_commit proxy num_cores d.num_commit m d ≡ some mid
      → handle num_cores c m (retire_commit mid) ≡ some d'
      → handle num_cores (suc c) m d ≡ some d'
  handle-suc num_cores c m d first rest = rw first rest

  -- When the commit loop ends without a failure, it has handled the commits one after another from
  -- `num_commit` on, each by `do_instr_commit` on the state that the one before it left. It has
  -- stopped at the first that is not valid or when its rounds were used up, has cleared the valid
  -- bit of those it has handled, and left every other commit as it was.
  pub commit_from-Committed :
      (num_cores n : ℕ) (m : Pmem) (d : Difftest R) {d' : Difftest R}
      → commit_from proxy num_cores n m d ≡ some d'
      → Committed n d.dut.commit d.num_commit d'.dut.commit d'.num_commit
        × (c : ℕ) × (d'.num_commit ≡ d.num_commit + c)
        × (handle num_cores c m d ≡ some d')
  unfolding commit_from
  commit_from-Committed num_cores zero m d {d'} h =
      let same = some-inj h in
      (
        Committed-none 0 d.dut.commit d.num_commit (ap (λ (x : Difftest R). x.dut.commit) same)
            (ap (λ (x : Difftest R). x.num_commit) same) (inl (omega arith)),
        0,
        ap (λ (x : Difftest R). x.num_commit) (sym same) ∙ omega arith,
        h,
      )
  commit_from-Committed num_cores (suc n) m d {d'} h =
      elim (if-eq_cases (get_or d.dut.commit d.num_commit no_commit).valid _ _ h) [
        | inr (off, left) ↦
            let same = some-inj left in
            (
              Committed-none (suc n) d.dut.commit d.num_commit
                  (ap (λ (x : Difftest R). x.dut.commit) same)
                  (ap (λ (x : Difftest R). x.num_commit) same) (inr off),
              0,
              ap (λ (x : Difftest R). x.num_commit) (sym same) ∙ omega arith,
              left,
            )
        | inl (on, ran) ↦
            let (mid, first, rest) =
              >>=-eq-some (do_instr_commit proxy num_cores d.num_commit m d)
                (λ s. commit_from proxy num_cores n m (retire_commit s)) ran in
            let (same, count) = do_instr_commit-dut num_cores d.num_commit m d first in
            let (later, c, last, handled) =
              commit_from-Committed num_cores n m (retire_commit mid) rest in
            (
              Committed-suc n d.dut.commit d.num_commit on
                  (rw (ap (λ (x : CoreState). x.commit) same, count) at later),
              suc c,
              omega (arith, last, count),
              handle-suc num_cores c m d first handled,
            )
      ]
