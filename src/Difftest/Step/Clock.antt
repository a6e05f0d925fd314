-- ===== src/Difftest/Step/Clock.antt =====
-- What the handlers of `Difftest::step` do to `ticks` and `last_commit`.
use riscv_single_cycle_cpu.Base.{
  ℕ, zero, suc, ◌+◌, ◌≡◌, ◌⊎◌, inl, inr, refl, ◌∙◌, arith, some, List, ◌==◌, not, >>=-eq-some,
  if-eq_cases, get_or, set,
}
use riscv_single_cycle_cpu.Golden.{Pmem}
use riscv_single_cycle_cpu.Difftest.{InstrCommit, LoadEvent, no_commit, no_store}
use riscv_single_cycle_cpu.Difftest.Commit.{
  NemuProxy, Difftest, do_first_instr_commit, do_interrupt, do_exception, do_instr_commit,
  note_commit, skip_commit, check_load, rectify_load, rectify_dest,
}
use riscv_single_cycle_cpu.Difftest.Step.{
  do_events, check_timeout, store_check_from, commit_from, retire_commit, clear_store,
}

-- The clock stands, and the last commit is as before.
pub record Kept {R : Type 0} (d d' : Difftest R) : Type 0 where
  pub ticks : d'.ticks ≡ d.ticks
  pub last : d'.last_commit ≡ d.last_commit

-- The clock stands, and the last commit is as before or now.
pub record Clocked {R : Type 0} (d d' : Difftest R) : Type 0 where
  pub ticks : d'.ticks ≡ d.ticks
  pub last : (d'.last_commit ≡ d.last_commit) ⊎ (d'.last_commit ≡ d.ticks)

module _ {R : Type 0} where
  pub Kept-refl : (d : Difftest R) → Kept d d
  Kept-refl d = record { ticks = refl; last = refl }

  pub Kept-trans : {d e f : Difftest R} → Kept d e → Kept e f → Kept d f
  Kept-trans p q = record { ticks = q.ticks ∙ p.ticks; last = q.last ∙ p.last }

  pub Clocked-trans : {d e f : Difftest R} → Clocked d e → Clocked e f → Clocked d f
  Clocked-trans p q = record { ticks = q.ticks ∙ p.ticks; last = ground arith }

  pub Clocked-of_Kept : {d e : Difftest R} → Kept d e → Clocked d e
  Clocked-of_Kept p = record { ticks = p.ticks; last = inl p.last }

module _ {R : Type 0} (proxy : NemuProxy R) where
  pub do_first_instr_commit-Kept :
      (img : List ℕ) (d : Difftest R) → Kept d (do_first_instr_commit proxy img d)
  unfolding do_first_instr_commit
  do_first_instr_commit-Kept img d = record { ticks = ground arith; last = ground arith }

  pub check_timeout-Kept : (d : Difftest R) → Kept d (check_timeout proxy d).1
  unfolding check_timeout
  check_timeout-Kept d = record { ticks = ground arith; last = ground arith }

  pub store_check_from-Kept : (n i : ℕ) (d : Difftest R) → Kept d (store_check_from proxy n i d).1
  unfolding store_check_from
  store_check_from-Kept zero i d = Kept-refl d
  store_check_from-Kept (suc n) i d =
      let rest = store_check_from-Kept n (i + 1) (record d {
        model =
            (proxy.store_commit (get_or d.dut.store i no_store).addr
              (get_or d.dut.store i no_store).data' (get_or d.dut.store i no_store).mask d.model).1;
        dut = record d.dut {
          store = set d.dut.store i (clear_store (get_or d.dut.store i no_store));
        };
      }) in
      let one = rest.ticks in
      let two = rest.last in record { ticks = ground arith; last = ground arith }

  rectify_dest-Kept :
      (c : InstrCommit) (d : Difftest R) {d' : Difftest R}
      → rectify_dest proxy c d ≡ some d'
      → Kept d d'
  unfolding rectify_dest
  rectify_dest-Kept c d h = record { ticks = ground arith; last = ground arith }

  skip_commit-Kept :
      (c : InstrCommit) (d : Difftest R) {d' : Difftest R}
      → skip_commit proxy c d ≡ some d'
      → Kept d d'
  unfolding skip_commit
  skip_commit-Kept c d h = record { ticks = ground arith; last = ground arith }

  rectify_load-Kept :
      (c : InstrCommit) (l : LoadEvent) (d : Difftest R) (m : Pmem) {d' : Difftest R}
      → rectify_load proxy c l d m ≡ some d'
      → Kept d d'
  unfolding rectify_load rectify_dest
  rectify_load-Kept c l d m h = record { ticks = ground arith; last = ground arith }

  check_load-Kept :
      (num_cores i : ℕ) (c : InstrCommit) (d : Difftest R) (m : Pmem) {d' : Difftest R}
      → check_load proxy num_cores i c d m ≡ some d'
      → Kept d d'
  unfolding check_load rectify_load rectify_dest
  check_load-Kept num_cores i c d m h = record { ticks = ground arith; last = ground arith }

  Clocked-of_note :
      (c : InstrCommit) (d : Difftest R) {d' : Difftest R}
      → Kept (note_commit proxy c d) d'
      → Clocked d d'
  unfolding note_commit
  Clocked-of_note c d p = record { ticks = p.ticks; last = inr p.last }

  -- A commit is made now.
  do_instr_commit-Clocked :
      (num_cores i : ℕ) (m : Pmem) (d : Difftest R) {d' : Difftest R}
      → do_instr_commit proxy num_cores i m d ≡ some d'
      → Clocked d d'
  unfolding do_instr_commit
  do_instr_commit-Clocked num_cores i m d {d'} h =
      elim (if-eq_cases (get_or d.dut.commit i no_commit).skip (skip_commit proxy c noted)
        (check_load proxy num_cores i c (record noted { model = proxy.exec 1 noted.model }) m) h) [
          | inl (_, skipped) ↦ again (skip_commit-Kept c noted skipped)
          | inr (_, ran) ↦
              let kept =
                check_load-Kept num_cores i c (record noted { model = proxy.exec 1 noted.model }) m
                  ran in
              again (record { ticks = kept.ticks; last = kept.last })
        ]
    where
      c : InstrCommit
      c = get_or d.dut.commit i no_commit

      noted : Difftest R
      noted = note_commit proxy c d

      again : Kept noted d' → Clocked d d'
      again p = Clocked-of_note c d p

  commit_from-Clocked :
      (num_cores n : ℕ) (m : Pmem) (d : Difftest R) {d' : Difftest R}
      → commit_from proxy num_cores n m d ≡ some d'
      → Clocked d d'
  unfolding commit_from
  commit_from-Clocked num_cores zero m d h = record { ticks = ground arith; last = ground arith }
  commit_from-Clocked num_cores (suc n) m d {d'} h =
      elim (if-eq_cases (get_or d.dut.commit d.num_commit no_commit).valid _ _ h) [
        | inr (_, left) ↦ record { ticks = ground arith; last = ground arith }
        | inl (_, ran) ↦
            let (mid, first, rest) =
              >>=-eq-some (do_instr_commit proxy num_cores d.num_commit m d)
                (λ s. commit_from proxy num_cores n m (retire_commit s)) ran in
            let p = do_instr_commit-Clocked num_cores d.num_commit m d first in
            let q = commit_from-Clocked num_cores n m (retire_commit mid) rest in
            Clocked-trans p (record { ticks = q.ticks; last = q.last })
      ]

  pub do_events-Clocked :
      (num_cores : ℕ) (m : Pmem) (d : Difftest R) {d' : Difftest R}
      → do_events proxy num_cores m d ≡ some d'
      → Clocked d d'
  unfolding do_events do_interrupt do_exception
  do_events-Clocked num_cores m d {d'} h =
      elim (if-eq_cases (not (d.dut.event.interrupt == 0)) _ _ h) [
        | inl (_, interrupted) ↦ record { ticks = ground arith; last = ground arith }
        | inr (_, going) ↦ elim (if-eq_cases (not (d.dut.event.exception == 0)) _ _ going) [
          | inl (_, excepted) ↦ record { ticks = ground arith; last = ground arith }
          | inr (_, committed) ↦ commit_from-Clocked num_cores 6 m d committed
        ]
      ]
