-- ===== src/Testbench/Process.antt =====
-- A worker process of verilate/vsrc/testbench.cpp, `run_worker`, against the tests that it is
-- sent. The pipes are a list: what the worker reads, one item for each request. At the end of the
-- list the pipe is closed, and `read` returns less than the size of an `int`.
use mathlib.Core.List.{append_assoc, append-nil}
use riscv_single_cycle_cpu.Base.{
  ℕ, zero, suc, ◌+◌, ◌<◌, ◌≡◌, refl, ◌∙◌, arith, true, false, Option, none, some, List, [], ◌∷◌,
  length, get_elem?, All, Option-cases, inl, inr,
}
use riscv_single_cycle_cpu.Testbench.{
  Test, Bench, Outcome, passes, and_then, told, run_reversed, run_defers, run_test,
}
use riscv_single_cycle_cpu.Testbench.Serial.{
  one_test, after, ran, ending, ending-printing, run-some, run-none, run_test_lem,
}

get_elem?-lt {ℓ} :
    {A : Type ℓ} (xs : List A) (i : ℕ) → i < length xs → (x : A) × (get_elem? xs i ≡ some x)
get_elem?-lt [] i h = absurd (omega arith)
get_elem?-lt (x ∷ xs) zero h = (x, refl)
get_elem?-lt (x ∷ xs) (suc i) h = get_elem?-lt xs i (omega arith)

-- The numbers that come before the end.
abbrev pub until_exit : List (Option ℕ) → List ℕ
until_exit [] = []
until_exit (none ∷ replies) = []
until_exit (some i ∷ replies) = i ∷ until_exit replies

module _ {W : Type 0} where
  -- `none` is the -1 that tells the worker to exit. The number of requests comes with the bench.
  unfoldable pub run_worker : ℕ → List (Option ℕ) → Bench W → Outcome W (ℕ × Bench W)
  unfolding run_test run_defers
  run_worker requests [] t = passes (requests + 1, run_defers false true t)
  run_worker requests (none ∷ replies) t = passes (requests + 1, run_defers false true t)
  run_worker requests (some i ∷ replies) t =
      and_then (run_test i t) (run_worker (requests + 1) replies)

  -- The tests of these numbers, in order.
  abbrev pub AreTests : List (Test W) → List ℕ → List (Test W) → Type 0
  AreTests list [] [] = Unit
  AreTests list [] (t ∷ ts) = ⊥
  AreTests list (i ∷ is) [] = ⊥
  AreTests list (i ∷ is) (t ∷ ts) = (get_elem? list i ≡ some t) × AreTests list is ts

  -- A worker that has run the tests: the number of its requests, the world after what was
  -- deferred globally, and what it printed; or the bench in which an assertion has failed.
  abbrev pub served : ℕ → Bench W → List (Test W) → Outcome W (ℕ × Bench W)
  served requests b ts =
      ending b
        (λ w printed.
          (requests + suc (length ts), after b (run_reversed b.global_defer_list w) printed))
        (ran b.pretest_hook b.posttest_hook ts b.world)

  pub run_worker_from :
      (replies : List (Option ℕ)) (ts : List (Test W)) (requests : ℕ) (b : Bench W)
      → b.defer_list ≡ []
      → b.current_test ≡ none
      → AreTests b.test_list (until_exit replies) ts
      → run_worker requests replies b ≡ served requests b ts
  unfolding run_worker run_defers
  run_worker_from [] [] requests b quiet idle tests = rw append-nil
  run_worker_from [] (t ∷ ts) requests b quiet idle tests = absurd tests
  run_worker_from (none ∷ replies) [] requests b quiet idle tests = rw append-nil
  run_worker_from (none ∷ replies) (t ∷ ts) requests b quiet idle tests = absurd tests
  run_worker_from (some i ∷ replies) [] requests b quiet idle tests = absurd tests
  run_worker_from (some i ∷ replies) (t ∷ ts) requests b quiet idle tests =
      elim (Option-cases (t.body (b.pretest_hook b.world)).2) [
        | inl fails ↦ rw (run_test_lem i t b tests.0, run-none t b (quiet, idle) fails, fails)
        | inr (status, returns) ↦
            let w1 = one_test b.pretest_hook b.posttest_hook t b.world in
            let m = told t.name status in
            let count_up : requests + 1 + suc (length ts) ≡ requests + suc (suc (length ts)) =
              omega arith in
            rw (run_test_lem i t b tests.0, run-some t b (quiet, idle) returns, returns)
              (run_worker_from replies ts (requests + 1) (after b w1 (m ∷ [])) quiet idle tests.1
                ∙ ending-printing b w1 m _ _ (ran b.pretest_hook b.posttest_hook ts w1)
                    (λ w ms. rw (append_assoc, count_up)))
      ]

  -- Numbers in range have tests.
  pub tests_in_range :
      (list : List (Test W)) (is : List ℕ)
      → All (λ i. i < length list) is
      → (ts : List (Test W)) × AreTests list is ts
  tests_in_range list [] h = ([], tt)
  tests_in_range list (i ∷ is) h =
      let (t, found) = get_elem?-lt list i h.0 in
      let (ts, rest) = tests_in_range list is h.1 in (t ∷ ts, (found, rest))
