-- ===== src/Testbench/Serial.antt =====
-- The serial run of verilate/vsrc/testbench.cpp against what it should come to.
use mathlib.Core.List.{append_assoc, append-nil}
use native.Mathlib.Nat.{add-zero}
use riscv_single_cycle_cpu.Base.{
  ℕ, suc, ◌+◌, ◌≡◌, refl, sym, ap, ◌∙◌, arith, none, some, List, [], ◌∷◌, ◌++◌, length, get_elem?,
  get_elem?-middle, length-append, Option-cases, inl, inr,
}
use riscv_single_cycle_cpu.Testbench.{
  TestbenchStatus, Test, Message, passed, Bench, Outcome, passes, aborts, and_then, told,
  run_reversed, run_body, run_defers, defer_all, defer, open_defers, close_defers, run, run_test,
  run_from, run_serial, report, run_testbench,
}

length-snoc {ℓ} : {A : Type ℓ} (xs : List A) (x : A) → length (xs ++ x ∷ []) ≡ length xs + 1
length-snoc xs x = length-append xs (x ∷ [])

-- What some tests in order come to: all return, or a test fails in the world that those before it
-- left. The messages are those of the tests that have returned.
pub data Ran (W : Type 0) : Type 0 where
  all_return : W → List Message → Ran W
  fails_in : Test W → W → List Message → Ran W

module _ {W : Type 0} where
  -- One test: the pre-test hook, the body, what the body deferred, from the last to the first, and
  -- the post-test hook.
  abbrev pub one_test : (W → W) → (W → W) → Test W → W → W
  one_test pre post test w = let done = test.body (pre w) in post (run_reversed done.1 done.0)

  defer_all_lem :
      (fs : List (W → W)) (b : Bench W)
      → defer_all fs b ≡ record b { defer_list = b.defer_list ++ fs }
  unfolding defer_all defer
  defer_all_lem [] b = rw (append-nil b.defer_list)
  defer_all_lem (f ∷ fs) b =
      defer_all_lem fs (defer f b)
      ∙ ap (λ (l : List (W → W)). record b { defer_list = l })
          (append_assoc b.defer_list (f ∷ []) fs)

  run_reversed-append :
      (fs gs : List (W → W)) (w : W)
      → run_reversed (fs ++ gs) w ≡ run_reversed fs (run_reversed gs w)
  run_reversed-append [] gs w = refl
  run_reversed-append (f ∷ fs) gs w = ap f (run_reversed-append fs gs w)

  -- The bench after some tests: the world, and what they printed.
  abbrev pub after : Bench W → W → List Message → Bench W
  after b w printed = record b { world = w; log = b.log ++ printed }

  abbrev pub IsReady : Bench W → Type 0
  IsReady b = (b.defer_list ≡ []) × (b.current_test ≡ none)

  -- The bench in which an assertion of a test fails: the test is the current one, and the
  -- post-test hook and what the test has deferred are still to run.
  abbrev pub stopped : Bench W → Test W → W → List Message → Bench W
  stopped b test w printed =
      let done = test.body (b.pretest_hook w) in
      record b {
        world = done.0;
        current_test = some test;
        defer_list = b.posttest_hook ∷ done.1;
        log = b.log ++ printed;
      }

  pub run-some :
      (test : Test W) (b : Bench W) {status : TestbenchStatus}
      → IsReady b
      → (test.body (b.pretest_hook b.world)).2 ≡ some status
      → run test b
        ≡ passes (
            after b
              (one_test b.pretest_hook b.posttest_hook test b.world)
              (told test.name status ∷ []))
  unfolding run run_body run_defers defer open_defers close_defers
  run-some test b ready returns = rw (ready.0, ready.1, returns, defer_all_lem)

  pub run-none :
      (test : Test W) (b : Bench W)
      → IsReady b
      → (test.body (b.pretest_hook b.world)).2 ≡ none
      → run test b ≡ aborts (stopped b test b.world [])
  unfolding run run_body run_defers defer open_defers close_defers
  run-none test b ready fails = rw (ready.0, fails, defer_all_lem, append-nil)

  pub run_test_lem :
      (i : ℕ) (test : Test W) (b : Bench W)
      → get_elem? b.test_list i ≡ some test
      → run_test i b ≡ run test b
  unfolding run_test
  run_test_lem i test b h = rw (run_test, h)

  abbrev pub printing : Message → Ran W → Ran W
  printing m (all_return w ms) = all_return w (m ∷ ms)
  printing m (fails_in t w ms) = fails_in t w (m ∷ ms)

  abbrev pub ran : (W → W) → (W → W) → List (Test W) → W → Ran W
  ran pre post [] w = all_return w []
  ran pre post (t ∷ ts) w =
      let rest = ran pre post ts (one_test pre post t w) in
      elim (t.body (pre w)).2 [
        | none ↦ fails_in t w []
        | some status ↦ printing (told t.name status) rest
      ]

  -- A call that begins with the bench `b`, runs the tests, and yields `f` if all return.
  abbrev pub ending : {A : Type 0} → Bench W → (W → List Message → A) → Ran W → Outcome W A
  ending b f (all_return w ms) = passes (f w ms)
  ending b f (fails_in t w ms) = aborts (stopped b t w ms)

  -- A test that returned, before the others.
  pub ending-printing :
      {A : Type 0} (b : Bench W) (w1 : W) (m : Message) (f g : W → List Message → A) (r : Ran W)
      → ((w : W) (ms : List Message) → g w ms ≡ f w (m ∷ ms))
      → ending (after b w1 (m ∷ [])) g r ≡ ending b f (printing m r)
  ending-printing b w1 m f g (all_return w ms) same = ap passes (same w ms)
  ending-printing b w1 m f g (fails_in t w ms) same = rw (append_assoc)

  run_from_lem :
      (done rest : List (Test W)) (b : Bench W) (count : ℕ)
      → IsReady b
      → b.test_list ≡ done ++ rest
      → run_from (length rest) (length done) count b
        ≡ ending b
            (λ w ms. (count + length rest, after b w ms))
            (ran b.pretest_hook b.posttest_hook rest b.world)
  unfolding run_from
  run_from_lem done [] b count ready all = rw (add-zero, append-nil)
  run_from_lem done (t ∷ rest) b count ready all =
      let here : get_elem? b.test_list (length done) ≡ some t =
        ap (λ (ts : List (Test W)). get_elem? ts (length done)) all
        ∙ get_elem?-middle done t rest in
      elim (Option-cases (t.body (b.pretest_hook b.world)).2) [
        | inl fails ↦ rw (run_test_lem (length done) t b here, run-none t b ready fails, fails)
        | inr (status, returns) ↦
            let w1 = one_test b.pretest_hook b.posttest_hook t b.world in
            let m = told t.name status in
            let count_up : count + 1 + length rest ≡ count + suc (length rest) = omega arith in
            rw
              (
                run_test_lem (length done) t b here,
                run-some t b ready returns,
                returns,
                ← length-snoc done t,
              )
              (run_from_lem (done ++ t ∷ []) rest (after b w1 (m ∷ [])) (count + 1) ready
                  (all ∙ sym (append_assoc done (t ∷ []) rest))
                ∙ ending-printing b w1 m _ _ (ran b.pretest_hook b.posttest_hook rest w1)
                    (λ w ms. rw (append_assoc, count_up)))
      ]

  -- A serial run that starts with no test under way and nothing deferred runs the tests in the
  -- order of their registration, each between the hooks and with what it deferred run from the
  -- last to the first, and prints a line for each. If all return, it prints the number of the
  -- tests and runs what was deferred globally, from the last to the first. At the first test of
  -- which an assertion fails it aborts: no test after it runs, the test is the current one, and
  -- the post-test hook and what the test deferred are left for `abort_testbench` to run.
  pub run_testbench_lem :
      (b : Bench W)
      → b.defer_list ≡ []
      → b.current_test ≡ none
      → run_testbench b
        ≡ ending b
            (λ w printed.
              after b
                (run_reversed b.global_defer_list w)
                (printed ++ passed (length b.test_list) ∷ []))
            (ran b.pretest_hook b.posttest_hook b.test_list b.world)
  unfolding run_testbench run_serial report run_defers
  run_testbench_lem b quiet idle =
      let zero_more : 0 + length b.test_list ≡ length b.test_list = omega arith in
      rw (run_from_lem [] b.test_list b 0 (quiet, idle) refl, zero_more)
        (finish (ran b.pretest_hook b.posttest_hook b.test_list b.world))
    where
      finish :
          (r : Ran W)
          → and_then {A = ℕ × Bench W} {B = Bench W}
              (ending b (λ w ms. (length b.test_list, after b w ms)) r)
              (λ t. passes (report t.0 t.1))
            ≡ ending b
                (λ w printed.
                  after b
                    (run_reversed b.global_defer_list w)
                    (printed ++ passed (length b.test_list) ∷ []))
                r
      finish (all_return w ms) = rw (append_assoc)
      finish (fails_in t w ms) = refl
