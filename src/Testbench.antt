-- ===== src/Testbench.antt =====
-- The test bench of verilate/include/testbench.h and verilate/vsrc/testbench.cpp: the registered
-- tests, the hooks and the deferred calls, and the serial run. `W` is everything that a test or a
-- hook may change: the model and the rest of the program. The thread that prints a status line
-- once a second and the times in the messages are left out.
pub mod Serial
pub mod Process
pub mod Parallel
pub mod Plugins
use riscv_single_cycle_cpu.Base.{
  ℕ, zero, suc, ◌+◌, Bool, true, false, Option, none, some, List, [], ◌∷◌, ◌++◌, if◌then◌else◌,
  length, get_elem?,
}

pub data TestbenchStatus : Type 0 where
  finished skipped : TestbenchStatus

-- What a test does between `WITH` and `AS`: its effect, what it defers, in order, and whether it
-- returned early by `SKIP`; `none` is an assertion that fails. A name is a number.
pub record Test (W : Type 0) : Type 0 where
  pub name : ℕ
  pub body : W → W × List (W → W) × Option TestbenchStatus

pub data Message : Type 0 where
  ok skip aborted : ℕ → Message
  passed : ℕ → Message

-- The line that `run` prints.
abbrev pub told : ℕ → TestbenchStatus → Message
told name finished = ok name
told name skipped = skip name

-- The static variables, the world, and what was printed.
pub record Bench (W : Type 0) : Type 0 where
  pub world : W
  pub test_list : List (Test W)
  pub current_test : Option (Test W)
  pub pretest_hook : W → W
  pub posttest_hook : W → W
  pub defer_list : List (W → W)
  pub global_defer_list : List (W → W)
  pub log : List Message

-- A call that returns, one in which an assertion fails, so that `abort` leaves the bench as it is,
-- and one for a test number out of range.
pub data Outcome (W A : Type 0) : Type 0 where
  passes : A → Outcome W A
  aborts : Bench W → Outcome W A
  undefined : Outcome W A

abbrev pub and_then : {W A B : Type 0} → Outcome W A → (A → Outcome W B) → Outcome W B
and_then (passes a) f = f a
and_then (aborts t) f = aborts t
and_then undefined f = undefined

module _ {W : Type 0} where
  abbrev pub is_nil : List (W → W) → Bool
  is_nil [] = true
  is_nil (f ∷ fs) = false

  -- From the last deferred call to the first.
  abbrev pub run_reversed : List (W → W) → W → W
  run_reversed [] w = w
  run_reversed (f ∷ fs) w = f (run_reversed fs w)

  -- `run_defers<RunLocal, RunGlobal>`
  unfoldable pub run_defers : Bool → Bool → Bench W → Bench W
  run_defers run_local run_global t =
      let local = if run_local then run_reversed t.defer_list t.world else t.world in
      record t { world = if run_global then run_reversed t.global_defer_list local else local }

  -- The constructor of `ITestbench` registers the test.
  unfoldable pub register : Test W → Bench W → Bench W
  register test t = record t { test_list = t.test_list ++ (test ∷ []) }

  -- `DeferListProxy`: its constructor, `defer`, and its destructor.
  unfoldable pub open_defers : Bench W → Outcome W (Bench W)
  open_defers t = if is_nil t.defer_list then passes t else aborts t

  unfoldable pub defer : (W → W) → Bench W → Bench W
  defer fn t = record t { defer_list = t.defer_list ++ (fn ∷ []) }

  unfoldable pub defer_all : List (W → W) → Bench W → Bench W
  unfolding defer
  defer_all [] t = t
  defer_all (fn ∷ fns) t = defer_all fns (defer fn t)

  unfoldable pub close_defers : Bench W → Bench W
  unfolding run_defers
  close_defers t = record (run_defers true false t) { defer_list = [] }

  -- `_run` as the macros `WITH` and `AS` make it.
  unfoldable pub run_body : Test W → Bench W → Outcome W (TestbenchStatus × Bench W)
  unfolding open_defers defer defer_all close_defers
  run_body test t = and_then (open_defers (record t { world = t.pretest_hook t.world })) (λ opened.
      let guarded = defer opened.posttest_hook opened in
      let done = test.body guarded.world in
      let left = defer_all done.1 (record guarded { world = done.0 }) in
      elim done.2 [ none ↦ aborts left | some status ↦ passes (status, close_defers left) ])

  -- `ITestbench::run`
  unfoldable pub run : Test W → Bench W → Outcome W (Bench W)
  unfolding run_body
  run test t =
      and_then (run_body test (record t { current_test = some test })) (λ r.
        passes (record r.1 { current_test = none; log = r.1.log ++ (told test.name r.0 ∷ []) }))

  unfoldable pub run_test : ℕ → Bench W → Outcome W (Bench W)
  unfolding run
  run_test i t = elim (get_elem? t.test_list i) [ none ↦ undefined | some test ↦ run test t ]

  -- The loop of `run_serial` with `n` rounds left, at test `i`.
  unfoldable pub run_from : ℕ → ℕ → ℕ → Bench W → Outcome W (ℕ × Bench W)
  unfolding run_test
  run_from zero i count t = passes (count, t)
  run_from (suc n) i count t = and_then (run_test i t) (run_from n (i + 1) (count + 1))

  unfoldable pub run_serial : Bench W → Outcome W (ℕ × Bench W)
  unfolding run_from
  run_serial t = run_from (length t.test_list) 0 0 t

  -- The end of `run_testbench`, after the tests.
  unfoldable pub report : ℕ → Bench W → Bench W
  unfolding run_defers
  report count t = run_defers false true (record t { log = t.log ++ (passed count ∷ []) })

  -- `run_testbench(1)`
  unfoldable pub run_testbench : Bench W → Outcome W (Bench W)
  unfolding run_serial report
  run_testbench t = and_then (run_serial t) (λ r. passes (report r.0 r.1))

  -- A program may have this called when it is aborted.
  unfoldable pub abort_testbench : Bench W → Bench W
  unfolding run_defers
  abort_testbench t =
      let reported : List Message = elim t.current_test [
        | none ↦ t.log
        | some test ↦ t.log ++ (aborted test.name ∷ [])
      ] in
      run_defers true true (record t { log = reported })
