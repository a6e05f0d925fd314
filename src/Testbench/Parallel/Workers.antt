-- ===== src/Testbench/Parallel/Workers.antt =====
-- The parallel run of verilate/vsrc/testbench.cpp as a whole: what the master sends to a worker is
-- what the worker reads.
use riscv_single_cycle_cpu.Base.{
  ℕ, zero, suc, ◌<◌, ◌≤◌, ◌≡◌, arith, Option, none, some, List, [], ◌∷◌, ◌++◌, ◌==◌, if◌then◌else◌,
  length, All, Bool-cases, inl, inr,
}
use riscv_single_cycle_cpu.Testbench.{Test, Bench}
use riscv_single_cycle_cpu.Testbench.Parallel.{Reading, run_parallel}
use riscv_single_cycle_cpu.Testbench.Parallel.Counts.{tests_of, below}
use riscv_single_cycle_cpu.Testbench.Parallel.Dispatch.{run_parallel-sends}
use riscv_single_cycle_cpu.Testbench.Process.{
  run_worker, until_exit, AreTests, served, run_worker_from, tests_in_range,
}

-- The pipe to worker `j`.
abbrev pub sent_to : ℕ → List (ℕ × Option ℕ) → List (Option ℕ)
sent_to j [] = []
sent_to j ((k, message) ∷ sent) =
    let rest = sent_to j sent in if k == j then message ∷ rest else rest

All-sent_to :
    (P : ℕ → Type 0) (j : ℕ) (sent : List (ℕ × Option ℕ))
    → All P (tests_of sent)
    → All P (until_exit (sent_to j sent))
All-sent_to P j [] h = tt
All-sent_to P j ((k, none) ∷ sent) h = elim (Bool-cases (k == j)) [
  | inl here ↦ rw here tt
  | inr other ↦ rw other (All-sent_to P j sent h)
]
All-sent_to P j ((k, some i) ∷ sent) h = elim (Bool-cases (k == j)) [
  | inl here ↦ rw here (h.0, All-sent_to P j sent h.1)
  | inr other ↦ rw other (All-sent_to P j sent h.1)
]

All-append : (P : ℕ → Type 0) (xs ys : List ℕ) → All P xs → All P ys → All P (xs ++ ys)
All-append P [] ys h k = k
All-append P (x ∷ xs) ys h k = (h.0, All-append P xs ys h.1 k)

below-lt : (n total : ℕ) → n ≤ total → All (λ i. i < total) (below n)
below-lt zero total h = tt
below-lt (suc n) total h =
    All-append (λ i. i < total) (below n) (n ∷ []) (below-lt n total (omega arith))
      (omega arith, tt)

-- Whichever requests the master has served, a worker runs just the tests whose numbers the master
-- has sent to it before the notice to exit, in that order; every number has a test. If all return,
-- it has made one request more than there are tests, and runs what was deferred globally. At the
-- first of which an assertion fails it aborts, and runs no other.
pub run_worker-run_parallel :
    {W : Type 0} (n_workers j : ℕ) (selects : List (ℕ → Reading)) (b : Bench W)
    → b.defer_list ≡ []
    → b.current_test ≡ none
    → let replies = sent_to j (run_parallel n_workers (length b.test_list) selects).sent in
      (ts : List (Test W)) × AreTests b.test_list (until_exit replies) ts
      × (run_worker 0 replies b ≡ served 0 b ts)
run_worker-run_parallel n_workers j selects b quiet idle =
    let m = run_parallel n_workers (length b.test_list) selects in
    let (order, bound, _) = run_parallel-sends n_workers (length b.test_list) selects in
    let small : All (λ i. i < length b.test_list) (tests_of m.sent) =
      rw order (below-lt m.dispatched (length b.test_list) bound) in
    let (ts, tests) =
      tests_in_range b.test_list (until_exit (sent_to j m.sent)) (All-sent_to _ j m.sent small) in
    (ts, tests, run_worker_from (sent_to j m.sent) ts 0 b quiet idle tests)
