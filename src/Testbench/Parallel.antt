-- ===== src/Testbench/Parallel.antt =====
-- `run_parallel` of verilate/vsrc/testbench.cpp: the master that hands the tests to worker
-- processes. A round of its loop is one `select`, whose outcome for each worker is an argument.
-- The pipes, `fork` and the killing of workers after a failure are the operating system's.
pub mod Counts
pub mod Dispatch
pub mod Workers
use riscv_single_cycle_cpu.Base.{
  ℕ, zero, suc, ◌+◌, Bool, true, false, Option, none, some, List, [], ◌∷◌, ◌++◌, ltb, leb, not,
  ◌||◌, if◌then◌else◌, length, get_or, set, replicate,
}

-- What `select` and `read` give for the pipe of one worker.
pub data Reading : Type 0 where
  not_ready end_of_file request : Reading

-- `worker` says which pipes are not closed, and `sent` holds what was written: the worker, and
-- the number of a test, or `none` for -1.
pub record Master : Type 0 where
  pub dispatched : ℕ
  pub exited : ℕ
  pub passed : ℕ
  pub failed : Bool
  pub first : List Bool
  pub worker : List Bool
  pub sent : List (ℕ × Option ℕ)

abbrev pub start : ℕ → Master
start n_workers = record {
  dispatched = 0;
  exited = 0;
  passed = 0;
  failed = false;
  first = replicate n_workers true;
  worker = replicate n_workers true;
  sent = [];
}

abbrev pub write : ℕ → Option ℕ → Master → Master
write j message m = record m { sent = m.sent ++ ((j, message) ∷ []) }

-- `if (first[j]) …`
unfoldable pub note_request : ℕ → Master → Master
note_request j m =
    if get_or m.first j true
    then record m { first = set m.first j false }
    else record m { passed = m.passed + 1 }

-- The next test, or the notice to exit.
unfoldable pub dispatch : ℕ → ℕ → Master → Master
dispatch total j m =
    if ltb m.dispatched total
    then record (write j (some m.dispatched) m) { dispatched = m.dispatched + 1 }
    else record (write j none m) { worker = set m.worker j false; exited = m.exited + 1 }

-- The body of the loop over the workers.
unfoldable pub serve : ℕ → ℕ → Reading → Master → Master
unfolding note_request dispatch
serve total j reading m = if not (get_or m.worker j false) then m else elim reading [
  | not_ready ↦ m
  | end_of_file ↦ record m { failed = true }
  | request ↦ dispatch total j (note_request j m)
]

-- The loop over the workers, with `n` left, at worker `j`; a failure leaves it.
unfoldable pub serve_from : ℕ → (ℕ → Reading) → ℕ → ℕ → Master → Master
unfolding serve
serve_from total readings zero j m = m
serve_from total readings (suc n) j m =
    let m' = serve total j (readings j) m in
    let rest = serve_from total readings n (j + 1) m' in if m'.failed then m' else rest

-- The loop `while (!failed && exited < n_workers)`, for the selects that are given.
unfoldable pub rounds : ℕ → ℕ → List (ℕ → Reading) → Master → Master
unfolding serve_from
rounds n_workers total [] m = m
rounds n_workers total (readings ∷ more) m =
    let m' = serve_from total readings (length m.worker) 0 m in
    rounds n_workers total more (if m.failed || leb n_workers m.exited then m else m')

-- The master after the selects that are given; it returns `passed`.
unfoldable pub run_parallel : ℕ → ℕ → List (ℕ → Reading) → Master
unfolding rounds
run_parallel n_workers total selects = rounds n_workers total selects (start n_workers)
