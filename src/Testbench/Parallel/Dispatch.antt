-- ===== src/Testbench/Parallel/Dispatch.antt =====
-- What the master of verilate/vsrc/testbench.cpp guarantees, whatever the workers do.
use riscv_single_cycle_cpu.Base.{
  ℕ, zero, suc, ◌+◌, ◌<◌, ◌≤◌, ◌≡◌, refl, sym, ap, ◌∙◌, arith, Bool, true, false, List, [], ◌∷◌,
  ltb, leb, not, ◌||◌, if-of, length, length-set, length-replicate, get_or, set, replicate,
  Bool-cases, ◌⊎◌, inl, inr,
}
use riscv_single_cycle_cpu.Testbench.Parallel.{
  Reading, not_ready, end_of_file, request, Master, start, note_request, dispatch, serve,
  serve_from, rounds, run_parallel,
}
use riscv_single_cycle_cpu.Testbench.Parallel.Counts.{
  tests_of, below, busy, opened, busy-set_first, busy-set_worker, opened-set, busy-close,
  sends-some, sends-none,
}

pub record IsValid (n_workers total : ℕ) (m : Master) : Type 0 where
  pub firsts : length m.first ≡ n_workers
  pub pipes : length m.worker ≡ n_workers
  pub bound : m.dispatched ≤ total
  pub running : m.dispatched ≡ m.passed + busy m.first m.worker
  pub exits : opened m.worker + m.exited ≡ n_workers
  pub complete : (m.exited ≡ 0) ⊎ (m.dispatched ≡ total)
  pub sends : tests_of m.sent ≡ below m.dispatched

module _ {n_workers total : ℕ} (j : ℕ) (m : Master) (v : IsValid n_workers total m)
    (open_pipe : get_or m.worker j false ≡ true) where
  set_first : length (set m.first j false) ≡ n_workers
  set_first = length-set m.first j false ∙ v.firsts

  set_worker : length (set m.worker j false) ≡ n_workers
  set_worker = length-set m.worker j false ∙ v.pipes

  same_length : length m.first ≡ length m.worker
  same_length = v.firsts ∙ sym v.pipes

  -- An open pipe is counted.
  not_all_exited : m.exited < n_workers
  not_all_exited = omega (arith, opened-set m.worker j open_pipe, v.exits)

  IsValid-send :
      ltb m.dispatched total ≡ true → IsValid n_workers total (dispatch total j (note_request j m))
  unfolding dispatch note_request
  IsValid-send more = elim (Bool-cases (get_or m.first j true)) [
    | inl new ↦
        rw (new, more)
          record {
            firsts = set_first;
            pipes = v.pipes;
            bound = ground arith;
            running = ground (arith, busy-set_first m.first m.worker j open_pipe same_length);
            exits = v.exits;
            complete = inl (ground arith);
            sends = sends-some m.sent j m.dispatched v.sends;
          }
    | inr old ↦
        rw (old, more)
          record {
            firsts = v.firsts;
            pipes = v.pipes;
            bound = ground arith;
            running = omega (arith, v.running);
            exits = v.exits;
            complete = inl (ground arith);
            sends = sends-some m.sent j m.dispatched v.sends;
          }
  ]

  IsValid-exit :
      ltb m.dispatched total ≡ false → IsValid n_workers total (dispatch total j (note_request j m))
  unfolding dispatch note_request
  IsValid-exit over = elim (Bool-cases (get_or m.first j true)) [
    | inl new ↦
        rw (new, over)
          record {
            firsts = set_first;
            pipes = set_worker;
            bound = v.bound;
            running = ground (arith, busy-set_worker m.first m.worker j open_pipe same_length);
            exits = omega (arith, opened-set m.worker j open_pipe, v.exits);
            complete = inr (ground arith);
            sends = sends-none m.sent j m.dispatched v.sends;
          }
    | inr old ↦
        rw (old, over)
          record {
            firsts = v.firsts;
            pipes = set_worker;
            bound = v.bound;
            running = omega (arith, busy-close m.first m.worker j open_pipe old, v.running);
            exits = omega (arith, opened-set m.worker j open_pipe, v.exits);
            complete = inr (ground arith);
            sends = sends-none m.sent j m.dispatched v.sends;
          }
  ]

module _ {n_workers total : ℕ} where
  IsValid-serve :
      (j : ℕ) (r : Reading) (m : Master)
      → IsValid n_workers total m
      → IsValid n_workers total (serve total j r m)
  unfolding serve
  IsValid-serve j not_ready m v =
      if-of (IsValid n_workers total) (not (get_or m.worker j false)) v v
  IsValid-serve j end_of_file m v =
      if-of (IsValid n_workers total) (not (get_or m.worker j false)) v record {
        firsts = v.firsts;
        pipes = v.pipes;
        bound = v.bound;
        running = v.running;
        exits = v.exits;
        complete = v.complete;
        sends = v.sends;
      }
  IsValid-serve j request m v = elim (Bool-cases (get_or m.worker j false)) [
    | inr closed ↦ rw closed v
    | inl on ↦ rw on (elim (Bool-cases (ltb m.dispatched total)) [
      | inl more ↦ IsValid-send j m v on more
      | inr over ↦ IsValid-exit j m v on over
    ])
  ]

  IsValid-serve_from :
      (readings : ℕ → Reading) (n j : ℕ) (m : Master)
      → IsValid n_workers total m
      → IsValid n_workers total (serve_from total readings n j m)
  unfolding serve_from
  IsValid-serve_from readings zero j m v = v
  IsValid-serve_from readings (suc n) j m v =
      let v' = IsValid-serve j (readings j) m v in
      if-of (IsValid n_workers total) (serve total j (readings j) m).failed v'
        (IsValid-serve_from readings n (j + 1) (serve total j (readings j) m) v')

  IsValid-rounds :
      (selects : List (ℕ → Reading)) (m : Master)
      → IsValid n_workers total m
      → IsValid n_workers total (rounds n_workers total selects m)
  unfolding rounds
  IsValid-rounds [] m v = v
  IsValid-rounds (readings ∷ more) m v = IsValid-rounds more _ (
      if-of (IsValid n_workers total) (m.failed || leb n_workers m.exited) v
        (IsValid-serve_from readings (length m.worker) 0 m v))

busy-replicate : (n : ℕ) → busy (replicate n true) (replicate n true) ≡ 0
busy-replicate zero = refl
busy-replicate (suc n) = omega (arith, busy-replicate n)

opened-replicate : (n : ℕ) → opened (replicate n true) ≡ n
opened-replicate zero = refl
opened-replicate (suc n) = omega (arith, opened-replicate n)

IsValid-start : (n total : ℕ) → IsValid n total (start n)
IsValid-start n total = record {
  firsts = length-replicate n true;
  pipes = length-replicate n true;
  bound = omega arith;
  running = omega (arith, busy-replicate n);
  exits = omega (arith, opened-replicate n);
  complete = inl refl;
  sends = refl;
}

busy-le-opened : (fs os : List Bool) → busy fs os ≤ opened os
busy-le-opened [] os = omega arith
busy-le-opened (f ∷ fs) [] = omega arith
busy-le-opened (f ∷ fs) (o ∷ os) = ground (arith, busy-le-opened fs os)

module _ (n_workers total : ℕ) (selects : List (ℕ → Reading)) where
  run_parallel-IsValid : IsValid n_workers total (run_parallel n_workers total selects)
  unfolding run_parallel
  run_parallel-IsValid = IsValid-rounds selects (start n_workers) (IsValid-start n_workers total)

  -- Whatever the order in which the workers ask for tests, and whether or not some fail: the
  -- tests that were sent are 0, 1, 2, and so on, each once and no more than there are, and the
  -- count of passed tests and the workers that run one add up to them.
  pub run_parallel-sends :
      let m = run_parallel n_workers total selects in
      (tests_of m.sent ≡ below m.dispatched)
      × (m.dispatched ≤ total)
      × (m.dispatched ≡ m.passed + busy m.first m.worker)
  run_parallel-sends = let v = run_parallel-IsValid in (v.sends, v.bound, v.running)

  -- If all workers have exited, of which there is at least one, every test was sent once, and the
  -- count of passed tests is the number of tests.
  pub run_parallel_complete :
      0 < n_workers
      → (run_parallel n_workers total selects).exited ≡ n_workers
      → ((run_parallel n_workers total selects).passed ≡ total)
        × (tests_of (run_parallel n_workers total selects).sent ≡ below total)
  run_parallel_complete pos all_exited =
      let v = run_parallel-IsValid in
      let m = run_parallel n_workers total selects in
      let all_sent : m.dispatched ≡ total = elim v.complete [
        | inl none_exited ↦ absurd (omega arith)
        | inr done ↦ done
      ] in
      (
        omega (arith, busy-le-opened m.first m.worker, v.exits, v.running, all_sent),
        v.sends ∙ ap below all_sent,
      )
