-- ===== src/Worker/Life.antt =====
-- The life of one `ThreadWorker` of verilate/vsrc/common.cpp under any schedule.
use riscv_single_cycle_cpu.Base.{
  ℕ, zero, suc, ◌+◌, ◌-◌, ◌/◌, ◌%◌, ◌<◌, ◌≤◌, ◌≡◌, ◌⊎◌, inl, inr, refl, ◌∙◌, arith, true, false,
  none, some, List, [], ◌∷◌, ◌++◌, ltb, Bool-cases, replicate,
}
use riscv_single_cycle_cpu.Worker.{
  Phase, created, ready, running, asleep, leaving, ended, loop, once, stop, thread_step,
}
use riscv_single_cycle_cpu.Worker.Schedule.{
  Event, stops, steps, State, run, no_threads, calls, HasEnded, steps_in, state, next, InLoop,
  first_stop, iter, total, run_steps, later, counted, run_told,
}

iter-InLoop : (k : ℕ) (p : Phase) → InLoop p → InLoop (iter k p)
iter-InLoop zero p h = h
iter-InLoop (suc k) created h = iter-InLoop k ready tt
iter-InLoop (suc k) ready h = iter-InLoop k running tt
iter-InLoop (suc k) running h = iter-InLoop k asleep tt
iter-InLoop (suc k) asleep h = iter-InLoop k ready tt
iter-InLoop (suc k) leaving h = absurd h
iter-InLoop (suc k) ended h = absurd h

-- A round is three steps.
abbrev shift : Phase → ℕ
shift ready = 2
shift running = 0
shift _ = 1

total_lem : (k : ℕ) (p : Phase) (n : ℕ) → InLoop p → total k p n ≡ n + (k + shift p) / 3
total_lem zero created n h = omega arith
total_lem zero ready n h = omega arith
total_lem zero running n h = omega arith
total_lem zero asleep n h = omega arith
total_lem (suc k) created n h = omega (arith, total_lem k ready n tt)
total_lem (suc k) ready n h = omega (arith, total_lem k running (n + 1) tt)
total_lem (suc k) running n h = omega (arith, total_lem k asleep n tt)
total_lem (suc k) asleep n h = omega (arith, total_lem k ready n tt)
total_lem _ leaving n h = absurd h
total_lem _ ended n h = absurd h

abbrev offset : Phase → ℕ
offset ready = 0
offset running = 1
offset _ = 2

iter-ready : (k : ℕ) (p : Phase) → InLoop p → iter k p ≡ ready → (k + offset p) % 3 ≡ 0
iter-ready zero created h e = cc
iter-ready zero ready h e = refl
iter-ready zero running h e = cc
iter-ready zero asleep h e = cc
iter-ready (suc k) created h e = omega (arith, iter-ready k ready tt e)
iter-ready (suc k) ready h e = omega (arith, iter-ready k running tt e)
iter-ready (suc k) running h e = omega (arith, iter-ready k asleep tt e)
iter-ready (suc k) asleep h e = omega (arith, iter-ready k ready tt e)
iter-ready _ leaving h e = absurd h
iter-ready _ ended h e = absurd h

-- The calls that still begin: one, between a test of the flag and the call.
abbrev AtMostOne : Phase → ℕ → ℕ → Type 0
AtMostOne p n n' = (n' ≡ n) ⊎ ((p ≡ ready) × (n' ≡ n + 1))

no_more : (es : List Event) (p : Phase) (n : ℕ) → (p ≡ ready → ⊥) → counted es p n ≡ n
no_more [] p n h = refl
no_more (stops ∷ es) p n h = no_more es p n h
no_more (steps ∷ es) created n h = no_more es leaving n (λ e. cc)
no_more (steps ∷ es) ready n h = absurd (h refl)
no_more (steps ∷ es) running n h = no_more es asleep n (λ e. cc)
no_more (steps ∷ es) asleep n h = no_more es leaving n (λ e. cc)
no_more (steps ∷ es) leaving n h = no_more es ended n (λ e. cc)
no_more (steps ∷ es) ended n h = no_more es ended n (λ e. cc)

counted-AtMostOne : (es : List Event) (p : Phase) (n : ℕ) → AtMostOne p n (counted es p n)
counted-AtMostOne [] p n = inl refl
counted-AtMostOne (stops ∷ es) p n = counted-AtMostOne es p n
counted-AtMostOne (steps ∷ es) created n = inl (no_more es leaving n (λ e. cc))
counted-AtMostOne (steps ∷ es) ready n = inr (refl, no_more es running (n + 1) (λ e. cc))
counted-AtMostOne (steps ∷ es) running n = inl (no_more es asleep n (λ e. cc))
counted-AtMostOne (steps ∷ es) asleep n = inl (no_more es leaving n (λ e. cc))
counted-AtMostOne (steps ∷ es) leaving n = inl (no_more es ended n (λ e. cc))
counted-AtMostOne (steps ∷ es) ended n = inl (no_more es ended n (λ e. cc))

-- The steps to the end.
abbrev distance : Phase → ℕ
distance ready = 4
distance running = 3
distance created = 2
distance asleep = 2
distance leaving = 1
distance ended = 0

distance-le : (p : Phase) → distance p ≤ 4
distance-le created = omega arith
distance-le ready = omega arith
distance-le running = omega arith
distance-le asleep = omega arith
distance-le leaving = omega arith
distance-le ended = omega arith

distance-next : (p : Phase) → distance (next true p) ≡ distance p - 1
distance-next created = refl
distance-next ready = refl
distance-next running = refl
distance-next asleep = refl
distance-next leaving = refl
distance-next ended = refl

distance-later : (es : List Event) (p : Phase) → distance (later es p) ≡ distance p - steps_in es
distance-later [] p = omega arith
distance-later (stops ∷ es) p = distance-later es p
distance-later (steps ∷ es) p = omega (arith, distance-later es (next true p), distance-next p)

ended_of : (p : Phase) → distance p ≡ 0 → p ≡ ended
ended_of created h = absurd (omega arith)
ended_of ready h = absurd (omega arith)
ended_of running h = absurd (omega arith)
ended_of asleep h = absurd (omega arith)
ended_of leaving h = absurd (omega arith)
ended_of ended h = refl

later-ended : (es : List Event) (p : Phase) → (steps_in es < 4) ⊎ (later es p ≡ ended)
later-ended es p = elim (Bool-cases (ltb (steps_in es) 4)) [
  | inl few ↦ inl (ground arith)
  | inr enough ↦
      let four : 4 ≤ steps_in es = ground arith in
      inr (ended_of (later es p) (omega (arith, distance-later es p, distance-le p)))
]

-- A worker that loops, and is stopped for the first time after `k` steps of its thread and then
-- perhaps again, at any points between the test of the flag, the begin and the end of a call, and
-- the end of the sleep. Its flag is never touched after it was deleted. One call has begun for
-- every three steps before the stop; after the stop at most one call begins, and only where the
-- thread had tested the flag but not yet begun the call; the thread ends within four steps.
pub run-loop :
    (k : ℕ) (es : List Event)
    → (s s' : State) × (run (replicate k steps) (loop no_threads) ≡ some s)
      × (run (stops ∷ es) s ≡ some s')
      × (calls s ≡ (k + 1) / 3)
      × ((calls s' ≡ calls s) ⊎ ((k % 3 ≡ 1) × (calls s' ≡ calls s + 1)))
      × ((steps_in es < 4) ⊎ HasEnded s')
unfolding loop
run-loop k es =
    let p = iter k created in
    let n = total k created 0 in
    (
      state true false p n,
      state true true (later es p) (counted es p n),
      run_steps k created 0,
      rw (first_stop p n (iter-InLoop k created tt)) (run_told es p n),
      total_lem k created 0 tt ∙ omega arith,
      elim (counted-AtMostOne es p n) [
        | inl none_more ↦ inl none_more
        | inr (at_test, one_more) ↦ inr (omega (arith, iter-ready k created tt at_test), one_more)
      ],
      later-ended es p,
    )

-- A worker that was started for one call.
one_shot_steps : (n : ℕ) → run (replicate n steps ++ stops ∷ []) (state false false ended 1) ≡ none
unfolding stop thread_step
one_shot_steps zero = refl
one_shot_steps (suc n) = one_shot_steps n

-- A worker that was started for one call, and is stopped after its thread has ended, writes to
-- the flag that the thread has deleted.
pub stop-once_undefined :
    (n : ℕ) → run (replicate (5 + n) steps ++ stops ∷ []) (once no_threads) ≡ none
unfolding once thread_step
stop-once_undefined n =
    let five : 5 + n ≡ suc (suc (suc (suc (suc n)))) = omega arith in rw five (one_shot_steps n)
