-- ===== src/Bus/Pipeline/Order.antt =====
-- The queue of the pipeline in verilate/include/bus.h against in-order execution.
use riscv_single_cycle_cpu.Base.{
  ℕ, zero, suc, ◌+◌, ◌*◌, ◌≤◌, ◌≡◌, refl, ap, ◌∙◌, arith, false, Option, none, some, List, [], ◌∷◌,
  ◌++◌, ◌>>=◌, Bool-cases, Option-cases, inl, inr, length, length-append,
}
use mathlib.Core.List.{append-nil, append_assoc}
use riscv_single_cycle_cpu.Bus.Dbus.{DbusModel, clear}
use riscv_single_cycle_cpu.Bus.Dbus.Contract.{Request, IsServed}
use riscv_single_cycle_cpu.Bus.Task.{Task, Host, deliver}
use riscv_single_cycle_cpu.Bus.Pipeline.{Pipeline, issue, tick, submit, fence, empty}
use riscv_single_cycle_cpu.Bus.Pipeline.Steps.{
  request_of, front_request, replay, at, shown_next, issue-send, request-shown_next,
  memory-shown_next, submit-nil, submit-cons, tick-nil, tick-waits, tick-answers,
}

-- What a test does before the fence: it submits tasks, and lets the clock tick.
pub data Action : Type 0 where
  submits : Task → Action
  ticks : Action

abbrev pub tasks : List Action → List Task
tasks [] = []
tasks (submits t ∷ acts) = t ∷ tasks acts
tasks (ticks ∷ acts) = tasks acts

module _ {V : Type 0} (b : DbusModel V) where
  abbrev pub run : List Action → Pipeline V → Option (Pipeline V)
  run [] p = some p
  run (submits t ∷ acts) p = run acts (submit b t p)
  run (ticks ∷ acts) p = tick b p >>= run acts

module _ {V M : Type 0} (b : DbusModel V) {respond : Request → M → ℕ × M} {latency : ℕ}
    (s : IsServed b respond latency) where
  -- The memory and the destinations of a pipeline.
  abbrev pub settled : Option (Pipeline V) → Option (M × Host)
  settled none = none
  settled (some p) = some (s.memory p.top, p.host)

  -- The ticks within which the tasks that are left are answered.
  abbrev budget : List Task → V → ℕ
  budget [] v = 0
  budget (t ∷ ts) v = s.wait v + 1 + latency * length ts

  budget-le : (ts : List Task) (v : V) → budget ts v ≤ latency * length ts
  budget-le [] v = omega arith
  budget-le (t ∷ ts) v = grind (arith, s.wait-lt v)

  wait-issue :
      (t : Task) (v : V)
      → s.request v ≡ some (request_of t)
      → b.resp_data_ok v ≡ false
      → s.wait (issue b t (b.tick v)) ≤ s.wait (b.tick v)
  wait-issue t v shown waits =
      rw (issue-send b s t (b.tick v))
        (s.wait-send (request_of t) (b.tick v) (s.request-tick v waits ∙ shown))

  fence-replay-budget :
      (n : ℕ) (ts : List Task) (v : V) (host : Host)
      → s.request v ≡ front_request ts
      → budget ts v ≤ n
      → settled (fence b n (at v ts host)) ≡ replay respond ts (s.memory v) host
  unfolding fence empty
  fence-replay-budget zero [] v host shown h = refl
  fence-replay-budget (suc n) [] v host shown h = refl
  fence-replay-budget zero (t ∷ ts) v host shown h = absurd (omega arith)
  fence-replay-budget (suc n) (t ∷ ts) v host shown h = elim (Bool-cases (b.resp_data_ok v)) [
    | inr waits ↦ rw (tick-waits b s t ts v host waits) (
        fence-replay-budget n (t ∷ ts) (issue b t (b.tick v)) host
          (request-shown_next b s (t ∷ ts) (b.tick v))
          (omega (arith, wait-issue t v shown waits, s.wait-tick (request_of t) v shown waits))
        ∙ ap (λ (m : M). replay respond (t ∷ ts) m host)
            (memory-shown_next b s (t ∷ ts) (b.tick v) ∙ s.memory-tick v waits))
    | inl done ↦
        rw (tick-answers b s t ts v host shown done)
          (elim (Option-cases (deliver t (respond (request_of t) (s.memory v)).0 host)) [
            | inl fails ↦ rw fails
            | inr (host', taken) ↦ rw taken (
                fence-replay-budget n ts (shown_next b s ts (b.tick v)) host'
                  (request-shown_next b s ts (b.tick v))
                  (omega (arith, budget-le ts (shown_next b s ts (b.tick v))))
                ∙ ap (λ (m : M). replay respond ts m host')
                    (memory-shown_next b s ts (b.tick v)
                      ∙ s.memory-tick_done (request_of t) v shown done))
          ])
  ]

  abbrev finally : ℕ → List Action → Pipeline V → Option (M × Host)
  finally n acts p = settled (run b acts p >>= fence b n)

  run-replay-at :
      (acts : List Action) (n : ℕ) (ts : List Task) (v : V) (host : Host)
      → s.request v ≡ front_request ts
      → latency * (length ts + length (tasks acts)) ≤ n
      → finally n acts (at v ts host) ≡ replay respond (ts ++ tasks acts) (s.memory v) host
  run-replay-at [] n ts v host shown h =
      rw (append-nil ts) (fence-replay-budget n ts v host shown (grind (arith, budget-le ts v)))
  run-replay-at (submits t ∷ acts) n [] v host shown h = rw (submit-nil b s t v host shown) (
      run-replay-at acts n (t ∷ []) (issue b t v) host (request-shown_next b s (t ∷ []) v)
        (grind arith)
      ∙ ap (λ (m : M). replay respond (t ∷ tasks acts) m host) (memory-shown_next b s (t ∷ []) v))
  run-replay-at (submits t ∷ acts) n (u ∷ ts) v host shown h =
      rw (submit-cons b s t u ts v host shown) (
        run-replay-at acts n (u ∷ ts ++ t ∷ []) v host shown
          (rw (length-append ts (t ∷ [])) (grind arith))
        ∙ ap (λ (us : List Task). replay respond (u ∷ us) (s.memory v) host)
            (append_assoc ts (t ∷ []) (tasks acts)))
  run-replay-at (ticks ∷ acts) n [] v host shown h = rw (tick-nil b s v host shown) (
      run-replay-at acts n [] (clear b (b.tick v)) host (request-shown_next b s [] (b.tick v)) h
      ∙ ap (λ (m : M). replay respond (tasks acts) m host)
          (memory-shown_next b s [] (b.tick v) ∙ s.memory-tick_none v shown))
  run-replay-at (ticks ∷ acts) n (t ∷ ts) v host shown h = elim (Bool-cases (b.resp_data_ok v)) [
    | inr waits ↦ rw (tick-waits b s t ts v host waits) (
        run-replay-at acts n (t ∷ ts) (issue b t (b.tick v)) host
          (request-shown_next b s (t ∷ ts) (b.tick v)) h
        ∙ ap (λ (m : M). replay respond (t ∷ ts ++ tasks acts) m host)
            (memory-shown_next b s (t ∷ ts) (b.tick v) ∙ s.memory-tick v waits))
    | inl done ↦
        rw (tick-answers b s t ts v host shown done)
          (elim (Option-cases (deliver t (respond (request_of t) (s.memory v)).0 host)) [
            | inl fails ↦ rw fails
            | inr (host', taken) ↦ rw taken (
                run-replay-at acts n ts (shown_next b s ts (b.tick v)) host'
                  (request-shown_next b s ts (b.tick v)) (grind arith)
                ∙ ap (λ (m : M). replay respond (ts ++ tasks acts) m host')
                    (memory-shown_next b s ts (b.tick v)
                      ∙ s.memory-tick_done (request_of t) v shown done))
          ])
  ]

  -- However submissions and clock ticks are interleaved, a fence with enough ticks ends with the
  -- memory and the destinations of in-order execution of the waiting and the submitted tasks, and
  -- fails exactly if that fails. `latency` ticks for each task are enough. At the start the bus
  -- shows the request of the front of the queue, or none if the queue is empty.
  pub run-replay :
      (acts : List Action) (n : ℕ) (p : Pipeline V)
      → s.request p.top ≡ front_request p.ongoing
      → latency * (length p.ongoing + length (tasks acts)) ≤ n
      → settled (run b acts p >>= fence b n)
        ≡ replay respond (p.ongoing ++ tasks acts) (s.memory p.top) p.host
  run-replay acts n p shown h = run-replay-at acts n p.ongoing p.top p.host shown h
