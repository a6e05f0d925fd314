-- ===== src/Worker/Schedule.antt =====
-- Schedules of one `ThreadWorker` of verilate/vsrc/common.cpp and its thread: its owner may stop it
-- between any two steps of the thread.
use riscv_single_cycle_cpu.Base.{
  ℕ, zero, suc, ◌+◌, ◌≡◌, refl, Bool, true, false, Option, none, some, List, [], ◌∷◌, ◌>>=◌,
  if◌then◌else◌, replicate, get_elem?,
}
use riscv_single_cycle_cpu.Worker.{
  Flag, deleted, live, ThreadWorker, Phase, created, ready, running, asleep, leaving, ended, World,
  stop, thread_step,
}

pub data Event : Type 0 where
  stops steps : Event

abbrev pub State : Type 0
State = ThreadWorker × World

-- The owner stops, or the only thread makes a step.
abbrev act : Event → State → Option State
act stops s = stop s.0 s.1
act steps s = get_elem? s.1.threads 0 >>= λ t.
    thread_step 0 t s.1 >>= λ w. let s' : State = (s.0, w) in some s'

abbrev pub run : List Event → State → Option State
run [] s = some s
run (e ∷ es) s = act e s >>= run es

abbrev pub no_threads : World
no_threads = record { flags = []; threads = [] }

abbrev pub calls : State → ℕ
calls s = elim (get_elem? s.1.threads 0) [ none ↦ 0 | some t ↦ t.calls ]

abbrev pub HasEnded : State → Type 0
HasEnded s = elim (get_elem? s.1.threads 0) [ none ↦ ⊥ | some t ↦ t.phase ≡ ended ]

abbrev pub steps_in : List Event → ℕ
steps_in [] = 0
steps_in (stops ∷ es) = steps_in es
steps_in (steps ∷ es) = suc (steps_in es)

abbrev flag_of : Phase → Bool → Flag
flag_of ended told = deleted
flag_of _ told = live told

-- The only worker and its thread.
abbrev pub state : Bool → Bool → Phase → ℕ → State
state repeat told phase n = (
  record { stopped = told; flag = some 0 },
  record {
    flags = flag_of phase told ∷ [];
    threads = record { flag = 0; repeat = repeat; phase = phase; calls = n } ∷ [];
  },
)

-- A step of the loop, and the calls with it.
abbrev pub next : Bool → Phase → Phase
next told created = if told then leaving else ready
next told ready = running
next told running = asleep
next told asleep = if told then leaving else ready
next told leaving = ended
next told ended = ended

abbrev count : Phase → ℕ → ℕ
count ready n = n + 1
count _ n = n

act_steps :
    (told : Bool) (p : Phase) (n : ℕ)
    → act steps (state true told p n) ≡ some (state true told (next told p) (count p n))
unfolding thread_step
act_steps true created n = refl
act_steps true ready n = refl
act_steps true running n = refl
act_steps true asleep n = refl
act_steps true leaving n = refl
act_steps true ended n = refl
act_steps false created n = refl
act_steps false ready n = refl
act_steps false running n = refl
act_steps false asleep n = refl
act_steps false leaving n = refl
act_steps false ended n = refl

act_stops : (p : Phase) (n : ℕ) → act stops (state true true p n) ≡ some (state true true p n)
unfolding stop
act_stops p n = refl

-- The phases of a loop that was not told to stop.
abbrev pub InLoop : Phase → Type 0
InLoop leaving = ⊥
InLoop ended = ⊥
InLoop _ = Unit

pub first_stop :
    (p : Phase) (n : ℕ) → InLoop p → act stops (state true false p n) ≡ some (state true true p n)
unfolding stop
first_stop created n h = refl
first_stop ready n h = refl
first_stop running n h = refl
first_stop asleep n h = refl
first_stop leaving n h = absurd h
first_stop ended n h = absurd h

-- A loop that was not told to stop, after `k` steps.
abbrev pub iter : ℕ → Phase → Phase
iter zero p = p
iter (suc k) p = iter k (next false p)

abbrev pub total : ℕ → Phase → ℕ → ℕ
total zero p n = n
total (suc k) p n = total k (next false p) (count p n)

pub run_steps :
    (k : ℕ) (p : Phase) (n : ℕ)
    → run (replicate k steps) (state true false p n)
      ≡ some (state true false (iter k p) (total k p n))
run_steps zero p n = refl
run_steps (suc k) p n = rw (act_steps false p n) (run_steps k (next false p) (count p n))

-- A loop that was told to stop.
abbrev pub later : List Event → Phase → Phase
later [] p = p
later (stops ∷ es) p = later es p
later (steps ∷ es) p = later es (next true p)

abbrev pub counted : List Event → Phase → ℕ → ℕ
counted [] p n = n
counted (stops ∷ es) p n = counted es p n
counted (steps ∷ es) p n = counted es (next true p) (count p n)

pub run_told :
    (es : List Event) (p : Phase) (n : ℕ)
    → run es (state true true p n) ≡ some (state true true (later es p) (counted es p n))
run_told [] p n = refl
run_told (stops ∷ es) p n = rw (act_stops p n) (run_told es p n)
run_told (steps ∷ es) p n = rw (act_steps true p n) (run_told es (next true p) (count p n))
