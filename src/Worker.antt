-- ===== src/Worker.antt =====
-- `ThreadWorker` of verilate/include/common.h and verilate/vsrc/common.cpp: a worker object, the
-- thread that it starts, and the flag on the heap by which it stops the thread. `none` is a failed
-- assertion, or an access to a flag that was deleted. A step of the thread is one access to the
-- flag, the begin or the end of a call, or the end of a sleep.
pub mod Schedule
pub mod Life
use riscv_single_cycle_cpu.Base.{
  ℕ, ◌+◌, Bool, true, false, Option, none, some, List, [], ◌∷◌, not, if◌then◌else◌, ◌>>=◌,
  get_elem?, get_or, set, length, ◌++◌,
}

-- `bool *flag`: deleted, or live with its value.
pub data Flag : Type 0 where
  deleted : Flag
  live : Bool → Flag

-- The object; `flag` is an index of the heap, `none` for null.
pub record ThreadWorker : Type 0 where
  pub stopped : Bool
  pub flag : Option ℕ

-- Where a thread stands: before the first test of its flag, between a test and the call, in the
-- call, asleep behind it, behind the loop, or ended.
pub data Phase : Type 0 where
  created ready running asleep leaving ended : Phase

-- A thread has a flag, and counts the calls of its function.
pub record Thread : Type 0 where
  pub flag : ℕ
  pub repeat : Bool
  pub phase : Phase
  pub calls : ℕ

pub record World : Type 0 where
  pub flags : List Flag
  pub threads : List Thread

-- The default constructor.
abbrev pub idle_worker : ThreadWorker
idle_worker = record { stopped = true; flag = none }

-- The constructor that starts a thread with a new flag.
unfoldable pub start : Bool → World → ThreadWorker × World
start repeat w = (
  record { stopped = false; flag = some (length w.flags) },
  record {
    flags = w.flags ++ (live false ∷ []);
    threads =
        w.threads
        ++ (record { flag = length w.flags; repeat = repeat; phase = created; calls = 0 } ∷ []);
  },
)

unfoldable pub once : World → ThreadWorker × World
unfolding start
once w = start false w

unfoldable pub loop : World → ThreadWorker × World
unfolding start
loop w = start true w

unfoldable pub at_interval : World → ThreadWorker × World
unfolding start
at_interval w = start true w

-- The move constructor and the move assignment: the new object, and the one moved from. What the
-- assigned object held is forgotten, not stopped.
unfoldable pub move : ThreadWorker → ThreadWorker × ThreadWorker
move rhs = (rhs, idle_worker)

-- `*flag`
abbrev pub read_flag : ℕ → World → Option Bool
read_flag i w = get_elem? w.flags i >>= λ f. elim f [ deleted ↦ none | live v ↦ some v ]

-- `*flag = true`
abbrev pub raise_flag : ℕ → World → Option World
raise_flag i w = read_flag i w >>= λ _. some (record w { flags = set w.flags i (live true) })

-- `stop`, and the destructor.
unfoldable pub stop : ThreadWorker → World → Option (ThreadWorker × World)
stop t w =
    if t.stopped
    then some (t, w)
    else (t.flag >>= λ i. raise_flag i w >>= λ w'. some (record t { stopped = true }, w'))

-- The end of a thread: `delete ptr`.
unfoldable pub end : ℕ → Thread → World → World
end k t w = record {
  flags = set w.flags t.flag deleted;
  threads = set w.threads k (record t { phase = ended });
}

-- The thread with another phase.
abbrev pub set_phase : ℕ → Thread → Phase → World → World
set_phase k t phase w = record w { threads = set w.threads k (record t { phase = phase }) }

-- The test of the loop.
unfoldable pub round : ℕ → Thread → World → Option World
round k t w =
    read_flag t.flag w >>= λ raised. some (set_phase k t (if raised then leaving else ready) w)

-- One step of a thread.
unfoldable pub thread_step : ℕ → Thread → World → Option World
unfolding round end
thread_step k t w = elim t.phase [
  | created ↦ round k t w
  | ready ↦ some (set_phase k (record t { calls = t.calls + 1 }) running w)
  | running ↦ some (set_phase k t asleep w)
  | asleep ↦ if t.repeat then round k t w else some (set_phase k t leaving w)
  | leaving ↦ some (end k t w)
  | ended ↦ some w
]
