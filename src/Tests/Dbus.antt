-- ===== src/Tests/Dbus.antt =====
-- The data bus of verilate/include/bus.h and the cells of verilate/include/cell.h at concrete
-- inputs, with a design that answers in every other cycle.
use mathlib.Core.Option
use riscv_single_cycle_cpu.Base.{
  ℕ, ◌/◌, ◌≡◌, ◌≤◌, ◌<◌, refl, arith, Bool, true, false, not, ◌&&◌, Option, none, some, List, [],
  ◌∷◌, if◌then◌else◌, bit_and, ◌>>=◌, inl, ◌==◌, merge,
}
use riscv_single_cycle_cpu.Device.{write_mask}
use riscv_single_cycle_cpu.Bus.LoadOp.{width2, size2_sht16, size8_sht0}
use riscv_single_cycle_cpu.Bus.Dbus.{DbusModel, load, await_limit, add_base}
use riscv_single_cycle_cpu.Bus.Dbus.Contract.{Request, read, write, is_some, send, IsServed}
use riscv_single_cycle_cpu.Bus.Dbus.Await.{outcome, load-respond}
use riscv_single_cycle_cpu.Bus.Task.{Task, load_task, store_task, expect_task}
use riscv_single_cycle_cpu.Bus.Pipeline.{Pipeline, fence}
use riscv_single_cycle_cpu.Bus.Pipeline.Steps.{replay}
use riscv_single_cycle_cpu.Bus.Pipeline.Order.{
  Action, submits, ticks, tasks, run, settled, run-replay,
}
use riscv_single_cycle_cpu.Bus.Compare.{RefModel, Access, loads, stores, seen, run-agreeing}
use riscv_single_cycle_cpu.Bus.Compare
use riscv_single_cycle_cpu.Cell.{Cell, dbus_cells, init_cell, get, set}
use riscv_single_cycle_cpu.Cell.Words.{Words, respond_word}
use riscv_single_cycle_cpu.Cell.Access.{IsMemory, dbus_cells-IsMemory, get-set}
use riscv_single_cycle_cpu.Cell.{pipeline_load, to_type}
use riscv_single_cycle_cpu.Cell.Words.{peek}
use riscv_single_cycle_cpu.Bus.LoadOp.{width8}
use riscv_single_cycle_cpu.Cell.PipelineLoad.{pipeline_load-peek, pipeline_load-width8}

-- The design: the request at its ports, its words, and whether it answers in this cycle.
record Design : Type 0 where
  shown : Option Request
  words : Words
  ready : Bool

abbrev answer : Design → ℕ × Words
answer d = elim d.shown [ none ↦ (0, d.words) | some r ↦ respond_word r d.words ]

abbrev data_ok : Design → Bool
data_ok d = is_some d.shown && d.ready

abbrev design : DbusModel Design
design = record {
  eval = λ d. d;
  tick = λ d. record d { words = if data_ok d then (answer d).1 else d.words; ready = not d.ready };
  req_valid = λ d. is_some d.shown;
  req_size = λ d. 0;
  req_addr = λ d. 0;
  req_strobe = λ d. 0;
  req_word = λ d. 0;
  resp_addr_ok = λ d. data_ok d;
  resp_data_ok = λ d. data_ok d;
  resp_word = λ d. (answer d).0;
  update = λ on addr size lanes word d. record d {
    shown = if on then some (write addr size lanes word) else none;
  };
  reset_valid = λ d. record d { shown = none };
  issue_load = λ addr size d. record d { shown = some (read addr size) };
  issue_store = λ addr size lanes word d. record d { shown = some (write addr size lanes word) };
  handshake = λ d remain. if data_ok d then bit_and remain 2 else 0;
}

request-send : (r : Request) (d : Design) → (send design r d).shown ≡ some r
request-send (read a s) d = refl
request-send (write a s l w) d = refl

words-send : (r : Request) (d : Design) → (send design r d).words ≡ d.words
words-send (read a s) d = refl
words-send (write a s l w) d = refl

ready-send : (r : Request) (d : Design) → (send design r d).ready ≡ d.ready
ready-send (read a s) d = refl
ready-send (write a s l w) d = refl

abbrev waits : Bool → ℕ
waits b = if b then 0 else 1

waits-lt : (b : Bool) → waits b < 2
waits-lt true = omega arith
waits-lt false = omega arith

-- With a request at the ports, the design answers in the cycles in which it is ready.
waits-tick : (b : Bool) → (true && b) ≡ false → waits (not b) < waits b
waits-tick true h = cc
waits-tick false h = omega arith

abbrev served : IsServed design respond_word 2
served = record {
  request = λ d. d.shown;
  memory = λ d. d.words;
  wait = λ d. waits d.ready;
  valid_lem = λ d. refl;
  request-send = request-send;
  memory-send = words-send;
  wait-send = λ r d e. rw (ready-send r d) (omega arith);
  wait-lt = λ d. waits-lt d.ready;
  request-clear = λ d. refl;
  memory-clear = λ d. refl;
  memory-tick_none = λ d e. rw e;
  request-tick = λ d e. refl;
  memory-tick = λ d e. rw e;
  wait-tick = λ r d e f. waits-tick d.ready (rw e at f);
  word_lem = λ r d e f. rw e;
  memory-tick_done = λ r d e f. rw (rw e at f, e);
  handshake_lem = λ d. refl;
}

abbrev words0 : Words
words0 i = if i == 0x80000010 / 8 then 0x1122334455667788 else 0

abbrev idle : Design
idle = record { shown = none; words = words0; ready = false }

fast : 2 ≤ await_limit
fast = omega arith

load-respond_example :
    outcome design served (load design 0x10 3 idle) ≡ some (0x1122334455667788, words0, none)
load-respond_example = load-respond design served 0x10 3 idle fast

-- A load and a check of what is stored behind it, with two ticks between them.
abbrev load_low : Task
load_low = load_task 0x12 1 (some 0) size2_sht16

abbrev acts : List Action
acts =
    submits load_low
    ∷ submits (store_task 0x18 3 0xff 7)
    ∷ ticks
    ∷ ticks
    ∷ submits (expect_task 0x18 3 7 size8_sht0)
    ∷ []

abbrev pipe : Pipeline Design
pipe = record { top = idle; ongoing = []; host = (0 ∷ 0 ∷ []) ∷ [] }

run-replay_example :
    settled design served (run design acts pipe >>= fence design 6)
    ≡ replay respond_word (tasks acts) words0 pipe.host
run-replay_example = run-replay design served acts 6 pipe refl (omega arith)

-- A reference that is the memory of words itself.
abbrev word_ref : RefModel Words
word_ref = record {
  reset = λ m. m;
  load = λ addr size m. some (respond_word (read (add_base addr) size) m);
  store = λ addr size lanes word m. some (respond_word (write (add_base addr) size lanes word) m).1;
  check_internal = λ m. some m;
  check_memory = λ m. some m;
}

abbrev accesses : List Access
accesses = stores 0x10 3 0xff 9 ∷ loads 0x10 3 ∷ loads 0x18 3 ∷ []

abbrev words1 : Words
words1 i = 1

-- The store and the load agree, and the reference holds another word at the last address.
run-agreeing_example :
    seen design word_ref served fast
      (Compare.run design word_ref served fast accesses (idle, words1))
    ≡ none
unfolding merge write_mask
run-agreeing_example = run-agreeing design word_ref served fast accesses idle words1

dbus_cells-IsMemory_example : IsMemory (dbus_cells design) (λ (d : Design). d.words)
dbus_cells-IsMemory_example = dbus_cells-IsMemory design served fast

abbrev half_cell : Cell
half_cell = init_cell width2 0x12

abbrev other_half : Cell
other_half = init_cell width2 0x16

get-set_example :
    (s' : Design) × (set (dbus_cells design) half_cell 0x12345 idle ≡ some s')
    × (Option.map (λ r. r.0) (get (dbus_cells design) half_cell s') ≡ some 0x2345)
    × (Option.map (λ r. r.0) (get (dbus_cells design) other_half s')
        ≡ Option.map (λ r. r.0) (get (dbus_cells design) other_half idle))
get-set_example =
    get-set (dbus_cells design) (dbus_cells-IsMemory design served fast) half_cell other_half
      0x12345 idle (refl, omega arith, refl) (refl, omega arith, refl) (omega arith)
      (inl (omega arith))

-- The four uninitialised bytes of a variable.
abbrev junk : List ℕ
junk = 0xaa ∷ 0xbb ∷ 0xcc ∷ 0xdd ∷ []

pipeline_load-peek_example :
    (got : ℕ) × (p : Pipeline Design) × (pipeline_load design junk width2 0x12 pipe ≡ some (got, p))
    × (to_type width2 got ≡ peek width2 0x12 words0)
    × (p.top.words ≡ words0)
    × (p.host ≡ pipe.host)
pipeline_load-peek_example =
    pipeline_load-peek design served width2 junk 0x12 idle pipe.host (omega arith)
      (refl, omega arith) (omega arith) refl (omega arith)

pipeline_load-width8_example : pipeline_load design junk width8 0x10 pipe ≡ none
pipeline_load-width8_example =
    pipeline_load-width8 design served junk 0x10 idle pipe.host refl (omega arith)
