-- ===== src/Tests/Program.antt =====
-- The test bench, the text helpers, the logging, the workers and the model of verilate at concrete
-- inputs.
use riscv_single_cycle_cpu.Base.{
  if◌then◌else◌, Option, ◌>>=◌, ◌^◌, ℕ, ◌+◌, ◌*◌, ◌-◌, ◌%◌, ◌<◌, ◌⊎◌, ◌≡◌, ◌≤◌, refl, arith, true,
  false, none, some, List, [], ◌∷◌, ◌++◌, length, replicate,
}
use riscv_single_cycle_cpu.Testbench.{
  Test, Bench, passes, aborts, finished, skipped, run, run_testbench, ok, skip,
}
use riscv_single_cycle_cpu.Testbench.Serial.{stopped, run_testbench_lem}
use riscv_single_cycle_cpu.Testbench.Plugins.{Controls, log, trace, with_plugins}
use riscv_single_cycle_cpu.Testbench.Plugins.Nesting.{run-with_plugins}
use riscv_single_cycle_cpu.Testbench.Parallel.{Reading, request, run_parallel}
use riscv_single_cycle_cpu.Testbench.Parallel.Counts.{tests_of, below, busy}
use riscv_single_cycle_cpu.Testbench.Parallel.Dispatch.{run_parallel-sends, run_parallel_complete}
use riscv_single_cycle_cpu.Testbench.Process.{run_worker, until_exit, AreTests, served}
use riscv_single_cycle_cpu.Testbench.Parallel.Workers.{sent_to, run_worker-run_parallel}
use riscv_single_cycle_cpu.Text.{is_alnum, is_digit, is_lower, is_upper, endswith, endswith_from}
use riscv_single_cycle_cpu.Text.Image.{codes, parse_memory_file, parse_bin}
use riscv_single_cycle_cpu.Text.Image.RoundTrip.{print_words}
use riscv_single_cycle_cpu.Text.Image.Formats.{coe_header, parse_memory_file-print_words}
use riscv_single_cycle_cpu.Log.{LogCtx}
use riscv_single_cycle_cpu.Log.Buffer.{IsBuffered, notify_all, output, notify_all-output}
use riscv_single_cycle_cpu.Worker.{loop, once}
use riscv_single_cycle_cpu.Worker.Schedule
use riscv_single_cycle_cpu.Worker.Schedule.{stops, steps, no_threads, State, calls, HasEnded}
use riscv_single_cycle_cpu.Worker.Life.{run-loop, stop-once_undefined}
use riscv_single_cycle_cpu.Confreg
use riscv_single_cycle_cpu.Confreg.{Confreg}
use riscv_single_cycle_cpu.Model.{Model, fresh, check_num, trace_line}
use riscv_single_cycle_cpu.Runner.{
  memory_size, Args, CliOption, default_setup, default_args, make_memory, main,
}
use riscv_single_cycle_cpu.Runner.Calls.{
  Files, Top, new_top, perform_all, configured, switched, run_and_delete, main-configured,
}
use riscv_single_cycle_cpu.Memory.Block.{
  BlockMemory, block_of_data, empty_block, map_data, map_byte, map_bytes,
}
use riscv_single_cycle_cpu.Model.Monitor.{check_all, IsShown, check_all-IsShown}
use riscv_single_cycle_cpu.Model.TextTrace.{read_line, read_line-trace_line}

-- Three tests over a number; the first defers, the second returns early, and an assertion of the
-- third fails.
abbrev doubles : Test ℕ
doubles = record { name = 1; body = λ w. (w * 2, (λ x. x + 1) ∷ (λ x. x * 10) ∷ [], some finished) }

abbrev leaves : Test ℕ
leaves = record { name = 2; body = λ w. (w, [], some skipped) }

abbrev asserts_false : Test ℕ
asserts_false = record { name = 3; body = λ w. (w + 100, (λ x. x + 7) ∷ [], none) }

abbrev bench : Bench ℕ
bench = record {
  world = 5;
  test_list = doubles ∷ leaves ∷ asserts_false ∷ [];
  current_test = none;
  pretest_hook = λ w. w + 1;
  posttest_hook = λ w. w + 3;
  defer_list = [];
  global_defer_list = (λ w. w * 2) ∷ [];
  log = [];
}

run_testbench_lem_example :
    run_testbench bench ≡ aborts (stopped bench asserts_false 128 (ok 1 ∷ skip 2 ∷ []))
run_testbench_lem_example = run_testbench_lem bench refl refl

-- Two workers and one test: both ask, the first one runs it and asks again.
abbrev all_ask : ℕ → Reading
all_ask j = request

run_parallel-sends_example :
    let m = run_parallel 2 1 (all_ask ∷ all_ask ∷ []) in
    (tests_of m.sent ≡ below m.dispatched)
    × (m.dispatched ≤ 1)
    × (m.dispatched ≡ m.passed + busy m.first m.worker)
run_parallel-sends_example = run_parallel-sends 2 1 (all_ask ∷ all_ask ∷ [])

run_parallel_complete_example :
    ((run_parallel 2 1 (all_ask ∷ all_ask ∷ [])).passed ≡ 1)
    × (tests_of (run_parallel 2 1 (all_ask ∷ all_ask ∷ [])).sent ≡ below 1)
unfolding run_parallel
run_parallel_complete_example =
    run_parallel_complete 2 1 (all_ask ∷ all_ask ∷ []) (omega arith) refl

-- The first of two workers, with the three tests of the bench.
run_worker-run_parallel_example :
    let replies = sent_to 0 (run_parallel 2 3 (all_ask ∷ all_ask ∷ [])).sent in
    (ts : List (Test ℕ)) × AreTests bench.test_list (until_exit replies) ts
    × (run_worker 0 replies bench ≡ served 0 bench ts)
run_worker-run_parallel_example =
    run_worker-run_parallel 2 0 (all_ask ∷ all_ask ∷ []) bench refl refl

parse_memory_file-print_words_example :
    (parse_memory_file
        (codes "test.coe")
        (some (coe_header ++ print_words 16 8 (44 ∷ []) (0x12345678 ∷ [])))
      ≡ some (0x78 ∷ 0x56 ∷ 0x34 ∷ 0x12 ∷ []))
    × (parse_memory_file (codes "test.mif") (some (print_words 2 32 (44 ∷ []) (0x12345678 ∷ [])))
        ≡ some (0x78 ∷ 0x56 ∷ 0x34 ∷ 0x12 ∷ []))
    × (parse_memory_file (codes "test.hex") (some (print_words 16 8 (44 ∷ []) (0x12345678 ∷ [])))
        ≡ some (0x78 ∷ 0x56 ∷ 0x34 ∷ 0x12 ∷ []))
unfolding is_alnum is_digit is_lower is_upper
parse_memory_file-print_words_example =
    parse_memory_file-print_words (codes "test") (44 ∷ []) (0x12345678 ∷ []) ((refl, refl), tt)
      (omega arith, tt)

abbrev log0 : LogCtx
log0 = record {
  debug_enabled = false;
  log_enabled = true;
  status_enabled = true;
  in_status_line = true;
  char_buffer = 104 ∷ [];
  out = [];
  err = 62 ∷ [];
}

log0-IsBuffered : IsBuffered log0
log0-IsBuffered = record {
  room = omega arith;
  texts = (omega arith, tt);
  lines = (omega arith, tt);
}

notify_all-output_example :
    (output (notify_all (105 ∷ 10 ∷ 106 ∷ []) log0) ≡ 62 ∷ 104 ∷ 105 ∷ 10 ∷ 106 ∷ [])
    × IsBuffered (notify_all (105 ∷ 10 ∷ 106 ∷ []) log0)
notify_all-output_example =
    notify_all-output (105 ∷ 10 ∷ 106 ∷ []) log0 refl log0-IsBuffered
      (omega arith, (omega arith, (omega arith, tt)))

-- Stopped after four steps, between the second test of the flag and the call.
run-loop_example :
    (s s' : State) × (Schedule.run (steps ∷ steps ∷ steps ∷ steps ∷ []) (loop no_threads) ≡ some s)
    × (Schedule.run (stops ∷ steps ∷ stops ∷ steps ∷ []) s ≡ some s')
    × (calls s ≡ 1)
    × ((calls s' ≡ calls s) ⊎ ((4 % 3 ≡ 1) × (calls s' ≡ calls s + 1)))
    × ((2 < 4) ⊎ HasEnded s')
run-loop_example = run-loop 4 (steps ∷ stops ∷ steps ∷ [])

stop-once_undefined_example :
    Schedule.run (replicate (5 + 1) steps ++ stops ∷ []) (once no_threads) ≡ none
stop-once_undefined_example = stop-once_undefined 1

-- The number register shows 1, acknowledged, and then 2.
abbrev showing : ℕ → Confreg
showing v = record {
  ctx = Confreg.context_reset;
  ctx0 = record Confreg.context_reset { v_num = v };
  ififo = [];
  opty = false;
  output = [];
  mem = Confreg.initial_mem;
  changes = [];
}

abbrev shown_numbers : List Confreg
shown_numbers = showing 0 ∷ showing 0x01000001 ∷ showing 0x02000002 ∷ []

abbrev counted : Model
counted = elim (check_all (λ n. n ∷ []) shown_numbers (fresh log0)) [
  | none ↦ fresh log0
  | some m ↦ m
]

check_all-IsShown_example :
    (counted.current_num ≤ 0 + length shown_numbers) × IsShown 1 shown_numbers
unfolding check_num
check_all-IsShown_example =
    check_all-IsShown (λ n. n ∷ []) shown_numbers (fresh log0) 1 (omega arith) refl (omega arith)
      (omega arith)

read_line-trace_line_example :
    read_line 0 (trace_line true 0x80000004 10 0xdeadbeef) ≡ 1 ∷ 0x80000004 ∷ 10 ∷ 0xdeadbeef ∷ []
read_line-trace_line_example = read_line-trace_line true 0x80000004 10 0xdeadbeef

-- A command line that asks for an FST trace and a terminal, and a memory image of four bytes.
abbrev command_line : List CliOption → List (List ℕ) → Args ℕ → Option (Args ℕ)
command_line opts argv args = some (record args {
  memfile_path = codes "tiny.bin";
  fst_trace_path = codes "cpu.fst";
  pty_path = codes "/dev/pts/1";
  p_disable = 2;
})

abbrev four_bytes : List ℕ → Option (List ℕ)
four_bytes path = some (1 ∷ 2 ∷ 3 ∷ 4 ∷ [])

abbrev traced : Args ℕ
traced = record (default_args 0) {
  memfile_path = codes "tiny.bin";
  fst_trace_path = codes "cpu.fst";
  pty_path = codes "/dev/pts/1";
  p_disable = 2;
}

-- Everything opens but a text trace.
abbrev mostly_open : Files
mostly_open = record {
  fst_opens = λ path. true;
  text_opens = λ path. false;
  reads = λ path. true;
  writes = λ path. true;
  connected = λ path. path;
}

abbrev tiny : BlockMemory
tiny = record {
  size = memory_size;
  offset = 0;
  mem = 0x04030201 ∷ replicate (2 ^ 17 - 1) 0;
  saved_mem = 0x04030201 ∷ replicate (2 ^ 17 - 1) 0;
}

tiny-made : make_memory command_line four_bytes default_setup traced ≡ some tiny
unfolding make_memory parse_memory_file parse_bin endswith endswith_from block_of_data empty_block
    map_data map_bytes map_byte
tiny-made = refl

abbrev runs_on : Top ℕ → Option (Top ℕ)
runs_on t = some t

main-configured_example :
    (main command_line four_bytes 0 default_setup [] >>= λ calls.
    perform_all mostly_open (showing 0) runs_on calls (new_top 0 log0))
    ≡ run_and_delete mostly_open (showing 0) runs_on (
        configured mostly_open (showing 0) runs_on default_setup traced tiny (switched traced log0))
main-configured_example =
    main-configured command_line four_bytes mostly_open (showing 0) runs_on refl 0 default_setup []
      log0 refl tiny-made refl refl

-- Each call of the model and of the log notes its number.
abbrev noted : ℕ → List ℕ → List ℕ
noted n w = w ++ n ∷ []

abbrev noting : Controls (List ℕ)
noting = record {
  enable_logging = λ on. noted (if on then 11 else 10);
  enable_debugging = λ on. noted (if on then 21 else 20);
  enable_status_line = λ on. noted (if on then 31 else 30);
  reset = noted 4;
  enable_fst_trace = λ on. noted (if on then 51 else 50);
  start_fst_trace = λ name. noted 6;
  stop_fst_trace = noted 7;
  enable_statistics = λ on. noted (if on then 81 else 80);
  reset_statistics = noted 9;
  print_statistics = λ name. noted 100;
}

abbrev noting_bench : Bench (List ℕ)
noting_bench = record {
  world = [];
  test_list = [];
  current_test = none;
  pretest_hook = noted 1;
  posttest_hook = noted 2;
  defer_list = [];
  global_defer_list = [];
  log = [];
}

run-with_plugins_example :
    run (with_plugins noting false (log ∷ trace ∷ []) (noted 3) 12) noting_bench
    ≡ passes (record noting_bench {
      world = 1 ∷ 11 ∷ 51 ∷ 6 ∷ 4 ∷ 3 ∷ 7 ∷ 50 ∷ 10 ∷ 2 ∷ [];
      log = ok 12 ∷ [];
    })
run-with_plugins_example =
    run-with_plugins noting 12 false (log ∷ trace ∷ []) (noted 3) noting_bench (refl, refl)
