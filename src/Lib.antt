-- ===== src/Lib.antt =====
-- A single-cycle RISC-V processor and its simulation: vsrc/, the core in SystemVerilog; verilate/,
-- which puts memories and devices around the Verilator model of the core, drives its data bus and
-- runs its tests; and difftest/, which runs a reference beside the core and compares the two after
-- every cycle.
--
-- The parts and their files:
--   * Bus.LoadOp: `LoadOp` of verilate/include/bus.h, the placement of 1, 2, 4 and 8 bytes on a
--     64-bit bus.
--   * Bus.Dbus: `DBusGen` of the same file, the loads and stores of a test on the data bus.
--     Bus.Dbus.Contract says what they rely on in the design behind the bus. Bus.Cbus is
--     `CBusWrapperGen`.
--   * Bus.Task, Bus.Pipeline: `DBusPipelineGen`, which queues requests for the data bus and takes
--     the answers at each tick.
--   * Bus.Compare: `_TestbenchDBusWrapperGen` of verilate/include/testbench.h, a data bus beside a
--     reference, `ICacheRefModel` of verilate/include/reference.h.
--   * Cell: `MemoryCellGen` and `MemoryCellFactory` of verilate/include/cell.h, variables in the
--     memory behind the data bus or the pipeline. Cell.Words is that memory.
--   * Testbench: verilate/vsrc/testbench.cpp, the tests and the serial run. Testbench.Plugins
--     are the macros of verilate/include/testbench.h that declare a test. Testbench.Parallel is the
--     master of the parallel run, Testbench.Process one of its workers.
--   * Text, Text.Image: `trim`, `escape` and the memory image files of verilate/vsrc/common.cpp.
--   * Log, Worker: the logging and `ThreadWorker` of the same file and of
--     verilate/include/common.h.
--   * Model: `ModelBase` of verilate/vsrc/model.cpp. Runner: `ProgramRunner` of
--     verilate/include/runner.h, whose `main` reads the image, installs the devices, opens the
--     traces and runs the model; Runner.Calls performs its calls on Model, with the paths that open
--     as a parameter.
--   * Axi: `AXITransaction` of verilate/include/axi.h, one burst.
--   * Memory, Memory.Block: `IMemory`, `MemoryRouter` and `BlockMemory` of
--     verilate/include/memory.h and verilate/vsrc/memory.cpp.
--   * Confreg: the configuration registers and the UART of verilate/vsrc/confreg.cpp. Confreg.Pty
--     opens and closes its pseudo terminal, with a thread of Worker.
--   * Soc: `ModelBase::install_soc` of verilate/vsrc/model.cpp, the router over the two.
--   * Device: `CBusDevice` of verilate/vsrc/cbus_device.cpp, a memory behind the cache bus. It
--     holds an `AXITransaction`, and its client and memory are any `IMemory`.
--   * Golden, Golden.Atomic: the byte memory that all cores should agree on,
--     difftest/src/test/csrc/difftest/goldenmem.cpp, and `handle_atomic` of difftest.cpp.
--   * Difftest: the structures of difftest/src/test/csrc/difftest/difftest.h. Difftest.Packets is
--     interface.cpp, which fills them; Difftest.Trace is `DiffState`; Difftest.Regfile is the view
--     of all registers as one array; Difftest.Commit and Difftest.Step are `Difftest::step`,
--     `difftest_step` and their handlers. A step reads the golden memory when there are several
--     cores.
--   * Ram, Helpers: the memory of difftest/src/test/csrc/common/ram.cpp, and the page walk and the
--     atomics that ref.cpp makes on it for the core.
--   * Queue: the rings of difftest/src/test/csrc/common/uart.cpp and keyboard.cpp.
--   * Core: the processor. Core.Decode, Core.Control and Core.Alu are decode.sv, controlunit.sv and
--     alu.sv of vsrc/src, Core.Lanes is rd.sv and wd.sv, Core.Mul and Core.Div are mul.sv and
--     div.sv, whose common sequence of states is Core.Sequence. Core.Datapath is core.sv with its
--     registers and multiplexers, Core.System puts the multiplier and the divider beside it.
--     Core.Isa is the instruction set by the RISC-V manual, with the encodings in
--     Core.Isa.Encoding, Core.Isa.Accesses and Core.System.Units.
--   * Base: Boolean tests, lists over the native numbers, words, bits and masked writes. Tests: the
--     theorems at concrete inputs.
--
-- How the code is rendered. An object is a record, a method a function from the record to the
-- record after it, with the value returned. `none` is a failed assertion, a panic, an access past
-- an array, or a shift that C++ leaves undefined. In the test bench, where an assertion of a test
-- may fail, an `Outcome` keeps the bench in which the program aborts. `uint64_t` is a native number with `% 2 ^ 64`
-- written at each operation that may wrap. Devices that share a store, as the two router entries
-- of one block do, are records of operations over that store. The reference behind nemuproxy.h is
-- a parameter: a record of functions over a state of any type. So is what Verilator generates
-- from the design: the ports and the functions on them are a record over the state of the model.
-- A proof about the bus takes an `IsServed` of that record: the design answers what its ports
-- show within a bounded number of cycles. The tests give one that answers in every other cycle.
-- The parser of the command line is a function on the arguments. Pipes, `select` and files are
-- lists of what they yield. The number of cores is a parameter of a step, `NUM_CORES` in the
-- code.
--
-- The SystemVerilog of the core. A signal is a number below a power of two, a slice a quotient and
-- a remainder. A clocked block is a function from the registers to the registers after the edge;
-- nonblocking assignments read the old registers, and the last one stands. A combinational
-- signal that an arm does not assign keeps its value, so the control unit takes the signals of
-- the last evaluation. The value `'x` is `none`. What the buses answer at each edge is an
-- argument.
--
-- Loops. All recursion is structural: on the list of bytes, lines, tests or devices, on the bytes
-- of a mask, on the three levels of a page walk, and on `DIFFTEST_COMMIT_WIDTH` and
-- `DIFFTEST_STORE_WIDTH` rounds, which are the bounds that the code tests. `await` has the 128 *
-- 1024 * 1024 rounds of its `max_count`, and the fence takes its `max_count` as an argument; both
-- end in `none` where the code panics. They are enough where the design answers within
-- `await_limit` cycles, and where there are as many ticks as the tasks times the latency.
--
-- Order within a cycle. The code that calls `eval_resp`, `eval_req` and `sync` of the device is
-- generated by Verilator; `Device.cycle` composes them as memory.h asks for, without a
-- combinational path from the request to the response. `Confreg.arrive` is the worker thread,
-- which appends a character between any two operations.
--
-- Order between threads and processes. The tasks of a pipeline are submitted between any two
-- ticks. The owner of a `ThreadWorker` may stop it between any two steps of its thread, which test
-- its flag, begin a call and end it one at a time. The master
-- of a parallel run sees, at each `select`, any set of workers.
--
-- Not modelled: the text of messages and debug output; files, sockets and SDL windows beyond
-- whether they open and what they hold; `fork`, `kill` and signals; wall-clock time
-- (`SimpleTimer`), random numbers, and `TextDiff` of verilate/include/diff.h, which has no
-- implementation; the dynamic loading of the reference; the DRAMsim3 interface; the emulator's
-- main loop. Of vsrc/, the arbiter and the conversions between the buses, the
-- interrupt pins, which the core does not read, and the DPI instances.
pub mod Base
pub mod Bus
pub mod Cell
pub mod Testbench
pub mod Text
pub mod Log
pub mod Worker
pub mod Model
pub mod Runner
pub mod Axi
pub mod Memory
pub mod Confreg
pub mod Soc
pub mod Core
pub mod Device
pub mod Golden
pub mod Difftest
pub mod Ram
pub mod Queue
mod Tests
pub mod Helpers
