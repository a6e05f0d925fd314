-- ===== src/Tests/Checker.antt =====
-- The checker of difftest/src/test/csrc/difftest at concrete inputs, with a reference whose
-- every instruction sets register 1 to 7.
use riscv_single_cycle_cpu.Base.{
  All, length, ℕ, ◌+◌, ◌%◌, ◌^◌, ◌≡◌, ◌≤◌, ◌<◌, ◌⊎◌, refl, arith, true, false, none, some, [], ◌∷◌,
  replicate, get_or, set, add64, not, ◌==◌,
}
use riscv_single_cycle_cpu.Golden.{bytes_at, Pmem, pmem_base, update_goldenmem, read_goldenmem}
use riscv_single_cycle_cpu.Golden.Atomic.{handle_atomic, amo}
use riscv_single_cycle_cpu.Golden.Atomic.Laws.{handle_atomic_double}
use riscv_single_cycle_cpu.Difftest.{
  Regs, ArchCsrState, CoreState, InstrCommit, StoreEvent, no_commit, no_store, no_load,
}
use riscv_single_cycle_cpu.Difftest.Trace.{empty_trace}
use riscv_single_cycle_cpu.Difftest.Commit.{NemuProxy, Difftest}
use riscv_single_cycle_cpu.Difftest.Step.{step, step_from, commit_from, do_store_check}
use riscv_single_cycle_cpu.Difftest.Step.Agreement.{Agreed, step-Agreed, Passed, step_from-Passed}
use riscv_single_cycle_cpu.Difftest.Step.Progress.{step_in_time}
use riscv_single_cycle_cpu.Difftest.Step.Commits.{Committed, handle, commit_from-Committed}
use riscv_single_cycle_cpu.Difftest.Step.Stores.{pending, drained, replay, do_store_check-replay}

abbrev zero_csr : ArchCsrState
zero_csr = record {
  this_pc = 0x80000000;
  mstatus = 0;
  mcause = 0;
  mepc = 0;
  sstatus = 0;
  scause = 0;
  sepc = 0;
  satp = 0;
  mip = 0;
  mie = 0;
  mscratch = 0;
  sscratch = 0;
  mideleg = 0;
  medeleg = 0;
  mtval = 0;
  stval = 0;
  mtvec = 0;
  stvec = 0;
  priviledge_mode = 3;
}

abbrev start_regs : Regs
start_regs = record { gpr = replicate 32 0; fpr = replicate 32 0; csr = zero_csr }

abbrev end_regs : Regs
end_regs = record { gpr = 0 ∷ 7 ∷ replicate 30 0; fpr = replicate 32 0; csr = zero_csr }

abbrev nemu : NemuProxy Regs
nemu = record {
  memcpy_to_ref = λ a bs r. r;
  regcpy_to_dut = λ r. r;
  regcpy_to_ref = λ regs r. regs;
  uarchstatus_to_ref = λ s r. r;
  store_commit = λ a d m r. (false, r);
  exec = λ n r. record r {
    gpr = set r.gpr 1 7;
    csr = record r.csr { this_pc = add64 r.csr.this_pc 4 };
  };
  guided_exec = λ g r. r;
  raise_intr = λ n r. r;
}

abbrev one_commit : InstrCommit
one_commit = record {
  valid = true;
  pc = 0x80000000;
  inst = 0x00700093;
  skip = false;
  is_rvc = false;
  sc_failed = false;
  wen = true;
  wdest = 1;
  wdata = 7;
}

abbrev core : CoreState
core = record {
  trap = record { valid = false; code = 0; pc = 0; cycle_cnt = 0; instr_cnt = 0 };
  event = record { interrupt = 0; exception = 0; exception_pc = 0 };
  commit = one_commit ∷ replicate 5 no_commit;
  regs = end_regs;
  sbuffer = record { resp = false; addr = 0; data' = []; mask = 0 };
  store = replicate 2 no_store;
  load = replicate 6 no_load;
  atomic = record { resp = false; addr = 0; data' = 0; mask = 0; fuop = 0; out = 0 };
  ptw = record { resp = false; addr = 0; data' = [] };
}

abbrev checker : Difftest Regs
checker = record {
  model = start_regs;
  num_commit = 0;
  has_commit = true;
  dut = core;
  ref' = start_regs;
  progress = false;
  ticks = 10;
  last_commit = 8;
  nemu_this_pc = 0x80000000;
  state = empty_trace;
}

abbrev m : Pmem
m = λ j. 0

abbrev after : Difftest Regs
unfolding step
after = elim (step nemu 1 [] m checker) [ none ↦ checker | some r ↦ r.1 ]

step-Agreed_example : (after.has_commit ≡ false) ⊎ (after.progress ≡ false) ⊎ Agreed nemu after
unfolding step
step-Agreed_example = step-Agreed nemu 1 [] m checker refl

step_in_time_example : (after.ticks ≡ 10 + 1) × (after.ticks ≤ after.last_commit + 5000)
unfolding step
step_in_time_example = step_in_time nemu 1 [] m checker (omega arith) (omega arith) refl

abbrev committed : Difftest Regs
unfolding commit_from
committed = elim (commit_from nemu 1 6 m checker) [ none ↦ checker | some r ↦ r ]

commit_from-Committed_example :
    Committed 6 checker.dut.commit 0 committed.dut.commit committed.num_commit
    × (c : ℕ) × (committed.num_commit ≡ 0 + c)
    × (handle nemu 1 c m checker ≡ some committed)
unfolding commit_from
commit_from-Committed_example = commit_from-Committed nemu 1 6 m checker refl

-- A reference that knows one store only, and counts the stores in register 1.
abbrev strict : NemuProxy Regs
strict = record nemu {
  store_commit =
      λ a w k r. (not (a == 0x80001000), record r { gpr = set r.gpr 1 (get_or r.gpr 1 0 + 1) });
}

abbrev store_at : ℕ → StoreEvent
store_at addr = record { valid = true; addr = addr; data' = 5; mask = 0xff }

abbrev storing : Difftest Regs
storing = record checker {
  dut = record core { store = store_at 0x80001000 ∷ store_at 0x80002000 ∷ [] };
}

do_store_check-replay_example :
    ((do_store_check strict storing).0 ≡ (replay strict (pending storing.dut.store) start_regs).0)
    × ((do_store_check strict storing).1.model
        ≡ (replay strict (pending storing.dut.store) start_regs).1)
    × ((do_store_check strict storing).0 ≡ false
        → (do_store_check strict storing).1.dut.store ≡ drained storing.dut.store)
do_store_check-replay_example =
    do_store_check-replay strict (store_at 0x80001000) (store_at 0x80002000) storing refl

-- An addition of 5 to the double word 0.
abbrev added : Pmem
unfolding handle_atomic
added = elim (handle_atomic 0x80000010 5 0xff 0o17 0 m) [ none ↦ m | some r ↦ r.1 ]

handle_atomic_double_example :
    (mem : ℕ) × (ret : ℕ) × (read_goldenmem 0x80000010 8 m ≡ some mem)
    × ((mem ≡ 0) ⊎ ◌≡◌ {A = ℕ} 0o17 0o07 ⊎ ◌≡◌ {A = ℕ} 0o17 0o03)
    × (amo 63 0o17 0 5 ≡ some ret)
    × (read_goldenmem 0x80000010 8 added ≡ some (ret % 2 ^ 64))
    × ((off : ℕ)
        → (pmem_base + off < 0x80000010) ⊎ (0x80000010 + 8 ≤ pmem_base + off)
        → added off ≡ m off)
unfolding handle_atomic read_goldenmem bytes_at update_goldenmem
handle_atomic_double_example = handle_atomic_double 0x80000010 5 0o17 0 m refl

step_from-Passed_example :
    (length (after ∷ after ∷ []) ≡ length (checker ∷ checker ∷ []))
    × All (Passed nemu) (after ∷ after ∷ [])
unfolding step_from
step_from-Passed_example = step_from-Passed nemu 1 [] m (checker ∷ checker ∷ []) refl
