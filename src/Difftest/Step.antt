-- ===== src/Difftest/Step.antt =====
-- `Difftest::step` of difftest/src/test/csrc/difftest/difftest.cpp and what it calls, the loop of
-- `difftest_step` over the cores, and `difftest_state`. A step returns its code, the checker and
-- the golden memory that the cores share.
pub mod Agreement
pub mod Clock
pub mod Progress
pub mod Commits
pub mod Stores
use riscv_single_cycle_cpu.Base.{
  ℕ, zero, suc, ◌+◌, Bool, true, false, Option, none, some, List, [], ◌∷◌, ◌==◌, ltb, not, ◌&&◌,
  if◌then◌else◌, ◌>>=◌, add64, get_or, set, map,
}
use riscv_single_cycle_cpu.Golden.{Pmem, update_goldenmem}
use riscv_single_cycle_cpu.Golden.Atomic.{handle_atomic}
use riscv_single_cycle_cpu.Difftest.{
  CoreState, InstrCommit, StoreEvent, LoadEvent, no_commit, no_store, commit_width, store_width,
}
use riscv_single_cycle_cpu.Difftest.Trace.{record_group}
use riscv_single_cycle_cpu.Difftest.Regfile.{same_regs}
use riscv_single_cycle_cpu.Difftest.Commit.{
  NemuProxy, Difftest, do_first_instr_commit, do_interrupt, do_exception, do_instr_commit,
}

abbrev pub first_commit_limit : ℕ
first_commit_limit = 5000

abbrev pub stuck_limit : ℕ
stuck_limit = 5000

abbrev pub clear_commit : InstrCommit → InstrCommit
clear_commit c = record c { valid = false }

abbrev pub clear_store : StoreEvent → StoreEvent
clear_store e = record e { valid = false }

abbrev pub clear_load : LoadEvent → LoadEvent
clear_load e = record e { valid = false }

module _ {R : Type 0} where
  unfoldable pub raise_trap : ℕ → Difftest R → Difftest R
  raise_trap trap_code d = record d {
    dut = record d.dut { trap = record d.dut.trap { valid = true; code = trap_code } };
  }

  unfoldable pub clear_step : Difftest R → Difftest R
  clear_step d = record d {
    dut = record d.dut {
      trap = record d.dut.trap { valid = false };
      commit = map clear_commit d.dut.commit;
      sbuffer = record d.dut.sbuffer { resp = false };
      store = map clear_store d.dut.store;
      load = map clear_load d.dut.load;
      atomic = record d.dut.atomic { resp = false };
      ptw = record d.dut.ptw { resp = false };
    };
  }

  -- `dut.csr.this_pc = pc`
  abbrev pub set_this_pc : ℕ → Difftest R → Difftest R
  set_this_pc pc d = record d {
    dut = record d.dut {
      regs = record d.dut.regs { csr = record d.dut.regs.csr { this_pc = pc } };
    };
  }

  -- The first lines of `step`.
  unfoldable pub begin_step : Difftest R → Difftest R
  begin_step d =
      set_this_pc (get_or d.dut.commit 0 no_commit).pc
        (record d { progress = false; ticks = add64 d.ticks 1 })

  -- `dut.commit[i].valid = 0` and `num_commit++`
  abbrev pub retire_commit : Difftest R → Difftest R
  retire_commit d = record d {
    num_commit = d.num_commit + 1;
    dut = record d.dut {
      commit =
          set d.dut.commit d.num_commit (clear_commit (get_or d.dut.commit d.num_commit no_commit));
    };
  }

  unfoldable pub do_golden_memory_update : Pmem → Difftest R → Option (ℕ × Difftest R × Pmem)
  do_golden_memory_update m d = do
    let s = d.dut.sbuffer
    m' ← if s.resp then update_goldenmem s.addr s.data' s.mask 64 m else some m
    let d' = record d { dut = record d.dut { sbuffer = record s { resp = false } } }
    let a = d.dut.atomic
    if a.resp
        then (handle_atomic a.addr a.data' a.mask a.fuop a.out m' >>= λ r.
            some
              (r.0, record d' { dut = record d'.dut { atomic = record a { resp = false } } }, r.1))
        else some (0, d', m')

  -- The first trap that is valid; `none` is -1.
  unfoldable pub difftest_state : List (Difftest R) → Option ℕ
  difftest_state [] = none
  difftest_state (d ∷ ds) = if d.dut.trap.valid then some d.dut.trap.code else difftest_state ds

module _ {R : Type 0} (proxy : NemuProxy R) where
  -- `true` for a timeout; a core that got stuck lets the reference run one more instruction.
  unfoldable pub check_timeout : Difftest R → Bool × Difftest R
  check_timeout d =
      if not d.has_commit && ltb (add64 d.last_commit first_commit_limit) d.ticks
      then (true, d)
      else if d.has_commit && ltb (add64 d.last_commit stuck_limit) d.ticks
      then (true, record d { model = proxy.exec 1 d.model })
      else (false, d)

  -- The loop with `n` rounds left, from store `i` on; `true` for a mismatch.
  unfoldable pub store_check_from : ℕ → ℕ → Difftest R → Bool × Difftest R
  store_check_from zero i d = (false, d)
  store_check_from (suc n) i d =
      let e = get_or d.dut.store i no_store in
      let r = proxy.store_commit e.addr e.data' e.mask d.model in
      let rest = store_check_from n (i + 1) (record d {
        model = r.1;
        dut = record d.dut { store = set d.dut.store i (clear_store e) };
      }) in
      if not e.valid then (false, d) else if r.0 then (true, record d { model = r.1 }) else rest

  unfoldable pub do_store_check : Difftest R → Bool × Difftest R
  unfolding store_check_from
  do_store_check d = store_check_from store_width 0 d

  -- `while (num_commit < DIFFTEST_COMMIT_WIDTH && ...)`, with `n` rounds left
  unfoldable pub commit_from : ℕ → ℕ → Pmem → Difftest R → Option (Difftest R)
  unfolding do_instr_commit
  commit_from num_cores zero m d = some d
  commit_from num_cores (suc n) m d =
      if (get_or d.dut.commit d.num_commit no_commit).valid
      then (do_instr_commit proxy num_cores d.num_commit m d >>= λ d'.
          commit_from num_cores n m (retire_commit d'))
      else some d

  -- The branches on `dut.event`, once `num_commit` is 0.
  unfoldable pub do_events : ℕ → Pmem → Difftest R → Option (Difftest R)
  unfolding do_interrupt do_exception commit_from
  do_events num_cores m d =
      let ev = d.dut.event in
      if not (ev.interrupt == 0)
      then some (do_interrupt proxy (set_this_pc ev.exception_pc d))
      else if not (ev.exception == 0)
      then some (do_exception proxy (set_this_pc ev.exception_pc d))
      else commit_from num_cores commit_width m d

  -- The comparison that ends a step with progress: the checker with the two PCs swapped, and
  -- whether all registers agree.
  unfoldable pub compare_regs : Difftest R → Bool × Difftest R
  unfolding record_group same_regs
  compare_regs d =
      let regs = proxy.regcpy_to_dut d.model in
      let shown = record regs { csr = record regs.csr { this_pc = d.nemu_this_pc } } in
      (
        same_regs d.dut.regs shown,
        record d {
          state =
              (if ltb 0 d.num_commit
                then record_group (get_or d.dut.commit 0 no_commit).pc d.num_commit d.state
                else d.state);
          ref' = shown;
          nemu_this_pc = regs.csr.this_pc;
        },
      )

  -- The end of a step: nothing to compare, or the comparison.
  unfoldable pub end_step : Pmem → Difftest R → ℕ × Difftest R × Pmem
  unfolding compare_regs
  end_step m d =
      let r = compare_regs d in
      if not d.progress then (0, d, m) else ((if r.0 then 0 else 1), r.1, m)

  -- The part of `step` behind the checks of memory.
  unfoldable pub finish_step : ℕ → Pmem → Difftest R → Option (ℕ × Difftest R × Pmem)
  unfolding do_events end_step
  finish_step num_cores m d =
      if not d.has_commit
      then some (0, d, m)
      else (do_events num_cores m (record d { num_commit = 0 }) >>= λ d'. some (end_step m d'))

  -- `if (NUM_CORES > 1 && do_golden_memory_update())`
  unfoldable pub update_memory : ℕ → Pmem → Difftest R → Option (ℕ × Difftest R × Pmem)
  unfolding do_golden_memory_update
  update_memory num_cores m d =
      if ltb 1 num_cores then do_golden_memory_update m d else some (0, d, m)

  unfoldable pub after_memory : ℕ → ℕ × Difftest R × Pmem → Option (ℕ × Difftest R × Pmem)
  unfolding finish_step
  after_memory num_cores r =
      if not (r.0 == 0) then some (1, r.1, r.2) else finish_step num_cores r.2 r.1

  unfoldable pub step : ℕ → List ℕ → Pmem → Difftest R → Option (ℕ × Difftest R × Pmem)
  unfolding begin_step check_timeout do_first_instr_commit do_store_check update_memory after_memory
  step num_cores img m d =
      let timeout = check_timeout (begin_step d) in
      let stores = do_store_check (do_first_instr_commit proxy img timeout.1) in
      if timeout.0
      then some (1, timeout.1, m)
      else if stores.0
      then some (1, stores.1, m)
      else (update_memory num_cores m stores.1 >>= after_memory num_cores)

  -- The loop over the cores: the first code that is not 0 ends it.
  unfoldable pub step_from :
      ℕ → List ℕ → Pmem → List (Difftest R) → Option (ℕ × List (Difftest R) × Pmem)
  unfolding step
  step_from num_cores img m [] = some (0, [], m)
  step_from num_cores img m (d ∷ ds) = do
    r ← step num_cores img m d
    if not (r.0 == 0)
        then some (r.0, r.1 ∷ ds, r.2)
        else (step_from num_cores img r.2 ds >>= λ rest. some (rest.0, r.1 ∷ rest.1, rest.2))
