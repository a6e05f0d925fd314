-- ===== src/Difftest/Step/Stores.antt =====
-- `Difftest::do_store_check` of difftest/src/test/csrc/difftest/difftest.cpp as a replay of the
-- stores of a cycle by the reference.
use riscv_single_cycle_cpu.Base.{◌≡◌, arith, Bool, true, false, List, [], ◌∷◌, if◌then◌else◌}
use riscv_single_cycle_cpu.Difftest.{StoreEvent}
use riscv_single_cycle_cpu.Difftest.Commit.{NemuProxy, Difftest}
use riscv_single_cycle_cpu.Difftest.Step.{do_store_check, store_check_from, clear_store}

-- The stores that wait for the reference: those before the first that is not valid.
abbrev pub pending : List StoreEvent → List StoreEvent
pending [] = []
pending (e ∷ es) = if e.valid then e ∷ pending es else []

-- The queue once they are taken.
abbrev pub drained : List StoreEvent → List StoreEvent
drained [] = []
drained (e ∷ es) = if e.valid then clear_store e ∷ drained es else e ∷ es

module _ {R : Type 0} (proxy : NemuProxy R) where
  -- The reference commits the stores one after another, up to the first that differs.
  abbrev pub replay : List StoreEvent → R → Bool × R
  replay [] r = (false, r)
  replay (e ∷ es) r =
      let c = proxy.store_commit e.addr e.data' e.mask r in
      let rest = replay es c.1 in if c.0 then (true, c.1) else rest

  -- With room for two stores, the check reports a mismatch exactly if the reference meets one
  -- when it replays the pending stores, leaves the reference in the state of that replay, and,
  -- without a mismatch, clears the valid bit of exactly the stores that it took.
  pub do_store_check-replay :
      (a b : StoreEvent) (d : Difftest R)
      → d.dut.store ≡ a ∷ b ∷ []
      → ((do_store_check proxy d).0 ≡ (replay (pending d.dut.store) d.model).0)
        × ((do_store_check proxy d).1.model ≡ (replay (pending d.dut.store) d.model).1)
        × ((do_store_check proxy d).0 ≡ false
            → (do_store_check proxy d).1.dut.store ≡ drained d.dut.store)
  unfolding do_store_check store_check_from
  do_store_check-replay a b d two = rw two (ground arith)
