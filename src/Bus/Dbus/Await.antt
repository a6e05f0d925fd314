-- ===== src/Bus/Dbus/Await.antt =====
-- `await`, `load` and `store` of `DBusGen` in verilate/include/bus.h.
use riscv_single_cycle_cpu.Base.{
  ℕ, zero, suc, ◌<◌, ◌≤◌, ◌≡◌, refl, ap, ◌∙◌, arith, true, false, Option, none, some, ◌>>=◌,
  Bool-cases, some-triple, inl, inr,
}
use riscv_single_cycle_cpu.Bus.Dbus.{
  DbusModel, data_ok_bit, await_limit, add_base, clear, rdata, await_from, await, load, store,
}
use riscv_single_cycle_cpu.Bus.Dbus.Contract.{Request, read, write, send, IsServed}

module _ {V M : Type 0} (b : DbusModel V) {respond : Request → M → ℕ × M} {latency : ℕ}
    (s : IsServed b respond latency) where
  -- The word of an answer, what is stored afterwards, and the request that is left.
  abbrev pub outcome : Option (ℕ × V) → Option (ℕ × M × Option Request)
  outcome none = none
  outcome (some (word, v)) = some (word, s.memory v, s.request v)

  abbrev pub answer_to : Request → M → Option (ℕ × M × Option Request)
  answer_to r m = some ((respond r m).0, (respond r m).1, none)

  await_from-respond :
      (n : ℕ) (r : Request) (v : V)
      → s.request v ≡ some r
      → s.wait v < n
      → outcome (await_from b n true data_ok_bit v) ≡ answer_to r (s.memory v)
  unfolding await_from clear rdata
  await_from-respond zero r v shown h = absurd (omega arith)
  await_from-respond (suc n) r v shown h = elim (Bool-cases (b.resp_data_ok v)) [
    | inl done ↦ rw (
      s.handshake_lem v,
      done,
      s.word_lem r v shown done,
      s.memory-clear (b.tick v),
      s.request-clear (b.tick v),
      s.memory-tick_done r v shown done,
    )
    | inr busy ↦
        rw (s.handshake_lem v, busy)
          (await_from-respond n r (b.tick v) (s.request-tick v busy ∙ shown)
              (omega (arith, s.wait-tick r v shown busy))
            ∙ ap (answer_to r) (s.memory-tick v busy))
  ]

  -- The wait for a request that was sent in the state `v`.
  await-send :
      (r : Request) (v : V)
      → latency ≤ await_limit
      → outcome (await b true false true await_limit (send b r v)) ≡ answer_to r (s.memory v)
  unfolding await
  await-send r v h =
      await_from-respond await_limit r (send b r v) (s.request-send r v)
        (omega (arith, s.wait-lt (send b r v)))
      ∙ ap (answer_to r) (s.memory-send r v)

  abbrev pub written : Option V → Option (M × Option Request)
  written none = none
  written (some v) = some (s.memory v, s.request v)

  written-outcome :
      (x : Option (ℕ × V)) → written (x >>= λ r. some r.1) ≡ (outcome x >>= λ t. some (t.1, t.2))
  written-outcome none = refl
  written-outcome (some r) = refl

  -- A design that answers within the limit of `await`: `load` returns the word with which the
  -- memory answers the read, and changes the memory as the answer says. The bus is idle
  -- afterwards.
  pub load-respond :
      (address msize : ℕ) (v : V)
      → latency ≤ await_limit
      → outcome (load b address msize v) ≡ answer_to (read (add_base address) msize) (s.memory v)
  unfolding load
  load-respond address msize v h = await-send (read (add_base address) msize) v h

  -- A design that answers within the limit of `await`: `store` changes the memory as the answer
  -- to the write says, and the bus is idle afterwards.
  pub store-respond :
      (address msize lanes word : ℕ) (v : V)
      → latency ≤ await_limit
      → written (store b address msize lanes word v)
        ≡ some ((respond (write (add_base address) msize lanes word) (s.memory v)).1, none)
  unfolding store
  store-respond address msize lanes word v h =
      written-outcome
        (await b true false true await_limit (send b (write (add_base address) msize lanes word) v))
      ∙ ap (λ (o : Option (ℕ × M × Option Request)). o >>= λ t. some (t.1, t.2))
          (await-send (write (add_base address) msize lanes word) v h)

  -- A success, taken apart.
  pub outcome-eq_some :
      (x : Option (ℕ × V)) {word : ℕ} {m : M} {r : Option Request}
      → outcome x ≡ some (word, m, r)
      → (v : V) × (x ≡ some (word, v)) × (s.memory v ≡ m)
  outcome-eq_some none e = cc
  outcome-eq_some (some (word', v)) e =
      let parts = some-triple e in
      (v, ap {B = Option (ℕ × V)} (λ (t : ℕ). some (t, v)) parts.0, parts.1)

  pub written-eq_some :
      (x : Option V) {m : M} {r : Option Request}
      → written x ≡ some (m, r)
      → (v : V) × (x ≡ some v) × (s.memory v ≡ m)
  written-eq_some none e = cc
  written-eq_some (some v) {m} e =
      (v, refl, ap (λ (o : Option (M × Option Request)). elim o [ none ↦ m | some t ↦ t.0 ]) e)
