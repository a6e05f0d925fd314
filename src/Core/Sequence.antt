-- ===== src/Core/Sequence.antt =====
-- The state machine that vsrc/src/mul.sv and vsrc/src/div.sv share: an idle edge, a load, 64 rounds
-- and the edge that raises `done`.
use native.Mathlib.Nat.{add-zero, add-suc, suc-add}
use riscv_single_cycle_cpu.Base.{
  ℕ, zero, suc, ◌+◌, ◌≤◌, ◌<◌, ◌≡◌, refl, ap, ◌∙◌, arith, Bool, true, false,
}
use riscv_single_cycle_cpu.Core.Signals.{Inputs, Registers, hold, hold-suc}

abbrev pub repeat : (ℕ → ℕ) → ℕ → ℕ → ℕ
repeat round zero p = p
repeat round (suc n) p = repeat round n (round p)

abbrev pub registers : Bool → ℕ → ℕ → Bool → Registers
registers state count p done = record { state = state; count = count; p = p; done = done }

-- What the clocked block does under inputs that keep a request up: `first` is loaded, and `round`
-- is applied at each edge.
pub record Sequence (clock : Inputs → Registers → Registers) (i : Inputs) (first : ℕ)
    (round : ℕ → ℕ) : Type 0 where
  pub idle : (r : Registers) → r.state ≡ false → clock i r ≡ registers true 0 r.p false
  pub load : (p : ℕ) → clock i (registers true 0 p false) ≡ registers true 1 first false
  pub step :
      (k p : ℕ)
      → 0 < k
      → k < 65
      → clock i (registers true k p false) ≡ registers true (suc k) (round p) false
  pub last : (p : ℕ) → clock i (registers true 65 p false) ≡ registers false 66 p true

module _ {clock : Inputs → Registers → Registers} {i : Inputs} {first : ℕ} {round : ℕ → ℕ}
    (m : Sequence clock i first round) where
  hold-repeat :
      (j k p : ℕ)
      → 0 < k
      → k + j ≤ 65
      → hold clock j i (registers true k p false) ≡ registers true (k + j) (repeat round j p) false
  hold-repeat zero k p hk e = rw add-zero refl
  hold-repeat (suc j) k p hk e =
      rw (m.step k p hk (omega arith), add-suc k j, ← suc-add k j)
        (hold-repeat j (suc k) (round p) (omega arith) (omega arith))

  -- The registers after the request, the load and some rounds.
  hold_lem :
      (j : ℕ) (r : Registers)
      → r.state ≡ false
      → j ≤ 64
      → hold clock (suc (suc j)) i r ≡ registers true (1 + j) (repeat round j first) false
  hold_lem j r e h = rw (m.idle r e, m.load r.p) (hold-repeat j 1 first (omega arith) (omega arith))

  pub waiting :
      (n : ℕ) (r : Registers) → r.state ≡ false → n < 66 → (hold clock (suc n) i r).done ≡ false
  waiting zero r e h = ap (λ (t : Registers). t.done) (m.idle r e)
  waiting (suc j) r e h = ap (λ (t : Registers). t.done) (hold_lem j r e (omega arith))

  pub finished :
      (r : Registers)
      → r.state ≡ false
      → hold clock 67 i r ≡ registers false 66 (repeat round 64 first) true
  finished r e = hold-suc clock 66 i r ∙ ap (clock i) (hold_lem 64 r e (omega arith)) ∙ m.last _
