-- ===== src/Core/Div/Run.antt =====
-- The clock edges of vsrc/src/div.sv from a request to `done`.
use riscv_single_cycle_cpu.Base.{ℕ, suc, ◌^◌, ◌<◌, ◌≡◌, refl, arith, Bool, true, false}
use riscv_single_cycle_cpu.Core.Signals.{Registers, request, hold}
use riscv_single_cycle_cpu.Core.Sequence.{Sequence, waiting, finished}
use riscv_single_cycle_cpu.Core.Div.{num1, num2, magnitude, round, clock, concat, c}
use riscv_single_cycle_cpu.Core.Div.Rounds.{repeat_lem}
use riscv_single_cycle_cpu.Core.Div.Quotient.{quotient, remainder}
use riscv_single_cycle_cpu.Core.Div.Output.{c-quotient}

clock-Sequence :
    (a b : ℕ) (s w : Bool) → let i = request a b s w in Sequence clock i (num1 i) (round (num2 i))
unfolding clock
clock-Sequence a b s w = record {
  idle = λ r e. ground arith;
  load = λ p. refl;
  step = λ k p pos small. ground arith;
  last = λ p. refl;
}

magnitude-lt : (w s : Bool) (x : ℕ) → x < 2 ^ 64 → magnitude w s x < 2 ^ 64
unfolding magnitude
magnitude-lt w s x h = ground arith

-- A division that is requested while the unit is idle, with the operands held: `done` stays low for
-- the first 66 edges and is high after 67, the unit is idle again, and the output is the remainder
-- above the quotient: rounded toward zero, with the sign of the dividend, all ones and the dividend
-- for a division by zero, of 64 bits or of 32 bits sign-extended.
pub hold-quotient :
    (a b : ℕ) (s w : Bool) (r : Registers)
    → a < 2 ^ 64
    → b < 2 ^ 64
    → r.state ≡ false
    → let i = request a b s w in
      let last = hold clock 67 i r in
      ((n : ℕ) → n < 66 → (hold clock (suc n) i r).done ≡ false)
      × (last.done ≡ true)
      × (last.state ≡ false)
      × (c i last ≡ concat (remainder w s a b) (quotient w s a b))
hold-quotient a b s w r ha hb e = rw (finished m r e) (
  λ n h. waiting m n r e h,
  refl,
  refl,
  c-quotient a b ha hb s w _ (repeat_lem _ _ (magnitude-lt w s a ha) (magnitude-lt w s b hb)),
)
  where
    m : let i = request a b s w in Sequence clock i (num1 i) (round (num2 i))
    m = clock-Sequence a b s w
