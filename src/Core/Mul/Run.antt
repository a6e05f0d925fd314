-- ===== src/Core/Mul/Run.antt =====
-- The clock edges of vsrc/src/mul.sv from a request to `done`.
use riscv_single_cycle_cpu.Base.{ℕ, suc, ◌*◌, ◌^◌, ◌<◌, ◌≡◌, refl, arith, Bool, true, false}
use riscv_single_cycle_cpu.Core.Signals.{Registers, request, hold}
use riscv_single_cycle_cpu.Core.Sequence.{Sequence, repeat, waiting, finished}
use riscv_single_cycle_cpu.Core.Mul.{num1, num2, round, clock, c}
use riscv_single_cycle_cpu.Core.Mul.Steps.{repeat-product}
use riscv_single_cycle_cpu.Core.Mul.Product.{product, num1-lt, num2-lt, c-product}

clock-Sequence :
    (a b : ℕ) (s w : Bool) → let i = request a b s w in Sequence clock i (num1 i) (round (num2 i))
unfolding clock
clock-Sequence a b s w = record {
  idle = λ r e. ground arith;
  load = λ p. refl;
  step = λ k p pos small. ground arith;
  last = λ p. refl;
}

-- A multiplication that is requested while the unit is idle, with the operands held: `done` stays
-- low for the first 66 edges and is high after 67, the unit is idle again, and the output is the
-- product, of operands of either sign, cut to 64 bits or to 32 bits sign-extended.
pub hold-product :
    (a b : ℕ) (s w : Bool) (r : Registers)
    → a < 2 ^ 64
    → b < 2 ^ 64
    → r.state ≡ false
    → let i = request a b s w in
      let last = hold clock 67 i r in
      ((n : ℕ) → n < 66 → (hold clock (suc n) i r).done ≡ false)
      × (last.done ≡ true)
      × (last.state ≡ false)
      × (c i last ≡ product w a b)
hold-product a b s w r ha hb e =
    rw (finished m r e) (λ n h. waiting m n r e h, refl, refl, c-product a b ha hb s w _ multiplied)
  where
    m : let i = request a b s w in Sequence clock i (num1 i) (round (num2 i))
    m = clock-Sequence a b s w

    multiplied : let i = request a b s w in repeat (round (num2 i)) 64 (num1 i) ≡ num1 i * num2 i
    multiplied = repeat-product _ _ (num1-lt a b ha hb s w) (num2-lt a b ha hb s w)
