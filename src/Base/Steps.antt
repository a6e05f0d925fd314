-- ===== src/Base/Steps.antt =====
-- The native bit operations, one binary digit at a time.
use Prim.Native.Nat.{ℕ, zero, suc, ◌+◌, ◌*◌, ◌/◌, ◌%◌, ◌≤◌, min, max, bit_and, bit_or, bit_xor}
use Prim.Native.Nat.{differ, digits, bitwise, bit_and-bitwise, bit_or-bitwise, bit_xor-bitwise}
use mathlib.Core.Path.{◌≡◌, refl, sym, ap, ◌∙◌}
use native.Mathlib.Omega.{arith}

module _ (end : ℕ → ℕ) (op : ℕ → ℕ → ℕ) where
  -- Rounds beyond the first number's own value make no difference; `top` bounds the rounds.
  spare_rounds :
      (top rounds a b : ℕ)
      → rounds ≤ top
      → a ≤ rounds
      → digits end op rounds a b ≡ bitwise end op a b
  spare_rounds top zero zero b below enough = refl
  spare_rounds top zero (suc a) b below enough = absurd (omega arith)
  spare_rounds top (suc rounds) zero b below enough = refl
  spare_rounds zero (suc rounds) (suc a) b below enough = absurd (omega arith)
  spare_rounds (suc top) (suc rounds) (suc a) b below enough =
      let half = suc a / 2 in
      let with_rounds = spare_rounds top rounds half (b / 2) (omega arith) (omega arith) in
      let with_a = spare_rounds top a half (b / 2) (omega arith) (omega arith) in
      ap (λ (t : ℕ). t * 2 + op (suc a % 2) (b % 2)) (with_rounds ∙ sym with_a)

  -- The lowest digit of a positive number, and the rest.
  lowest_digit :
      (a b : ℕ)
      → bitwise end op (suc a) b ≡ bitwise end op (suc a / 2) (b / 2) * 2 + op (suc a % 2) (b % 2)
  lowest_digit a b =
      ap (λ (t : ℕ). t * 2 + op (suc a % 2) (b % 2))
        (spare_rounds a a (suc a / 2) (b / 2) (omega arith) (omega arith))

pub bit_and_step : (a b : ℕ) → bit_and a b ≡ min (a % 2) (b % 2) + 2 * bit_and (a / 2) (b / 2)
bit_and_step zero b = simp bit_and-bitwise (omega arith)
bit_and_step (suc a) b = simp bit_and-bitwise (omega (arith, lowest_digit (λ y. 0) min a b))

pub bit_or_step : (a b : ℕ) → bit_or a b ≡ max (a % 2) (b % 2) + 2 * bit_or (a / 2) (b / 2)
bit_or_step zero b = simp bit_or-bitwise (omega arith)
bit_or_step (suc a) b = simp bit_or-bitwise (omega (arith, lowest_digit (λ y. y) max a b))

pub bit_xor_step : (a b : ℕ) → bit_xor a b ≡ differ (a % 2) (b % 2) + 2 * bit_xor (a / 2) (b / 2)
bit_xor_step zero b = simp bit_xor-bitwise (omega arith)
bit_xor_step (suc a) b = simp bit_xor-bitwise (omega (arith, lowest_digit (λ y. y) differ a b))
