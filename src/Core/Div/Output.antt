-- ===== src/Core/Div/Output.antt =====
-- The output of vsrc/src/div.sv, of the quotient and the remainder of the absolute values.
use native.Mathlib.Nat.{div-le_self, mod-lt, mod-le, mod-zero}
use riscv_single_cycle_cpu.Base.{
  ℕ, ◌-◌, ◌/◌, ◌%◌, ◌^◌, ◌≤◌, ◌<◌, ◌≡◌, ◌≢◌, refl, arith, Bool, true, false, not, ◌&&◌, ◌==◌,
  if◌then◌else◌,
}
use riscv_single_cycle_cpu.Core.Signals.{Registers, request, differ, is_set, negate, sign_extend32}
use riscv_single_cycle_cpu.Core.Div.{num1, num2, magnitude, concat, c}
use riscv_single_cycle_cpu.Core.Div.Quotient.{
  operand, is_below_zero, absolute, result, quotient, remainder,
}

magnitude-absolute : (w s : Bool) (x : ℕ) → x < 2 ^ 64 → magnitude w s x ≡ absolute w s x
unfolding magnitude absolute operand is_below_zero
magnitude-absolute w s x h = ground arith

-- The operands of the signed 32-bit forms.
module _ (x : ℕ) where
  word_sign : is_below_zero true true x ≡ is_set 31 x
  unfolding is_below_zero operand
  word_sign = ground arith

  word_zero : (operand true true x == 0) ≡ (absolute true true x == 0)
  unfolding is_below_zero operand absolute
  word_zero = ground arith

  word_value :
      operand true true x
      ≡ (if is_set 31 x then negate (absolute true true x) else absolute true true x)
  unfolding is_below_zero operand absolute
  word_value = ground arith

  word_small : absolute true true x ≤ 2 ^ 31
  unfolding is_below_zero operand absolute
  word_small = ground arith

  word_positive : is_set 31 x ≡ true → absolute true true x ≢ 0
  unfolding is_below_zero operand absolute
  word_positive e z = ground arith

  word_bound : is_set 31 x ≡ false → absolute true true x < 2 ^ 31
  unfolding is_below_zero operand absolute
  word_bound e = ground arith

-- The output of a signed 32-bit division, by the signs of the operands.
signed_cases :
    (sa sb : Bool) (m n q r : ℕ)
    → m ≤ 2 ^ 31
    → (sa ≡ false → m < 2 ^ 31)
    → n ≤ 2 ^ 31
    → (sb ≡ true → n ≢ 0)
    → (n ≢ 0 → q ≤ m)
    → r ≤ m
    → (n ≡ 0 → r ≡ m)
    → let low = if n == 0 then 2 ^ 64 - 1 else q in
      (if sa && (n == 0)
        then concat (negate r) low
        else if sa && not sb
        then concat (negate r) (negate low)
        else if not sa && sb
        then concat r (negate low)
        else if sa && sb
        then concat (negate r) (sign_extend32 low)
        else concat (sign_extend32 r) (sign_extend32 low))
      ≡ concat
          (sign_extend32
            (if n == 0 then (if sa then negate m else m) else if sa then negate r else r))
          (sign_extend32 (if n == 0 then 2 ^ 64 - 1 else if differ sa sb then negate q else q))
signed_cases true true m n q r hm hm' hn hb hq hr hz = ground arith
signed_cases true false m n q r hm hm' hn hb hq hr hz = ground arith
signed_cases false true m n q r hm hm' hn hb hq hr hz = ground arith
signed_cases false false m n q r hm hm' hn hb hq hr hz = ground arith

module _ (a b : ℕ) (ha : a < 2 ^ 64) (hb : b < 2 ^ 64) where
  signed_word :
      (q r : ℕ)
      → let n = absolute true true b in
        let m = absolute true true a in
        (n ≢ 0 → q ≤ m)
        → (n ≢ 0 → r < n)
        → r ≤ m
        → (n ≡ 0 → r ≡ m)
        → (rg : Registers) → rg.p / 2 ^ 64 % 2 ^ 64 ≡ r
        → rg.p % 2 ^ 64 ≡ (if n == 0 then 2 ^ 64 - 1 else q)
        → q ≡ m / n
        → r ≡ m % n
        → c (request a b true true) rg ≡ concat (remainder true true a b) (quotient true true a b)
  unfolding c quotient remainder result
  signed_word q r hq hr hr' hz rg hi lo eq er =
      rw
        (
          hi,
          lo,
          ← eq,
          ← er,
          magnitude-absolute true true b hb,
          word_sign a,
          word_sign b,
          word_zero b,
          word_value a,
        )
        (signed_cases (is_set 31 a) (is_set 31 b) (absolute true true a) (absolute true true b) q r
          (word_small a) (word_bound a) (word_small b) (word_positive b) hq hr' hz)

  c_of :
      (s w : Bool) (q r : ℕ)
      → let n = absolute w s b in
        let m = absolute w s a in
        (n ≢ 0 → q ≤ m)
        → (n ≢ 0 → r < n)
        → r ≤ m
        → (n ≡ 0 → r ≡ m)
        → (rg : Registers) → rg.p ≡ concat r (if n == 0 then 2 ^ 64 - 1 else q)
        → q ≡ m / n
        → r ≡ m % n
        → c (request a b s w) rg ≡ concat (remainder w s a b) (quotient w s a b)
  unfolding c magnitude absolute operand is_below_zero quotient remainder result
  c_of false false q r hq hr hr' hz rg e eq er = rw (e, ← eq, ← er) (ground arith)
  c_of false true q r hq hr hr' hz rg e eq er = rw (e, ← eq, ← er) (ground arith)
  c_of true false q r hq hr hr' hz rg e eq er = rw (e, ← eq, ← er) (ground arith)
  c_of true true q r hq hr hr' hz rg e eq er =
      signed_word q r hq hr hr' hz rg (ground (arith, word_small a)) (ground (arith, word_small a))
        eq er

  absolute-lt : (w s : Bool) (x : ℕ) → x < 2 ^ 64 → absolute w s x < 2 ^ 64
  unfolding absolute operand is_below_zero
  absolute-lt w s x h = ground arith

  -- The output is the remainder above the quotient, whatever the form and the operands.
  pub c-quotient :
      (s w : Bool) (rg : Registers)
      → let i = request a b s w in
        rg.p ≡ concat (num1 i % num2 i) (if num2 i == 0 then 2 ^ 64 - 1 else num1 i / num2 i)
        → c i rg ≡ concat (remainder w s a b) (quotient w s a b)
  c-quotient s w rg e =
      c_of s w (m / n) (m % n) (λ _. div-le_self m n) (λ nz. mod-lt m (omega arith)) (mod-le m n)
        (λ z. rw z (mod-zero m)) rg
        (rw (magnitude-absolute w s a ha, magnitude-absolute w s b hb) at e) refl refl
    where
      m : ℕ
      m = absolute w s a

      n : ℕ
      n = absolute w s b

  pub quotient-lt : (s w : Bool) → quotient w s a b < 2 ^ 64
  unfolding quotient result
  quotient-lt s w =
      ground (arith, absolute-lt w s a ha, div-le_self (absolute w s a) (absolute w s b))

  operand-lt : (w s : Bool) (x : ℕ) → x < 2 ^ 64 → operand w s x < 2 ^ 64
  unfolding operand
  operand-lt w s x h = ground arith

  pub remainder-lt : (s w : Bool) → remainder w s a b < 2 ^ 64
  unfolding remainder result
  remainder-lt s w =
      ground
        (arith, absolute-lt w s a ha, operand-lt w s a ha, mod-le (absolute w s a) (absolute w s b))
