-- ===== src/Core/Mul/Product.antt =====
-- The state machine of vsrc/src/mul.sv computes the product, 67 clock edges after a request.
use native.Mathlib.Nat.{mul-le-mul, add-mul, mul_comm}
use riscv_single_cycle_cpu.Base.{
  ℕ, ◌+◌, ◌-◌, ◌*◌, ◌%◌, ◌^◌, ◌≤◌, ◌<◌, ◌≡◌, refl, sym, ap, ◌∙◌, arith, Bool, true, false,
  if◌then◌else◌, Bool-cases, inl, inr,
}
use riscv_single_cycle_cpu.Core.Signals.{Registers, request, is_set, negate, sign_extend32}
use riscv_single_cycle_cpu.Core.Mul.{num1, num2, is_negative, temp, c}

-- what `mul` and `mulw` write, of operands of either sign
abbrev pub product : Bool → ℕ → ℕ → ℕ
product w a b = if w then sign_extend32 (a * b) else a * b % 2 ^ 64

-- The complement of a product whose factors have one sign each is the product of the operands.
opposite_sign :
    (p q t : ℕ) → p < 2 ^ 128 → p + q ≡ 2 ^ 64 * t → (2 ^ 129 - p) % 2 ^ 129 % 2 ^ 64 ≡ q % 2 ^ 64
opposite_sign p q t hp e = omega arith

both_signs : (p q t : ℕ) → p + 2 ^ 64 * t ≡ q + 2 ^ 64 * 2 ^ 64 → p % 2 ^ 64 ≡ q % 2 ^ 64
both_signs p q t e = omega arith

negate_lem : (x : ℕ) → x < 2 ^ 64 → is_set 63 x ≡ true → negate x ≡ 2 ^ 64 - x
negate_lem x h e = ground arith

product-lt : (x y : ℕ) → x < 2 ^ 64 → y < 2 ^ 64 → x * y < 2 ^ 128
product-lt x y hx hy =
    let hx' : x ≤ 2 ^ 64 - 1 = omega arith in
    let hy' : y ≤ 2 ^ 64 - 1 = omega arith in omega (arith, mul-le-mul hx' hy')

complement : (x y z : ℕ) → x + y ≡ 2 ^ 64 → x * z + y * z ≡ 2 ^ 64 * z
complement x y z e = sym (add-mul x y z) ∙ ap (λ (t : ℕ). t * z) e

complements : (x a y b z : ℕ) → x + a ≡ z → y + b ≡ z → x * y + z * (a + b) ≡ a * b + z * z
complements x a y b z hx hy =
    let e : x * y + ((y + b) * a + (x + a) * b) ≡ a * b + (x + a) * (y + b) = grind arith in
    let d : x * y + z * (a + b) ≡ x * y + (z * a + z * b) = grind arith in d ∙ rw (hx, hy) at e

module _ (a b : ℕ) (ha : a < 2 ^ 64) (hb : b < 2 ^ 64) where
  pub num1-lt : (s w : Bool) → num1 (request a b s w) < 2 ^ 64
  unfolding num1
  num1-lt s w = ground arith

  pub num2-lt : (s w : Bool) → num2 (request a b s w) < 2 ^ 64
  unfolding num2
  num2-lt s w = ground arith

  -- The magnitudes and the sign give the product, modulo `2 ^ 64`.
  temp_lem :
      (s w : Bool) → let i = request a b s w in temp i (num1 i * num2 i) % 2 ^ 64 ≡ a * b % 2 ^ 64
  unfolding temp num1 num2 is_negative
  temp_lem false w = ground arith
  temp_lem true w = elim (Bool-cases (is_set 63 a)) [
    | inl p ↦ elim (Bool-cases (is_set 63 b)) [
      | inl q ↦
          rw (p, q, negate_lem a ha p, negate_lem b hb q)
            (both_signs _ _ (a + b)
              (complements (2 ^ 64 - a) a (2 ^ 64 - b) b (2 ^ 64) (omega arith) (omega arith)))
      | inr q ↦
          rw (p, q, negate_lem a ha p)
            (opposite_sign _ _ b (product-lt _ _ (ground arith) hb)
              (complement (2 ^ 64 - a) a b (omega arith)))
    ]
    | inr p ↦ elim (Bool-cases (is_set 63 b)) [
      | inl q ↦
          rw (p, q, negate_lem b hb q)
            (opposite_sign _ _ a (product-lt _ _ ha (ground arith)) (
              rw (mul_comm a (2 ^ 64 - b), mul_comm a b)
                (complement (2 ^ 64 - b) b a (omega arith))))
      | inr q ↦ rw (p, q) refl
    ]
  ]

  pub c-product :
      (s w : Bool) (r : Registers)
      → let i = request a b s w in r.p ≡ num1 i * num2 i → c i r ≡ product w a b
  unfolding c
  c-product s w r e = ground (arith, temp_lem s w)
