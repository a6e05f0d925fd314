-- ===== src/Core/Mul/Steps.antt =====
-- The rounds of vsrc/src/mul.sv multiply: after as many rounds as the multiplicand has bits, the
-- register holds the product.
use native.Mathlib.Nat.{pow-suc, mul-le-mul_right}
use riscv_single_cycle_cpu.Base.{
  ℕ, zero, suc, ◌+◌, ◌*◌, ◌/◌, ◌%◌, ◌^◌, ◌≤◌, ◌<◌, ◌≡◌, refl, sym, ap, ◌∙◌, arith,
}
use riscv_single_cycle_cpu.Core.Sequence.{repeat}
use riscv_single_cycle_cpu.Core.Mul.{round}

-- No bit is lost: the sum fits its 65 bits.
round_lem : (n p : ℕ) → n < 2 ^ 64 → p < 2 ^ 128 → round n p ≡ p / 2 + p % 2 * (n * 2 ^ 63)
unfolding round
round_lem n p hn hp = ground arith

-- The register `h * q + l` of a round, as a high part above the bits of the multiplicand left.
halves : (h q l : ℕ) → ((h * (q * 2) + l) / 2 ≡ h * q + l / 2) × ((h * (q * 2) + l) % 2 ≡ l % 2)
halves h q l = let e : h * (q * 2) ≡ 2 * (h * q) = grind arith in rw e (omega arith, omega arith)

small : (h l q k : ℕ) → q * k ≡ 2 ^ 64 → h < 2 ^ 64 * k → l < q → h * q + l < 2 ^ 128
small h l q k full hh hl =
    let bound : suc h * q ≤ 2 ^ 64 * k * q = mul-le-mul_right q hh in
    let e : 2 ^ 64 * k * q ≡ 2 ^ 64 * (q * k) = grind arith in
    let e' : suc h * q ≡ h * q + q = grind arith in omega arith

gathered :
    (h q b half n k : ℕ)
    → q * 2 * k ≡ 2 ^ 64
    → h * q + half + b * (n * 2 ^ 63) ≡ (h + b * (n * k)) * q + half
gathered h q b half n k full = let e : 2 ^ 63 ≡ q * k = grind arith in rw e (grind arith)

shifted : (q k : ℕ) → q * (2 * k) ≡ q * 2 * k
shifted q k = grind arith

wide : (h b n k : ℕ) → b < 2 → n < 2 ^ 64 → h < 2 ^ 64 * k → h + b * (n * k) < 2 ^ 64 * (2 * k)
wide h zero n k hb hn hh = omega arith
wide h (suc zero) n k hb hn hh =
    let bound : n * k ≤ 2 ^ 64 * k = mul-le-mul_right k (omega arith) in omega arith
wide h (suc (suc b)) n k hb hn hh = absurd (omega arith)

shared : (h l n k : ℕ) → h + l % 2 * (n * k) + l / 2 * (n * (2 * k)) ≡ h + l * (n * k)
shared h l n k =
    let e : l ≡ l % 2 + l / 2 * 2 = omega arith in
    let d : (l % 2 + l / 2 * 2) * (n * k) ≡ l % 2 * (n * k) + l / 2 * (n * (2 * k)) = grind arith in
    let f : l * (n * k) ≡ (l % 2 + l / 2 * 2) * (n * k) = ap (λ (t : ℕ). t * (n * k)) e in
    omega arith

repeat_from :
    (j k h l n : ℕ)
    → 2 ^ j * k ≡ 2 ^ 64
    → h < 2 ^ 64 * k
    → l < 2 ^ j
    → n < 2 ^ 64
    → repeat (round n) j (h * 2 ^ j + l) ≡ h + l * (n * k)
repeat_from zero k h l n full hh hl hn =
    let none_left : l ≡ 0 = omega arith in rw none_left (omega arith)
repeat_from (suc j) k h l n full hh hl hn =
    rw (round_lem n p hn p_lt, pow-suc 2 j, (halves h (2 ^ j) l).0, (halves h (2 ^ j) l).1)
      (rw (gathered h (2 ^ j) (l % 2) (l / 2) n k full') (
        repeat_from j (2 * k) (h + l % 2 * (n * k)) (l / 2) n (shifted (2 ^ j) k ∙ full')
          (wide h (l % 2) n k (omega arith) hn hh) (omega (arith, pow-suc 2 j)) hn
        ∙ shared h l n k))
  where
    full' : 2 ^ j * 2 * k ≡ 2 ^ 64
    full' = sym (ap (λ (t : ℕ). t * k) (pow-suc 2 j)) ∙ full

    p : ℕ
    p = h * 2 ^ suc j + l

    p_lt : h * 2 ^ suc j + l < 2 ^ 128
    p_lt = small h l (2 ^ suc j) k full hh hl

pub repeat-product : (m n : ℕ) → m < 2 ^ 64 → n < 2 ^ 64 → repeat (round n) 64 m ≡ m * n
repeat-product m n hm hn =
    let start : 0 * 2 ^ 64 + m ≡ m = omega arith in
    let end : 0 + m * (n * 1) ≡ m * n = grind arith in
    ap (λ (t : ℕ). repeat (round n) 64 t) (sym start)
    ∙ repeat_from 64 1 0 m n refl (omega arith) hm hn
    ∙ end
