-- ===== src/Core/Div/Rounds.antt =====
-- All the rounds of vsrc/src/div.sv: the quotient and the remainder.
use native.Mathlib.Nat.{
  pow-suc, one-le-pow, div-add-mod', mod-lt, div-lt_iff_lt-mul, mod-zero, mul-add-div_right,
  mul-add-mod_self_right, div-eq_of_lt, mod-eq_of_lt,
}
use riscv_single_cycle_cpu.Base.{
  ℕ, zero, suc, ◌+◌, ◌-◌, ◌*◌, ◌/◌, ◌%◌, ◌^◌, ◌<◌, ◌≡◌, refl, sym, ap, ◌∙◌, arith, leb, ◌⊎◌, inl,
  inr, false, ◌==◌, ==-ne, if◌then◌else◌, Bool-cases, leb→le, ◌≢◌,
}
use riscv_single_cycle_cpu.Core.Sequence.{repeat}
use riscv_single_cycle_cpu.Core.Div.{round, concat}
use riscv_single_cycle_cpu.Core.Div.Steps.{
  Divided, restated, one_more, none_more, halved, round_fits, round_over,
}

doubled : (q j : ℕ) → suc (2 * q + 1) * j ≡ suc q * (j * 2)
doubled q j = grind arith

over→lt : (n h : ℕ) → leb n h ≡ false → h < n
over→lt n h e = ground arith

over→ne : (n h : ℕ) → leb n h ≡ false → n ≢ 0
over→ne n h e z = omega (arith, over→lt n h e)

fits_after : (n r t : ℕ) → t < 2 → (r < n) ⊎ (n ≡ 0) → (2 * r + t - n < n) ⊎ (n ≡ 0)
fits_after n r t ht (inl h) = inl (omega arith)
fits_after n r t ht (inr z) = inr z

pub repeat_from :
    (j k r l q n : ℕ)
    → 2 ^ j * k ≡ 2 ^ 64
    → r < k
    → l < 2 ^ j
    → q < k
    → n < 2 ^ 64
    → (r < n) ⊎ (n ≡ 0)
    → Divided n
        (r * 2 ^ j + l + q * n * 2 ^ j)
        (suc q * 2 ^ j)
        (repeat (round n) j (r * 2 ^ 64 + l * k + q))
repeat_from zero k r l q n full hr hl hq hn fits = record {
  q = q;
  r = r;
  whole = (let none_left : l ≡ 0 = omega arith in rw none_left (omega arith));
  q_lt = omega arith;
  exact = omega arith;
  small = fits;
  by_zero = λ z. omega arith;
}
repeat_from (suc j) k r l q n full hr hl hq hn fits =
    rw (pow-suc 2 j, shape)
      (elim (Bool-cases (leb n (2 * r + t))) [
        | inl e ↦ rw (round_fits n hn half k r t l' q full' pos hr ht hl' hq e) (
            restated n _ _ _ _ _
              (one_more r t l' half q n (2 * r + t - n) (omega (arith, leb→le n (2 * r + t) e)))
              (λ z. doubled q half)
              (repeat_from j (2 * k) (2 * r + t - n) l' (2 * q + 1) n full'' (omega (arith, ht)) hl'
                (omega arith) hn (fits_after n r t ht fits)))
        | inr e ↦ rw (round_over n hn half k r t l' q full' pos hr ht hl' hq e) (
            restated n _ _ _ _ _ (none_more r t l' half q n)
              (λ z. absurd (over→ne n (2 * r + t) e z))
              (repeat_from j (2 * k) (2 * r + t) l' (2 * q) n full'' (omega (arith, ht)) hl'
                (omega arith) hn (inl (over→lt n (2 * r + t) e))))
      ])
  where
    half : ℕ
    half = 2 ^ j

    t : ℕ
    t = l / half

    l' : ℕ
    l' = l % half

    pos : 0 < half
    pos = one-le-pow j 2 (omega arith)

    shape : l ≡ t * half + l'
    shape = sym (div-add-mod' l half)

    full' : half * k ≡ 2 ^ 63
    full' = halved half k (sym (ap (λ (x : ℕ). x * k) (pow-suc 2 j)) ∙ full)

    full'' : half * (2 * k) ≡ 2 ^ 64
    full'' = let e : half * (2 * k) ≡ 2 * (half * k) = grind arith in omega (arith, full')

    ht : t < 2
    ht = (div-lt_iff_lt-mul pos).1 (omega (arith, pow-suc 2 j))

    hl' : l' < half
    hl' = mod-lt l pos

positive_or_zero : (n : ℕ) → (0 < n) ⊎ (n ≡ 0)
positive_or_zero zero = inr refl
positive_or_zero (suc n) = inl (omega arith)

repeat-Divided : (m n : ℕ) → m < 2 ^ 64 → n < 2 ^ 64 → Divided n m (2 ^ 64) (repeat (round n) 64 m)
repeat-Divided m n hm hn =
    let start : 0 * 2 ^ 64 + m * 1 + 0 ≡ m = omega arith in
    restated n _ m _ (2 ^ 64) _ (omega arith) (λ z. omega arith)
      (rw start at
        (repeat_from 64 1 0 m 0 n refl (omega arith) hm (omega arith) hn (positive_or_zero n)))

quotient_of :
    (n m p : ℕ)
    → (d : Divided n m (2 ^ 64) p) → (d.q ≡ (if n == 0 then 2 ^ 64 - 1 else m / n)) × (d.r ≡ m % n)
quotient_of zero m p d = (omega (arith, d.by_zero refl), omega (arith, d.exact, mod-zero m))
quotient_of (suc n) m p d =
    let r_lt : d.r < suc n = elim d.small [ inl h ↦ h | inr z ↦ absurd (omega arith) ] in
    let q_eq : m / suc n ≡ d.q =
      ap (λ (t : ℕ). t / suc n) d.exact
      ∙ mul-add-div_right (omega arith) d.q d.r
      ∙ omega (arith, div-eq_of_lt r_lt) in
    let r_eq : m % suc n ≡ d.r =
      ap (λ (t : ℕ). t % suc n) d.exact
      ∙ mul-add-mod_self_right d.q (suc n) d.r
      ∙ mod-eq_of_lt r_lt in
    (rw (==-ne (suc n) 0 (λ z. omega arith)) (sym q_eq), sym r_eq)

-- 64 rounds divide `m` by `n`; where `n` is 0 the quotient is all ones and the remainder is `m`.
pub repeat_lem :
    (m n : ℕ)
    → m < 2 ^ 64
    → n < 2 ^ 64
    → repeat (round n) 64 m ≡ concat (m % n) (if n == 0 then 2 ^ 64 - 1 else m / n)
repeat_lem m n hm hn =
    let d = repeat-Divided m n hm hn in
    let (eq, er) = quotient_of n m _ d in d.whole ∙ rw (eq, er) refl
