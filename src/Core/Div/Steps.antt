-- ===== src/Core/Div/Steps.antt =====
-- The rounds of vsrc/src/div.sv divide: the register holds the remainder above the quotient.
use native.Mathlib.Nat.{mul-le-mul_right}
use riscv_single_cycle_cpu.Base.{
  ℕ, suc, ◌+◌, ◌-◌, ◌*◌, ◌^◌, ◌≤◌, ◌<◌, ◌≡◌, sym, ◌∙◌, arith, leb, if◌then◌else◌, ◌⊎◌, true, false,
}
use riscv_single_cycle_cpu.Core.Div.{round}

round_lem :
    (n h l : ℕ)
    → h < 2 ^ 64
    → n < 2 ^ 64
    → l < 2 ^ 63
    → round n (h * 2 ^ 63 + l)
      ≡ (if leb n h then (h - n) * 2 ^ 64 + l * 2 + 1 else h * 2 ^ 64 + l * 2)
unfolding round
round_lem n h l hh hn hl = ground arith

-- `p` is the result of dividing `v` by `n`, `m` being the quotient of a division by zero.
pub record Divided (n v m p : ℕ) : Type 0 where
  pub q : ℕ
  pub r : ℕ
  pub whole : p ≡ r * 2 ^ 64 + q
  pub q_lt : q < 2 ^ 64
  pub exact : v ≡ q * n + r
  pub small : (r < n) ⊎ (n ≡ 0)
  pub by_zero : n ≡ 0 → suc q ≡ m

pub restated : (n v v' m m' p : ℕ) → v ≡ v' → (n ≡ 0 → m ≡ m') → Divided n v m p → Divided n v' m' p
restated n v v' m m' p e f d = record {
  q = d.q;
  r = d.r;
  whole = d.whole;
  q_lt = d.q_lt;
  exact = sym e ∙ d.exact;
  small = d.small;
  by_zero = λ z. d.by_zero z ∙ f z;
}

-- The register as the 64 bits compared with the divisor above the rest.
compared :
    (r t l j k q : ℕ)
    → j * k ≡ 2 ^ 63
    → r * 2 ^ 64 + (t * j + l) * k + q ≡ (2 * r + t) * 2 ^ 63 + (l * k + q)
compared r t l j k q full = grind arith

rest-lt : (l j k q : ℕ) → j * k ≡ 2 ^ 63 → l < j → q < k → l * k + q < 2 ^ 63
rest-lt l j k q full hl hq =
    let bound : suc l * k ≤ j * k = mul-le-mul_right k hl in
    let e : suc l * k ≡ l * k + k = grind arith in omega arith

pub halved : (j k : ℕ) → j * 2 * k ≡ 2 ^ 64 → j * k ≡ 2 ^ 63
halved j k full = let e : j * 2 * k ≡ 2 * (j * k) = grind arith in omega arith

pub k-le : (j k : ℕ) → 0 < j → j * k ≡ 2 ^ 63 → k ≤ 2 ^ 63
k-le j k pos full = let bound : 1 * k ≤ j * k = mul-le-mul_right k pos in omega arith

pub one_more :
    (r t l j q n d : ℕ)
    → d + n ≡ 2 * r + t
    → d * j + l + (2 * q + 1) * n * j ≡ r * (j * 2) + (t * j + l) + q * n * (j * 2)
one_more r t l j q n d e =
    let f : d * j + l + (2 * q + 1) * n * j ≡ (d + n) * j + l + q * n * (j * 2) = grind arith in
    f ∙ rw e (grind arith)

pub none_more :
    (r t l j q n : ℕ)
    → (2 * r + t) * j + l + 2 * q * n * j ≡ r * (j * 2) + (t * j + l) + q * n * (j * 2)
none_more r t l j q n = grind arith

packed : (d l k q b : ℕ) → d * 2 ^ 64 + (l * k + q) * 2 + b ≡ d * 2 ^ 64 + l * (2 * k) + (2 * q + b)
packed d l k q b = grind arith

-- A round takes the top bit of the dividend left, `t`, into the remainder.
module _ (n : ℕ) (hn : n < 2 ^ 64) (j k r t l q : ℕ) (full : j * k ≡ 2 ^ 63) (pos : 0 < j)
    (hr : r < k) (ht : t < 2) (hl : l < j) (hq : q < k) where
  abbrev p : ℕ
  p = r * 2 ^ 64 + (t * j + l) * k + q

  round_if : round n p ≡ (
      if leb n (2 * r + t)
      then (2 * r + t - n) * 2 ^ 64 + (l * k + q) * 2 + 1
      else (2 * r + t) * 2 ^ 64 + (l * k + q) * 2)
  round_if = rw (compared r t l j k q full) (
      round_lem n (2 * r + t) (l * k + q) (omega (arith, k-le j k pos full)) hn
        (rest-lt l j k q full hl hq))

  pub round_fits :
      leb n (2 * r + t) ≡ true → round n p ≡ (2 * r + t - n) * 2 ^ 64 + l * (2 * k) + (2 * q + 1)
  round_fits e = (rw e at round_if) ∙ packed (2 * r + t - n) l k q 1

  pub round_over :
      leb n (2 * r + t) ≡ false → round n p ≡ (2 * r + t) * 2 ^ 64 + l * (2 * k) + 2 * q
  round_over e = (rw e at round_if) ∙ omega (arith, packed (2 * r + t) l k q 0)
