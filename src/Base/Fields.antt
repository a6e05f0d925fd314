-- ===== src/Base/Fields.antt =====
-- Shifts and fields of words, bit by bit, and what a masked write does to a field.
use Prim.Native.Nat.{ℕ, zero, suc, ◌+◌, ◌-◌, ◌*◌, ◌/◌, ◌%◌, ◌^◌, ◌≤◌, ◌<◌, bit_and}
use mathlib.Core.Path.{◌≡◌, refl, sym, ap, ◌∙◌}
use native.Mathlib.Nat.{pow-suc, one-le-pow, mod-lt, div-div-eq-div-mul}
use native.Mathlib.Omega.{arith}
use riscv_single_cycle_cpu.Base.Steps.{bit_and_step}
use riscv_single_cycle_cpu.Base.Word.{merge}
use riscv_single_cycle_cpu.Base.Bits.{
  bit, bit-le-one, bit-and, bit-ones, bit-zero, eq_of_bits, bit_and_mask,
}
use riscv_single_cycle_cpu.Base.Merge.{bit-merge_one}

-- a field is read by shifting it down
pub bit-shr : (k i j a : ℕ) → j ≡ i + k → bit i (a / 2 ^ k) ≡ bit j a
bit-shr zero i j a e =
    let same : j ≡ i = omega arith in let all : a / 2 ^ 0 ≡ a = omega arith in rw (same, all) refl
bit-shr (suc k) i zero a e = absurd (omega arith)
bit-shr (suc k) i (suc j) a e =
    let half : a / 2 ^ suc k ≡ a / 2 / 2 ^ k =
      sym (div-div-eq-div-mul a 2 (2 ^ k) ∙ ap (λ (t : ℕ). a / t) (omega (arith, pow-suc 2 k))) in
    rw half (bit-shr k i j (a / 2) (omega arith))

pub bit-shl : (k i j a : ℕ) → j ≡ i + k → bit j (a * 2 ^ k) ≡ bit i a
bit-shl zero i j a e =
    let same : j ≡ i = omega arith in let all : a * 2 ^ 0 ≡ a = omega arith in rw (same, all) refl
bit-shl (suc k) i zero a e = absurd (omega arith)
bit-shl (suc k) i (suc j) a e =
    let half : a * 2 ^ suc k / 2 ≡ a * 2 ^ k = omega (arith, ap (λ (t : ℕ). a * t) (pow-suc 2 k)) in
    rw half (bit-shl k i j a (omega arith))

pub bit-shl_low : (k j a : ℕ) → j < k → bit j (a * 2 ^ k) ≡ 0
bit-shl_low zero j a h = absurd (omega arith)
bit-shl_low (suc k) zero a h = omega (arith, ap (λ (t : ℕ). a * t) (pow-suc 2 k))
bit-shl_low (suc k) (suc j) a h =
    let half : a * 2 ^ suc k / 2 ≡ a * 2 ^ k = omega (arith, ap (λ (t : ℕ). a * t) (pow-suc 2 k)) in
    rw half (bit-shl_low k j a (omega arith))

pub bit-high : (w i a : ℕ) → a < 2 ^ w → w ≤ i → bit i a ≡ 0
bit-high zero i a h k = let z : a ≡ 0 = omega arith in rw z (bit-zero i)
bit-high (suc w) zero a h k = absurd (omega arith)
bit-high (suc w) (suc i) a h k = bit-high w i (a / 2) (omega (arith, pow-suc 2 w)) (omega arith)

pub bit-mod : (w i a : ℕ) → i < w → bit i (a % 2 ^ w) ≡ bit i a
bit-mod w i a h =
    rw (← bit_and_mask w a) (omega (arith, bit-and i a (2 ^ w - 1), bit-ones w i h, bit-le-one i a))

-- A field of `w` bits from bit `k` on, after a masked write to just that field.
pub merge-field :
    (k w v d : ℕ)
    → k + w ≤ 64
    → (2 ^ w - 1) * 2 ^ k < 2 ^ 64
    → merge v (d * 2 ^ k % 2 ^ 64) ((2 ^ w - 1) * 2 ^ k) / 2 ^ k % 2 ^ w ≡ d % 2 ^ w
merge-field k w v d fits small =
    eq_of_bits w _ _ (mod-lt _ (one-le-pow w 2 (omega arith)))
      (mod-lt d (one-le-pow w 2 (omega arith))) same
  where
    same :
        (i : ℕ)
        → i < w
        → bit i (merge v (d * 2 ^ k % 2 ^ 64) ((2 ^ w - 1) * 2 ^ k) / 2 ^ k % 2 ^ w)
          ≡ bit i (d % 2 ^ w)
    same i h =
        bit-mod w i _ h
        ∙ bit-shr k i (i + k) _ refl
        ∙ bit-merge_one (i + k) v _ _ (omega arith) small
            (bit-shl k i (i + k) _ refl ∙ bit-ones w i h)
        ∙ bit-mod 64 (i + k) _ (omega arith)
        ∙ bit-shl k i (i + k) d refl
        ∙ sym (bit-mod w i d h)

-- A mask that is `m` shifted up by `k` tests the bits from `k` on.
pub bit_and-shifted : (k a m : ℕ) → bit_and a (m * 2 ^ k) ≡ bit_and (a / 2 ^ k) m * 2 ^ k
bit_and-shifted zero a m =
    let all : a / 2 ^ 0 ≡ a = omega arith in
    let one : m * 2 ^ 0 ≡ m = omega arith in rw (all, one) (omega arith)
bit_and-shifted (suc k) a m =
    let half : a / 2 / 2 ^ k ≡ a / 2 ^ suc k =
      div-div-eq-div-mul a 2 (2 ^ k) ∙ ap (λ (t : ℕ). a / t) (omega (arith, pow-suc 2 k)) in
    let half_mask : m * 2 ^ suc k / 2 ≡ m * 2 ^ k =
      omega (arith, ap (λ (t : ℕ). m * t) (pow-suc 2 k)) in
    let step : bit_and a (m * 2 ^ suc k) ≡ bit_and (a / 2) (m * 2 ^ k) * 2 =
      bit_and_step a (m * 2 ^ suc k)
      ∙ rw half_mask (omega (arith, ap (λ (t : ℕ). m * t) (pow-suc 2 k))) in
    step
    ∙ rw (bit_and-shifted k (a / 2) m, half)
        (omega (arith, ap (λ (t : ℕ). bit_and (a / 2 ^ suc k) m * t) (pow-suc 2 k)))

-- The field of `n` bits from bit `k` on, as the masks of the program test it.
pub bit_and_field : (k n a : ℕ) → bit_and a ((2 ^ n - 1) * 2 ^ k) ≡ a / 2 ^ k % 2 ^ n * 2 ^ k
bit_and_field k n a =
    bit_and-shifted k a (2 ^ n - 1) ∙ ap (λ t. t * 2 ^ k) (bit_and_mask n (a / 2 ^ k))
