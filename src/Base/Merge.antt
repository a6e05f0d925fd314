-- ===== src/Base/Merge.antt =====
-- The masked write `(value & ~mask) | (data & mask)`: a bit comes from the data where the mask
-- has a one, and stays where it has a zero.
use Prim.Native.Nat.{ℕ, ◌-◌, ◌^◌, ◌<◌, min, max, bit_and}
use mathlib.Core.Path.{◌≡◌, refl}
use native.Mathlib.Omega.{arith}
use riscv_single_cycle_cpu.Base.Word.{not64, merge}
use riscv_single_cycle_cpu.Base.Bits.{
  bit, bit-le-one, bit-and, bit-or, bit-not64, bit-zero, bit-ones, eq_of_bits, bit_and-lt,
  bit_or-lt,
}

module _ (i : ℕ) (v d m : ℕ) (inside : i < 64) (m64 : m < 2 ^ 64) where
  bit-merge : bit i (merge v d m) ≡ max (min (bit i v) (1 - bit i m)) (min (bit i d) (bit i m))
  unfolding merge
  bit-merge = rw (bit-or, bit-and, bit-and, bit-not64 i m inside m64) refl

  pub bit-merge_one : bit i m ≡ 1 → bit i (merge v d m) ≡ bit i d
  bit-merge_one h = omega (arith, bit-merge, bit-le-one i v, bit-le-one i d)

  pub bit-merge_zero : bit i m ≡ 0 → bit i (merge v d m) ≡ bit i v
  bit-merge_zero h = omega (arith, bit-merge, bit-le-one i v, bit-le-one i d)

pub merge-lt : (v d m : ℕ) → m < 2 ^ 64 → merge v d m < 2 ^ 64
unfolding merge
merge-lt v d m h = bit_or-lt 64 _ _ (bit_and-lt 64 v (not64 m) (omega arith)) (bit_and-lt 64 d m h)

-- What is read back under the mask is what was written.
pub bit_and-merge : (v d m : ℕ) → m < 2 ^ 64 → bit_and (merge v d m) m ≡ bit_and d m
bit_and-merge v d m h = eq_of_bits 64 _ _ (bit_and-lt 64 _ m h) (bit_and-lt 64 d m h) same
  where
    same : (i : ℕ) → i < 64 → bit i (bit_and (merge v d m) m) ≡ bit i (bit_and d m)
    same i p =
        rw (bit-and, bit-and)
          (omega (arith, bit-merge i v d m p h, bit-le-one i v, bit-le-one i d, bit-le-one i m))

-- A full mask takes all of the data, an empty one keeps all of the value.
pub merge_full : (v d : ℕ) → d < 2 ^ 64 → merge v d (2 ^ 64 - 1) ≡ d
merge_full v d h =
    eq_of_bits 64 _ _ (merge-lt v d _ (omega arith)) h
      (λ i p. bit-merge_one i v d _ p (omega arith) (bit-ones 64 i p))

pub merge_none : (v d : ℕ) → v < 2 ^ 64 → merge v d 0 ≡ v
merge_none v d h =
    eq_of_bits 64 _ _ (merge-lt v d 0 (omega arith)) h
      (λ i p. bit-merge_zero i v d 0 p (omega arith) (bit-zero i))

-- Of two writes through one mask the second one stays.
pub merge-merge : (v d e m : ℕ) → m < 2 ^ 64 → merge (merge v d m) e m ≡ merge v e m
merge-merge v d e m h = eq_of_bits 64 _ _ (merge-lt _ e m h) (merge-lt v e m h) λ i p. omega (
  arith,
  bit-merge i (merge v d m) e m p h,
  bit-merge i v d m p h,
  bit-merge i v e m p h,
  bit-le-one i v,
  bit-le-one i d,
  bit-le-one i e,
  bit-le-one i m,
)
