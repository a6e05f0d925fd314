-- ===== src/Base/Commute.antt =====
-- The bit operations commute.
use Prim.Native.Nat.{
  ℕ, zero, suc, ◌+◌, ◌*◌, ◌/◌, ◌%◌, ◌^◌, ◌≤◌, ◌<◌, min, max, bit_and, bit_or, bit_xor, differ,
}
use mathlib.Core.Path.{◌≡◌, refl}
use native.Mathlib.Omega.{arith}
use native.Mathlib.Nat.{pow-suc}
use riscv_single_cycle_cpu.Base.Steps.{bit_and_step, bit_or_step, bit_xor_step}

differ_comm : (a b : ℕ) → differ a b ≡ differ b a
differ_comm zero zero = refl
differ_comm zero (suc b) = refl
differ_comm (suc a) zero = refl
differ_comm (suc a) (suc b) = differ_comm a b

module _ (f : ℕ → ℕ → ℕ) (g : ℕ → ℕ → ℕ) (f_comm : (a b : ℕ) → f a b ≡ f b a) where
  -- An operation on digits that commutes, lifted to numbers.
  comm_fuel :
      ((a b : ℕ) → g a b ≡ f (a % 2) (b % 2) + 2 * g (a / 2) (b / 2))
      → (n a b : ℕ) → a ≤ n
      → b ≤ n
      → g a b ≡ g b a
  comm_fuel step zero a b p q =
      let x : a ≡ 0 = omega arith in let y : b ≡ 0 = omega arith in rw (x, y) refl
  comm_fuel step (suc n) a b p q = omega (
    arith,
    step a b,
    step b a,
    f_comm (a % 2) (b % 2),
    comm_fuel step n (a / 2) (b / 2) (omega arith) (omega arith),
  )

pub bit_xor_comm : (a b : ℕ) → bit_xor a b ≡ bit_xor b a
bit_xor_comm a b =
    comm_fuel differ bit_xor differ_comm bit_xor_step (a + b) a b (omega arith) (omega arith)

pub bit_and_comm : (a b : ℕ) → bit_and a b ≡ bit_and b a
bit_and_comm a b =
    comm_fuel min bit_and (λ a b. omega arith) bit_and_step (a + b) a b (omega arith) (omega arith)

pub bit_or_comm : (a b : ℕ) → bit_or a b ≡ bit_or b a
bit_or_comm a b =
    comm_fuel max bit_or (λ a b. omega arith) bit_or_step (a + b) a b (omega arith) (omega arith)

digit_lt : (a b : ℕ) → a < 2 → b < 2 → differ a b < 2
digit_lt zero b p q = q
digit_lt (suc a) zero p q = p
digit_lt (suc a) (suc b) p q = digit_lt a b (omega arith) (omega arith)

pub bit_xor-lt : (w a b : ℕ) → a < 2 ^ w → b < 2 ^ w → bit_xor a b < 2 ^ w
bit_xor-lt zero a b h k =
    let z : a ≡ 0 = omega arith in let y : b ≡ 0 = omega arith in rw (z, y) (omega arith)
bit_xor-lt (suc w) a b h k = omega (
  arith,
  bit_xor_step a b,
  digit_lt (a % 2) (b % 2) (omega arith) (omega arith),
  pow-suc 2 w,
  bit_xor-lt w (a / 2) (b / 2) (omega (arith, pow-suc 2 w)) (omega (arith, pow-suc 2 w)),
)
