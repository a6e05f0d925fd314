-- ===== src/Base/Bits.antt =====
-- Bits of words: what `&`, `|`, `~` and the masked write do to each bit.
use Prim.Native.Nat.{ℕ, zero, suc, ◌+◌, ◌-◌, ◌*◌, ◌/◌, ◌%◌, ◌^◌, ◌≤◌, ◌<◌, min, max}
use Prim.Native.Nat.{bit_and, bit_or, bit_or-bitwise, bit_and-bitwise}
use mathlib.Core.Path.{◌≡◌, refl, ap, ◌∙◌}
use native.Mathlib.Nat.{pow-suc, one-le-pow}
use native.Mathlib.Omega.{arith}
use riscv_single_cycle_cpu.Base.Steps.{bit_or_step, bit_and_step}
use riscv_single_cycle_cpu.Base.Commute.{bit_and_comm}
use riscv_single_cycle_cpu.Base.Word.{not64}

-- bit `i` of `a`, 0 or 1
abbrev pub bit : ℕ → ℕ → ℕ
bit zero a = a % 2
bit (suc i) a = bit i (a / 2)

pub bit-le-one : (i a : ℕ) → bit i a ≤ 1
bit-le-one zero a = omega arith
bit-le-one (suc i) a = bit-le-one i (a / 2)

pub bit-zero : (i : ℕ) → bit i 0 ≡ 0
bit-zero zero = refl
bit-zero (suc i) = bit-zero i

pub bit-and : (i a b : ℕ) → bit i (bit_and a b) ≡ min (bit i a) (bit i b)
bit-and zero a b = omega (arith, bit_and_step a b)
bit-and (suc i) a b =
    let e : bit_and a b / 2 ≡ bit_and (a / 2) (b / 2) = omega (arith, bit_and_step a b) in
    rw e (bit-and i (a / 2) (b / 2))

pub bit-or : (i a b : ℕ) → bit i (bit_or a b) ≡ max (bit i a) (bit i b)
bit-or zero a b = omega (arith, bit_or_step a b)
bit-or (suc i) a b =
    let e : bit_or a b / 2 ≡ bit_or (a / 2) (b / 2) = omega (arith, bit_or_step a b) in
    rw e (bit-or i (a / 2) (b / 2))

pub bit-complement : (w i a : ℕ) → i < w → a < 2 ^ w → bit i (2 ^ w - 1 - a) ≡ 1 - bit i a
bit-complement zero i a h k = absurd (omega arith)
bit-complement (suc w) zero a h k = omega (arith, pow-suc 2 w)
bit-complement (suc w) (suc i) a h k =
    let e : (2 ^ suc w - 1 - a) / 2 ≡ 2 ^ w - 1 - a / 2 = omega (arith, pow-suc 2 w) in
    rw e (bit-complement w i (a / 2) (omega arith) (omega (arith, pow-suc 2 w)))

pub bit-not64 : (i a : ℕ) → i < 64 → a < 2 ^ 64 → bit i (not64 a) ≡ 1 - bit i a
bit-not64 i a h k = bit-complement 64 i a h k

-- Words are equal when their bits are.
pub eq_of_bits : (w a b : ℕ) → a < 2 ^ w → b < 2 ^ w → ((i : ℕ) → i < w → bit i a ≡ bit i b) → a ≡ b
eq_of_bits zero a b h k e = omega arith
eq_of_bits (suc w) a b h k e =
    let halves : a / 2 ≡ b / 2 =
      eq_of_bits w (a / 2) (b / 2) (omega (arith, pow-suc 2 w)) (omega (arith, pow-suc 2 w))
        (λ i p. e (suc i) (omega arith)) in
    omega (arith, e 0 (omega arith))

pub bit_and-zero : (a : ℕ) → bit_and a 0 ≡ 0
bit_and-zero a = bit_and_comm a 0 ∙ bit_and-bitwise 0 a

pub bit_and-lt : (w a b : ℕ) → b < 2 ^ w → bit_and a b < 2 ^ w
bit_and-lt zero a b h = let z : b ≡ 0 = omega arith in rw z (omega (arith, bit_and-zero a))
bit_and-lt (suc w) a b h = omega (
  arith,
  bit_and_step a b,
  pow-suc 2 w,
  bit_and-lt w (a / 2) (b / 2) (omega (arith, pow-suc 2 w)),
)

pub zero-bit_or : (a : ℕ) → bit_or 0 a ≡ a
zero-bit_or a = omega (arith, bit_or-bitwise 0 a)

pub bit_or-lt : (w a b : ℕ) → a < 2 ^ w → b < 2 ^ w → bit_or a b < 2 ^ w
bit_or-lt zero a b h k =
    let z : a ≡ 0 = omega arith in let y : b ≡ 0 = omega arith in rw (z, y) (omega arith)
bit_or-lt (suc w) a b h k = omega (
  arith,
  bit_or_step a b,
  pow-suc 2 w,
  bit_or-lt w (a / 2) (b / 2) (omega (arith, pow-suc 2 w)) (omega (arith, pow-suc 2 w)),
)

-- A mask of `k` low bits leaves the remainder by `2 ^ k`.
bit_and_fields : (k q r : ℕ) → r < 2 ^ k → bit_and (q * 2 ^ k + r) (2 ^ k - 1) ≡ r
bit_and_fields zero q r h = rw bit_and-zero (omega arith)
bit_and_fields (suc k) q r h = ground (
  arith,
  bit_and_step (q * 2 ^ suc k + r) (2 ^ suc k - 1),
  ap (λ (t : ℕ). q * t) (pow-suc 2 k),
  pow-suc 2 k,
  bit_and_fields k q (r / 2) (omega (arith, pow-suc 2 k)),
)

pub bit_and_mask : (k a : ℕ) → bit_and a (2 ^ k - 1) ≡ a % 2 ^ k
bit_and_mask k a = ground (arith, one-le-pow k 2, bit_and_fields k (a / 2 ^ k) (a % 2 ^ k))

-- A mask of `w` low bits has a one at each of them.
pub bit-ones : (w i : ℕ) → i < w → bit i (2 ^ w - 1) ≡ 1
bit-ones w i h =
    let e : 2 ^ w - 1 ≡ 2 ^ w - 1 - 0 = omega arith in
    rw e (omega (arith, bit-complement w i 0 h (one-le-pow w 2 (omega arith)), bit-zero i))

pub bit_and-four : (a : ℕ) → bit_and a 4 ≡ a / 4 % 2 * 4
bit_and-four a = omega (
  arith,
  bit_and_step a 4,
  bit_and_step (a / 2) 2,
  bit_and_step (a / 2 / 2) 1,
  bit_and-zero (a / 2 / 2 / 2),
)
