-- ===== src/Cell/Bytes.antt =====
-- Objects of bytes, as the pipeline's load in verilate/include/cell.h writes and reads them.
use native.Mathlib.Nat.{
  div-add-mod', add-mul-mod_self_right, mod-eq_of_lt, mod-lt, pow-suc, pow-zero, one-le-pow,
}
use riscv_single_cycle_cpu.Base.{
  ℕ, zero, suc, ◌+◌, ◌*◌, ◌<◌, ◌≤◌, ◌≡◌, refl, sym, ap, ◌∙◌, arith, List, [], ◌∷◌, ◌++◌, length,
  take, set, get_or, ◌%◌, ◌^◌, ◌/◌,
}
use riscv_single_cycle_cpu.Bus.LoadOp.{
  Width, width1, width2, width4, width8, parse, apply_to, apply,
}
use riscv_single_cycle_cpu.Bus.LoadOp.Placement.{bytes}
use riscv_single_cycle_cpu.Bus.LoadOp.Store.{op_bytes, byte, get_or-apply_to, length-apply_to}
use riscv_single_cycle_cpu.Cell.{from_bytes, to_type}

pub length-take_le {ℓ} : {A : Type ℓ} (n : ℕ) (xs : List A) → length (take n xs) ≤ n
length-take_le zero xs = omega arith
length-take_le (suc n) [] = omega arith
length-take_le (suc n) (x ∷ xs) = omega (arith, length-take_le n xs)

pub set-middle {ℓ} :
    {A : Type ℓ} (xs : List A) (x y : A) → set (xs ++ x ∷ []) (length xs) y ≡ xs ++ y ∷ []
set-middle [] x y = refl
set-middle (z ∷ xs) x y = ap (λ t. z ∷ t) (set-middle xs x y)

pub take-append {ℓ} : {A : Type ℓ} (xs ys : List A) → take (length xs) (xs ++ ys) ≡ xs
take-append [] ys = refl
take-append (x ∷ xs) ys = ap (λ t. x ∷ t) (take-append xs ys)

pub length-take_four {ℓ} : {A : Type ℓ} (xs : List A) → 4 ≤ length xs → length (take 4 xs) ≡ 4
length-take_four (a ∷ c ∷ d ∷ e ∷ xs) h = refl
length-take_four [] h = absurd (omega arith)
length-take_four (a ∷ []) h = absurd (omega arith)
length-take_four (a ∷ c ∷ []) h = absurd (omega arith)
length-take_four (a ∷ c ∷ d ∷ []) h = absurd (omega arith)

pub op_bytes-parse : (w : Width) (addr : ℕ) → op_bytes (parse w addr) ≡ bytes w
unfolding parse
op_bytes-parse width8 addr = refl
op_bytes-parse width4 addr = ground arith
op_bytes-parse width2 addr = ground arith
op_bytes-parse width1 addr = ground arith

regroup : (a r q p : ℕ) → a + 256 * (q * p + r) ≡ a + 256 * r + q * (256 * p)
regroup a r q p = grind arith

low-lt : (a r p : ℕ) → a < 256 → r < p → a + 256 * r < 256 * p
low-lt a r p ha hr = grind arith

mod_step : (a r p : ℕ) → a < 256 → 0 < p → (a + 256 * r) % (256 * p) ≡ a + 256 * (r % p)
mod_step a r p small pos =
    ap (λ (t : ℕ). (a + 256 * t) % (256 * p)) (sym (div-add-mod' r p))
    ∙ ap (λ (t : ℕ). t % (256 * p)) (regroup a (r % p) (r / p) p)
    ∙ add-mul-mod_self_right (a + 256 * (r % p)) (r / p) (256 * p)
    ∙ mod-eq_of_lt (low-lt a (r % p) p small (mod-lt r pos))

mod_step_word : (x p : ℕ) → 0 < p → x % (256 * p) ≡ x % 256 + 256 * (x / 256 % p)
mod_step_word x p pos =
    let split : x ≡ x % 256 + 256 * (x / 256) = omega arith in
    ap (λ (t : ℕ). t % (256 * p)) split ∙ mod_step (x % 256) (x / 256) p (omega arith) pos

-- Bytes that are those of `x`, as far as `n` of them go.
from_bytes_lem :
    (n x : ℕ) (l : List ℕ)
    → n ≤ length l
    → ((i : ℕ) → i < n → get_or l i 0 ≡ byte i x)
    → from_bytes l % 256 ^ n ≡ x % 256 ^ n
from_bytes_lem zero x l enough h = omega (arith, pow-zero 256)
from_bytes_lem (suc n) x [] enough h = absurd (omega arith)
from_bytes_lem (suc n) x (c ∷ l) enough h =
    let up : 256 ^ suc n ≡ 256 * 256 ^ n = omega (arith, pow-suc 256 n) in
    let pos : 0 < 256 ^ n = one-le-pow n 256 (omega arith) in
    let rest = from_bytes_lem n (x / 256) l (omega arith) (λ i low. h (suc i) (omega arith)) in
    rw up (
      mod_step (c % 256) (from_bytes l) (256 ^ n) (omega arith) pos
      ∙ omega (arith, rest, h 0 (omega arith), mod_step_word x (256 ^ n) pos))

pow_bytes : (w : Width) → 2 ^ (8 * bytes w) ≡ 256 ^ bytes w
pow_bytes width1 = refl
pow_bytes width2 = refl
pow_bytes width4 = refl
pow_bytes width8 = refl

-- The variable holds the bytes of the cell, and perhaps others above them.
pub to_type-from_bytes :
    (w : Width) (addr word : ℕ) (dest : List ℕ)
    → bytes w ≤ length dest
    → to_type w (from_bytes (apply_to (parse w addr) word dest))
      ≡ to_type w (apply (parse w addr) word)
to_type-from_bytes w addr word dest fits = rw (pow_bytes w) (
    from_bytes_lem (bytes w) (apply (parse w addr) word) (apply_to (parse w addr) word dest)
      (rw (length-apply_to (parse w addr) word dest) fits)
      (λ i low.
        get_or-apply_to (parse w addr) word dest i (rw (op_bytes-parse w addr) fits)
        ∙ rw (op_bytes-parse w addr) (ground arith)))
