-- ===== src/Text/Image/Digits.antt =====
-- Numbers in the memory image files of verilate/vsrc/common.cpp: the digits of a word, read back by
-- `stoull`.
use native.Mathlib.Nat.{pow-suc, pow-zero, one-le-pow, mod-lt, div-lt_iff_lt-mul, div-add-mod'}
use native.Mathlib.Numerals.{add-one}
use riscv_single_cycle_cpu.Base.{
  ℕ, zero, suc, ◌+◌, ◌-◌, ◌*◌, ◌/◌, ◌%◌, ◌^◌, ◌<◌, ◌≤◌, ◌≡◌, refl, ap, ◌∙◌, arith, true, false,
  some, List, [], ◌∷◌, ltb, ◌==◌, if◌then◌else◌, length, All, ==-ne, lt→ltb, le→leb, get_or,
}
use riscv_single_cycle_cpu.Text.{is_alnum, is_digit, is_upper, is_lower}
use riscv_single_cycle_cpu.Text.Image.{
  digit_value, scan, spaces, has_prefix, resolve_base, has_sign, parse_number, stoull, is_space,
}

abbrev pub digit_char : ℕ → ℕ
digit_char d = if ltb d 10 then b'0' + d else b'a' + d - 10

-- The `n` digits of `w` in a base.
abbrev pub print_digits : ℕ → ℕ → ℕ → List ℕ
print_digits base zero w = []
print_digits base (suc n) w = digit_char (w / base ^ n) ∷ print_digits base n (w % base ^ n)

digit_value-digit_char : (d : ℕ) → d < 16 → digit_value (digit_char d) ≡ d
unfolding digit_value is_digit is_upper is_lower
digit_value-digit_char d h = ground arith

is_alnum-digit_char : (d : ℕ) → d < 16 → is_alnum (digit_char d) ≡ true
unfolding is_alnum is_digit is_upper is_lower
is_alnum-digit_char d h = ground arith

-- A character of a number: it is no space, no sign and no `x`.
abbrev pub IsPlain : ℕ → Type 0
IsPlain c =
    (is_space c ≡ false)
    × ((c == b'-') ≡ false)
    × ((c == b'+') ≡ false)
    × ((c == b'x') ≡ false)
    × ((c == b'X') ≡ false)
    × ((c == 10) ≡ false)
    × (is_alnum c ≡ true)

has_prefix-plain : (text : List ℕ) → All IsPlain text → has_prefix text ≡ false
unfolding has_prefix
has_prefix-plain [] h = refl
has_prefix-plain (c ∷ []) h = ground arith
has_prefix-plain (c ∷ d ∷ text) h = rw (h.1.0.3, h.1.0.4) (ground arith)

spaces-plain : (text : List ℕ) → All IsPlain text → spaces text ≡ 0
unfolding spaces
spaces-plain [] h = refl
spaces-plain (c ∷ text) h = rw h.0.0

has_sign-plain : (text : List ℕ) → All IsPlain text → has_sign text ≡ false
unfolding has_sign
has_sign-plain [] h = refl
has_sign-plain (c ∷ text) h = rw (h.0.1, h.0.2)

minus-plain : (text : List ℕ) → All IsPlain text → (get_or text 0 0 == b'-') ≡ false
minus-plain [] h = refl
minus-plain (c ∷ text) h = h.0.1

-- A number with no space, sign or prefix, all of whose characters are digits.
parse_number-plain :
    (base n w : ℕ) (text : List ℕ)
    → 2 ≤ base
    → base ≤ 36
    → All IsPlain text
    → scan base 0 text ≡ (w, suc n)
    → parse_number base text ≡ some (false, w, suc n)
unfolding parse_number resolve_base
parse_number-plain base n w text low high plain scanned =
    let count : 0 + 0 + 0 + suc n ≡ suc n = omega arith in
    rw
      (
        spaces-plain text plain,
        has_sign-plain text plain,
        has_prefix-plain text plain,
        minus-plain text plain,
        ==-ne base 0 (omega arith),
        scanned,
        le→leb 2 base low,
        le→leb base 36 high,
        count,
      )
      (ground arith)

stoull-plain :
    (base n w : ℕ) (text : List ℕ)
    → 2 ≤ base
    → base ≤ 36
    → All IsPlain text
    → scan base 0 text ≡ (w, suc n)
    → w < 2 ^ 64
    → stoull base text ≡ some (w, suc n)
unfolding stoull
stoull-plain base n w text low high plain scanned small =
    rw (parse_number-plain base n w text low high plain scanned, lt→ltb w (2 ^ 64) small)

horner : (acc b q p : ℕ) → (acc * b + q) * p ≡ acc * (b * p) + q * p
horner acc b q p = grind arith

pub length-print_digits : (base n w : ℕ) → length (print_digits base n w) ≡ n
length-print_digits base zero w = refl
length-print_digits base (suc n) w = ap suc (length-print_digits base n (w % base ^ n))

-- The digits are those of the number: their value, and how many they are.
module _ (base : ℕ) (low : 2 ≤ base) (high : base ≤ 16) where
  div-lt : (n w : ℕ) → w < base ^ suc n → w / base ^ n < base
  div-lt n w h = (div-lt_iff_lt-mul (one-le-pow n base (omega arith))).1 (rw pow_up at h)
    where
      pow_up : base ^ suc n ≡ base * base ^ n
      pow_up = omega (arith, pow-suc base n)

  scan-print_digits :
      (n acc w : ℕ) → w < base ^ n → scan base acc (print_digits base n w) ≡ (acc * base ^ n + w, n)
  unfolding scan
  scan-print_digits zero acc w h =
      let one : base ^ 0 ≡ 1 = pow-zero base in
      let none_left : w ≡ 0 = omega arith in
      let all : acc * base ^ 0 + w ≡ acc = rw one (omega arith) in rw all
  scan-print_digits (suc n) acc w h =
      rw
        (
          digit_value-digit_char (w / base ^ n) (omega (arith, div-lt n w h)),
          lt→ltb (w / base ^ n) base (div-lt n w h),
          scan-print_digits n (acc * base + w / base ^ n) (w % base ^ n)
              (mod-lt w (one-le-pow n base (omega arith))),
        )
        (let value : (acc * base + w / base ^ n) * base ^ n + w % base ^ n
              ≡ acc * base ^ suc n + w =
            omega (
              arith,
              horner acc base (w / base ^ n) (base ^ n),
              pow-suc base n,
              div-add-mod' w (base ^ n),
              ap (λ (t : ℕ). acc * t) (pow-suc base n),
            ) in
          rw (value, add-one))

  IsPlain-digit_char : (d : ℕ) → d < base → IsPlain (digit_char d)
  unfolding is_alnum is_digit is_upper is_lower
  IsPlain-digit_char d h = ground arith

  pub print_digits-IsPlain : (n w : ℕ) → w < base ^ n → All IsPlain (print_digits base n w)
  print_digits-IsPlain zero w h = tt
  print_digits-IsPlain (suc n) w h = (
    IsPlain-digit_char (w / base ^ n) (div-lt n w h),
    print_digits-IsPlain n (w % base ^ n) (mod-lt w (one-le-pow n base (omega arith))),
  )

  -- The digits of a word are read back whole.
  pub stoull-print_digits :
      (n w : ℕ)
      → w < base ^ suc n
      → w < 2 ^ 64
      → stoull base (print_digits base (suc n) w) ≡ some (w, suc n)
  stoull-print_digits n w h small =
      stoull-plain base n w (print_digits base (suc n) w) low (omega arith)
        (print_digits-IsPlain (suc n) w h)
        (scan-print_digits (suc n) 0 w h
          ∙ (let value : 0 * base ^ suc n + w ≡ w = omega arith in rw value))
        small
