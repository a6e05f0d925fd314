-- ===== src/Text/Image/RoundTrip.antt =====
-- Memory image files of verilate/vsrc/common.cpp, written and read back.
use riscv_single_cycle_cpu.Base.{
  ℕ, zero, suc, ◌/◌, ◌%◌, ◌^◌, ◌<◌, ◌≤◌, ◌≡◌, refl, arith, true, some, List, [], ◌∷◌, ◌++◌, length,
  All, ==-refl, get_or, ◌==◌, false,
}
use riscv_single_cycle_cpu.Base.Bits.{bit_and_mask}
use riscv_single_cycle_cpu.Text.{is_alnum, trim}
use riscv_single_cycle_cpu.Text.Trim.{trim_lem, IsBlank}
use riscv_single_cycle_cpu.Text.Image.{push_bytes, feed_line, feed, lines, parse_hex, parse_mif}
use riscv_single_cycle_cpu.Text.Image.Digits.{
  print_digits, IsPlain, print_digits-IsPlain, stoull-print_digits, length-print_digits,
}

-- The bytes of a 32-bit word, the least first.
abbrev pub word_bytes : ℕ → List ℕ
word_bytes w = w % 256 ∷ w / 2 ^ 8 % 256 ∷ w / 2 ^ 16 % 256 ∷ w / 2 ^ 24 % 256 ∷ []

-- What may stand between a word and the end of its line, as the comma of a COE file.
abbrev pub IsSeparator : List ℕ → Type 0
IsSeparator sep = All (λ c. (is_alnum c ≡ false) × ((c == 10) ≡ false)) sep

-- One word to a line: its digits, a separator, and the end of the line.
abbrev pub print_words : ℕ → ℕ → List ℕ → List ℕ → List ℕ
print_words base n sep [] = []
print_words base n sep (w ∷ ws) = (print_digits base n w ++ sep) ++ (10 ∷ print_words base n sep ws)

abbrev pub all_bytes : List ℕ → List ℕ
all_bytes [] = []
all_bytes (w ∷ ws) = word_bytes w ++ all_bytes ws

IsSeparator-IsBlank : (sep : List ℕ) → IsSeparator sep → IsBlank sep
IsSeparator-IsBlank [] h = tt
IsSeparator-IsBlank (c ∷ sep) h = (h.0.0, IsSeparator-IsBlank sep h.1)

lines-separator :
    (sep rest : List ℕ) → IsSeparator sep → lines (sep ++ (10 ∷ rest)) ≡ sep ∷ lines rest
unfolding lines
lines-separator [] rest h = refl
lines-separator (c ∷ sep) rest h = rw (h.0.1, lines-separator sep rest h.1)

lines-append :
    (line sep rest : List ℕ)
    → All IsPlain line
    → IsSeparator sep
    → lines ((line ++ sep) ++ (10 ∷ rest)) ≡ (line ++ sep) ∷ lines rest
unfolding lines
lines-append [] sep rest h k = lines-separator sep rest k
lines-append (c ∷ line) sep rest h k = rw (h.0.5, lines-append line sep rest h.1 k)

plain-get_or :
    (text : List ℕ) (i : ℕ) → All IsPlain text → i < length text → is_alnum (get_or text i 0) ≡ true
plain-get_or [] i h low = absurd (omega arith)
plain-get_or (c ∷ cs) zero h low = h.0.6
plain-get_or (c ∷ cs) (suc i) h low = plain-get_or cs i h.1 (omega arith)

trim-plain : (text sep : List ℕ) → All IsPlain text → IsBlank sep → trim (text ++ sep) ≡ text
trim-plain [] sep h k = trim_lem [] [] sep tt k tt
trim-plain (c ∷ cs) sep h k =
    trim_lem [] (c ∷ cs) sep tt k (h.0.6, plain-get_or (c ∷ cs) (length cs) h (omega arith))

push_bytes_lem : (w : ℕ) → push_bytes 4 w ≡ word_bytes w
unfolding push_bytes
push_bytes_lem w =
    let second : w / 2 ^ 8 / 2 ^ 8 ≡ w / 2 ^ 16 = omega arith in
    let third : w / 2 ^ 16 / 2 ^ 8 ≡ w / 2 ^ 24 = omega arith in
    rw (
      bit_and_mask 8 w,
      bit_and_mask 8 (w / 2 ^ 8),
      second,
      bit_and_mask 8 (w / 2 ^ 16),
      third,
      bit_and_mask 8 (w / 2 ^ 24),
    )

module _ (base n : ℕ) (low : 2 ≤ base) (high : base ≤ 16) (sep : List ℕ)
    (blank : IsSeparator sep) where
  feed_line-print_digits :
      (w : ℕ)
      → w < base ^ suc n
      → w < 2 ^ 32
      → feed_line base (print_digits base (suc n) w ++ sep) ≡ some (word_bytes w)
  unfolding feed_line
  feed_line-print_digits w h small =
      let fit : w % 2 ^ 32 ≡ w = omega arith in
      rw (
        trim-plain (print_digits base (suc n) w) sep
            (print_digits-IsPlain base low high (suc n) w h) (IsSeparator-IsBlank sep blank),
        stoull-print_digits base low high n w h (omega arith),
        length-print_digits base (suc n) w,
        ==-refl (suc n),
        bit_and_mask 32 w,
        fit,
        ==-refl w,
        push_bytes_lem w,
      )

  feed-print_words :
      (ws : List ℕ)
      → All (λ w. (w < base ^ suc n) × (w < 2 ^ 32)) ws
      → feed base (lines (print_words base (suc n) sep ws)) ≡ some (all_bytes ws)
  unfolding feed
  feed-print_words [] h = unfold lines in refl
  feed-print_words (w ∷ ws) h = rw (
    lines-append (print_digits base (suc n) w) sep (print_words base (suc n) sep ws)
        (print_digits-IsPlain base low high (suc n) w h.0.0) blank,
    feed_line-print_digits w h.0.0 h.0.1,
    feed-print_words ws h.1,
  )

-- A file with one word to a line, as eight hexadecimal digits, is read as the bytes of the words
-- in order, the least byte of each first.
pub parse_hex-print_words :
    (sep ws : List ℕ)
    → IsSeparator sep
    → All (λ w. w < 2 ^ 32) ws
    → parse_hex (print_words 16 8 sep ws) ≡ some (all_bytes ws)
unfolding parse_hex
parse_hex-print_words sep ws blank h =
    feed-print_words 16 7 (omega arith) (omega arith) sep blank ws (both ws h)
  where
    both : (ws : List ℕ) → All (λ w. w < 2 ^ 32) ws → All (λ w. (w < 16 ^ 8) × (w < 2 ^ 32)) ws
    both [] h = tt
    both (w ∷ ws) h = ((omega arith, h.0), both ws h.1)

-- The same of binary files, with 32 digits to a line.
pub parse_mif-print_words :
    (sep ws : List ℕ)
    → IsSeparator sep
    → All (λ w. w < 2 ^ 32) ws
    → parse_mif (print_words 2 32 sep ws) ≡ some (all_bytes ws)
unfolding parse_mif
parse_mif-print_words sep ws blank h =
    feed-print_words 2 31 (omega arith) (omega arith) sep blank ws (both ws h)
  where
    both : (ws : List ℕ) → All (λ w. w < 2 ^ 32) ws → All (λ w. (w < 2 ^ 32) × (w < 2 ^ 32)) ws
    both [] h = tt
    both (w ∷ ws) h = ((h.0, h.0), both ws h.1)
