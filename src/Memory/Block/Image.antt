-- ===== src/Memory/Block/Image.antt =====
-- `BlockMemory::map`, which loads an image byte by byte. Its byte mask is computed in 32 bits.
use native.Mathlib.Nat.{mul-le-mul}
use native.Mathlib.Decide.{dec_lt}
use riscv_single_cycle_cpu.Base.{
  ℕ, zero, suc, ◌+◌, ◌-◌, ◌*◌, ◌/◌, ◌%◌, ◌^◌, ◌≤◌, ◌<◌, ◌≡◌, refl, ◌∙◌, arith, none, some, List, [],
  ◌∷◌, bit_and, bit_or, ltb, add64, sub64, shl64, length, get_or, set, get_elem?-eq-get_or,
  Option-cases, inl, inr, lt→ltb,
}
use riscv_single_cycle_cpu.Base.Bits.{
  bit, bit-and, bit-or, bit-complement, bit-ones, bit_and-lt, bit_or-lt, eq_of_bits,
}
use riscv_single_cycle_cpu.Base.Fields.{bit-shl, bit-shr, bit-mod}
use riscv_single_cycle_cpu.Memory.Block.{empty_block, map_byte, map_bytes, map_data, block_of_data}

map_byte_high : (pos byte : ℕ) (words : List ℕ) → 4 ≤ pos % 8 → map_byte pos byte words ≡ none
unfolding map_byte
map_byte_high pos byte words h = let wide : ltb (pos % 8 * 8) 32 ≡ ltb 1 0 = ground arith in rw wide

-- A byte in the upper half of a word among the first `k + 1` bytes makes the loop undefined.
map_bytes_high :
    (k pos : ℕ) (bytes words : List ℕ)
    → k < length bytes
    → 4 ≤ (pos + k) % 8
    → map_bytes pos bytes words ≡ none
unfolding map_bytes
map_bytes_high k pos [] words h p = absurd (omega arith)
map_bytes_high zero pos (b ∷ bytes) words h p = rw (map_byte_high pos b words (ground arith))
map_bytes_high (suc k) pos (b ∷ bytes) words h p = elim (Option-cases (map_byte pos b words)) [
  | inl stop ↦ rw stop
  | inr (words', e) ↦ rw e (map_bytes_high k (add64 pos 1) bytes words' (omega arith) (omega arith))
]

-- The loop of `map` is undefined on every image of five bytes or more, wherever it starts and
-- whatever the words hold: one byte falls into the upper half of a word, where the shift
-- `0xffu << shamt` has no defined result.
pub map_bytes_undefined :
    (pos : ℕ) (bytes words : List ℕ) → 5 ≤ length bytes → map_bytes pos bytes words ≡ none
map_bytes_undefined pos bytes words h = elim (dec_lt (pos % 8) 4) [
  | yes low ↦ map_bytes_high (4 - pos % 8) pos bytes words (omega arith) (omega arith)
  | no high ↦ map_bytes_high 0 pos bytes words (omega arith) (omega arith)
]

pub block_of_data_undefined :
    (size : ℕ) (bytes : List ℕ) (offset : ℕ)
    → 5 ≤ length bytes
    → block_of_data size bytes offset ≡ none
unfolding block_of_data map_data
block_of_data_undefined size bytes offset h = elim (Option-cases (empty_block size offset)) [
  | inl stop ↦ rw stop
  | inr (m, e) ↦ rw e (ground (arith, map_bytes_undefined (sub64 offset m.offset) bytes m.mem h))
]

-- the word that the loop writes over `value` for the byte at place `k`
abbrev written : ℕ → ℕ → ℕ → ℕ
written k byte value =
    bit_or (bit_and value (2 ^ 32 - 1 - 0xff * 2 ^ (k * 8) % 2 ^ 32)) (shl64 byte (k * 8))

pow_low : (k : ℕ) → k < 4 → 2 ^ (k * 8) ≤ 2 ^ 24
pow_low zero h = omega arith
pow_low (suc zero) h = omega arith
pow_low (suc (suc zero)) h = omega arith
pow_low (suc (suc (suc zero))) h = omega arith
pow_low (suc (suc (suc (suc k)))) h = absurd (omega arith)

module _ (k byte value : ℕ) (low : k < 4) (byte_fits : byte < 256) where
  shift_fits : (m : ℕ) → m < 256 → m * 2 ^ (k * 8) < 2 ^ 32
  shift_fits m h = let top : m ≤ 255 = omega arith in omega (arith, mul-le-mul top (pow_low k low))

  written-lt : written k byte value < 2 ^ 32
  written-lt =
      bit_or-lt 32 _ _ (bit_and-lt 32 value _ (omega arith))
        (omega (arith, shift_fits byte byte_fits))

  placed : (i : ℕ) → i < 8 → bit (i + k * 8) (shl64 byte (k * 8)) ≡ bit i byte
  placed i h =
      bit-mod 64 (i + k * 8) (byte * 2 ^ (k * 8)) (omega arith)
      ∙ bit-shl (k * 8) i (i + k * 8) byte refl

  -- the mask has a zero at each bit of the byte
  cleared : (i : ℕ) → i < 8 → bit (i + k * 8) (2 ^ 32 - 1 - 0xff * 2 ^ (k * 8) % 2 ^ 32) ≡ 0
  cleared i h = omega (
    arith,
    bit-complement 32 (i + k * 8) (0xff * 2 ^ (k * 8) % 2 ^ 32) (omega arith) (omega arith),
    bit-mod 32 (i + k * 8) (0xff * 2 ^ (k * 8)) (omega arith),
    bit-shl (k * 8) i (i + k * 8) 0xff refl,
    bit-ones 8 i h,
  )

  written-byte : written k byte value / 2 ^ (k * 8) % 2 ^ 8 ≡ byte
  written-byte = eq_of_bits 8 _ _ (omega arith) byte_fits same
    where
      same : (i : ℕ) → i < 8 → bit i (written k byte value / 2 ^ (k * 8) % 2 ^ 8) ≡ bit i byte
      same i h =
          bit-mod 8 i (written k byte value / 2 ^ (k * 8)) h
          ∙ bit-shr (k * 8) i (i + k * 8) (written k byte value) refl
          ∙ omega (
            arith,
            bit-or (i + k * 8) (bit_and value (2 ^ 32 - 1 - 0xff * 2 ^ (k * 8) % 2 ^ 32))
                (shl64 byte (k * 8)),
            bit-and (i + k * 8) value (2 ^ 32 - 1 - 0xff * 2 ^ (k * 8) % 2 ^ 32),
            cleared i h,
            placed i h,
          )

-- At a place in the lower half of a word inside the block, one round of `map` succeeds and leaves
-- a word that holds the byte at that place and has zeros in its upper half, whatever was there.
pub map_byte_low :
    (pos byte : ℕ) (words : List ℕ)
    → pos % 8 < 4
    → byte < 256
    → pos / 8 < length words
    → (w : ℕ) × (map_byte pos byte words ≡ some (set words (pos / 8) w))
      × (w / 2 ^ (pos % 8 * 8) % 2 ^ 8 ≡ byte)
      × (w / 2 ^ 32 ≡ 0)
unfolding map_byte
map_byte_low pos byte words low fits inside =
    let value = get_or words (pos / 8) 0 in
    (
      written (pos % 8) byte value,
      rw (lt→ltb (pos % 8 * 8) 32 (omega arith), get_elem?-eq-get_or words (pos / 8) 0 inside),
      written-byte (pos % 8) byte value low fits,
      omega (arith, written-lt (pos % 8) byte value low fits),
    )
