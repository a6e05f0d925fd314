-- ===== src/Cell/Words.antt =====
-- A memory of 64-bit words, as the cells of verilate/include/cell.h see it: what a read and a
-- write of some bytes of a word do.
use riscv_single_cycle_cpu.Base.{
  ℕ, zero, suc, ◌+◌, ◌-◌, ◌*◌, ◌/◌, ◌%◌, ◌^◌, ◌<◌, ◌≤◌, ◌≡◌, refl, sym, ◌∙◌, arith, ◌⊎◌, inl, inr,
  bit_or, ◌==◌, if◌then◌else◌, merge, Bool-cases, ==_iff, ==-refl,
}
use riscv_single_cycle_cpu.Base.Bits.{bit, eq_of_bits, zero-bit_or}
use riscv_single_cycle_cpu.Base.Steps.{bit_or_step}
use riscv_single_cycle_cpu.Base.Fields.{
  bit-shr, bit-shl, bit-shl_low, bit-mod, bit-high, merge-field,
}
use riscv_single_cycle_cpu.Base.Merge.{bit-merge_zero}
use native.Mathlib.Nat.{one-le-pow, mod-lt, pow-suc}
use riscv_single_cycle_cpu.Bus.LoadOp.{Width, parse, strobe, place, apply}
use riscv_single_cycle_cpu.Bus.LoadOp.Placement.{bytes, parse-Lane, lane_fits, mask-lt}
use riscv_single_cycle_cpu.Bus.Dbus.{add_base}
use riscv_single_cycle_cpu.Bus.Dbus.Contract.{Request, read, write}
use riscv_single_cycle_cpu.Device.{write_mask}
use riscv_single_cycle_cpu.Device.Strobe.{write_mask-strobe}

-- A masked write leaves the fields beside its own.
merge-field_other :
    (k w k' w' v d : ℕ)
    → k' + w' ≤ 64
    → k + w ≤ 64
    → (2 ^ w - 1) * 2 ^ k < 2 ^ 64
    → (k + w ≤ k') ⊎ (k' + w' ≤ k)
    → merge v d ((2 ^ w - 1) * 2 ^ k) / 2 ^ k' % 2 ^ w' ≡ v / 2 ^ k' % 2 ^ w'
merge-field_other k w k' w' v d fits' fits small apart =
    eq_of_bits w' _ _ (mod-lt _ (one-le-pow w' 2 (omega arith)))
      (mod-lt _ (one-le-pow w' 2 (omega arith))) same
  where
    unmasked : (i : ℕ) → i < w' → bit (i + k') ((2 ^ w - 1) * 2 ^ k) ≡ 0
    unmasked i h = elim apart [
      | inl above ↦
          bit-shl k (i + k' - k) (i + k') (2 ^ w - 1) (omega arith)
          ∙ bit-high w (i + k' - k) (2 ^ w - 1) (omega (arith, one-le-pow w 2 (omega arith)))
              (omega arith)
      | inr below ↦ bit-shl_low k (i + k') (2 ^ w - 1) (omega arith)
    ]

    same :
        (i : ℕ)
        → i < w'
        → bit i (merge v d ((2 ^ w - 1) * 2 ^ k) / 2 ^ k' % 2 ^ w') ≡ bit i (v / 2 ^ k' % 2 ^ w')
    same i h =
        bit-mod w' i _ h
        ∙ bit-shr k' i (i + k') _ refl
        ∙ bit-merge_zero (i + k') v _ _ (omega arith) small (unmasked i h)
        ∙ sym (bit-shr k' i (i + k') v refl)
        ∙ sym (bit-mod w' i _ h)

bit_or_pow : (k a : ℕ) → a < 2 ^ k → bit_or a (2 ^ k) ≡ a + 2 ^ k
bit_or_pow zero a h = let z : a ≡ 0 = omega arith in rw z (zero-bit_or 1)
bit_or_pow (suc k) a h =
    let half : 2 ^ suc k / 2 ≡ 2 ^ k = omega (arith, pow-suc 2 k) in
    bit_or_step a (2 ^ suc k)
    ∙ rw half (omega (arith, bit_or_pow k (a / 2) (omega (arith, pow-suc 2 k)), pow-suc 2 k))

-- The design adds its base to an address below it.
add_base_lem : (a : ℕ) → a < 2 ^ 31 → add_base a ≡ a + 2 ^ 31
add_base_lem a h = bit_or_pow 31 a h

-- The memory by the index of its words.
abbrev pub Words : Type 0
Words = ℕ → ℕ

-- The word of an address of the design, which lies 2^31 higher.
abbrev pub word_at : ℕ → ℕ
word_at a = (a + 2 ^ 31) / 8

-- An address of the design's memory, aligned to the width.
abbrev pub IsPlaced : Width → ℕ → Type 0
IsPlaced w a = (a % bytes w ≡ 0) × (a < 2 ^ 31)

-- What the design answers: a read the whole word, a write the bytes of its strobe.
abbrev pub respond_word : Request → Words → ℕ × Words
respond_word (read addr size) m = (m (addr / 8), m)
respond_word (write addr size lanes word) m =
    (0, λ i. if i == addr / 8 then merge (m i) word (write_mask lanes) else m i)

-- The bytes of a width at an address aligned to it: the bits from eight times the byte offset on.
abbrev pub peek : Width → ℕ → Words → ℕ
peek w a m = m (word_at a) / 2 ^ (8 * (a % 8)) % 2 ^ (8 * bytes w)

abbrev pub field_mask : Width → ℕ → ℕ
field_mask w a = (2 ^ (8 * bytes w) - 1) * 2 ^ (8 * (a % 8))

-- A write of these bytes, which leaves the other bits of the memory.
abbrev pub poke : Width → ℕ → ℕ → Words → Words
poke w a x m i =
    if i == word_at a then merge (m i) (x * 2 ^ (8 * (a % 8)) % 2 ^ 64) (field_mask w a) else m i

-- The operation that `parse` picks reads and writes them.
pub apply-peek :
    (w : Width) (a : ℕ) (m : Words)
    → IsPlaced w a
    → apply (parse w a) (m (add_base a / 8)) % 2 ^ (8 * bytes w) ≡ peek w a m
apply-peek w a m h = rw (add_base_lem a h.1, (parse-Lane w a h.0).3)

pub place-poke :
    (w : Width) (a x : ℕ) (m : Words)
    → IsPlaced w a
    → x < 2 ^ 64
    → (i : ℕ)
    → (if i == add_base a / 8
        then merge (m i) (place (parse w a) x) (write_mask (strobe (parse w a)))
        else m i)
      ≡ poke w a x m i
place-poke w a x m h small i = rw (
  add_base_lem a h.1,
  write_mask-strobe (parse w a),
  (parse-Lane w a h.0).1,
  (parse-Lane w a h.0).2 x small,
)

field_mask-lt : (w : Width) (a : ℕ) → a % bytes w ≡ 0 → field_mask w a < 2 ^ 64
field_mask-lt w a h = rw ((parse-Lane w a h).1) at (mask-lt (parse w a))

pub peek-poke :
    (w : Width) (a x : ℕ) (m : Words)
    → a % bytes w ≡ 0
    → peek w a (poke w a x m) ≡ x % 2 ^ (8 * bytes w)
peek-poke w a x m h = rw (==-refl (word_at a)) (
    merge-field (8 * (a % 8)) (8 * bytes w) (m (word_at a)) x (lane_fits w a h)
      (field_mask-lt w a h))

-- Accesses to bytes that do not overlap.
abbrev pub Apart : Width → ℕ → Width → ℕ → Type 0
Apart w a w' a' = (a + bytes w ≤ a') ⊎ (a' + bytes w' ≤ a)

pub peek-poke-Apart :
    (w : Width) (a x : ℕ) (w' : Width) (a' : ℕ) (m : Words)
    → a % bytes w ≡ 0
    → a' % bytes w' ≡ 0
    → Apart w a w' a'
    → peek w' a' (poke w a x m) ≡ peek w' a' m
peek-poke-Apart w a x w' a' m h h' apart = elim (Bool-cases (word_at a' == word_at a)) [
  | inr other ↦ rw other
  | inl same ↦
      let one_word : a' / 8 ≡ a / 8 = omega (arith, (==_iff (word_at a') (word_at a)).0 same) in
      rw same (
        merge-field_other (8 * (a % 8)) (8 * bytes w) (8 * (a' % 8)) (8 * bytes w') (m (word_at a'))
          (x * 2 ^ (8 * (a % 8)) % 2 ^ 64) (lane_fits w' a' h') (lane_fits w a h)
          (field_mask-lt w a h)
          (elim apart [
            | inl before ↦ inl (omega (arith, one_word))
            | inr after ↦ inr (omega (arith, one_word))
          ]))
]
