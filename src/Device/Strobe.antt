-- ===== src/Device/Strobe.antt =====
-- The write mask of a strobe, byte by byte, and its agreement with `LoadOp`.
use riscv_single_cycle_cpu.Base.{
  if◌then◌else◌, false, ℕ, zero, suc, ◌-◌, ◌*◌, ◌/◌, ◌%◌, ◌^◌, ◌<◌, ◌≡◌, refl, arith, Bool, true,
  get_or, ◌==◌, ==_iff, ltb, ltb→lt,
}
use riscv_single_cycle_cpu.Base.Bits.{bit, bit-or, bit_and_mask}
use riscv_single_cycle_cpu.Base.Fields.{bit-shl, bit-shl_low, bit-shr, bit-mod, bit-high}
use riscv_single_cycle_cpu.Bus.LoadOp.{LoadOp, strobe, mask, size8_sht0}
use riscv_single_cycle_cpu.Device.{strobe_to_mask, write_mask}
use native.Mathlib.Decide.{dec_lt}

-- A test of every number below a bound, by evaluation.
every : (ℕ → Bool) → ℕ → Bool
every test zero = true
every test (suc bound) = if test bound then every test bound else false

every-at : (test : ℕ → Bool) (bound k : ℕ) → k < bound → every test bound ≡ true → test k ≡ true
unfolding every
every-at test zero k low passed = absurd (omega arith)
every-at test (suc bound) k low passed = ground (arith, every-at test bound k)

abbrev row : ℕ → ℕ
row n = get_or strobe_to_mask n 0

abbrev row_ok : ℕ → ℕ → Bool
row_ok n i = bit i (row n) == bit (i / 8) n

table_ok : every (λ n. every (row_ok n) 32) 16 ≡ true
unfolding every
table_ok = refl

bit-row : (n i : ℕ) → n < 16 → i < 32 → bit i (row n) ≡ bit (i / 8) n
bit-row n i h k =
    (==_iff _ _).0
      (every-at (row_ok n) 32 i k (every-at (λ m. every (row_ok m) 32) 16 n h table_ok))

row-lt : (n : ℕ) → n < 16 → row n < 2 ^ 32
row-lt n h = ltb→lt _ _ (every-at (λ m. ltb (row m) (2 ^ 32)) 16 n h (unfold every in refl))

-- Bit `i` of the mask that `sync` makes of an 8-bit strobe is the strobe's bit for byte `i / 8`, for
-- each of the 64 bits: a byte of the word is written whole or not at all.
pub bit-write_mask : (s i : ℕ) → s < 256 → i < 64 → bit i (write_mask s) ≡ bit (i / 8) s
unfolding write_mask
bit-write_mask s i h k =
    rw (bit_and_mask 4 s, bit_and_mask 4 (s / 2 ^ 4), bit-or)
      (elim (dec_lt i 32) [
        | yes low ↦ omega (
          arith,
          bit-mod 64 i (hi * 2 ^ 32) k,
          bit-shl_low 32 i hi low,
          bit-row (s % 2 ^ 4) i (omega arith) low,
          bit-mod 4 (i / 8) s (omega arith),
        )
        | no high ↦ omega (
          arith,
          bit-mod 64 i (hi * 2 ^ 32) k,
          bit-shl 32 (i - 32) i hi (omega arith),
          bit-row (s / 2 ^ 4 % 2 ^ 4) (i - 32) (omega arith) (omega arith),
          bit-mod 4 ((i - 32) / 8) (s / 2 ^ 4) (omega arith),
          bit-shr 4 ((i - 32) / 8) (i / 8) s (omega arith),
          bit-high 32 i lo (row-lt (s % 2 ^ 4) (omega arith)) (omega arith),
        )
      ])
  where
    hi : ℕ
    hi = row (s / 2 ^ 4 % 2 ^ 4)

    lo : ℕ
    lo = row (s % 2 ^ 4)

-- The mask that the device makes of an operation's strobe is the mask of the operation.
pub write_mask-strobe : (op : LoadOp) → write_mask (strobe op) ≡ mask op
unfolding write_mask strobe mask
write_mask-strobe size8_sht0 = refl
write_mask-strobe _ = refl
