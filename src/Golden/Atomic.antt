-- ===== src/Golden/Atomic.antt =====
-- `handle_atomic` of difftest/src/test/csrc/difftest/difftest.cpp: an atomic instruction of the
-- design, checked against the golden memory and repeated there. The result is the return code
-- and the memory. An operation that the switch does not know leaves `ret` uninitialised: `none`.
pub mod Laws
pub mod Single
use riscv_single_cycle_cpu.Base.{
  ℕ, ◌+◌, ◌-◌, ◌*◌, ◌/◌, ◌%◌, ◌^◌, Bool, true, false, Option, none, some, List, [], ◌∷◌, ◌==◌, ltb,
  not, bit_and, bit_or, bit_xor, if◌then◌else◌, ◌&&◌, ◌||◌, ◌>>=◌, u32, shr, shl64,
}
use riscv_single_cycle_cpu.Golden.{Pmem, read_goldenmem, update_goldenmem, le_bytes}

-- `(intN_t)a < (intN_t)b` for a width of `w + 1` bits: the sign bit is flipped.
abbrev pub signed_lt : ℕ → ℕ → ℕ → Bool
signed_lt w a b = ltb ((a + 2 ^ w) % (2 * 2 ^ w)) ((b + 2 ^ w) % (2 * 2 ^ w))

-- `case k: case k + 1:`
abbrev pub is_op : ℕ → ℕ → Bool
is_op k fuop = fuop == k || fuop == k + 1

-- The switch on `atomicFuop`, at a width of `w + 1` bits; the labels are octal in the source.
unfoldable pub amo : ℕ → ℕ → ℕ → ℕ → Option ℕ
amo w fuop t rs =
    if is_op 0o02 fuop
    then some t
    else if is_op 0o06 fuop
    then some rs
    else if is_op 0o12 fuop
    then some rs
    else if is_op 0o16 fuop
    then some ((t + rs) % (2 * 2 ^ w))
    else if is_op 0o22 fuop
    then some (bit_xor t rs)
    else if is_op 0o26 fuop
    then some (bit_and t rs)
    else if is_op 0o32 fuop
    then some (bit_or t rs)
    else if is_op 0o36 fuop
    then some (if signed_lt w t rs then t else rs)
    else if is_op 0o42 fuop
    then some (if signed_lt w rs t then t else rs)
    else if is_op 0o46 fuop
    then some (if ltb t rs then t else rs)
    else if is_op 0o52 fuop
    then some (if ltb rs t then t else rs)
    else none

-- `if (atomicMask == 0xff)`
unfoldable pub atomic_double : ℕ → ℕ → ℕ → ℕ → Pmem → Option (ℕ × Pmem)
unfolding amo
atomic_double addr rs fuop t m = do
  mem ← read_goldenmem addr 8 m
  if not (mem == t) && not (fuop == 0o07) && not (fuop == 0o03)
      then some (1, m)
      else (amo 63 fuop t rs >>= λ ret.
          update_goldenmem addr (le_bytes 8 ret) 0xff 8 m >>= λ m'. some (0, m'))

-- `if (atomicMask == 0xf || atomicMask == 0xf0)`
unfoldable pub atomic_single : ℕ → ℕ → ℕ → ℕ → ℕ → Pmem → Option (ℕ × Pmem)
unfolding amo
atomic_single address word mask fuop out m = do
  let rs = u32 word
  let t = u32 out
  let addr = bit_and address 0xfffffffffffffff8
  mem_raw ← read_goldenmem addr 8 m
  if not ((if mask == 0xf then u32 mem_raw else u32 (shr mem_raw 32)) == t)
        && not (fuop == 0o06)
        && not (fuop == 0o02)
      then some (1, m)
      else (amo 31 fuop t rs >>= λ ret.
          update_goldenmem addr (le_bytes 8 (if mask == 0xf0 then shl64 ret 32 else ret)) mask 8 m
          >>= λ m'. some (0, m'))

unfoldable pub handle_atomic : ℕ → ℕ → ℕ → ℕ → ℕ → Pmem → Option (ℕ × Pmem)
unfolding atomic_double atomic_single
handle_atomic addr word mask fuop out m =
    if not (mask == 0xf || mask == 0xf0 || mask == 0xff)
    then some (1, m)
    else if mask == 0xff
    then atomic_double addr word fuop out m
    else atomic_single addr word mask fuop out m
