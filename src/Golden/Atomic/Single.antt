-- ===== src/Golden/Atomic/Single.antt =====
-- `handle_atomic` of difftest/src/test/csrc/difftest/difftest.cpp at the mask of one word.
use riscv_single_cycle_cpu.Base.{
  ℕ, ◌+◌, ◌-◌, ◌%◌, ◌≤◌, ◌<◌, ◌≡◌, ◌⊎◌, inl, inr, ap, arith, Bool, true, false, some, ◌==◌, not,
  if◌then◌else◌, ◌&&◌, >>=-eq-some, if-eq_cases, some-inj, get_or, bit_and, u32, shr, shl64,
}
use riscv_single_cycle_cpu.Golden.{Pmem, pmem_base, read_goldenmem, update_goldenmem, le_bytes}
use riscv_single_cycle_cpu.Golden.Update.{masked, update_goldenmem_self, update_goldenmem_other}
use riscv_single_cycle_cpu.Golden.Atomic.{amo, atomic_single, handle_atomic}
use riscv_single_cycle_cpu.Golden.Atomic.Laws.{read-eq_some}

-- The word of a double word that a mask selects, and a word put in its place.
abbrev pub half_of : ℕ → ℕ → ℕ
half_of mask v = if mask == 0xf then u32 v else u32 (shr v 32)

abbrev pub in_half : ℕ → ℕ → ℕ
in_half mask v = if mask == 0xf0 then shl64 v 32 else v

test_agreed :
    (seen t fuop : ℕ)
    → (not (seen == t) && not (fuop == 0o06) && not (fuop == 0o02)) ≡ false
    → (seen ≡ t) ⊎ (fuop ≡ 0o06) ⊎ (fuop ≡ 0o02)
test_agreed seen t fuop h = ground arith

-- What a check of one word that is not refused has gone through.
atomic_single-eq_zero :
    (address word mask fuop out : ℕ) (m : Pmem) {m' : Pmem}
    → atomic_single address word mask fuop out m ≡ some (0, m')
    → let addr = bit_and address 0xfffffffffffffff8 in
      (mem : ℕ) × (ret : ℕ) × (read_goldenmem addr 8 m ≡ some mem)
      × ((half_of mask mem ≡ u32 out) ⊎ (fuop ≡ 0o06) ⊎ (fuop ≡ 0o02))
      × (amo 31 fuop (u32 out) (u32 word) ≡ some ret)
      × (update_goldenmem addr (le_bytes 8 (in_half mask ret)) mask 8 m ≡ some m')
unfolding atomic_single
atomic_single-eq_zero address word mask fuop out m {m'} e =
    let addr = bit_and address 0xfffffffffffffff8 in
    let (mem, seen, rest) = >>=-eq-some (read_goldenmem addr 8 m) _ e in
    elim (if-eq_cases
      (not (half_of mask mem == u32 out) && not (fuop == 0o06) && not (fuop == 0o02)) _ _ rest) [
        | inl (_, refused) ↦
            absurd (let code = ap (λ (p : ℕ × Pmem). p.0) (some-inj refused) in omega arith)
        | inr (agreed, went_on) ↦
            let (ret, result, tail) = >>=-eq-some (amo 31 fuop (u32 out) (u32 word)) _ went_on in
            let (final, wrote, done) =
              >>=-eq-some (update_goldenmem addr (le_bytes 8 (in_half mask ret)) mask 8 m) _ tail in
            (
              mem,
              ret,
              seen,
              test_agreed (half_of mask mem) (u32 out) fuop agreed,
              result,
              rw (ap (λ (p : ℕ × Pmem). p.1) (some-inj done)) at wrote,
            )
      ]

abbrev pub word_mask : Bool → ℕ
word_mask upper = if upper then 0xf0 else 0xf

abbrev pub double_of : ℕ → ℕ
double_of address = bit_and address 0xfffffffffffffff8

-- What an accepted atomic on one word has seen, computed and left.
pub record Accepted (address word mask fuop out : ℕ) (m m' : Pmem) : Type 0 where
  pub mem : ℕ
  pub ret : ℕ
  pub seen : read_goldenmem (double_of address) 8 m ≡ some mem
  pub agreed : (half_of mask mem ≡ u32 out) ⊎ (fuop ≡ 0o06) ⊎ (fuop ≡ 0o02)
  pub result : amo 31 fuop (u32 out) (u32 word) ≡ some ret
  pub inside :
      (j : ℕ)
      → j < 8
      → m' (double_of address - pmem_base + j) ≡ (
          if masked mask j
          then get_or (le_bytes 8 (in_half mask ret)) j 0 % 256
          else m (double_of address - pmem_base + j))
  pub outside :
      (off : ℕ)
      → (pmem_base + off < double_of address) ⊎ (double_of address + 8 ≤ pmem_base + off)
      → m' off ≡ m off

atomic_single-Accepted :
    (address word mask fuop out : ℕ) (m : Pmem) {m' : Pmem}
    → atomic_single address word mask fuop out m ≡ some (0, m')
    → Accepted address word mask fuop out m m'
atomic_single-Accepted address word mask fuop out m {m'} e =
    let (mem, ret, seen, agreed, result, wrote) =
      atomic_single-eq_zero address word mask fuop out m e in
    let (low, high, _) = read-eq_some (double_of address) 8 m seen in
    let bytes = le_bytes 8 (in_half mask ret) in
    record {
      mem = mem;
      ret = ret;
      seen = seen;
      agreed = agreed;
      result = result;
      inside = λ j below.
          update_goldenmem_self (double_of address) bytes mask 8 j m
            (double_of address - pmem_base + j) (omega arith) wrote (omega arith) below;
      outside = λ off apart.
          update_goldenmem_other (double_of address) bytes mask 8 m off (omega arith) wrote apart;
    }

-- When `handle_atomic` returns 0 at the mask of the lower or the upper word of the double word at
-- `address`, the core saw the golden value of that word or ran operation 006 or 002, each byte of
-- the word that the mask names is the byte of the result, and all other bytes are as before.
pub handle_atomic_single :
    (upper : Bool) (address word fuop out : ℕ) (m : Pmem) {m' : Pmem}
    → handle_atomic address word (word_mask upper) fuop out m ≡ some (0, m')
    → Accepted address word (word_mask upper) fuop out m m'
unfolding handle_atomic
handle_atomic_single true address word fuop out m e =
    atomic_single-Accepted address word 0xf0 fuop out m e
handle_atomic_single false address word fuop out m e =
    atomic_single-Accepted address word 0xf fuop out m e
