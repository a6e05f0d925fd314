-- ===== src/Helpers/Atomics.antt =====
-- `amo_helper` against the checker's own atomics: the two descriptions of a double-word atomic
-- give the same value.
use riscv_single_cycle_cpu.Base.{
  ℕ, ◌%◌, ◌^◌, ◌<◌, ◌≡◌, ◌≢◌, inl, inr, refl, sym, ◌∙◌, ap, arith, Bool, false, some, ◌==◌, ==-refl,
  ==-ne, Bool-cases,
}
use riscv_single_cycle_cpu.Base.Commute.{bit_xor_comm, bit_and_comm, bit_or_comm, bit_xor-lt}
use riscv_single_cycle_cpu.Ram.{pmem_read, pmem_write}
use riscv_single_cycle_cpu.Base.Bits.{bit_or-lt, bit_and-lt}
use riscv_single_cycle_cpu.Ram.Laws.{InRam, word_of, pmem_read-some, pmem_read-pmem_write}
use riscv_single_cycle_cpu.Golden.Atomic.{amo}
use riscv_single_cycle_cpu.Helpers.{amo_helper, amo_result, AmoState}

-- The command of `amo_helper` and the `atomicFuop` of `handle_atomic` for one instruction.
pub data SameOp : ℕ → ℕ → Type 0 where
  swap : SameOp 4 0o13
  add : SameOp 8 0o17
  xor : SameOp 9 0o23
  or : SameOp 10 0o33
  and : SameOp 11 0o27
  min : SameOp 12 0o37
  max : SameOp 13 0o43
  minu : SameOp 14 0o47
  maxu : SameOp 15 0o53

amo_result-amo :
    (cmd fuop t w : ℕ)
    → t < 2 ^ 64
    → w < 2 ^ 64
    → SameOp cmd fuop
    → amo 63 fuop t w ≡ some (amo_result cmd 0xff t t w)
unfolding amo amo_result
amo_result-amo cmd fuop t w p q swap = refl
amo_result-amo cmd fuop t w p q add = ap some (omega arith)
amo_result-amo cmd fuop t w p q xor = ap some (bit_xor_comm t w)
amo_result-amo cmd fuop t w p q or = ap some (bit_or_comm t w)
amo_result-amo cmd fuop t w p q and = ap some (bit_and_comm t w)
amo_result-amo cmd fuop t w p q min = refl
amo_result-amo cmd fuop t w p q max = ap some (ground arith)
amo_result-amo cmd fuop t w p q minu = refl
amo_result-amo cmd fuop t w p q maxu = ap some (ground arith)

amo_result-lt :
    (cmd fuop t w : ℕ)
    → t < 2 ^ 64
    → w < 2 ^ 64
    → SameOp cmd fuop
    → amo_result cmd 0xff t t w < 2 ^ 64
unfolding amo_result
amo_result-lt cmd fuop t w p q swap = q
amo_result-lt cmd fuop t w p q add = omega arith
amo_result-lt cmd fuop t w p q xor = bit_xor-lt 64 w t q p
amo_result-lt cmd fuop t w p q or = bit_or-lt 64 w t q p
amo_result-lt cmd fuop t w p q and = bit_and-lt 64 w t p
amo_result-lt cmd fuop t w p q min = ground arith
amo_result-lt cmd fuop t w p q max = ground arith
amo_result-lt cmd fuop t w p q minu = ground arith
amo_result-lt cmd fuop t w p q maxu = ground arith

-- None of them is `lr` or `sc`.
SameOp-plain : {cmd fuop : ℕ} → SameOp cmd fuop → ((cmd == 6) ≡ false) × ((cmd == 7) ≡ false)
SameOp-plain swap = (refl, refl)
SameOp-plain add = (refl, refl)
SameOp-plain xor = (refl, refl)
SameOp-plain or = (refl, refl)
SameOp-plain and = (refl, refl)
SameOp-plain min = (refl, refl)
SameOp-plain max = (refl, refl)
SameOp-plain minu = (refl, refl)
SameOp-plain maxu = (refl, refl)

-- The commands other than `lr` and `sc` at a whole word: what `amo_helper` does.
amo_helper-whole :
    (cmd fuop addr wdata : ℕ) (s : AmoState)
    → SameOp cmd fuop
    → amo_helper cmd addr wdata 0xff s ≡ (
      pmem_read addr s.ram,
      record s {
        ram =
            pmem_write addr
              (amo_result cmd 0xff (pmem_read addr s.ram) (pmem_read addr s.ram) wdata)
              s.ram;
      },
    )
unfolding amo_helper
amo_helper-whole cmd fuop addr wdata s op =
    let (not_lr, not_sc) = SameOp-plain op in
    elim (Bool-cases (addr % 8 == 4)) [
      | inl half ↦ rw (half, not_lr, not_sc) refl
      | inr whole ↦ rw (whole, not_lr, not_sc) refl
    ]

-- An atomic on a double word of the memory, other than `lr` and `sc`, with 64-bit operands:
-- `amo_helper` returns the word in memory, leaves there what the checker's `handle_atomic`
-- computes from it for the same instruction, and changes no other word.
pub amo_helper-amo :
    (cmd fuop addr wdata : ℕ) (words : ℕ → ℕ) (lr_addr : ℕ) (lr_valid : Bool)
    → SameOp cmd fuop
    → InRam addr
    → words (word_of addr) < 2 ^ 64
    → wdata < 2 ^ 64
    → let s : AmoState = record { ram = some words; lr_addr = lr_addr; lr_valid = lr_valid } in
      let r = amo_helper cmd addr wdata 0xff s in
      (r.0 ≡ pmem_read addr s.ram)
      × (amo 63 fuop r.0 wdata ≡ some (pmem_read addr r.1.ram))
      × ((x : ℕ) → InRam x → word_of x ≢ word_of addr → pmem_read x r.1.ram ≡ pmem_read x s.ram)
amo_helper-amo cmd fuop addr wdata words lr_addr lr_valid op inside small low =
    let s : AmoState = record { ram = some words; lr_addr = lr_addr; lr_valid = lr_valid } in
    let t = words (word_of addr) in
    let seen = pmem_read-some addr words inside in
    let fits = amo_result-lt cmd fuop t wdata small low op in
    rw (amo_helper-whole cmd fuop addr wdata s op, seen)
      (
        refl,
        amo_result-amo cmd fuop t wdata small low op
            ∙ ap some (
                sym (
                  pmem_read-pmem_write addr addr _ words inside inside fits
                  ∙ rw (==-refl (word_of addr)) refl)),
        λ x there apart.
            pmem_read-pmem_write addr x _ words inside there fits
            ∙ rw (==-ne (word_of x) (word_of addr) apart) refl,
      )
