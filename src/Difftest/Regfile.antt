-- ===== src/Difftest/Regfile.antt =====
-- Reads and writes through `ref_regs_ptr` and `dut_regs_ptr` of
-- difftest/src/test/csrc/difftest/difftest.h, and the `memcmp` of the two: the pointers see the
-- 64 registers and the 19 CSRs as one array. `none` is an index past its end.
use riscv_single_cycle_cpu.Base.{
  ℕ, ◌-◌, ◌≡◌, refl, Bool, true, false, Option, none, some, List, [], ◌∷◌, ◌==◌, ltb, ◌&&◌,
  if◌then◌else◌, get_elem?, set, ==_iff, ==-refl, arith, ◌↔◌,
}
use riscv_single_cycle_cpu.Difftest.{Regs, ArchCsrState, regs_words}

-- `DIFFTEST_NR_REG`
abbrev pub nr_reg : ℕ
nr_reg = 83

abbrev pub set_csr : ℕ → ℕ → ArchCsrState → ArchCsrState
set_csr i v c =
    if i == 0
    then record c { this_pc = v }
    else if i == 1
    then record c { mstatus = v }
    else if i == 2
    then record c { mcause = v }
    else if i == 3
    then record c { mepc = v }
    else if i == 4
    then record c { sstatus = v }
    else if i == 5
    then record c { scause = v }
    else if i == 6
    then record c { sepc = v }
    else if i == 7
    then record c { satp = v }
    else if i == 8
    then record c { mip = v }
    else if i == 9
    then record c { mie = v }
    else if i == 10
    then record c { mscratch = v }
    else if i == 11
    then record c { sscratch = v }
    else if i == 12
    then record c { mideleg = v }
    else if i == 13
    then record c { medeleg = v }
    else if i == 14
    then record c { mtval = v }
    else if i == 15
    then record c { stval = v }
    else if i == 16
    then record c { mtvec = v }
    else if i == 17
    then record c { stvec = v }
    else record c { priviledge_mode = v }

-- `ref_regs_ptr[i] = v`
unfoldable pub set_reg : ℕ → ℕ → Regs → Option Regs
set_reg i v r =
    if ltb i 32
    then some (record r { gpr = set r.gpr i v })
    else if ltb i 64
    then some (record r { fpr = set r.fpr (i - 32) v })
    else if ltb i nr_reg
    then some (record r { csr = set_csr (i - 64) v r.csr })
    else none

-- `ref_regs_ptr[i]`
unfoldable pub get_reg : ℕ → Regs → Option ℕ
get_reg i r = get_elem? (regs_words r) i

unfoldable pub same_words : List ℕ → List ℕ → Bool
same_words [] [] = true
same_words [] (y ∷ ys) = false
same_words (x ∷ xs) [] = false
same_words (x ∷ xs) (y ∷ ys) = (x == y) && same_words xs ys

-- `memcmp(...) == 0`
unfoldable pub same_regs : Regs → Regs → Bool
unfolding same_words
same_regs a b = same_words (regs_words a) (regs_words b)

same_words_refl : (xs : List ℕ) → same_words xs xs ≡ true
unfolding same_words
same_words_refl [] = refl
same_words_refl (x ∷ xs) = rw (==-refl x, same_words_refl xs)

eq_of_same_words : (xs ys : List ℕ) → same_words xs ys ≡ true → xs ≡ ys
unfolding same_words
eq_of_same_words [] [] h = refl
eq_of_same_words [] (y ∷ ys) h = cc
eq_of_same_words (x ∷ xs) [] h = cc
eq_of_same_words (x ∷ xs) (y ∷ ys) h =
    let head : x ≡ y = (==_iff x y).0 (ground arith) in
    let tail : xs ≡ ys = eq_of_same_words xs ys (ground arith) in rw (head, tail)

-- The comparison of a step finds the two sides the same exactly when all their words are equal.
pub same_regs_iff : (a b : Regs) → (same_regs a b ≡ true) ↔ (regs_words a ≡ regs_words b)
unfolding same_regs
same_regs_iff a b =
    (eq_of_same_words (regs_words a) (regs_words b), λ e. rw e (same_words_refl (regs_words b)))
