-- ===== src/Model/Monitor.antt =====
-- The number register as `checkout_confreg` of verilate/vsrc/model.cpp watches it, over many
-- cycles.
use riscv_single_cycle_cpu.Base.{
  ℕ, ◌+◌, ◌^◌, ◌<◌, ◌≤◌, ◌≡◌, arith, Option, some, List, [], ◌∷◌, ◌==◌, ◌>>=◌, >>=-eq-some, length,
  ◌⊎◌, inl, inr, u32, Bool-cases, ==_iff, some-inj, sym, ap, ◌∙◌,
}
use riscv_single_cycle_cpu.Confreg.{Confreg, get_current_num, get_acked_num}
use riscv_single_cycle_cpu.Model.{Model, check_num}

-- One check for each state of the registers.
abbrev pub check_all : (ℕ → List ℕ) → List Confreg → Model → Option Model
check_all completed [] m = some m
check_all completed (con ∷ cons) m = check_num completed con m >>= check_all completed cons

-- Some state shows the number, and acknowledges it.
abbrev pub IsShown : ℕ → List Confreg → Type 0
IsShown j [] = ⊥
IsShown j (con ∷ cons) = ((get_current_num con ≡ j) × (get_acked_num con ≡ j)) ⊎ IsShown j cons

-- One check: the number stays, or the next one is shown and acknowledged.
check_num_cases :
    (completed : ℕ → List ℕ) (con : Confreg) (m : Model) {m' : Model}
    → check_num completed con m ≡ some m'
    → (m'.current_num ≡ m.current_num)
      ⊎ ((m'.current_num ≡ u32 (m.current_num + 1))
          × (get_current_num con ≡ m'.current_num)
          × (get_acked_num con ≡ m'.current_num))
unfolding check_num
check_num_cases completed con m h = ground arith

-- What a run of checks that succeed does to the number.
check_all_lem :
    (completed : ℕ → List ℕ) (cons : List Confreg) (m : Model) {m' : Model}
    → m.current_num + length cons < 2 ^ 32
    → check_all completed cons m ≡ some m'
    → (m.current_num ≤ m'.current_num)
      × (m'.current_num ≤ m.current_num + length cons)
      × ((j : ℕ) → m.current_num < j → j ≤ m'.current_num → IsShown j cons)
check_all_lem completed [] m {m'} fits h =
    let same : m.current_num ≡ m'.current_num = ap (λ (x : Model). x.current_num) (some-inj h) in
    (omega arith, omega arith, λ j above below. absurd (omega arith))
check_all_lem completed (con ∷ cons) m {m'} fits h =
    let (mid, first, rest) = >>=-eq-some (check_num completed con m) (check_all completed cons) h in
    elim (check_num_cases completed con m first) [
      | inl same ↦
          let (low, high, shown) = check_all_lem completed cons mid (omega arith) rest in
          (omega arith, omega arith, λ j above below. inr (shown j (omega arith) below))
      | inr (up, number, ack) ↦
          let next : mid.current_num ≡ m.current_num + 1 = omega arith in
          let (low, high, shown) = check_all_lem completed cons mid (omega arith) rest in
          (
            omega arith,
            omega arith,
            λ j above below. elim (Bool-cases (j == mid.current_num)) [
              | inl here ↦
                  let this : j ≡ mid.current_num = (==_iff j mid.current_num).0 here in
                  inl (number ∙ sym this, ack ∙ sym this)
              | inr later ↦ inr (shown j (ground arith) below)
            ],
          )
    ]

-- If no check fails, the number has gone up by at most one in each, and no number was skipped:
-- each number above the one at the start, up to the one at the end, was shown and acknowledged in
-- the state of some check.
pub check_all-IsShown :
    (completed : ℕ → List ℕ) (cons : List Confreg) (m : Model) {m' : Model} (j : ℕ)
    → m.current_num + length cons < 2 ^ 32
    → check_all completed cons m ≡ some m'
    → m.current_num < j
    → j ≤ m'.current_num
    → (m'.current_num ≤ m.current_num + length cons) × IsShown j cons
check_all-IsShown completed cons m j fits h above below =
    let (low, high, shown) = check_all_lem completed cons m fits h in (high, shown j above below)
