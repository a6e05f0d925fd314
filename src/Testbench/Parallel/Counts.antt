-- ===== src/Testbench/Parallel/Counts.antt =====
-- Counts over the workers of `run_parallel` in verilate/vsrc/testbench.cpp, and what they become by
-- one request.
use mathlib.Core.List.{append-nil}
use native.Mathlib.Numerals.{add-one}
use riscv_single_cycle_cpu.Base.{
  ℕ, zero, suc, ◌+◌, ◌≡◌, refl, ap, arith, Bool, true, false, Option, none, some, List, [], ◌∷◌,
  ◌++◌, not, ◌&&◌, if◌then◌else◌, length, get_or, set,
}

-- The tests that were sent, in order, and the tests below a number.
abbrev pub tests_of : List (ℕ × Option ℕ) → List ℕ
tests_of [] = []
tests_of ((j, none) ∷ sent) = tests_of sent
tests_of ((j, some i) ∷ sent) = i ∷ tests_of sent

abbrev pub below : ℕ → List ℕ
below zero = []
below (suc n) = below n ++ (n ∷ [])

-- The workers that run a test, and those whose pipe is open.
abbrev pub busy : List Bool → List Bool → ℕ
busy (f ∷ fs) (o ∷ os) = (if o && not f then 1 else 0) + busy fs os
busy fs os = 0

abbrev pub opened : List Bool → ℕ
opened [] = 0
opened (o ∷ os) = (if o then 1 else 0) + opened os

tests_of-append : (xs ys : List (ℕ × Option ℕ)) → tests_of (xs ++ ys) ≡ tests_of xs ++ tests_of ys
tests_of-append [] ys = refl
tests_of-append ((j, none) ∷ xs) ys = tests_of-append xs ys
tests_of-append ((j, some i) ∷ xs) ys = ap (λ t. i ∷ t) (tests_of-append xs ys)

-- A request of an open worker that keeps it open, and one that closes it.
pub busy-set_first :
    (fs os : List Bool) (j : ℕ)
    → get_or os j false ≡ true
    → length fs ≡ length os
    → busy (set fs j false) os + (if get_or fs j true then 0 else 1) ≡ busy fs os + 1
busy-set_first [] [] j h e = absurd (ground arith)
busy-set_first [] (o ∷ os) j h e = absurd (omega arith)
busy-set_first (f ∷ fs) [] j h e = absurd (omega arith)
busy-set_first (f ∷ fs) (o ∷ os) zero h e = ground arith
busy-set_first (f ∷ fs) (o ∷ os) (suc j) h e = omega (arith, busy-set_first fs os j h (omega arith))

pub busy-set_worker :
    (fs os : List Bool) (j : ℕ)
    → get_or os j false ≡ true
    → length fs ≡ length os
    → busy (set fs j false) (set os j false) + (if get_or fs j true then 0 else 1) ≡ busy fs os
busy-set_worker [] [] j h e = absurd (ground arith)
busy-set_worker [] (o ∷ os) j h e = absurd (omega arith)
busy-set_worker (f ∷ fs) [] j h e = absurd (omega arith)
busy-set_worker (f ∷ fs) (o ∷ os) zero h e = ground arith
busy-set_worker (f ∷ fs) (o ∷ os) (suc j) h e =
    omega (arith, busy-set_worker fs os j h (omega arith))

pub opened-set :
    (os : List Bool) (j : ℕ) → get_or os j false ≡ true → opened (set os j false) + 1 ≡ opened os
opened-set [] j h = absurd (ground arith)
opened-set (o ∷ os) zero h = ground arith
opened-set (o ∷ os) (suc j) h = omega (arith, opened-set os j h)

pub busy-close :
    (fs os : List Bool) (j : ℕ)
    → get_or os j false ≡ true
    → get_or fs j true ≡ false
    → busy fs (set os j false) + 1 ≡ busy fs os
busy-close [] os j h k = cc
busy-close (f ∷ fs) [] j h k = absurd (ground arith)
busy-close (f ∷ fs) (o ∷ os) zero h k = ground arith
busy-close (f ∷ fs) (o ∷ os) (suc j) h k = omega (arith, busy-close fs os j h k)

pub sends-some :
    (sent : List (ℕ × Option ℕ)) (j d : ℕ)
    → tests_of sent ≡ below d
    → tests_of (sent ++ ((j, some d) ∷ [])) ≡ below (d + 1)
sends-some sent j d h = rw (tests_of-append, h, add-one) refl

pub sends-none :
    (sent : List (ℕ × Option ℕ)) (j d : ℕ)
    → tests_of sent ≡ below d
    → tests_of (sent ++ ((j, none) ∷ [])) ≡ below d
sends-none sent j d h = rw (tests_of-append, append-nil) h
