-- ===== src/Text/Trim.antt =====
-- What `trim` of verilate/vsrc/common.cpp keeps.
use native.Mathlib.Nat.{add-zero, add_assoc, sub_self, add-sub_cancel_left}
use riscv_single_cycle_cpu.Base.{
  lt→leb, le→leb, ℕ, zero, suc, ◌+◌, ◌-◌, ◌<◌, ◌≤◌, ◌≡◌, refl, ap, ◌∙◌, arith, true, false, List,
  [], ◌∷◌, ◌++◌, length, get_or, take, drop, All, length-append,
}
use riscv_single_cycle_cpu.Text.{is_alnum, trim_start, trim_end, trim}

-- A text that is empty, or begins and ends with a letter or a digit.
abbrev pub IsFramed : List ℕ → Type 0
IsFramed [] = Unit
IsFramed (c ∷ cs) = (is_alnum c ≡ true) × (is_alnum (get_or (c ∷ cs) (length cs) 0) ≡ true)

abbrev pub IsBlank : List ℕ → Type 0
IsBlank text = All (λ c. is_alnum c ≡ false) text

pub get_or-append {ℓ} :
    {A : Type ℓ} (xs ys : List A) (i : ℕ) (d : A)
    → get_or (xs ++ ys) (length xs + i) d ≡ get_or ys i d
get_or-append [] ys i d = ap (λ (k : ℕ). get_or ys k d) (omega arith)
get_or-append (x ∷ xs) ys i d =
    let e : suc (length xs) + i ≡ suc (length xs + i) = omega arith in
    rw e (get_or-append xs ys i d)

get_or-append_left {ℓ} :
    {A : Type ℓ} (xs ys : List A) (i : ℕ) (d : A)
    → i < length xs
    → get_or (xs ++ ys) i d ≡ get_or xs i d
get_or-append_left [] ys i d h = absurd (omega arith)
get_or-append_left (x ∷ xs) ys zero d h = refl
get_or-append_left (x ∷ xs) ys (suc i) d h = get_or-append_left xs ys i d (omega arith)

IsBlank-get_or : (q : List ℕ) (i : ℕ) → IsBlank q → i < length q → is_alnum (get_or q i 0) ≡ false
IsBlank-get_or [] i h k = absurd (omega arith)
IsBlank-get_or (c ∷ q) zero h k = h.0
IsBlank-get_or (c ∷ q) (suc i) h k = IsBlank-get_or q i h.1 (omega arith)

trim_start-blank :
    (p rest : List ℕ) → IsBlank p → trim_start (p ++ rest) ≡ length p + trim_start rest
unfolding trim_start
trim_start-blank [] rest h = omega arith
trim_start-blank (c ∷ p) rest h = rw h.0 (omega (arith, trim_start-blank p rest h.1))

drop-append {ℓ} : {A : Type ℓ} (xs ys : List A) → drop (length xs) (xs ++ ys) ≡ ys
drop-append [] ys = refl
drop-append (x ∷ xs) ys = drop-append xs ys

take-append {ℓ} : {A : Type ℓ} (xs ys : List A) → take (length xs) (xs ++ ys) ≡ xs
take-append [] ys = refl
take-append (x ∷ xs) ys = ap (λ t. x ∷ t) (take-append xs ys)

-- The second loop runs down over blanks, to the end `e` of what is kept.
trim_end-blank :
    (text : List ℕ) (i e n : ℕ)
    → i ≤ e
    → ((k : ℕ) → k < n → is_alnum (get_or text (e + k) 0) ≡ false)
    → trim_end text i e ≡ e
    → trim_end text i (e + n) ≡ e
unfolding trim_end
trim_end-blank text i e zero low blank stop = rw (add-zero e) stop
trim_end-blank text i e (suc n) low blank stop =
    let up : e + suc n ≡ suc (e + n) = omega arith in
    rw (up, lt→leb (suc (e + n)) i (omega arith), blank n (omega arith))
      (trim_end-blank text i e n low (λ k h. blank k (omega arith)) stop)

trim_end-stop : (text : List ℕ) (i : ℕ) → trim_end text i i ≡ i
unfolding trim_end
trim_end-stop text zero = refl
trim_end-stop text (suc i) = rw (le→leb (suc i) (suc i) (omega arith))

trim_end-alnum :
    (text : List ℕ) (i j : ℕ)
    → i ≤ j
    → is_alnum (get_or text j 0) ≡ true
    → trim_end text i (suc j) ≡ suc j
unfolding trim_end
trim_end-alnum text i j low h = rw (lt→leb (suc j) i (omega arith), h)

trim_cut :
    (text : List ℕ) (i j : ℕ)
    → trim_start text ≡ i
    → trim_end text i (length text) ≡ j
    → trim text ≡ take (j - i) (drop i text)
unfolding trim
trim_cut text i j start end = rw (start, end)

trim_start-all : (q : List ℕ) → IsBlank q → trim_start q ≡ length q
unfolding trim_start
trim_start-all [] h = refl
trim_start-all (c ∷ q) h = rw h.0 (ap suc (trim_start-all q h.1))

trim-blank : (text : List ℕ) → IsBlank text → trim text ≡ []
trim-blank text h =
    trim_cut text (length text) (length text) (trim_start-all text h)
      (trim_end-stop text (length text))
    ∙ ap (λ (n : ℕ). take n (drop (length text) text)) (sub_self (length text))

IsBlank-append : (p q : List ℕ) → IsBlank p → IsBlank q → IsBlank (p ++ q)
IsBlank-append [] q h k = k
IsBlank-append (c ∷ p) q h k = (h.0, IsBlank-append p q h.1 k)

-- `trim` takes away what surrounds a text and is neither a letter nor a digit, and nothing else:
-- the text may be empty, or begin and end with a letter or a digit and hold any characters.
pub trim_lem :
    (p core q : List ℕ) → IsBlank p → IsBlank q → IsFramed core → trim (p ++ (core ++ q)) ≡ core
unfolding trim_start
trim_lem p [] q blank_p blank_q framed = trim-blank (p ++ q) (IsBlank-append p q blank_p blank_q)
trim_lem p (c ∷ cs) q blank_p blank_q framed =
    trim_cut text (length p) (length p + length core) start end
    ∙ rw (add-sub_cancel_left (length p) (length core), drop-append p (core ++ q))
        (take-append core q)
  where
    core : List ℕ
    core = c ∷ cs

    text : List ℕ
    text = p ++ (core ++ q)

    start : trim_start text ≡ length p
    start = trim_start-blank p (core ++ q) blank_p ∙ rw framed.0 (add-zero (length p))

    -- Behind the core there are blanks.
    behind : (k : ℕ) → k < length q → is_alnum (get_or text (length p + length core + k) 0) ≡ false
    behind k h =
        rw (add_assoc, get_or-append p (core ++ q), get_or-append core q)
          (IsBlank-get_or q k blank_q h)

    last : is_alnum (get_or text (length p + length cs) 0) ≡ true
    last =
        rw (get_or-append p (core ++ q), get_or-append_left core q (length cs) 0 (omega arith))
          framed.1

    end : trim_end text (length p) (length text) ≡ length p + length core
    end =
        let size : length text ≡ length p + length core + length q =
          omega (arith, length-append p (core ++ q), length-append core q) in
        let up : length p + length core ≡ suc (length p + length cs) = omega arith in
        rw size (
          trim_end-blank text (length p) (length p + length core) (length q) (omega arith) behind
            (rw up (trim_end-alnum text (length p) (length p + length cs) (omega arith) last)))
