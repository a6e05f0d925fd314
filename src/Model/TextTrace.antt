-- ===== src/Model/TextTrace.antt =====
-- The lines of the text trace, `text_dump` of verilate/vsrc/model.cpp.
use native.Mathlib.Nat.{
  div-add-mod', add-mul-mod_self_right, mod-eq_of_lt, mod-lt, pow-suc, one-le-pow,
}
use riscv_single_cycle_cpu.Base.{
  ℕ, zero, suc, ◌+◌, ◌-◌, ◌*◌, ◌/◌, ◌%◌, ◌^◌, ◌<◌, ◌≤◌, ◌≡◌, refl, sym, ap, ◌∙◌, arith, Bool, List,
  [], ◌∷◌, ◌++◌, leb, ◌||◌, false, ◌==◌, if◌then◌else◌, length, length-append, take, u32,
  Bool-cases, inl, inr,
}
use riscv_single_cycle_cpu.Model.{hex_digit, hex_digits, print_hex, trace_line}

-- The value of hexadecimal digits, as a reader of the trace takes them.
abbrev pub hex_value : ℕ → List ℕ → ℕ
hex_value acc [] = acc
hex_value acc (c ∷ cs) = hex_value (acc * 16 + (if leb c 57 then c - 48 else c - 87)) cs

split_digit : (d r q p : ℕ) → (q * 16 + d) * p + r ≡ d * p + r + q * (16 * p)
split_digit d r q p = grind arith

digit-lt : (d r p : ℕ) → d < 16 → r < p → d * p + r < 16 * p
digit-lt d r p hd hr = grind arith

mod-split : (v p : ℕ) → 0 < p → v % (16 * p) ≡ v / p % 16 * p + v % p
mod-split v p pos =
    ap (λ (t : ℕ). t % (16 * p))
      (sym (div-add-mod' v p)
        ∙ ap (λ (t : ℕ). t * p + v % p) (sym (div-add-mod' (v / p) 16))
        ∙ split_digit (v / p % 16) (v % p) (v / p / 16) p)
    ∙ add-mul-mod_self_right (v / p % 16 * p + v % p) (v / p / 16) (16 * p)
    ∙ mod-eq_of_lt (digit-lt (v / p % 16) (v % p) p (mod-lt (v / p) (omega arith)) (mod-lt v pos))

digit_back :
    (d : ℕ) → d < 16 → (if leb (hex_digit d) 57 then hex_digit d - 48 else hex_digit d - 87) ≡ d
digit_back d h = ground arith

horner : (a d p : ℕ) → (a * 16 + d) * p ≡ a * (16 * p) + d * p
horner a d p = grind arith

hex_value-hex_digits : (n acc v : ℕ) → hex_value acc (hex_digits n v) ≡ acc * 16 ^ n + v % 16 ^ n
hex_value-hex_digits zero acc v = omega arith
hex_value-hex_digits (suc n) acc v =
    let up : 16 ^ suc n ≡ 16 * 16 ^ n = omega (arith, pow-suc 16 n) in
    let d = v / 16 ^ n % 16 in
    ap (λ (t : ℕ). hex_value (acc * 16 + t) (hex_digits n v))
      (digit_back d (mod-lt (v / 16 ^ n) (omega arith)))
    ∙ rw up (
        hex_value-hex_digits n (acc * 16 + v / 16 ^ n % 16) v
        ∙ omega (
          arith,
          horner acc (v / 16 ^ n % 16) (16 ^ n),
          mod-split v (16 ^ n) (one-le-pow n 16 (omega arith)),
        ))

length-hex_digits : (n v : ℕ) → length (hex_digits n v) ≡ n
length-hex_digits zero v = refl
length-hex_digits (suc n) v = ap suc (length-hex_digits n v)

length-print_hex-le : (w n v : ℕ) → length (print_hex w n v) ≤ n
unfolding print_hex
length-print_hex-le w zero v = omega arith
length-print_hex-le w (suc n) v = elim (Bool-cases (leb (suc n) w || leb (16 ^ n) v)) [
  | inl here ↦ rw (here, length-hex_digits n v) (omega arith)
  | inr less ↦ rw less (omega (arith, length-print_hex-le w n v))
]

take-all {ℓ} : {A : Type ℓ} (n : ℕ) (xs : List A) → length xs ≤ n → take n xs ≡ xs
take-all zero [] h = refl
take-all zero (x ∷ xs) h = absurd (omega arith)
take-all (suc n) [] h = refl
take-all (suc n) (x ∷ xs) h = ap (λ t. x ∷ t) (take-all n xs (omega arith))

-- The fields of a line, before it is cut.
abbrev pub whole_line : Bool → ℕ → ℕ → ℕ → List ℕ
whole_line enable pc id value =
    print_hex 1 8 (if enable then 1 else 0)
    ++ (32 ∷ print_hex 8 8 (u32 pc)
        ++ (32 ∷ print_hex 2 8 (u32 id) ++ (32 ∷ print_hex 8 8 (u32 value))))

-- A reader of a line: the values of its fields, which a space ends.
abbrev pub read_line : ℕ → List ℕ → List ℕ
read_line acc [] = acc ∷ []
read_line acc (c ∷ cs) =
    let digits = read_line (acc * 16 + (if leb c 57 then c - 48 else c - 87)) cs in
    let next = read_line 0 cs in if c == 32 then acc ∷ next else digits

digit-not_space : (d : ℕ) → (hex_digit d == 32) ≡ false
digit-not_space d = ground arith

read_line-digits :
    (n acc v : ℕ) (rest : List ℕ)
    → read_line acc (hex_digits n v ++ (32 ∷ rest))
      ≡ hex_value acc (hex_digits n v) ∷ read_line 0 rest
read_line-digits zero acc v rest = refl
read_line-digits (suc n) acc v rest =
    rw (digit-not_space (v / 16 ^ n % 16)) (read_line-digits n _ v rest)

read_line-last :
    (n acc v : ℕ) → read_line acc (hex_digits n v) ≡ hex_value acc (hex_digits n v) ∷ []
read_line-last zero acc v = refl
read_line-last (suc n) acc v = rw (digit-not_space (v / 16 ^ n % 16)) (read_line-last n _ v)

-- A field and a space, and the last field.
read_line-print_hex :
    (w n v : ℕ) (rest : List ℕ)
    → v < 16 ^ n
    → read_line 0 (print_hex w n v ++ (32 ∷ rest)) ≡ v ∷ read_line 0 rest
unfolding print_hex
read_line-print_hex w zero v rest h = let z : 0 ≡ v = omega arith in rw z
read_line-print_hex w (suc n) v rest h = elim (Bool-cases (leb (suc n) w || leb (16 ^ n) v)) [
  | inl here ↦ rw here (
      read_line-digits (suc n) 0 v rest
      ∙ ap (λ t. t ∷ read_line 0 rest)
          (hex_value-hex_digits (suc n) 0 v ∙ omega (arith, mod-eq_of_lt h)))
  | inr less ↦ rw less (read_line-print_hex w n v rest (ground arith))
]

read_line-print_hex_last : (w n v : ℕ) → v < 16 ^ n → read_line 0 (print_hex w n v) ≡ v ∷ []
unfolding print_hex
read_line-print_hex_last w zero v h = let z : 0 ≡ v = omega arith in rw z
read_line-print_hex_last w (suc n) v h = elim (Bool-cases (leb (suc n) w || leb (16 ^ n) v)) [
  | inl here ↦ rw here (
      read_line-last (suc n) 0 v
      ∙ ap (λ t. t ∷ []) (hex_value-hex_digits (suc n) 0 v ∙ omega (arith, mod-eq_of_lt h)))
  | inr less ↦ rw less (read_line-print_hex_last w n v (ground arith))
]

not_cut :
    (enable : Bool) (pc id value : ℕ)
    → trace_line enable pc id value ≡ whole_line enable pc id value
unfolding trace_line
not_cut enable pc id value = take-all 63 (whole_line enable pc id value) (
    rw (length-append, length-append, length-append)
      (omega (
        arith,
        length-print_hex-le 1 8 (if enable then 1 else 0),
        length-print_hex-le 8 8 (u32 pc),
        length-print_hex-le 2 8 (u32 id),
        length-print_hex-le 8 8 (u32 value),
      )))

-- A line of the trace is not cut by the size of its buffer: a reader that splits it at the spaces
-- and takes each field as hexadecimal finds four fields, the enable bit and the low 32 bits of
-- the other three arguments.
pub read_line-trace_line :
    (enable : Bool) (pc id value : ℕ)
    → read_line 0 (trace_line enable pc id value)
      ≡ (if enable then 1 else 0) ∷ pc % 2 ^ 32 ∷ id % 2 ^ 32 ∷ value % 2 ^ 32 ∷ []
read_line-trace_line enable pc id value =
    let bit : (if enable then 1 else 0) < 16 ^ 8 = ground arith in
    rw
      (
        not_cut enable pc id value,
        read_line-print_hex 1 8 (if enable then 1 else 0) _ bit,
        read_line-print_hex 8 8 (u32 pc) _ (omega arith),
        read_line-print_hex 2 8 (u32 id) _ (omega arith),
        read_line-print_hex_last 8 8 (u32 value) (omega arith),
      )
      refl
