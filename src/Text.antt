-- ===== src/Text.antt =====
-- The string helpers of verilate/vsrc/common.cpp. A string is the list of its bytes; `isalnum` is
-- that of the C locale.
pub mod Trim
pub mod Image
use riscv_single_cycle_cpu.Base.{
  ℕ, zero, suc, ◌+◌, ◌-◌, Bool, true, false, List, [], ◌∷◌, ◌==◌, ltb, leb, not, ◌&&◌, ◌||◌,
  if◌then◌else◌, length, get_or, take, drop,
}

unfoldable pub is_digit : ℕ → Bool
is_digit c = leb b'0' c && leb c b'9'

unfoldable pub is_upper : ℕ → Bool
is_upper c = leb b'A' c && leb c b'Z'

unfoldable pub is_lower : ℕ → Bool
is_lower c = leb b'a' c && leb c b'z'

unfoldable pub is_alnum : ℕ → Bool
unfolding is_digit is_upper is_lower
is_alnum c = is_digit c || (is_upper c || is_lower c)

-- The loop of `endswith` at character `i` from the end, with `n` characters of the pattern left.
unfoldable pub endswith_from : ℕ → ℕ → List ℕ → List ℕ → Bool
endswith_from zero i text pat = true
endswith_from (suc n) i text pat =
    let rest = endswith_from n (i + 1) text pat in
    if leb (length text) i
      || not (get_or text (length text - i - 1) 0 == get_or pat (length pat - i - 1) 0)
    then false
    else rest

unfoldable pub endswith : List ℕ → List ℕ → Bool
unfolding endswith_from
endswith text pat = endswith_from (length pat) 0 text pat

-- The two loops of `trim`: the first character that is alphanumeric, and the end behind the last
-- one, which is not sought before `i`.
unfoldable pub trim_start : List ℕ → ℕ
trim_start [] = 0
trim_start (c ∷ cs) = if is_alnum c then 0 else suc (trim_start cs)

unfoldable pub trim_end : List ℕ → ℕ → ℕ → ℕ
trim_end text i zero = zero
trim_end text i (suc j) =
    let rest = trim_end text i j in
    if leb (suc j) i then suc j else if is_alnum (get_or text j 0) then suc j else rest

unfoldable pub trim : List ℕ → List ℕ
unfolding trim_start trim_end
trim text =
    let i = trim_start text in let j = trim_end text i (length text) in take (j - i) (drop i text)

unfoldable pub escape : List ℕ → List ℕ
escape [] = []
escape (c ∷ cs) = (if is_alnum c then c else b'-') ∷ escape cs
