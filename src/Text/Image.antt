-- ===== src/Text/Image.antt =====
-- The memory image files of verilate/vsrc/common.cpp. A file is the list of its bytes, and
-- `none` where it does not open. `stoull` and `stoi` are those of the C++ library: `none` is an
-- exception. A base that is negative is written 1, which is as invalid.
pub mod Digits
pub mod RoundTrip
pub mod Formats
use Prim.Native.Char.{code}
use Prim.Native.String
use Prim.Native.String.{String}
use riscv_single_cycle_cpu.Base.{
  ℕ, zero, suc, ◌+◌, ◌-◌, ◌*◌, ◌/◌, ◌%◌, ◌^◌, Bool, true, false, Option, none, some, List, [], ◌∷◌,
  ◌++◌, ◌==◌, ltb, leb, not, ◌&&◌, ◌||◌, if◌then◌else◌, ◌>>=◌, ◌>>◌, asserts, bit_and, shr, length,
  get_or, drop,
}
use riscv_single_cycle_cpu.Text.{is_digit, is_upper, is_lower, trim, endswith}

abbrev pub is_space : ℕ → Bool
is_space c = c == 32 || (leb 9 c && leb c 13)

-- The value of a character as a digit; 36 if it is none.
unfoldable pub digit_value : ℕ → ℕ
unfolding is_digit is_upper is_lower
digit_value c =
    if is_digit c
    then c - b'0'
    else if is_lower c
    then c - b'a' + 10
    else if is_upper c
    then c - b'A' + 10
    else 36

-- The digits at the front: their value after `acc`, and how many they are.
unfoldable pub scan : ℕ → ℕ → List ℕ → ℕ × ℕ
scan base acc [] = (acc, 0)
scan base acc (c ∷ cs) =
    let rest = scan base (acc * base + digit_value c) cs in
    if ltb (digit_value c) base then (rest.0, rest.1 + 1) else (acc, 0)

-- The white space at the front.
unfoldable pub spaces : List ℕ → ℕ
spaces [] = 0
spaces (c ∷ cs) = if is_space c then spaces cs + 1 else 0

-- `0x` and a digit, which base 16 and the automatic base skip.
unfoldable pub has_prefix : List ℕ → Bool
has_prefix text =
    (get_or text 0 0 == b'0')
    && (get_or text 1 0 == b'x' || get_or text 1 0 == b'X')
    && ltb (digit_value (get_or text 2 0)) 16

unfoldable pub resolve_base : ℕ → List ℕ → ℕ
resolve_base base text =
    if not (base == 0)
    then base
    else if has_prefix text
    then 16
    else if get_or text 0 0 == b'0'
    then 8
    else 10

unfoldable pub has_sign : List ℕ → Bool
has_sign text = get_or text 0 0 == b'-' || get_or text 0 0 == b'+'

-- White space, a sign, a prefix and digits: whether the sign is a minus, the magnitude and the
-- characters read.
unfoldable pub parse_number : ℕ → List ℕ → Option (Bool × ℕ × ℕ)
parse_number base text = do
  let blanks = spaces text
  let unspaced = drop blanks text
  let signs = if has_sign unspaced then 1 else 0
  let unsigned = drop signs unspaced
  let radix = resolve_base base unsigned
  let skipped = if has_prefix unsigned && radix == 16 then 2 else 0
  let digits = scan radix 0 (drop skipped unsigned)
  asserts (leb 2 radix && leb radix 36 && not (digits.1 == 0))
  some (get_or unspaced 0 0 == b'-', digits.0, blanks + signs + skipped + digits.1)

-- `std::stoull(text, &count, base)`
unfoldable pub stoull : ℕ → List ℕ → Option (ℕ × ℕ)
stoull base text = do
  n ← parse_number base text
  asserts (ltb n.1 (2 ^ 64))
  some ((if n.0 then (2 ^ 64 - n.1) % 2 ^ 64 else n.1), n.2)

-- `std::stoi(text)`, as a base for `stoull`.
unfoldable pub stoi : List ℕ → Option ℕ
unfolding parse_number
stoi text = do
  n ← parse_number 10 text
  asserts (if n.0 then leb n.1 (2 ^ 31) else ltb n.1 (2 ^ 31))
  some (if n.0 && not (n.1 == 0) then 1 else n.1)

abbrev pub is_empty : List ℕ → Bool
is_empty [] = true
is_empty (c ∷ cs) = false

-- `seq.push_back(data & 0xff); data >>= 8`, `n` times
unfoldable pub push_bytes : ℕ → ℕ → List ℕ
push_bytes zero v = []
push_bytes (suc n) v = bit_and v 0xff ∷ push_bytes n (shr v 8)

-- One line of `feed`.
unfoldable pub feed_line : ℕ → List ℕ → Option (List ℕ)
unfolding stoull push_bytes
feed_line base line =
    let buf = trim line in
    if is_empty buf
    then some []
    else (stoull base buf >>= λ n. do
      asserts (n.1 == length buf)
      asserts (bit_and n.0 0xffffffff == n.0)
      some (push_bytes 4 n.0))

unfoldable pub feed : ℕ → List (List ℕ) → Option (List ℕ)
unfolding feed_line
feed base [] = some []
feed base (line ∷ lines) = do
  bytes ← feed_line base line
  rest ← feed base lines
  some (bytes ++ rest)

-- The lines that `std::getline` reads until it fails.
abbrev pub prepend : ℕ → List (List ℕ) → List (List ℕ)
prepend c [] = (c ∷ []) ∷ []
prepend c (line ∷ lines) = (c ∷ line) ∷ lines

unfoldable pub lines : List ℕ → List (List ℕ)
lines [] = []
lines (c ∷ cs) = if c == 10 then [] ∷ lines cs else prepend c (lines cs)

-- `std::getline` on an empty rest leaves the buffer empty.
abbrev pub first_line : List (List ℕ) → List ℕ
first_line [] = []
first_line (line ∷ lines) = line

abbrev pub other_lines : List (List ℕ) → List (List ℕ)
other_lines [] = []
other_lines (line ∷ lines) = lines

-- What stands before the first `=`, and behind it; where there is none, the second `getline`
-- leaves the buffer as it is.
unfoldable pub before_equals : List ℕ → List ℕ
before_equals [] = []
before_equals (c ∷ cs) = if c == b'=' then [] else c ∷ before_equals cs

unfoldable pub behind_equals : List ℕ → Option (List ℕ)
behind_equals [] = none
behind_equals (c ∷ cs) = if c == b'=' then some cs else behind_equals cs

abbrev pub text_eq : List ℕ → List ℕ → Bool
text_eq [] [] = true
text_eq [] (d ∷ ds) = false
text_eq (c ∷ cs) [] = false
text_eq (c ∷ cs) (d ∷ ds) = c == d && text_eq cs ds

-- The bytes of a literal.
abbrev pub codes : String → List ℕ
codes String.[] = []
codes (String.◌∷◌ c s) = code c ∷ codes s

abbrev pub radix_key : List ℕ
radix_key = codes "memory_initialization_radix"

abbrev pub vector_key : List ℕ
vector_key = codes "memory_initialization_vector"

unfoldable pub parse_coe : List ℕ → Option (List ℕ)
unfolding before_equals behind_equals stoi feed lines
parse_coe file = do
  let all = lines file
  let first = first_line all
  asserts (text_eq (trim (before_equals first)) radix_key)
  base ← stoi (elim (behind_equals first) [ none ↦ before_equals first | some radix ↦ radix ])
  let rest = other_lines all
  asserts (text_eq (trim (before_equals (first_line rest))) vector_key)
  feed base (other_lines rest)

unfoldable pub parse_mif : List ℕ → Option (List ℕ)
unfolding feed lines
parse_mif file = feed 2 (lines file)

unfoldable pub parse_hex : List ℕ → Option (List ℕ)
unfolding feed lines
parse_hex file = feed 16 (lines file)

unfoldable pub parse_bin : List ℕ → List ℕ
parse_bin [] = []
parse_bin (c ∷ cs) = c % 256 ∷ parse_bin cs

unfoldable pub parse_memory_file : List ℕ → Option (List ℕ) → Option (List ℕ)
unfolding parse_coe parse_mif parse_hex parse_bin
parse_memory_file path opened = do
  file ← opened
  if endswith path (codes ".coe")
      then parse_coe file
      else if endswith path (codes ".mif")
      then parse_mif file
      else if endswith path (codes ".hex")
      then parse_hex file
      else some (parse_bin file)
