-- ===== src/Text/Image/Formats.antt =====
-- `parse_memory_file` of verilate/vsrc/common.cpp on the three text formats.
use riscv_single_cycle_cpu.Base.{
  ℕ, zero, suc, ◌+◌, ◌-◌, ◌^◌, ◌<◌, ◌≡◌, refl, arith, some, List, [], ◌∷◌, ◌++◌, length,
  length-append, All,
}
use riscv_single_cycle_cpu.Text.{
  endswith_from, endswith, is_digit, is_upper, is_lower, is_alnum, trim, trim_start, trim_end,
}
use riscv_single_cycle_cpu.Text.Trim.{get_or-append}
use riscv_single_cycle_cpu.Text.Image.{
  codes, lines, before_equals, behind_equals, stoi, parse_number, scan, spaces, has_prefix,
  resolve_base, has_sign, digit_value, parse_coe, parse_hex, parse_memory_file,
}
use riscv_single_cycle_cpu.Text.Image.RoundTrip.{
  print_words, all_bytes, IsSeparator, parse_hex-print_words, parse_mif-print_words,
}

endswith_from-append :
    (name ext pat : List ℕ) (n i : ℕ)
    → length ext ≡ length pat
    → n + i ≡ length pat
    → endswith_from n i (name ++ ext) pat ≡ endswith_from n i ext pat
unfolding endswith_from
endswith_from-append name ext pat zero i same at_end = refl
endswith_from-append name ext pat (suc n) i same at_end =
    let here : length (name ++ ext) - i - 1 ≡ length name + (length ext - i - 1) =
      omega (arith, length-append name ext) in
    rw
      (
        here,
        get_or-append name ext (length ext - i - 1) 0,
        endswith_from-append name ext pat n (i + 1) same (omega arith),
      )
      (rw (length-append name ext) (ground arith))

-- The end of a path is looked at alone.
endswith-append :
    (name ext pat : List ℕ)
    → length ext ≡ length pat
    → endswith (name ++ ext) pat ≡ endswith ext pat
unfolding endswith
endswith-append name ext pat same =
    endswith_from-append name ext pat (length pat) 0 same (omega arith)

-- The header of a COE file with hexadecimal words.
abbrev pub coe_header : List ℕ
coe_header =
    codes "memory_initialization_radix = 16;"
    ++ (10 ∷ (codes "memory_initialization_vector =" ++ (10 ∷ [])))

parse_coe-print_words :
    (sep ws : List ℕ)
    → IsSeparator sep
    → All (λ w. w < 2 ^ 32) ws
    → parse_coe (coe_header ++ print_words 16 8 sep ws) ≡ some (all_bytes ws)
unfolding parse_coe parse_hex lines before_equals behind_equals stoi parse_number scan spaces
    has_prefix resolve_base has_sign digit_value is_digit is_upper is_lower is_alnum trim trim_start
    trim_end
parse_coe-print_words sep ws blank h = parse_hex-print_words sep ws blank h

-- A path that ends in `.coe`, `.mif` or `.hex` is read as that format, whatever stands before:
-- the file with one word to a line, in the digits and with the header of the format, is read as
-- the bytes of the words in order, the least byte of each first. Each line may end in a separator
-- that holds no letter, digit or end of a line.
pub parse_memory_file-print_words :
    (name sep ws : List ℕ)
    → IsSeparator sep
    → All (λ w. w < 2 ^ 32) ws
    → (parse_memory_file (name ++ codes ".coe") (some (coe_header ++ print_words 16 8 sep ws))
        ≡ some (all_bytes ws))
      × (parse_memory_file (name ++ codes ".mif") (some (print_words 2 32 sep ws))
          ≡ some (all_bytes ws))
      × (parse_memory_file (name ++ codes ".hex") (some (print_words 16 8 sep ws))
          ≡ some (all_bytes ws))
unfolding parse_memory_file endswith endswith_from
parse_memory_file-print_words name sep ws blank h = (
  rw (endswith-append name (codes ".coe") (codes ".coe") refl)
      (parse_coe-print_words sep ws blank h),
  rw
      (
        endswith-append name (codes ".mif") (codes ".coe") refl,
        endswith-append name (codes ".mif") (codes ".mif") refl,
      )
      (parse_mif-print_words sep ws blank h),
  rw
      (
        endswith-append name (codes ".hex") (codes ".coe") refl,
        endswith-append name (codes ".hex") (codes ".mif") refl,
        endswith-append name (codes ".hex") (codes ".hex") refl,
      )
      (parse_hex-print_words sep ws blank h),
)
