-- ===== src/Base/Word.antt =====
-- `uint64_t` and narrower words as native numbers: arithmetic wraps by `%`, a shift is a product
-- or a quotient by a power of two.
use Prim.Native.Nat.{ℕ, ◌+◌, ◌-◌, ◌*◌, ◌/◌, ◌%◌, ◌^◌, bit_and, bit_or}

abbrev pub word_size : ℕ
word_size = 2 ^ 64

abbrev pub u8 : ℕ → ℕ
u8 n = n % 2 ^ 8

abbrev pub u32 : ℕ → ℕ
u32 n = n % 2 ^ 32

abbrev pub u64 : ℕ → ℕ
u64 n = n % 2 ^ 64

-- `a + b` and `a - b` on `uint64_t`
abbrev pub add64 : ℕ → ℕ → ℕ
add64 a b = (a + b) % 2 ^ 64

abbrev pub sub64 : ℕ → ℕ → ℕ
sub64 a b = (a + 2 ^ 64 - b) % 2 ^ 64

-- `a << k` and `a >> k` on `uint64_t`
abbrev pub shl64 : ℕ → ℕ → ℕ
shl64 a k = a * 2 ^ k % 2 ^ 64

abbrev pub shr : ℕ → ℕ → ℕ
shr a k = a / 2 ^ k

-- `~a` on `uint64_t`, of a value below 2 ^ 64
abbrev pub not64 : ℕ → ℕ
not64 a = 2 ^ 64 - 1 - a

-- `(value & ~mask) | (data & mask)`, the masked write of both memory models
unfoldable pub merge : ℕ → ℕ → ℕ → ℕ
merge value data' mask = bit_or (bit_and value (not64 mask)) (bit_and data' mask)
