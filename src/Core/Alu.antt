-- ===== src/Core/Alu.antt =====
-- The arithmetic unit, vsrc/src/alu.sv.
use riscv_single_cycle_cpu.Base.{
  ℕ, ◌+◌, ◌-◌, ◌/◌, ◌%◌, ◌^◌, bit_and, bit_or, bit_xor, add64, sub64, shl64, shr, Bool, ◌==◌, ltb,
  if◌then◌else◌,
}
use riscv_single_cycle_cpu.Core.Signals.{is_set, differ, sign_extend32}

-- `$signed(a) < $signed(b)`
abbrev pub signed_lt : ℕ → ℕ → Bool
signed_lt a b = ltb ((a + 2 ^ 63) % 2 ^ 64) ((b + 2 ^ 63) % 2 ^ 64)

-- `$signed(a) >>> n`
abbrev pub shift_arithmetic : ℕ → ℕ → ℕ
shift_arithmetic a n = if is_set 63 a then 2 ^ 64 - 2 ^ (64 - n) + a / 2 ^ n else a / 2 ^ n

abbrev pub one_if : Bool → ℕ
one_if test = if test then 1 else 0

pub record Alu : Type 0 where
  pub zero : Bool
  pub sf : Bool
  pub result : ℕ

-- `SF = result[63]`, and `zero`
abbrev signed : ℕ → Alu
signed result = record { zero = result == 0; sf = is_set 63 result; result = result }

-- `SF = result[31]`, which is then extended over the upper half
abbrev word : ℕ → Alu
word x =
    let result = sign_extend32 x in record { zero = result == 0; sf = is_set 31 x; result = result }

unfoldable pub alu : ℕ → ℕ → ℕ → Alu
alu a b aluctrl =
    if aluctrl == 0b0000
    then signed (add64 a b)
    else if aluctrl == 0b0001
    then (let result = sub64 a b in
        record {
          zero = result == 0;
          sf = if differ (is_set 63 a) (is_set 63 b) then is_set 63 a else is_set 63 result;
          result = result;
        })
    else if aluctrl == 0b0010
    then signed (bit_and a b)
    else if aluctrl == 0b0011
    then signed (bit_or a b)
    else if aluctrl == 0b0100
    then signed (bit_xor a b)
    else if aluctrl == 0b0101
    then signed (shl64 a (b % 2 ^ 6))
    else if aluctrl == 0b0110
    then signed (shr a (b % 2 ^ 6))
    else if aluctrl == 0b0111
    then signed (one_if (signed_lt a b))
    else if aluctrl == 0b1000
    then signed (shift_arithmetic a (b % 2 ^ 6))
    else if aluctrl == 0b1001
    then signed (one_if (ltb a b))
    else if aluctrl == 0b1010
    then (let result = sub64 a b in
        record {
          zero = result == 0;
          sf = if differ (is_set 63 a) (is_set 63 b) then is_set 63 b else is_set 63 result;
          result = result;
        })
    else if aluctrl == 0b1011
    then word (add64 a b)
    else if aluctrl == 0b1100
    then word (sub64 a b)
    else if aluctrl == 0b1101
    then word (shl64 a (b % 2 ^ 5))
    else if aluctrl == 0b1110
    then word (shr (a % 2 ^ 32) (b % 2 ^ 5))
    else (let result = shift_arithmetic (sign_extend32 a) (b % 2 ^ 5) in
        record { zero = result == 0; sf = is_set 31 a; result = result })
