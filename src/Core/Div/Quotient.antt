-- ===== src/Core/Div/Quotient.antt =====
-- The quotient and the remainder that `div`, `rem` and their unsigned and 32-bit forms write.
use riscv_single_cycle_cpu.Base.{ℕ, ◌-◌, ◌/◌, ◌%◌, ◌^◌, Bool, ◌&&◌, ◌==◌, if◌then◌else◌}
use riscv_single_cycle_cpu.Core.Signals.{differ, is_set, negate, sign_extend32}

-- An operand as the operation reads it, and its absolute value.
unfoldable pub operand : Bool → Bool → ℕ → ℕ
operand w s x = if w then (if s then sign_extend32 x else x % 2 ^ 32) else x

unfoldable pub is_below_zero : Bool → Bool → ℕ → Bool
is_below_zero w s x = s && is_set 63 (operand w s x)

unfoldable pub absolute : Bool → Bool → ℕ → ℕ
absolute w s x = if is_below_zero w s x then negate (operand w s x) else operand w s x

-- A result of 32 bits is sign-extended, also an unsigned one.
unfoldable pub result : Bool → ℕ → ℕ
result w x = if w then sign_extend32 x else x

-- Division rounds toward zero; by zero it gives all ones.
unfoldable pub quotient : Bool → Bool → ℕ → ℕ → ℕ
quotient w s a b =
    let q = absolute w s a / absolute w s b in
    result w (
      if operand w s b == 0
      then 2 ^ 64 - 1
      else if differ (is_below_zero w s a) (is_below_zero w s b)
      then negate q
      else q)

-- The remainder has the sign of the dividend; by zero it is the dividend.
unfoldable pub remainder : Bool → Bool → ℕ → ℕ → ℕ
remainder w s a b =
    let r = absolute w s a % absolute w s b in
    result w
      (if operand w s b == 0 then operand w s a else if is_below_zero w s a then negate r else r)
