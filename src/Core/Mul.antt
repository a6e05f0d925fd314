-- ===== src/Core/Mul.antt =====
-- The multiplier, vsrc/src/mul.sv: one bit of the multiplier at each clock edge.
pub mod Steps
pub mod Product
pub mod Run
use riscv_single_cycle_cpu.Base.{
  ℕ, ◌+◌, ◌-◌, ◌*◌, ◌/◌, ◌%◌, ◌^◌, Bool, true, false, not, ◌&&◌, ◌==◌, if◌then◌else◌,
}
use riscv_single_cycle_cpu.Core.Signals.{Inputs, Registers, differ, is_set, negate, sign_extend32}

unfoldable pub num1 : Inputs → ℕ
num1 i = if is_set 63 i.a && i.s then negate i.a else i.a

unfoldable pub num2 : Inputs → ℕ
num2 i = if is_set 63 i.b && i.s then negate i.b else i.b

-- One round on `p`: the carry of the 65-bit sum is kept, bit 128 is cleared.
unfoldable pub round : ℕ → ℕ → ℕ
round num2 p =
    if is_set 0 p
    then (p / 2 ^ 64 % 2 ^ 64 + num2) % 2 ^ 65 * 2 ^ 63 + p / 2 % 2 ^ 63
    else p / 2 % 2 ^ 128

-- The clocked block. Its assignments are nonblocking, so the `case` reads the old registers and
-- what it assigns stands over what the reset assigns.
unfoldable pub clock : Inputs → Registers → Registers
clock i r =
    let r' = if i.reset then record r { state = false; count = 0; p = 0 } else r in
    let counted = record r' { count = (r.count + 1) % 2 ^ 7 } in
    if r.state
    then (if i.valid
        then (if r.count == 0x0
            then record counted { p = num1 i }
            else if r.count == 0x41
            then record counted { state = false; done = true }
            else record counted { p = round (num2 i) r.p })
        else record r' { state = false; count = 0 })
    else record r' { done = false; state = i.valid; count = 0 }

-- `s == 1'b1 && a[63] ^ b[63] == 1'b1`
unfoldable pub is_negative : Inputs → Bool
is_negative i = i.s && differ (is_set 63 i.a) (is_set 63 i.b)

unfoldable pub temp : Inputs → ℕ → ℕ
temp i p = if is_negative i then (2 ^ 129 - p) % 2 ^ 129 else p

-- The output `c`.
unfoldable pub c : Inputs → Registers → ℕ
c i r = if i.w then sign_extend32 (temp i r.p) else temp i r.p % 2 ^ 64
