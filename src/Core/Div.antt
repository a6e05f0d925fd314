-- ===== src/Core/Div.antt =====
-- The divider, vsrc/src/div.sv: one bit of the quotient at each clock edge.
pub mod Steps
pub mod Rounds
pub mod Quotient
pub mod Output
pub mod Run
use riscv_single_cycle_cpu.Base.{
  ℕ, ◌+◌, ◌-◌, ◌*◌, ◌/◌, ◌%◌, ◌^◌, Bool, true, false, not, ◌&&◌, leb, ◌==◌, if◌then◌else◌,
}
use riscv_single_cycle_cpu.Core.Signals.{Inputs, Registers, is_set, negate, sign_extend32}

-- `num1` and `num2` are formed alike, of `a` and of `b`.
unfoldable pub magnitude : Bool → Bool → ℕ → ℕ
magnitude w s x =
    if w
    then (if s
        then (if is_set 31 x then negate (sign_extend32 x) else sign_extend32 x)
        else x % 2 ^ 32)
    else if is_set 63 x && s
    then negate x
    else x

abbrev pub num1 : Inputs → ℕ
num1 i = magnitude i.w i.s i.a

abbrev pub num2 : Inputs → ℕ
num2 i = magnitude i.w i.s i.b

-- One round on `p`: the divisor is subtracted where it fits, and `p` moves up by one bit.
unfoldable pub round : ℕ → ℕ → ℕ
round n p =
    if leb n (p / 2 ^ 63 % 2 ^ 64)
    then (p / 2 ^ 63 % 2 ^ 64 - n) * 2 ^ 64 + p % 2 ^ 63 * 2 + 1
    else p % 2 ^ 127 * 2

-- The clocked block. Its assignments are nonblocking, so the `case` reads the old registers and
-- what it assigns stands over what the reset assigns.
unfoldable pub clock : Inputs → Registers → Registers
clock i r =
    let r' = if i.reset then record r { state = false; count = 0; p = 0 } else r in
    let counted = record r' { count = (r.count + 1) % 2 ^ 7 } in
    if r.state
    then (if i.valid
        then (if r.count == 0x0
            then record counted { p = num1 i }
            else if r.count == 0x41
            then record counted { state = false; done = true }
            else record counted { p = round (num2 i) r.p })
        else record r' { state = false; count = 0 })
    else record r' { done = false; state = i.valid; count = 0 }

-- `{high, low}`, of two buses of 64 bits
abbrev pub concat : ℕ → ℕ → ℕ
concat high low = high * 2 ^ 64 + low

-- The output `c`, the remainder above the quotient.
unfoldable pub c : Inputs → Registers → ℕ
c i r =
    let high = r.p / 2 ^ 64 % 2 ^ 64 in
    let low = r.p % 2 ^ 64 in
    if i.w
    then (if i.s && is_set 31 i.a && (num2 i == 0)
        then concat (negate high) low
        else if i.s && is_set 31 i.a && not (is_set 31 i.b)
        then concat (negate high) (negate low)
        else if i.s && not (is_set 31 i.a) && is_set 31 i.b
        then concat high (negate low)
        else if i.s && is_set 31 i.a && is_set 31 i.b
        then concat (negate high) (sign_extend32 low)
        else concat (sign_extend32 high) (sign_extend32 low))
    else if i.s && is_set 63 i.a && (i.b == 0)
    then concat (negate high) low
    else if i.s && is_set 63 i.a && not (is_set 63 i.b)
    then concat (negate high) (negate low)
    else if i.s && not (is_set 63 i.a) && is_set 63 i.b
    then concat high (negate low)
    else if i.s && is_set 63 i.a && is_set 63 i.b
    then concat (negate high) low
    else r.p
