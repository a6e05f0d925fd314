-- ===== src/Core/Signals.antt =====
-- The signals of the datapath in vsrc/src: a bus of 64 bits is a number below `2 ^ 64`, a
-- multi-bit slice a quotient and a remainder, `{n{x}}` a replicated sign.
use riscv_single_cycle_cpu.Base.{
  ℕ, zero, suc, ◌+◌, ◌-◌, ◌*◌, ◌/◌, ◌%◌, ◌^◌, ◌≡◌, refl, Bool, true, false, not, ◌==◌,
  if◌then◌else◌,
}

-- bit `i` of a bus, as a test
abbrev pub is_set : ℕ → ℕ → Bool
is_set i x = x / 2 ^ i % 2 == 1

-- `x ^ y`, of single bits
abbrev pub differ : Bool → Bool → Bool
differ true y = not y
differ false y = y

-- `~x + 64'h1`
abbrev pub negate : ℕ → ℕ
negate x = (2 ^ 64 - x) % 2 ^ 64

-- `{{32{x[31]}}, x[31:0]}`
abbrev pub sign_extend32 : ℕ → ℕ
sign_extend32 x = if is_set 31 x then (2 ^ 32 - 1) * 2 ^ 32 + x % 2 ^ 32 else x % 2 ^ 32

-- The inputs of the multiplier and of the divider.
pub record Inputs : Type 0 where
  pub reset : Bool
  pub valid : Bool
  pub a : ℕ  -- logic [63:0]
  pub b : ℕ  -- logic [63:0]
  pub s : Bool  -- signed
  pub w : Bool  -- a 32-bit operation

-- The registers of the multiplier and of the divider.
pub record Registers : Type 0 where
  pub state : Bool
  pub count : ℕ  -- logic [6:0]
  pub p : ℕ  -- logic [128:0] of the multiplier, logic [127:0] of the divider
  pub done : Bool

-- `n` clock edges with the inputs held
abbrev pub hold : (Inputs → Registers → Registers) → ℕ → Inputs → Registers → Registers
hold clock zero i r = r
hold clock (suc n) i r = hold clock n i (clock i r)

-- an operation requested with these operands
abbrev pub request : ℕ → ℕ → Bool → Bool → Inputs
request a b s w = record { reset = false; valid = true; a = a; b = b; s = s; w = w }

pub hold-suc :
    (clock : Inputs → Registers → Registers) (n : ℕ) (i : Inputs) (r : Registers)
    → hold clock (suc n) i r ≡ clock i (hold clock n i r)
hold-suc clock zero i r = refl
hold-suc clock (suc n) i r = hold-suc clock n i (clock i r)
