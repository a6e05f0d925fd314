-- ===== src/Core/Lanes.antt =====
-- The byte lanes of the data bus in the core: vsrc/src/rd.sv and vsrc/src/wd.sv.
pub mod Aligned
pub mod Access
use riscv_single_cycle_cpu.Base.{
  ℕ, ◌+◌, ◌-◌, ◌*◌, ◌/◌, ◌%◌, ◌^◌, Bool, false, ◌==◌, if◌then◌else◌, Option, some, none,
}
use riscv_single_cycle_cpu.Core.Signals.{is_set}

-- `x[top -: width]`
abbrev pub slice : ℕ → ℕ → ℕ → ℕ
slice top width x = x / 2 ^ (top + 1 - width) % 2 ^ width

-- `{{(64 - width){sign_bit}}, x}`
abbrev pub extend : ℕ → Bool → ℕ → ℕ
extend width sign_bit x = if sign_bit then (2 ^ (64 - width) - 1) * 2 ^ width + x else x

-- `unique case`: the value of the arm, of the first that matches
read : Bool → ℕ → ℕ → ℕ → Option ℕ
read mem_unsigned width top x =
    let sign_bit = if mem_unsigned then false else is_set top x in
    some (extend width sign_bit (slice top width x))

-- What a load returns of the bus word; `'x` is `none`.
unfoldable pub rd : ℕ → ℕ → Bool → ℕ → Option ℕ
unfolding read
rd addr msize mem_unsigned x =
    if msize == 0b000
    then (if addr == 0b000
        then read mem_unsigned 8 7 x
        else if addr == 0b001
        then read mem_unsigned 8 15 x
        else if addr == 0b010
        then read mem_unsigned 8 23 x
        else if addr == 0b011
        then read mem_unsigned 8 31 x
        else if addr == 0b100
        then read mem_unsigned 8 39 x
        else if addr == 0b101
        then read mem_unsigned 8 47 x
        else if addr == 0b110
        then read mem_unsigned 8 55 x
        else read mem_unsigned 8 63 x)
    else if msize == 0b001
    then (if addr / 2 == 0b00
        then read mem_unsigned 16 15 x
        else if addr / 2 == 0b01
        then read mem_unsigned 16 31 x
        else if addr / 2 == 0b10
        then read mem_unsigned 16 47 x
        else read mem_unsigned 16 63 x)
    else if msize == 0b010
    then (if addr / 4 == 0b0 then read mem_unsigned 32 31 x else read mem_unsigned 32 63 x)
    else if msize == 0b011
    then some x
    else none

pub record Write : Type 0 where
  pub wd : ℕ
  pub strobe : ℕ

-- `wd[top -: width] = _wd[width - 1:0]` of the cleared bus, with a strobe
write : ℕ → ℕ → ℕ → ℕ → Write
write width top strobe x = record { wd = x % 2 ^ width * 2 ^ (top + 1 - width); strobe = strobe }

-- What a store puts on the bus, and its strobe.
unfoldable pub wd : Bool → ℕ → ℕ → ℕ → Write
unfolding write
wd wmem addr msize x =
    let idle : Write = record { wd = 0; strobe = 0 } in
    if wmem
    then (if msize == 0b000
        then (if addr == 0b000
            then write 8 7 0x01 x
            else if addr == 0b001
            then write 8 15 0x02 x
            else if addr == 0b010
            then write 8 23 0x04 x
            else if addr == 0b011
            then write 8 31 0x08 x
            else if addr == 0b100
            then write 8 39 0x10 x
            else if addr == 0b101
            then write 8 47 0x20 x
            else if addr == 0b110
            then write 8 55 0x40 x
            else write 8 63 0x80 x)
        else if msize == 0b001
        then (if addr / 2 == 0b00
            then write 16 15 0x03 x
            else if addr / 2 == 0b01
            then write 16 31 0x0c x
            else if addr / 2 == 0b10
            then write 16 47 0x30 x
            else write 16 63 0xc0 x)
        else if msize == 0b010
        then (if addr / 4 == 0b0 then write 32 31 0x0f x else write 32 63 0xf0 x)
        else if msize == 0b011
        then record { wd = x; strobe = 0xff }
        else idle)
    else idle
