-- ===== src/Bus/LoadOp.antt =====
-- `LoadOp` of verilate/include/bus.h: how a value of 1, 2, 4 or 8 bytes is placed on the 64-bit
-- data bus. The template parameter `Width` is a type of the four widths that its
-- `static_assert` allows.
pub mod Placement
pub mod Store
use riscv_single_cycle_cpu.Base.{
  ℕ, zero, suc, ◌+◌, ◌*◌, ◌/◌, ◌%◌, ◌^◌, Bool, true, false, bit_and, ◌==◌, if◌then◌else◌, shl64,
  shr,
}
use riscv_single_cycle_cpu.Base.{List, set}

pub data LoadOp : Type 0 where
  discard : LoadOp
  size1_sht0 size1_sht8 size1_sht16 size1_sht24 : LoadOp
  size1_sht32 size1_sht40 size1_sht48 size1_sht56 : LoadOp
  size2_sht0 size2_sht16 size2_sht32 size2_sht48 : LoadOp
  size4_sht0 size4_sht32 : LoadOp
  size8_sht0 : LoadOp

pub data Width : Type 0 where
  width1 width2 width4 width8 : Width

-- `switch ((addr & 0x7) >> 1)`
parse2 : ℕ → LoadOp
parse2 sel =
    if sel == 0
    then size2_sht0
    else if sel == 1
    then size2_sht16
    else if sel == 2
    then size2_sht32
    else if sel == 3
    then size2_sht48
    else size2_sht0

-- `switch (addr & 0x7)`
parse1 : ℕ → LoadOp
parse1 sel =
    if sel == 0
    then size1_sht0
    else if sel == 1
    then size1_sht8
    else if sel == 2
    then size1_sht16
    else if sel == 3
    then size1_sht24
    else if sel == 4
    then size1_sht32
    else if sel == 5
    then size1_sht40
    else if sel == 6
    then size1_sht48
    else if sel == 7
    then size1_sht56
    else size1_sht0

unfoldable pub parse : Width → ℕ → LoadOp
unfolding parse1 parse2
parse width8 addr = size8_sht0
parse width4 addr = if bit_and addr 0x4 == 0 then size4_sht0 else size4_sht32
parse width2 addr = parse2 (shr (bit_and addr 0x7) 1)
parse width1 addr = parse1 (bit_and addr 0x7)

unfoldable pub strobe : LoadOp → ℕ
strobe size8_sht0 = 0b11111111
strobe size4_sht32 = 0b11110000
strobe size4_sht0 = 0b00001111
strobe size2_sht48 = 0b11000000
strobe size2_sht32 = 0b00110000
strobe size2_sht16 = 0b00001100
strobe size2_sht0 = 0b00000011
strobe size1_sht56 = 0b10000000
strobe size1_sht48 = 0b01000000
strobe size1_sht40 = 0b00100000
strobe size1_sht32 = 0b00010000
strobe size1_sht24 = 0b00001000
strobe size1_sht16 = 0b00000100
strobe size1_sht8 = 0b00000010
strobe size1_sht0 = 0b00000001
strobe discard = 0b0000

unfoldable pub mask : LoadOp → ℕ
mask size8_sht0 = 0xffffffffffffffff
mask size4_sht32 = 0xffffffff00000000
mask size4_sht0 = 0x00000000ffffffff
mask size2_sht48 = 0xffff000000000000
mask size2_sht32 = 0x0000ffff00000000
mask size2_sht16 = 0x00000000ffff0000
mask size2_sht0 = 0x000000000000ffff
mask size1_sht56 = 0xff00000000000000
mask size1_sht48 = 0x00ff000000000000
mask size1_sht40 = 0x0000ff0000000000
mask size1_sht32 = 0x000000ff00000000
mask size1_sht24 = 0x00000000ff000000
mask size1_sht16 = 0x0000000000ff0000
mask size1_sht8 = 0x000000000000ff00
mask size1_sht0 = 0x00000000000000ff
mask discard = 0x00000000

-- The reverse transformation: a value onto the bus.
unfoldable pub place : LoadOp → ℕ → ℕ
place size8_sht0 v = v
place size4_sht0 v = v
place size2_sht0 v = v
place size1_sht0 v = v
place discard v = v
place size1_sht56 v = shl64 v 56
place size2_sht48 v = shl64 v 48
place size1_sht48 v = shl64 v 48
place size1_sht40 v = shl64 v 40
place size4_sht32 v = shl64 v 32
place size2_sht32 v = shl64 v 32
place size1_sht32 v = shl64 v 32
place size1_sht24 v = shl64 v 24
place size2_sht16 v = shl64 v 16
place size1_sht16 v = shl64 v 16
place size1_sht8 v = shl64 v 8

-- A word from the bus, shifted down.
unfoldable pub apply : LoadOp → ℕ → ℕ
apply size8_sht0 v = v
apply size4_sht0 v = v
apply size2_sht0 v = v
apply size1_sht0 v = v
apply size1_sht56 v = shr v 56
apply size2_sht48 v = shr v 48
apply size1_sht48 v = shr v 48
apply size1_sht40 v = shr v 40
apply size4_sht32 v = shr v 32
apply size2_sht32 v = shr v 32
apply size1_sht32 v = shr v 32
apply size1_sht24 v = shr v 24
apply size2_sht16 v = shr v 16
apply size1_sht16 v = shr v 16
apply size1_sht8 v = shr v 8
apply discard v = 0

-- `*static_cast<uintN_t *>(dest) = data` for `n` bytes, of which `i` are done. The host is
-- little-endian.
write_bytes : ℕ → ℕ → ℕ → List ℕ → List ℕ
write_bytes zero i v dest = dest
write_bytes (suc n) i v dest = write_bytes n (i + 1) (v / 256) (set dest i (v % 256))

-- The cases of `apply(data, dest)` fall through, from the widest write to the narrowest.
write1 : ℕ → List ℕ → List ℕ
write1 v dest = write_bytes 1 0 v dest

write2 : ℕ → List ℕ → List ℕ
write2 v dest = write1 v (write_bytes 2 0 v dest)

write4 : ℕ → List ℕ → List ℕ
write4 v dest = write2 v (write_bytes 4 0 v dest)

write8 : ℕ → List ℕ → List ℕ
write8 v dest = write4 v (write_bytes 8 0 v dest)

-- `dest` is the memory at the destination, byte by byte.
unfoldable pub apply_to : LoadOp → ℕ → List ℕ → List ℕ
unfolding apply write1 write2 write4 write8 write_bytes
apply_to size8_sht0 v dest = write8 (apply size8_sht0 v) dest
apply_to size4_sht32 v dest = write4 (apply size4_sht32 v) dest
apply_to size4_sht0 v dest = write4 (apply size4_sht0 v) dest
apply_to size2_sht48 v dest = write2 (apply size2_sht48 v) dest
apply_to size2_sht32 v dest = write2 (apply size2_sht32 v) dest
apply_to size2_sht16 v dest = write2 (apply size2_sht16 v) dest
apply_to size2_sht0 v dest = write2 (apply size2_sht0 v) dest
apply_to size1_sht56 v dest = write1 (apply size1_sht56 v) dest
apply_to size1_sht48 v dest = write1 (apply size1_sht48 v) dest
apply_to size1_sht40 v dest = write1 (apply size1_sht40 v) dest
apply_to size1_sht32 v dest = write1 (apply size1_sht32 v) dest
apply_to size1_sht24 v dest = write1 (apply size1_sht24 v) dest
apply_to size1_sht16 v dest = write1 (apply size1_sht16 v) dest
apply_to size1_sht8 v dest = write1 (apply size1_sht8 v) dest
apply_to size1_sht0 v dest = write1 (apply size1_sht0 v) dest
apply_to discard v dest = dest
