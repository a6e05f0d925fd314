-- ===== src/Memory/Block.antt =====
-- `BlockMemory` of verilate/include/memory.h and verilate/vsrc/memory.cpp: a block of 64-bit
-- words at an offset. The name and the debug log are left out.
pub mod Laws
pub mod Image
use riscv_single_cycle_cpu.Base.{
  ℕ, zero, suc, ◌+◌, ◌-◌, ◌*◌, ◌/◌, ◌%◌, ◌^◌, Bool, true, false, Option, none, some, List, [], ◌∷◌,
  bit_and, bit_or, ◌==◌, ltb, leb, if◌then◌else◌, ◌>>=◌, ◌>>◌, asserts, add64, sub64, shl64, merge,
  length, get_elem?, set, take, drop, replicate,
}

pub record BlockMemory : Type 0 where
  pub size : ℕ
  pub offset : ℕ
  pub mem : List ℕ
  pub saved_mem : List ℕ

-- `BlockMemory(_size, _offset)`
unfoldable pub empty_block : ℕ → ℕ → Option BlockMemory
empty_block size offset = do
  asserts (size % 8 == 0)
  some record {
    size = size;
    offset = offset;
    mem = replicate (size / 8) 0;
    saved_mem = replicate (size / 8) 0;
  }

unfoldable pub reset : BlockMemory → BlockMemory
reset m = record m { mem = m.saved_mem }

-- `~(0xffu << shamt)`: `0xffu` has 32 bits, so a shift by 32 or more is undefined, and the mask
-- widens to 64 bits with zeros above bit 31.
unfoldable pub clear_mask : ℕ → Option ℕ
clear_mask shamt = if ltb shamt 32 then some (2 ^ 32 - 1 - 0xff * 2 ^ shamt % 2 ^ 32) else none

-- One round of the loop of `map`, at byte `pos` of the block.
unfoldable pub map_byte : ℕ → ℕ → List ℕ → Option (List ℕ)
unfolding clear_mask
map_byte pos byte words = do
  mask ← clear_mask (pos % 8 * 8)
  value ← get_elem? words (pos / 8)
  some (set words (pos / 8) (bit_or (bit_and value mask) (shl64 byte (pos % 8 * 8))))

unfoldable pub map_bytes : ℕ → List ℕ → List ℕ → Option (List ℕ)
map_bytes pos [] words = some words
map_bytes pos (byte ∷ bytes) words = map_byte pos byte words >>= map_bytes (add64 pos 1) bytes

unfoldable pub map_data : ℕ → List ℕ → BlockMemory → Option BlockMemory
map_data addr bytes m = do
  asserts (leb (add64 (sub64 addr m.offset) (length bytes)) m.size)
  words ← map_bytes (sub64 addr m.offset) bytes m.mem
  some (record m { mem = words })

-- `BlockMemory(_size, data, _offset)`
unfoldable pub block_of_data : ℕ → List ℕ → ℕ → Option BlockMemory
block_of_data size bytes offset = do
  m ← empty_block size offset
  m' ← map_data offset bytes m
  some (record m' { saved_mem = m'.mem })

unfoldable pub dump : ℕ → ℕ → BlockMemory → Option (List ℕ)
dump addr size m = do
  asserts (bit_and addr 0x7 == 0)
  asserts (bit_and size 0x7 == 0)
  asserts (leb (add64 (addr / 8) (size / 8)) (length m.mem))
  some (take (size / 8) (drop (addr / 8) m.mem))

unfoldable pub load : ℕ → BlockMemory → Option ℕ
load addr m = do
  asserts (ltb (sub64 addr m.offset) m.size)
  get_elem? m.mem (sub64 addr m.offset / 8)

unfoldable pub store : ℕ → ℕ → ℕ → BlockMemory → Option BlockMemory
store addr v mask m = do
  asserts (ltb (sub64 addr m.offset) m.size)
  value ← get_elem? m.mem (sub64 addr m.offset / 8)
  some (record m { mem = set m.mem (sub64 addr m.offset / 8) (merge value v mask) })
