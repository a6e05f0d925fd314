-- ===== src/Ram.antt =====
-- The simulated memory of difftest/src/test/csrc/common/ram.cpp, by words of 64 bits: the DPI
-- helpers that the design calls, and `pmem_read` and `pmem_write` by address. `none` is the null
-- pointer before `init_ram`. A failed ASSERT of `ram_write_helper` is caught there.
pub mod Laws
use riscv_single_cycle_cpu.Base.{
  ℕ, ◌-◌, ◌*◌, ◌/◌, ◌%◌, ◌^◌, Bool, true, false, Option, none, some, ◌==◌, ltb, leb, ◌&&◌,
  if◌then◌else◌, merge, sub64,
}

-- `EMU_RAM_SIZE / sizeof(uint64_t)`
abbrev pub ram_words : ℕ
ram_words = 256 * 1024 * 1024 / 8

abbrev pub Ram : Type 0
Ram = Option (ℕ → ℕ)

-- An index past the end wraps.
unfoldable pub ram_read_helper : Bool → ℕ → Ram → ℕ
ram_read_helper en r_idx none = 0
ram_read_helper en r_idx (some words) =
    let idx = if en && leb ram_words r_idx then r_idx % ram_words else r_idx in
    if en then words idx else 0

unfoldable pub ram_write_helper : ℕ → ℕ → ℕ → Bool → Ram → Ram
ram_write_helper w_idx wdata wmask wen none = none
ram_write_helper w_idx wdata wmask wen (some words) =
    if wen && ltb w_idx ram_words
    then some (λ i. if i == w_idx then merge (words w_idx) wdata wmask else words i)
    else some words

unfoldable pub pmem_read : ℕ → Ram → ℕ
unfolding ram_read_helper
pmem_read raddr ram = ram_read_helper true (sub64 raddr 0x80000000 / 8) ram

unfoldable pub pmem_write : ℕ → ℕ → Ram → Ram
unfolding ram_write_helper
pmem_write waddr wdata ram =
    ram_write_helper (sub64 waddr 0x80000000 / 8) wdata (2 ^ 64 - 1) true ram
