-- ===== src/Ram/Laws.antt =====
-- Reading back what `pmem_write` wrote to the simulated memory.
use riscv_single_cycle_cpu.Base.{
  ℕ, ◌+◌, ◌-◌, ◌*◌, ◌/◌, ◌^◌, ◌≤◌, ◌<◌, ◌≡◌, refl, arith, some, ◌==◌, if◌then◌else◌, sub64, lt→ltb,
}
use riscv_single_cycle_cpu.Base.Merge.{merge_full}
use riscv_single_cycle_cpu.Ram.{ram_read_helper, ram_write_helper, pmem_read, pmem_write}

-- An address of the simulated memory, and the word it lies in.
abbrev pub InRam : ℕ → Type 0
InRam addr = (0x80000000 ≤ addr) × (addr < 0x80000000 + 256 * 1024 * 1024)

abbrev pub word_of : ℕ → ℕ
word_of addr = (addr - 0x80000000) / 8

index-InRam : (addr : ℕ) → InRam addr → sub64 addr 0x80000000 / 8 ≡ word_of addr
index-InRam addr (lo, hi) = omega arith

pub pmem_read-some :
    (addr : ℕ) (words : ℕ → ℕ) → InRam addr → pmem_read addr (some words) ≡ words (word_of addr)
unfolding pmem_read ram_read_helper
pmem_read-some addr words (lo, hi) = rw (index-InRam addr (lo, hi)) (ground arith)

pub pmem_write-some :
    (addr v : ℕ) (words : ℕ → ℕ)
    → InRam addr
    → v < 2 ^ 64
    → pmem_write addr v (some words) ≡ some (λ i. if i == word_of addr then v else words i)
unfolding pmem_write ram_write_helper
pmem_write-some addr v words (lo, hi) small =
    let inside : word_of addr < 33554432 = omega arith in
    rw
      (
        index-InRam addr (lo, hi),
        lt→ltb (word_of addr) 33554432 inside,
        merge_full (words (word_of addr)) v small,
      )
      refl

-- A 64-bit word that is written at an address of the memory is read back at every address of that
-- word, and every other address of the memory reads as before.
pub pmem_read-pmem_write :
    (waddr raddr v : ℕ) (words : ℕ → ℕ)
    → InRam waddr
    → InRam raddr
    → v < 2 ^ 64
    → pmem_read raddr (pmem_write waddr v (some words))
      ≡ (if word_of raddr == word_of waddr then v else pmem_read raddr (some words))
pmem_read-pmem_write waddr raddr v words w r small =
    rw (pmem_write-some waddr v words w small, pmem_read-some raddr words r)
      (pmem_read-some raddr _ r)
