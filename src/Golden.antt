-- ===== src/Golden.antt =====
-- The golden memory of difftest/src/test/csrc/difftest/goldenmem.cpp and goldenmem.h: the bytes
-- of physical memory as every core should see them. A memory is the byte at each offset from
-- `PMEM_BASE`; `none` is a panic, a failed assertion, or an access past the end of the mapping.
pub mod Update
pub mod Atomic
use riscv_single_cycle_cpu.Base.{
  ℕ, zero, suc, ◌+◌, ◌-◌, ◌*◌, ◌/◌, ◌%◌, ◌^◌, Bool, true, false, Option, none, some, List, [], ◌∷◌,
  ◌==◌, ltb, leb, if◌then◌else◌, ◌&&◌, ◌||◌, ◌>>=◌, ◌>>◌, asserts, add64, shr, u64, get_elem?,
}

abbrev pub pmem_base : ℕ
pmem_base = 0x80000000

abbrev pub pmem_size : ℕ
pmem_size = 256 * 1024 * 1024

abbrev pub Pmem : Type 0
Pmem = ℕ → ℕ

unfoldable pub in_pmem : ℕ → Bool
in_pmem addr = leb pmem_base addr && leb addr (pmem_base + pmem_size - 1)

-- `n` bytes from an offset on, the lowest first.
unfoldable pub bytes_at : ℕ → ℕ → Pmem → ℕ
bytes_at zero off m = 0
bytes_at (suc n) off m = m off + 256 * bytes_at n (off + 1) m

unfoldable pub put_bytes : ℕ → ℕ → ℕ → Pmem → Pmem
put_bytes zero off v m = m
put_bytes (suc n) off v m = put_bytes n (off + 1) (v / 256) (λ j. if j == off then v % 256 else m j)

-- `switch (len)`: 1, 2, 4 or 8
abbrev pub is_length : ℕ → Bool
is_length len = len == 1 || len == 2 || len == 4 || len == 8

unfoldable pub pmem_read : ℕ → ℕ → Pmem → Option ℕ
pmem_read addr len m = do
  asserts (is_length len)
  asserts (leb (addr - pmem_base + len) pmem_size)
  some (bytes_at len (addr - pmem_base) m)

unfoldable pub pmem_write : ℕ → ℕ → ℕ → Pmem → Option Pmem
pmem_write addr v len m = do
  asserts (is_length len)
  asserts (leb (addr - pmem_base + len) pmem_size)
  some (put_bytes len (addr - pmem_base) v m)

unfoldable pub paddr_read : ℕ → ℕ → Pmem → Option ℕ
unfolding in_pmem pmem_read
paddr_read addr len m = asserts (in_pmem addr) >> pmem_read addr len m

unfoldable pub paddr_write : ℕ → ℕ → ℕ → Pmem → Option Pmem
unfolding in_pmem pmem_write
paddr_write addr v len m = asserts (in_pmem addr) >> pmem_write addr v len m

-- One round of the loop, at byte `i`.
unfoldable pub update_byte : ℕ → List ℕ → ℕ → ℕ → Pmem → Option Pmem
unfolding paddr_write
update_byte addr bytes mask i m =
    if shr mask i % 2 == 0
    then some m
    else (get_elem? bytes i >>= λ byte. paddr_write (add64 addr i) byte 1 m)

-- The loop with `n` rounds left, from byte `i` on.
unfoldable pub update_from : ℕ → ℕ → List ℕ → ℕ → ℕ → Pmem → Option Pmem
unfolding update_byte
update_from zero addr bytes mask i m = some m
update_from (suc n) addr bytes mask i m =
    update_byte addr bytes mask i m >>= update_from n addr bytes mask (i + 1)

unfoldable pub update_goldenmem : ℕ → List ℕ → ℕ → ℕ → Pmem → Option Pmem
unfolding update_from
update_goldenmem addr bytes mask len m = update_from len addr bytes mask 0 m

unfoldable pub read_goldenmem : ℕ → ℕ → Pmem → Option ℕ
unfolding paddr_read
read_goldenmem addr len m = paddr_read addr len m

-- A value as the bytes that a pointer to it shows.
abbrev pub le_bytes : ℕ → ℕ → List ℕ
le_bytes zero v = []
le_bytes (suc n) v = v % 256 ∷ le_bytes n (v / 256)
