-- ===== src/Helpers/Walk.antt =====
-- The walk of `pte_helper` against the tables of Sv39 as a tree: which entry it stops at.
use riscv_single_cycle_cpu.Base.{ℕ, zero, suc, ◌+◌, ◌*◌, ◌/◌, ◌%◌, ◌^◌, ◌≤◌, ◌<◌, ◌≡◌, ◌⊎◌}
use riscv_single_cycle_cpu.Ram.{Ram, pmem_read}
use riscv_single_cycle_cpu.Helpers.{PteResult}

-- Sv39 by the manual of the privileged architecture, in the order of the walk: the page number has
-- three fields of 9 bits, the highest first, and a table 512 entries of 8 bytes. Of an entry, bit 0
-- is V, bit 1 R, bit 3 X, and bits 10 to 53 are the page number of the next table. A table is
-- 4096 bytes.
abbrev pub field_of : ℕ → ℕ → ℕ
field_of zero vpn = vpn / 2 ^ 18 % 512
field_of (suc zero) vpn = vpn / 2 ^ 9 % 512
field_of (suc (suc level)) vpn = vpn % 512

abbrev pub next_table : ℕ → ℕ
next_table e = e / 2 ^ 10 % 2 ^ 44 * 4096

abbrev pub HasBit : ℕ → ℕ → Type 0
HasBit k e = e / 2 ^ k % 2 ≡ 1

abbrev pub IsValid : ℕ → Type 0
IsValid e = HasBit 0 e

abbrev pub IsLeaf : ℕ → Type 0
IsLeaf e = HasBit 1 e ⊎ HasBit 3 e

-- The entry of a page number in a table of a level, and the tables that the entries point to,
-- from the page number of the root on.
abbrev pub entry_in : ℕ → ℕ → ℕ → Ram → ℕ
entry_in base level vpn ram = pmem_read (base + 8 * field_of level vpn) ram

unfoldable pub table : ℕ → ℕ → ℕ → Ram → ℕ
table zero root vpn ram = root * 4096
table (suc level) root vpn ram = next_table (entry_in (table level root vpn ram) level vpn ram)

abbrev pub entry : ℕ → ℕ → ℕ → Ram → ℕ
entry level root vpn ram = entry_in (table level root vpn ram) level vpn ram

-- The walk of a page number from level `from` on: every entry before the level it stops at is
-- valid and points on, and there it has found a leaf, or an entry that is not valid, or it has
-- used up the three levels.
pub record Walked (root vpn : ℕ) (ram : Ram) (from : ℕ) (r : PteResult) : Type 0 where
  pub forth : from ≤ r.level
  pub pointers :
      (k : ℕ)
      → from ≤ k
      → k < r.level
      → IsValid (entry k root vpn ram) × (¬ IsLeaf (entry k root vpn ram))
  pub stop :
      ((r.fault ≡ 0)
        × (r.level < 3)
        × (r.pte ≡ entry r.level root vpn ram)
        × IsValid r.pte
        × IsLeaf r.pte)
      ⊎ ((r.fault ≡ 1) × (r.level < 3) × (r.pte ≡ entry r.level root vpn ram) × (¬ IsValid r.pte))
      ⊎ ((r.fault ≡ 1) × (r.level ≡ 3))
