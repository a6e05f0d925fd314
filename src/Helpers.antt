-- ===== src/Helpers.antt =====
-- The helpers that the design calls for address translation and atomics,
-- difftest/src/test/csrc/difftest/ref.cpp: the walk of the Sv39 page table and `amo_helper` with
-- the static variables of its reservation.
pub mod Walk
pub mod Atomics
use riscv_single_cycle_cpu.Base.{
  ℕ, zero, suc, ◌+◌, ◌-◌, ◌*◌, ◌/◌, ◌%◌, ◌^◌, Bool, true, false, ◌==◌, ltb, not, ◌&&◌, ◌||◌,
  if◌then◌else◌, add64, sub64, shl64, shr, bit_and, bit_or, bit_xor, u32,
}
use riscv_single_cycle_cpu.Ram.{Ram, pmem_read, pmem_write}

-- The fields of `PageTableEntry`.
abbrev pub pte_v : ℕ → Bool
pte_v e = e % 2 == 1

abbrev pub pte_r : ℕ → Bool
pte_r e = shr e 1 % 2 == 1

abbrev pub pte_x : ℕ → Bool
pte_x e = shr e 3 % 2 == 1

abbrev pub pte_ppn : ℕ → ℕ
pte_ppn e = shr e 10 % 2 ^ 44

-- `VPNi(vpn, i)`
abbrev pub vpn_i : ℕ → ℕ → ℕ
vpn_i vpn i = bit_and (shr vpn (18 - 9 * i)) 0x1ff

-- The result of the walk: 1 for a page fault, the last entry read, and the level.
pub record PteResult : Type 0 where
  pub fault : ℕ
  pub pte : ℕ
  pub level : ℕ

-- The loop with `n` levels left, at `level`, in the table at `pg_base`.
unfoldable pub walk_from : ℕ → ℕ → ℕ → ℕ → ℕ → Ram → PteResult
unfolding pmem_read
walk_from zero level vpn pg_base pte ram = record { fault = 1; pte = pte; level = level }
walk_from (suc n) level vpn pg_base pte ram =
    let e = pmem_read (add64 pg_base (vpn_i vpn level * 8)) ram in
    let rest = walk_from n (suc level) vpn (shl64 (pte_ppn e) 12) e ram in
    if not (pte_v e)
    then record { fault = 1; pte = e; level = level }
    else if pte_r e || pte_x e
    then record { fault = 0; pte = e; level = level }
    else rest

unfoldable pub pte_helper : ℕ → ℕ → ℕ → Ram → PteResult
unfolding walk_from
pte_helper satp vpn pte ram = walk_from 3 0 vpn (shl64 satp 12) pte ram

-- The enumeration of the commands.
abbrev pub m_xa_swap : ℕ
m_xa_swap = 4

abbrev pub m_xlr : ℕ
m_xlr = 6

abbrev pub m_xsc : ℕ
m_xsc = 7

abbrev pub m_xa_add : ℕ
m_xa_add = 8

abbrev pub m_xa_xor : ℕ
m_xa_xor = 9

abbrev pub m_xa_or : ℕ
m_xa_or = 10

abbrev pub m_xa_and : ℕ
m_xa_and = 11

abbrev pub m_xa_min : ℕ
m_xa_min = 12

abbrev pub m_xa_max : ℕ
m_xa_max = 13

abbrev pub m_xa_minu : ℕ
m_xa_minu = 14

abbrev pub m_xa_maxu : ℕ
m_xa_maxu = 15

-- `(intN_t)a > (intN_t)b` for a width of `w + 1` bits
abbrev pub signed_gt : ℕ → ℕ → ℕ → Bool
signed_gt w a b = ltb ((b + 2 ^ w) % (2 * 2 ^ w)) ((a + 2 ^ w) % (2 * 2 ^ w))

-- The memory and the static `lr_addr` and `lr_valid`.
pub record AmoState : Type 0 where
  pub ram : Ram
  pub lr_addr : ℕ
  pub lr_valid : Bool

-- `rop` and `wop`: the part of a word that a mask selects.
abbrev pub select : ℕ → ℕ → ℕ
select mask v = if mask == 0xff then v else if mask == 0xf then u32 v else shr v 32

-- The switch on `cmd`: the result. A command that it does not know leaves 0.
unfoldable pub amo_result : ℕ → ℕ → ℕ → ℕ → ℕ → ℕ
amo_result cmd mask rdata rop wop =
    let w = if mask == 0xff then 63 else 31 in
    if cmd == m_xa_swap
    then wop
    else if cmd == m_xlr
    then rdata
    else if cmd == m_xsc
    then wop
    else if cmd == m_xa_add
    then add64 wop rop
    else if cmd == m_xa_xor
    then bit_xor wop rop
    else if cmd == m_xa_or
    then bit_or wop rop
    else if cmd == m_xa_and
    then bit_and wop rop
    else if cmd == m_xa_min
    then (if signed_gt w wop rop then rop else wop)
    else if cmd == m_xa_max
    then (if signed_gt w wop rop then wop else rop)
    else if cmd == m_xa_minu
    then (if ltb rdata wop then rop else wop)
    else if cmd == m_xa_maxu
    then (if ltb rdata wop then wop else rop)
    else 0

-- The word that is written: the result in the half that the mask selects.
abbrev pub amo_word : ℕ → ℕ → ℕ → ℕ
amo_word mask rdata result =
    if mask == 0xf
    then bit_or (shl64 (shr rdata 32) 32) (bit_and result 0xffffffff)
    else if mask == 0xf0
    then bit_or (shl64 result 32) (u32 rdata)
    else result

unfoldable pub amo_helper : ℕ → ℕ → ℕ → ℕ → AmoState → ℕ × AmoState
unfolding amo_result pmem_read pmem_write
amo_helper cmd addr wdata mask s =
    let at = if addr % 8 == 4 && (mask == 0xf0) then sub64 addr 4 else addr in
    let rdata = pmem_read at s.ram in
    let failed = not (s.lr_valid && (s.lr_addr == at)) in
    let rop = if cmd == m_xsc then (if failed then 1 else 0) else select mask rdata in
    let result = amo_result cmd mask rdata rop (select mask wdata) in
    (
      if mask == 0xf0 then shl64 rop 32 else rop,
      record {
        ram = pmem_write at (amo_word mask rdata result) s.ram;
        lr_addr = if cmd == m_xlr then at else s.lr_addr;
        lr_valid = if cmd == m_xlr then true else if cmd == m_xsc then false else s.lr_valid;
      },
    )
