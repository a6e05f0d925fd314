-- ===== src/Soc/Layout.antt =====
-- Which device an address of the system reaches.
use riscv_single_cycle_cpu.Base.{
  ℕ, ◌/◌, ◌%◌, ◌^◌, ◌≡◌, refl, arith, true, bit_and, ◌==◌, if◌then◌else◌, sub64, Bool-cases, inl,
  inr,
}
use riscv_single_cycle_cpu.Base.Bits.{bit_and-zero}
use riscv_single_cycle_cpu.Base.Fields.{bit_and_field}
use riscv_single_cycle_cpu.Memory.{IMemory, search, router_load, router_store}
use riscv_single_cycle_cpu.Soc.{Soc, mem_object, con_object, router}

-- the object and the address in it that the router should choose
abbrev pub target : ℕ → IMemory Soc × ℕ
target addr =
    if addr / 2 ^ 20 % 2 ^ 12 == 0x1fc
    then (mem_object, sub64 addr 0x1fc00000)
    else if addr / 2 ^ 16 % 2 ^ 16 == 0x1faf
    then (con_object, addr)
    else (mem_object, addr)

boot_test : (addr : ℕ) → (bit_and addr 0xfff00000 == 0x1fc00000) ≡ (addr / 2 ^ 20 % 2 ^ 12 == 0x1fc)
boot_test addr = ground (arith, bit_and_field 20 12 addr)

register_test :
    (addr : ℕ) → (bit_and addr 0xffff0000 == 0x1faf0000) ≡ (addr / 2 ^ 16 % 2 ^ 16 == 0x1faf)
register_test addr = ground (arith, bit_and_field 16 16 addr)

rest_test : (addr : ℕ) → (bit_and addr 0x00000000 == 0x00000000) ≡ true
rest_test addr = ground (arith, bit_and-zero addr)

-- Every address reaches a device, by its bits 31 to 20 or 31 to 16: the boot memory at
-- 0x1fc00000, moved down to the start of the block, the registers at 0x1faf0000, and the block of
-- memory itself everywhere else.
pub router_lem :
    (addr v mask : ℕ) (s : Soc)
    → let (device, paddr) = target addr in
      (router.load addr s ≡ device.load paddr s)
      × (router.store addr v mask s ≡ device.store paddr v mask s)
unfolding router_load router_store search
router_lem addr v mask s = elim (Bool-cases (addr / 2 ^ 20 % 2 ^ 12 == 0x1fc)) [
  | inl boot ↦ rw (boot_test addr, boot) (refl, refl)
  | inr other ↦ elim (Bool-cases (addr / 2 ^ 16 % 2 ^ 16 == 0x1faf)) [
    | inl reg ↦ rw (boot_test addr, other, register_test addr, reg) (refl, refl)
    | inr ram ↦ rw (boot_test addr, other, register_test addr, ram, rest_test addr) (refl, refl)
  ]
]
