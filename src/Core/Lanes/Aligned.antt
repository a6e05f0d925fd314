-- ===== src/Core/Lanes/Aligned.antt =====
-- The lane that rd.sv and wd.sv of vsrc/src pick for an aligned access.
use riscv_single_cycle_cpu.Base.{
  ℕ, zero, suc, ◌-◌, ◌*◌, ◌/◌, ◌%◌, ◌^◌, ◌<◌, ◌≡◌, refl, ap, arith, Bool, true, false,
  if◌then◌else◌, some,
}
use riscv_single_cycle_cpu.Bus.LoadOp.{Width, width1, width2, width4, width8}
use riscv_single_cycle_cpu.Bus.LoadOp.Placement.{bytes}
use riscv_single_cycle_cpu.Core.Signals.{is_set}
use riscv_single_cycle_cpu.Core.Lanes.{extend, rd, wd}

-- the `MSIZE` of a width
abbrev pub msize : Width → ℕ
msize width1 = 0b000
msize width2 = 0b001
msize width4 = 0b010
msize width8 = 0b011

-- A value of some bits, sign- or zero-extended to 64.
abbrev pub extended : Bool → ℕ → ℕ → ℕ
extended mem_unsigned width x =
    extend width (if mem_unsigned then false else is_set (width - 1) x) (x % 2 ^ width)

rd1 : (q x : ℕ) (u : Bool) → q < 8 → rd q 0b000 u x ≡ some (extended u 8 (x / 2 ^ (8 * q)))
unfolding rd
rd1 zero x u h = ground arith
rd1 (suc zero) x u h = ground arith
rd1 (suc (suc zero)) x u h = ground arith
rd1 (suc (suc (suc zero))) x u h = ground arith
rd1 (suc (suc (suc (suc zero)))) x u h = ground arith
rd1 (suc (suc (suc (suc (suc zero))))) x u h = ground arith
rd1 (suc (suc (suc (suc (suc (suc zero)))))) x u h = ground arith
rd1 (suc (suc (suc (suc (suc (suc (suc zero))))))) x u h = ground arith
rd1 (suc (suc (suc (suc (suc (suc (suc (suc q)))))))) x u h = absurd (omega arith)

wd1 :
    (q x : ℕ)
    → q < 8
    → wd true q 0b000 x ≡ record { wd = x % 2 ^ 8 * 2 ^ (8 * q); strobe = (2 ^ 1 - 1) * 2 ^ q }
unfolding wd
wd1 zero x h = refl
wd1 (suc zero) x h = refl
wd1 (suc (suc zero)) x h = refl
wd1 (suc (suc (suc zero))) x h = refl
wd1 (suc (suc (suc (suc zero)))) x h = refl
wd1 (suc (suc (suc (suc (suc zero))))) x h = refl
wd1 (suc (suc (suc (suc (suc (suc zero)))))) x h = refl
wd1 (suc (suc (suc (suc (suc (suc (suc zero))))))) x h = refl
wd1 (suc (suc (suc (suc (suc (suc (suc (suc q)))))))) x h = absurd (omega arith)

rd2 :
    (q x : ℕ) (u : Bool)
    → q < 4
    → rd (2 * q) 0b001 u x ≡ some (extended u 16 (x / 2 ^ (8 * (2 * q))))
unfolding rd
rd2 zero x u h = ground arith
rd2 (suc zero) x u h = ground arith
rd2 (suc (suc zero)) x u h = ground arith
rd2 (suc (suc (suc zero))) x u h = ground arith
rd2 (suc (suc (suc (suc q)))) x u h = absurd (omega arith)

wd2 :
    (q x : ℕ)
    → q < 4
    → wd true (2 * q) 0b001 x
      ≡ record { wd = x % 2 ^ 16 * 2 ^ (8 * (2 * q)); strobe = (2 ^ 2 - 1) * 2 ^ (2 * q) }
unfolding wd
wd2 zero x h = refl
wd2 (suc zero) x h = refl
wd2 (suc (suc zero)) x h = refl
wd2 (suc (suc (suc zero))) x h = refl
wd2 (suc (suc (suc (suc q)))) x h = absurd (omega arith)

rd4 :
    (q x : ℕ) (u : Bool)
    → q < 2
    → rd (4 * q) 0b010 u x ≡ some (extended u 32 (x / 2 ^ (8 * (4 * q))))
unfolding rd
rd4 zero x u h = ground arith
rd4 (suc zero) x u h = ground arith
rd4 (suc (suc q)) x u h = absurd (omega arith)

wd4 :
    (q x : ℕ)
    → q < 2
    → wd true (4 * q) 0b010 x
      ≡ record { wd = x % 2 ^ 32 * 2 ^ (8 * (4 * q)); strobe = (2 ^ 4 - 1) * 2 ^ (4 * q) }
unfolding wd
wd4 zero x h = refl
wd4 (suc zero) x h = refl
wd4 (suc (suc q)) x h = absurd (omega arith)

rd8 : (x : ℕ) (u : Bool) → x < 2 ^ 64 → rd 0 0b011 u x ≡ some (extended u 64 (x / 2 ^ (8 * 0)))
unfolding rd
rd8 x u h = ground arith

wd8 :
    (x : ℕ)
    → x < 2 ^ 64
    → wd true 0 0b011 x ≡ record { wd = x % 2 ^ 64 * 2 ^ (8 * 0); strobe = (2 ^ 8 - 1) * 2 ^ 0 }
unfolding wd
wd8 x h = ap (λ (t : ℕ). record { wd = t; strobe = 0xff }) (omega arith)

-- The lane of an aligned access: a load reads it, a store writes just it.
pub rd-lane :
    (w : Width) (addr x : ℕ) (u : Bool)
    → addr % bytes w ≡ 0
    → x < 2 ^ 64
    → rd (addr % 8) (msize w) u x ≡ some (extended u (8 * bytes w) (x / 2 ^ (8 * (addr % 8))))
rd-lane width1 addr x u h k = rd1 (addr % 8) x u (omega arith)
rd-lane width2 addr x u h k =
    let even : addr % 8 ≡ 2 * (addr % 8 / 2) = omega arith in
    rw even (rd2 (addr % 8 / 2) x u (omega arith))
rd-lane width4 addr x u h k =
    let quad : addr % 8 ≡ 4 * (addr % 8 / 4) = omega arith in
    rw quad (rd4 (addr % 8 / 4) x u (omega arith))
rd-lane width8 addr x u h k = rw h (rd8 x u k)

pub wd-lane :
    (w : Width) (addr x : ℕ)
    → addr % bytes w ≡ 0
    → x < 2 ^ 64
    → wd true (addr % 8) (msize w) x ≡ record {
      wd = x % 2 ^ (8 * bytes w) * 2 ^ (8 * (addr % 8));
      strobe = (2 ^ bytes w - 1) * 2 ^ (addr % 8);
    }
wd-lane width1 addr x h k = wd1 (addr % 8) x (omega arith)
wd-lane width2 addr x h k =
    let even : addr % 8 ≡ 2 * (addr % 8 / 2) = omega arith in
    rw even (wd2 (addr % 8 / 2) x (omega arith))
wd-lane width4 addr x h k =
    let quad : addr % 8 ≡ 4 * (addr % 8 / 4) = omega arith in
    rw quad (wd4 (addr % 8 / 4) x (omega arith))
wd-lane width8 addr x h k = rw h (wd8 x k)
