-- ===== src/Core/Lanes/Access.antt =====
-- Loads and stores of the core against the bus operations of the test bench.
use native.Mathlib.Nat.{
  mod-lt, mod-le, mod-mod, mod-eq_of_lt, one-le-pow, pow-le-pow_right, mul-lt-mul_of_pos_right,
}
use riscv_single_cycle_cpu.Base.{
  ℕ, ◌+◌, ◌*◌, ◌%◌, ◌^◌, ◌<◌, ◌≡◌, refl, ap, ◌∙◌, ◌≤◌, arith, Bool, true, some, merge,
}
use riscv_single_cycle_cpu.Bus.LoadOp.{
  LoadOp, Width, width1, width2, width4, width8, parse, strobe, place, apply, mask,
}
use riscv_single_cycle_cpu.Bus.LoadOp.Placement.{
  bytes, parse-Lane, lane_fits, apply-merge-place, mask-lt,
}
use riscv_single_cycle_cpu.Base.Merge.{merge-lt}
use riscv_single_cycle_cpu.Device.{write_mask}
use riscv_single_cycle_cpu.Device.Strobe.{write_mask-strobe}
use riscv_single_cycle_cpu.Core.Lanes.Aligned.{msize, extended, rd-lane, wd-lane}
use riscv_single_cycle_cpu.Core.Powers.{pow-add}
use riscv_single_cycle_cpu.Core.Lanes.{rd, wd}

shifted-lt : (k m y : ℕ) → k + m ≤ 64 → y < 2 ^ m → y * 2 ^ k < 2 ^ 64
shifted-lt k m y h small =
    let scaled : y * 2 ^ k < 2 ^ m * 2 ^ k =
      mul-lt-mul_of_pos_right small (one-le-pow k 2 (omega arith)) in
    let bound : 2 ^ (m + k) ≤ 2 ^ 64 = pow-le-pow_right (omega arith) {j = 64} (omega arith) in
    omega (arith, bound, scaled, pow-add 2 m k)

-- A store's strobe is that of the test bench's operation, and so is its word, of the bits stored.
pub wd-parse :
    (w : Width) (addr x : ℕ)
    → addr % bytes w ≡ 0
    → x < 2 ^ 64
    → wd true (addr % 8) (msize w) x
      ≡ record { wd = place (parse w addr) (x % 2 ^ (8 * bytes w)); strobe = strobe (parse w addr) }
wd-parse w addr x h k =
    let lane = parse-Lane w addr h in
    let small = mod-lt x (one-le-pow (8 * bytes w) 2 (omega arith)) in
    let fits = shifted-lt (8 * (addr % 8)) (8 * bytes w) _ (lane_fits w addr h) small in
    let low : x % 2 ^ (8 * bytes w) < 2 ^ 64 = omega (arith, mod-le x (2 ^ (8 * bytes w))) in
    wd-lane w addr x h k ∙ rw (lane.0, lane.2 (x % 2 ^ (8 * bytes w)) low, mod-eq_of_lt fits) refl

extended_of :
    (w : Width) (u : Bool) (x y : ℕ)
    → x % 2 ^ (8 * bytes w) ≡ y % 2 ^ (8 * bytes w)
    → extended u (8 * bytes w) x ≡ extended u (8 * bytes w) y
extended_of width1 u x y e = ground arith
extended_of width2 u x y e = ground arith
extended_of width4 u x y e = ground arith
extended_of width8 u x y e = ground arith

-- A load at an aligned address returns what the test bench's operation of that width applies to
-- the bus word, sign- or zero-extended; and after a store at that address, of the same width, has
-- been merged into a word under the mask that the bus device makes of the strobe, it returns the
-- stored value, extended from its width.
pub rd-wd :
    (w : Width) (addr v x : ℕ) (mem_unsigned : Bool)
    → addr % bytes w ≡ 0
    → v < 2 ^ 64
    → x < 2 ^ 64
    → let load = λ (word : ℕ). rd (addr % 8) (msize w) mem_unsigned word in
      let stored = wd true (addr % 8) (msize w) x in
      (load v ≡ some (extended mem_unsigned (8 * bytes w) (apply (parse w addr) v)))
      × (load (merge v stored.wd (write_mask stored.strobe))
          ≡ some (extended mem_unsigned (8 * bytes w) x))
rd-wd w addr v x u h hv hx = (
  loaded v hv,
  rw (wd-parse w addr x h hx, write_mask-strobe op)
      (loaded _ (merge-lt v (place op low) (mask op) (mask-lt op))
        ∙ ap some (
            extended_of w u _ x
              (apply-merge-place w addr v low h low_lt ∙ mod-mod x (2 ^ (8 * bytes w))))),
)
  where
    op : LoadOp
    op = parse w addr

    low : ℕ
    low = x % 2 ^ (8 * bytes w)

    low_lt : x % 2 ^ (8 * bytes w) < 2 ^ 64
    low_lt = omega (arith, mod-le x (2 ^ (8 * bytes w)))

    loaded :
        (y : ℕ)
        → y < 2 ^ 64
        → rd (addr % 8) (msize w) u y ≡ some (extended u (8 * bytes w) (apply (parse w addr) y))
    loaded y hy = rd-lane w addr y u h hy ∙ rw (parse-Lane w addr h).3 refl
