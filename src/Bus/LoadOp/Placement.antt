-- ===== src/Bus/LoadOp/Placement.antt =====
-- The strobe, the mask and the two shifts of `LoadOp`, verilate/include/bus.h, as lanes of the bus.
use riscv_single_cycle_cpu.Base.{
  ℕ, zero, suc, ◌==◌, if◌then◌else◌, ◌+◌, ◌-◌, ◌*◌, ◌/◌, ◌%◌, ◌^◌, ◌≤◌, ◌<◌, ◌≡◌, arith, merge,
}
use riscv_single_cycle_cpu.Base.Bits.{bit_and_mask, bit_and-four}
use riscv_single_cycle_cpu.Base.Fields.{merge-field}
use riscv_single_cycle_cpu.Bus.LoadOp.{LoadOp, Width, width1, width2, width4, width8}
use riscv_single_cycle_cpu.Bus.LoadOp.{parse, parse1, parse2, strobe, mask, place, apply}
use riscv_single_cycle_cpu.Bus.LoadOp.{size4_sht0, size4_sht32, size8_sht0}

-- the bytes of a width, and the bytes and the first byte of an operation's lane
abbrev pub bytes : Width → ℕ
bytes width1 = 1
bytes width2 = 2
bytes width4 = 4
bytes width8 = 8

-- An operation acts on the lane of `n` bytes from byte `r` of the bus word.
abbrev pub Lane : ℕ → ℕ → LoadOp → Type 0
Lane n r op =
    (strobe op ≡ (2 ^ n - 1) * 2 ^ r)
    × (mask op ≡ (2 ^ (8 * n) - 1) * 2 ^ (8 * r))
    × ((v : ℕ) → v < 2 ^ 64 → place op v ≡ v * 2 ^ (8 * r) % 2 ^ 64)
    × ((v : ℕ) → apply op v ≡ v / 2 ^ (8 * r))

lane1 : (r : ℕ) → r < 8 → Lane 1 r (parse1 r)
unfolding parse1 strobe mask place apply
lane1 zero h = omega arith
lane1 (suc zero) h = omega arith
lane1 (suc (suc zero)) h = omega arith
lane1 (suc (suc (suc zero))) h = omega arith
lane1 (suc (suc (suc (suc zero)))) h = omega arith
lane1 (suc (suc (suc (suc (suc zero))))) h = omega arith
lane1 (suc (suc (suc (suc (suc (suc zero)))))) h = omega arith
lane1 (suc (suc (suc (suc (suc (suc (suc zero))))))) h = omega arith
lane1 (suc (suc (suc (suc (suc (suc (suc (suc r)))))))) h = absurd (omega arith)

lane2 : (q : ℕ) → q < 4 → Lane 2 (2 * q) (parse2 (2 * q / 2 ^ 1))
unfolding parse2 strobe mask place apply
lane2 zero h = omega arith
lane2 (suc zero) h = omega arith
lane2 (suc (suc zero)) h = omega arith
lane2 (suc (suc (suc zero))) h = omega arith
lane2 (suc (suc (suc (suc r)))) h = absurd (omega arith)

lane4 : (q : ℕ) → q < 2 → Lane 4 (4 * q) (if q * 4 == 0 then size4_sht0 else size4_sht32)
unfolding strobe mask place apply
lane4 zero h = omega arith
lane4 (suc zero) h = omega arith
lane4 (suc (suc q)) h = absurd (omega arith)

lane8 : Lane 8 0 size8_sht0
unfolding strobe mask place apply
lane8 = omega arith

-- At an address aligned to the width, the operation that `parse` picks strobes just the bytes of
-- the access, its mask covers just their bits, and it shifts by the byte offset.
pub parse-Lane :
    (w : Width) (addr : ℕ) → addr % bytes w ≡ 0 → Lane (bytes w) (addr % 8) (parse w addr)
unfolding parse
parse-Lane width1 addr h = rw (bit_and_mask 3 addr) (lane1 (addr % 8) (omega arith))
parse-Lane width2 addr h =
    let even : addr % 8 ≡ 2 * (addr % 8 / 2) = omega arith in
    rw (bit_and_mask 3 addr) (rw even (lane2 (addr % 8 / 2) (omega arith)))
parse-Lane width4 addr h =
    let quad : addr % 8 ≡ 4 * (addr / 4 % 2) = omega arith in
    rw (bit_and-four addr, quad) (lane4 (addr / 4 % 2) (omega arith))
parse-Lane width8 addr h = rw h lane8

pub mask-lt : (op : LoadOp) → mask op < 2 ^ 64
unfolding mask
mask-lt size8_sht0 = omega arith
mask-lt _ = omega arith

pub lane_fits : (w : Width) (addr : ℕ) → addr % bytes w ≡ 0 → 8 * (addr % 8) + 8 * bytes w ≤ 64
lane_fits width1 addr h = omega arith
lane_fits width2 addr h = omega arith
lane_fits width4 addr h = omega arith
lane_fits width8 addr h = omega arith

-- At an address aligned to the width, a 64-bit value that the operation of `parse` places on the
-- bus and writes under its mask is, in the bits of the width, what the same operation reads back,
-- whatever the word held.
pub apply-merge-place :
    (w : Width) (addr v d : ℕ)
    → addr % bytes w ≡ 0
    → d < 2 ^ 64
    → let op = parse w addr in
      apply op (merge v (place op d) (mask op)) % 2 ^ (8 * bytes w) ≡ d % 2 ^ (8 * bytes w)
apply-merge-place w addr v d h small =
    rw (lane.3, lane.1, lane.2 d small)
      (merge-field (8 * (addr % 8)) (8 * bytes w) v d (lane_fits w addr h)
        (rw lane.1 at (mask-lt (parse w addr))))
  where
    lane : Lane (bytes w) (addr % 8) (parse w addr)
    lane = parse-Lane w addr h
