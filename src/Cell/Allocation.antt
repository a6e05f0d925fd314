-- ===== src/Cell/Allocation.antt =====
-- `MemoryCellFactory::allocate` of verilate/include/cell.h, called again and again.
use native.Mathlib.Nat.{add-zero, add_assoc}
use riscv_single_cycle_cpu.Base.{
  ℕ, ◌+◌, ◌%◌, ◌^◌, ◌<◌, ◌≡◌, refl, arith, true, Option, none, some, List, [], ◌∷◌, ◌>>=◌,
  Bool-cases, ◌⊎◌, inl, inr, ◌==◌, ==_iff,
}
use riscv_single_cycle_cpu.Bus.LoadOp.{Width}
use riscv_single_cycle_cpu.Bus.LoadOp.Placement.{bytes}
use riscv_single_cycle_cpu.Cell.{Cell, allocate, take_cell, make_cell, init_cell}

-- One `allocate` for each width, from `offset` on; `none` if one of them fails its assertion.
abbrev pub allocate_all : List Width → ℕ → Option (List Cell × ℕ)
allocate_all [] offset = some ([], offset)
allocate_all (w ∷ ws) offset =
    let r = allocate w offset in
    r.0 >>= λ c. allocate_all ws r.1 >>= λ rest. some (c ∷ rest.0, rest.1)

abbrev pub total : List Width → ℕ
total [] = 0
total (w ∷ ws) = bytes w + total ws

-- Cells one after the other from `offset` on, each aligned and attached.
abbrev pub Packed : ℕ → List Width → List Cell → Type 0
Packed offset [] [] = Unit
Packed offset [] (c ∷ cs) = ⊥
Packed offset (w ∷ ws) [] = ⊥
Packed offset (w ∷ ws) (c ∷ cs) =
    (c.width ≡ w)
    × (c.addr ≡ offset)
    × (c.addr % bytes w ≡ 0)
    × (c.attached ≡ true)
    × Packed (offset + bytes w) ws cs

-- Every allocation finds its offset aligned.
abbrev pub IsAligned : ℕ → List Width → Type 0
IsAligned offset [] = Unit
IsAligned offset (w ∷ ws) = (offset % bytes w ≡ 0) × IsAligned (offset + bytes w) ws

allocate_all-cons :
    (w : Width) (ws : List Width) (offset : ℕ)
    → (offset % bytes w == 0) ≡ true
    → offset + bytes w < 2 ^ 64
    → allocate_all (w ∷ ws) offset
      ≡ (allocate_all ws (offset + bytes w) >>= λ rest. some (init_cell w offset ∷ rest.0, rest.1))
unfolding allocate take_cell make_cell
allocate_all-cons w ws offset on fits =
    let next : (offset + bytes w) % 2 ^ 64 ≡ offset + bytes w = omega arith in rw (on, next)

-- As long as the offset does not overflow: if each allocation finds the offset aligned to its
-- width, all succeed, the cells lie one after the other with no gap, and the offset moves past
-- them; if one does not, the program aborts.
pub allocate_all_lem :
    (ws : List Width) (offset : ℕ)
    → offset + total ws < 2 ^ 64
    → ((cs : List Cell) × IsAligned offset ws
        × Packed offset ws cs
        × (allocate_all ws offset ≡ some (cs, offset + total ws)))
      ⊎ (¬ IsAligned offset ws × (allocate_all ws offset ≡ none))
unfolding allocate take_cell make_cell
allocate_all_lem [] offset fits = inl ([], tt, tt, rw (add-zero offset))
allocate_all_lem (w ∷ ws) offset fits = elim (Bool-cases (offset % bytes w == 0)) [
  | inr off ↦ inr ((λ all. ground (arith, all.0)), rw off)
  | inl on ↦
      let aligned : offset % bytes w ≡ 0 = (==_iff _ _).0 on in
      rw (allocate_all-cons w ws offset on (omega arith))
        (elim (allocate_all_lem ws (offset + bytes w) (omega arith)) [
          | inl (cs, all, packed, e) ↦ inl (
            init_cell w offset ∷ cs,
            (aligned, all),
            (refl, refl, aligned, refl, packed),
            rw (e, add_assoc offset (bytes w) (total ws)),
          )
          | inr (some_bad, e) ↦ inr ((λ all. some_bad all.1), rw e)
        ])
]
