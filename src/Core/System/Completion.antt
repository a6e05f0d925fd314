-- ===== src/Core/System/Completion.antt =====
-- An instruction of the M extension in the core: from its fetch to the edge that writes the register.
use mathlib.Core.Path.{subst}
use riscv_single_cycle_cpu.Base.{
  ℕ, zero, suc, ◌≤◌, ◌<◌, ◌≡◌, refl, sym, ap, ◌∙◌, arith, Bool, true, false, ◌||◌, add64,
}
use riscv_single_cycle_cpu.Core.Signals.{Inputs, Registers, request, hold, hold-suc}
use riscv_single_cycle_cpu.Core.Mul
use riscv_single_cycle_cpu.Core.Div
use riscv_single_cycle_cpu.Core.Datapath.{read_reg, write_reg}
use riscv_single_cycle_cpu.Core.System.{
  System, pins, mul_inputs, div_inputs, clock, quiet, fetched, edges,
}
use riscv_single_cycle_cpu.Core.System.Steps.{Stays, Completes, core-Completes}
use riscv_single_cycle_cpu.Core.System.Waiting.{
  this, other, unit_clock, IsIdle, Holds, Asks, asked, units, stays,
}

-- After `n + 1` edges: the core is where it was when the instruction came, the unit has taken as
-- many steps with its operands, and the other one is idle.
pub record Waits (is_mul sg w : Bool) (rs1 rs2 word n : ℕ) (s s' : System) : Type 0 where
  pub core_is : Stays word s.core s'.core
  pub unit_is :
      this is_mul s' ≡ hold (unit_clock is_mul) (suc n) (asked sg w rs1 rs2 s.core) (this is_mul s)
  pub other_is : IsIdle (other is_mul s')

or_true : (x : Bool) → (x || true) ≡ true
or_true true = refl
or_true false = refl

any_done :
    (is_mul : Bool) (s : System) → (this is_mul s).done ≡ true → (s.mul.done || s.div.done) ≡ true
any_done true s e = rw e refl
any_done false s e = rw e (or_true s.mul.done)

module _ {is_mul sg w : Bool} {result : ℕ → ℕ → ℕ} {rd rs1 rs2 word : ℕ}
    (asks : Asks is_mul sg w result rd rs1 rs2 word) (s : System)
    (branch : s.core.held.branch ≡ false) (this_idle : IsIdle (this is_mul s))
    (other_idle : IsIdle (other is_mul s)) where
  abbrev pub given : (ℕ → ℕ) → Inputs
  given regs = request (read_reg regs rs1) (read_reg regs rs2) sg w

  abbrev pub start : System
  start = clock (fetched word) s

  at_fetch : Holds word (fetched word) s
  at_fetch = record { in_core_is = refl; branch_is = branch; unanswered = refl; no_reset = refl }

  first : Waits is_mul sg w rs1 rs2 word 0 s start
  first =
      let (u, o) = units (fetched word) s at_fetch is_mul asks other_idle in
      record {
        core_is = stays (fetched word) s at_fetch is_mul asks this_idle.1 other_idle.1;
        unit_is = u;
        other_is = o;
      }

  pub at_wait : (s' : System) → Stays word s.core s'.core → Holds word quiet s'
  at_wait s' (pc, regs, instr, br) = record {
    in_core_is = instr;
    branch_is = br;
    unanswered = refl;
    no_reset = refl;
  }

  next_wait :
      (n : ℕ) (s' : System)
      → Waits is_mul sg w rs1 rs2 word n s s'
      → (this is_mul s').done ≡ false
      → Waits is_mul sg w rs1 rs2 word (suc n) s (clock quiet s')
  next_wait n s' k d =
      let h = at_wait s' k.core_is in
      let (pc, regs, instr, br) = k.core_is in
      let (u, o) = units quiet s' h is_mul asks k.other_is in
      let (pc', regs', instr', br') = stays quiet s' h is_mul asks d k.other_is.1 in
      record {
        core_is = (pc' ∙ pc, regs' ∙ regs, instr', br');
        unit_is =
            u
            ∙ ap (λ (t : ℕ → ℕ). unit_clock is_mul (given t) (this is_mul s')) regs
            ∙ ap (unit_clock is_mul (given s.core.regs)) k.unit_is
            ∙ sym (hold-suc (unit_clock is_mul) (suc n) (given s.core.regs) (this is_mul s));
        other_is = o;
      }

  -- While the unit is not done, the core waits.
  pub waits_for :
      ((n : ℕ)
        → n < 66
        → (hold (unit_clock is_mul) (suc n) (given s.core.regs) (this is_mul s)).done ≡ false)
      → (n : ℕ) → n ≤ 66
      → Waits is_mul sg w rs1 rs2 word n s (edges n start)
  waits_for low zero h = first
  waits_for low (suc n) h =
      let k = waits_for low n (omega arith) in
      next_wait n (edges n start) k (ap (λ (r : Registers). r.done) k.unit_is ∙ low n (omega arith))

  -- The edge at which the unit is done.
  pub finishes :
      (n : ℕ) (s' : System)
      → Waits is_mul sg w rs1 rs2 word n s s'
      → (s'.mul.done || s'.div.done) ≡ true
      → Completes rd
          (result (Mul.c (mul_inputs quiet s') s'.mul) (Div.c (div_inputs quiet s') s'.div))
          s.core
          (clock quiet s').core
  unfolding clock
  finishes n s' k d =
      let h = at_wait s' k.core_is in
      let (pc, regs, instr, br) = k.core_is in
      let p =
        pins quiet s' (Mul.c (mul_inputs quiet s') s'.mul) (Div.c (div_inputs quiet s') s'.div) in
      let (pc', regs', instr') =
        core-Completes p s'.core (asks p s'.core h.in_core_is br refl) h.in_core_is refl refl d in
      (
        pc' ∙ ap (λ (t : ℕ). add64 t 4) pc,
        regs' ∙ ap (λ (t : ℕ → ℕ). write_reg t rd (result p.mulres p.divres)) regs,
        instr',
      )

  -- The core waits for 66 edges, and the next one writes what the unit gives.
  pub completes :
      (value : ℕ)
      → ((n : ℕ)
          → n < 66
          → (hold (unit_clock is_mul) (suc n) (given s.core.regs) (this is_mul s)).done ≡ false)
      → (hold (unit_clock is_mul) 67 (given s.core.regs) (this is_mul s)).done ≡ true
      → ((s' : System)
          → Waits is_mul sg w rs1 rs2 word 66 s s'
          → result (Mul.c (mul_inputs quiet s') s'.mul) (Div.c (div_inputs quiet s') s'.div)
            ≡ value)
      → ((n : ℕ) → n ≤ 66 → Stays word s.core (edges n start).core)
        × Completes rd value s.core (edges 67 start).core
  completes value low high out =
      let last = edges 66 start in
      let k = waits_for low 66 (omega arith) in
      let d = any_done is_mul last (ap (λ (r : Registers). r.done) k.unit_is ∙ high) in
      (
        λ n h. (waits_for low n h).core_is,
        subst (λ v. Completes rd v s.core (clock quiet last).core) (out last k)
            (finishes 66 last k d),
      )

  -- the operands are the same at every edge
  pub same_operands :
      (n : ℕ) (s' : System)
      → Waits is_mul sg w rs1 rs2 word n s s'
      → asked sg w rs1 rs2 s'.core ≡ given s.core.regs
  same_operands n s' k = ap given k.core_is.1
