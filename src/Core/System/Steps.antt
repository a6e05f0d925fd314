-- ===== src/Core/System/Steps.antt =====
-- A clock edge of the system while an instruction of the M extension is in the core.
use riscv_single_cycle_cpu.Base.{ℕ, ◌≡◌, refl, arith, Bool, true, false, ◌||◌, add64, if◌then◌else◌}
use riscv_single_cycle_cpu.Core.Datapath.{Core, Pins, read_reg, write_reg}
use riscv_single_cycle_cpu.Core.Datapath
use riscv_single_cycle_cpu.Core.System.Requests.{Requested, in_core}

-- The core is where it was, with the instruction kept.
abbrev pub Stays : ℕ → Core → Core → Type 0
Stays word c c' =
    (c'.pc ≡ c.pc) × (c'.regs ≡ c.regs) × (c'.curr_instr ≡ word) × (c'.held.branch ≡ false)

-- The core has moved on to the next instruction, and the register is written.
abbrev pub Completes : ℕ → ℕ → Core → Core → Type 0
Completes rd result c c' =
    (c'.pc ≡ add64 c.pc 4) × (c'.regs ≡ write_reg c.regs rd result) × (c'.curr_instr ≡ 0)

module _ {is_mul sg w : Bool} {result : ℕ → ℕ → ℕ} {rd rs1 rs2 word : ℕ} (p : Pins) (c : Core)
    (q : Requested is_mul sg w result rd rs1 rs2 word p c) (at_word : in_core p c ≡ word)
    (no_reset : p.reset ≡ false) (unanswered : p.dresp_ok ≡ false) where
  kept : (k : Bool) (x y word : ℕ) → (if k then x else y) ≡ word → (if k then word else y) ≡ word
  kept true x y word e = refl
  kept false x y word e = e

  held_branch : (Datapath.clock p c).held.branch ≡ false
  unfolding Datapath.clock
  held_branch = ground (arith, q.branch_is)

  moved :
      p.mul_done ≡ false
      → p.div_done ≡ false
      → ((Datapath.clock p c).pc ≡ c.pc)
        × ((Datapath.clock p c).regs ≡ c.regs)
        × ((Datapath.clock p c).curr_instr ≡ word)
  unfolding Datapath.clock
  moved dm dd =
      rw (q.if_hold_pc_is, q.if_wreg_is, q.if_curr_ins_is, q.instr_is, no_reset, dm, dd, unanswered)
        (refl, refl, kept p.iresp_ok p.iresp_data c.curr_instr word at_word)

  pub core-Stays : p.mul_done ≡ false → p.div_done ≡ false → Stays word c (Datapath.clock p c)
  core-Stays dm dd = let (pc, regs, instr) = moved dm dd in (pc, regs, instr, held_branch)

  pub core-Completes :
      (p.mul_done || p.div_done) ≡ true
      → Completes rd (result p.mulres p.divres) c (Datapath.clock p c)
  unfolding Datapath.clock
  core-Completes d =
      rw
        (
          q.if_hold_pc_is, q.if_wreg_is, q.next_pc_is, q.rd_is, q.writeregdata_is, no_reset,
          unanswered, d,
        )
        (refl, refl, refl)
