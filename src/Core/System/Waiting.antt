-- ===== src/Core/System/Waiting.antt =====
-- The edges at which the core waits for one of its units, while the other is idle.
use riscv_single_cycle_cpu.Base.{ℕ, ◌≡◌, refl, ap, arith, Bool, true, false, if◌then◌else◌}
use riscv_single_cycle_cpu.Core.Signals.{Inputs, Registers, request}
use riscv_single_cycle_cpu.Core.Mul
use riscv_single_cycle_cpu.Core.Div
use riscv_single_cycle_cpu.Core.Datapath.{Core, Pins, read_reg}
use riscv_single_cycle_cpu.Core.System.{System, Bus, pins, mul_inputs, div_inputs, clock}
use riscv_single_cycle_cpu.Core.System.Requests.{Requested, in_core}
use riscv_single_cycle_cpu.Core.System.Steps.{Stays, core-Stays}

-- the unit in use and the other one, the inputs of the first and its clocked block
abbrev pub this : Bool → System → Registers
this is_mul s = if is_mul then s.mul else s.div

abbrev pub other : Bool → System → Registers
other is_mul s = if is_mul then s.div else s.mul

abbrev pub unit_clock : Bool → Inputs → Registers → Registers
unit_clock is_mul = if is_mul then Mul.clock else Div.clock

abbrev pub IsIdle : Registers → Type 0
IsIdle r = (r.state ≡ false) × (r.done ≡ false)

mul-IsIdle : (i : Inputs) (r : Registers) → i.valid ≡ false → IsIdle r → IsIdle (Mul.clock i r)
unfolding Mul.clock
mul-IsIdle i r e (e', d) = ground arith

div-IsIdle : (i : Inputs) (r : Registers) → i.valid ≡ false → IsIdle r → IsIdle (Div.clock i r)
unfolding Div.clock
div-IsIdle i r e (e', d) = ground arith

-- An edge at which the instruction is in the core, and no bus answers otherwise.
pub record Holds (word : ℕ) (b : Bus) (s : System) : Type 0 where
  pub in_core_is : (if b.iresp_ok then b.iresp_data else s.core.curr_instr) ≡ word
  pub branch_is : s.core.held.branch ≡ false
  pub unanswered : b.dresp_ok ≡ false
  pub no_reset : b.reset ≡ false

-- What the instruction requests, whatever the results are.
abbrev pub Asks : Bool → Bool → Bool → (ℕ → ℕ → ℕ) → (rd rs1 rs2 word : ℕ) → Type 0
Asks is_mul sg w result rd rs1 rs2 word =
    (p : Pins) (c : Core)
    → in_core p c ≡ word
    → c.held.branch ≡ false
    → p.dresp_ok ≡ false
    → Requested is_mul sg w result rd rs1 rs2 word p c

-- the operands as the unit is given them
abbrev pub asked : Bool → Bool → ℕ → ℕ → Core → Inputs
asked sg w rs1 rs2 c = request (read_reg c.regs rs1) (read_reg c.regs rs2) sg w

none_done :
    (is_mul : Bool) (s : System)
    → (this is_mul s).done ≡ false
    → (other is_mul s).done ≡ false
    → (s.mul.done ≡ false) × (s.div.done ≡ false)
none_done true s t o = (t, o)
none_done false s t o = (o, t)

module _ {sg w : Bool} {result : ℕ → ℕ → ℕ} {rd rs1 rs2 word : ℕ} (b : Bus) (s : System)
    (k : Holds word b s) where
  pub mul_asked : Asks true sg w result rd rs1 rs2 word → mul_inputs b s ≡ asked sg w rs1 rs2 s.core
  mul_asked asks =
      let q = asks (pins b s 0 0) s.core k.in_core_is k.branch_is k.unanswered in
      rw (q.mul_valid_is, q.alua_is, q.alub_is, q.sign_is, q.w_is, k.no_reset) refl

  pub div_asked :
      Asks false sg w result rd rs1 rs2 word → div_inputs b s ≡ asked sg w rs1 rs2 s.core
  div_asked asks =
      let q = asks (pins b s 0 0) s.core k.in_core_is k.branch_is k.unanswered in
      rw (q.div_valid_is, q.alua_is, q.alub_is, q.sign_is, q.w_is, k.no_reset) refl

  -- At each edge the unit in use takes a step with the operands, and the other one stays idle.
  pub units :
      (is_mul : Bool)
      → Asks is_mul sg w result rd rs1 rs2 word
      → IsIdle (other is_mul s)
      → (this is_mul (clock b s) ≡ unit_clock is_mul (asked sg w rs1 rs2 s.core) (this is_mul s))
        × IsIdle (other is_mul (clock b s))
  unfolding clock
  units true asks idle =
      let q = asks (pins b s 0 0) s.core k.in_core_is k.branch_is k.unanswered in
      (
        ap (λ (i : Inputs). Mul.clock i s.mul) (mul_asked asks),
        div-IsIdle (div_inputs b s) s.div q.div_valid_is idle,
      )
  units false asks idle =
      let q = asks (pins b s 0 0) s.core k.in_core_is k.branch_is k.unanswered in
      (
        ap (λ (i : Inputs). Div.clock i s.div) (div_asked asks),
        mul-IsIdle (mul_inputs b s) s.mul q.mul_valid_is idle,
      )

  pub stays :
      (is_mul : Bool)
      → Asks is_mul sg w result rd rs1 rs2 word
      → (this is_mul s).done ≡ false
      → (other is_mul s).done ≡ false
      → Stays word s.core (clock b s).core
  unfolding clock
  stays is_mul asks t o =
      let p = pins b s (Mul.c (mul_inputs b s) s.mul) (Div.c (div_inputs b s) s.div) in
      let q = asks p s.core k.in_core_is k.branch_is k.unanswered in
      let (dm, dd) = none_done is_mul s t o in
      core-Stays p s.core q k.in_core_is k.no_reset k.unanswered dm dd
