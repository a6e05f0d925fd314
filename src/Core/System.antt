-- ===== src/Core/System.antt =====
-- The core of vsrc/src/core.sv with the multiplier and the divider that it instantiates.
pub mod Units
pub mod Requests
pub mod Steps
pub mod Waiting
pub mod Completion
pub mod MulDiv
use riscv_single_cycle_cpu.Base.{ℕ, zero, suc, Bool, true, false}
use riscv_single_cycle_cpu.Core.Signals.{Inputs, Registers}
use riscv_single_cycle_cpu.Core.Mul
use riscv_single_cycle_cpu.Core.Div
use riscv_single_cycle_cpu.Core.Datapath.{Core, Pins, Wires, wires}
use riscv_single_cycle_cpu.Core.Datapath

pub record System : Type 0 where
  pub core : Core
  pub mul : Registers
  pub div : Registers

-- What the two buses answer.
pub record Bus : Type 0 where
  pub reset : Bool
  pub iresp_ok : Bool
  pub iresp_data : ℕ
  pub dresp_ok : Bool
  pub dresp_data : ℕ

-- The pins of the core, of what the units show.
abbrev pub pins : Bus → System → ℕ → ℕ → Pins
pins b s mulres divres = record {
  reset = b.reset;
  iresp_ok = b.iresp_ok;
  iresp_data = b.iresp_data;
  dresp_ok = b.dresp_ok;
  dresp_data = b.dresp_data;
  mul_done = s.mul.done;
  mulres = mulres;
  div_done = s.div.done;
  divres = divres;
}

-- The operands of the units do not depend on their results.
abbrev pub operands : Bus → System → Wires
operands b s = wires (pins b s 0 0) s.core

abbrev pub mul_inputs : Bus → System → Inputs
mul_inputs b s =
    let n = operands b s in
    record {
      reset = b.reset;
      valid = n.c.mul_valid;
      a = n.alua;
      b = n.alub;
      s = n.c.mul_sign;
      w = n.c.mul_w;
    }

abbrev pub div_inputs : Bus → System → Inputs
div_inputs b s =
    let n = operands b s in
    record {
      reset = b.reset;
      valid = n.c.div_valid;
      a = n.alua;
      b = n.alub;
      s = n.c.div_sign;
      w = n.c.div_w;
    }

-- A clock edge of the three.
unfoldable pub clock : Bus → System → System
clock b s =
    let mul = mul_inputs b s in
    let div = div_inputs b s in
    record {
      core = Datapath.clock (pins b s (Mul.c mul s.mul) (Div.c div s.div)) s.core;
      mul = Mul.clock mul s.mul;
      div = Div.clock div s.div;
    }

-- nothing answers
abbrev pub quiet : Bus
quiet = record { reset = false; iresp_ok = false; iresp_data = 0; dresp_ok = false; dresp_data = 0 }

-- the instruction bus answers
abbrev pub fetched : ℕ → Bus
fetched word = record quiet { iresp_ok = true; iresp_data = word }

-- `n` edges at which no bus answers
abbrev pub edges : ℕ → System → System
edges zero s = s
edges (suc n) s = clock quiet (edges n s)
