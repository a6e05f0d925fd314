-- ===== src/Soc.antt =====
-- The memory system of `ModelBase::install_soc` in verilate/vsrc/model.cpp: one block of memory,
-- which the router reaches in two ways, and the configuration registers.
pub mod Layout
use riscv_single_cycle_cpu.Base.{ℕ, Option, none, some, List, [], ◌∷◌, ◌>>=◌, sub64}
use riscv_single_cycle_cpu.Memory.{IMemory, Entry, memory_router}
use riscv_single_cycle_cpu.Memory.Block
use riscv_single_cycle_cpu.Memory.Block.{BlockMemory}
use riscv_single_cycle_cpu.Confreg
use riscv_single_cycle_cpu.Confreg.{Confreg}

-- The two shared devices.
pub record Soc : Type 0 where
  pub mem : BlockMemory
  pub con : Confreg

abbrev pub mem_object : IMemory Soc
mem_object = record {
  reset = λ s. record s { mem = Block.reset s.mem };
  load = λ addr s. Block.load addr s.mem >>= (λ v. some (v, s));
  store = λ addr v mask s. Block.store addr v mask s.mem >>= (λ m. some (record s { mem = m }));
  dump = λ addr size s. Block.dump addr size s.mem;
}

-- `Confreg::dump` panics.
abbrev pub con_object : IMemory Soc
con_object = record {
  reset = λ s. record s { con = Confreg.reset s.con };
  load = λ addr s. Confreg.load addr s.con >>= (λ r. some (r.0, record s { con = r.1 }));
  store = λ addr v mask s. Confreg.store addr v mask s.con >>= (λ c. some (record s { con = c }));
  dump = λ addr size s. none;
}

abbrev pub identity_fn : ℕ → ℕ
identity_fn x = x

abbrev pub layout : List (Entry Soc)
layout =
    record {
      mask = 0xfff00000;
      prefix = 0x1fc00000;
      mem = mem_object;
      translate = λ addr. sub64 addr 0x1fc00000;
    }
    ∷ record { mask = 0xffff0000; prefix = 0x1faf0000; mem = con_object; translate = identity_fn }
    ∷ record { mask = 0x00000000; prefix = 0x00000000; mem = mem_object; translate = identity_fn }
    ∷ []

abbrev pub router : IMemory Soc
router = memory_router layout
