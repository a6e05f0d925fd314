-- ===== src/Difftest/Trace.antt =====
-- `DiffState` of difftest/src/test/csrc/difftest/difftest.h: the rings that remember the last
-- groups and instructions that retired.
pub mod History
use riscv_single_cycle_cpu.Base.{ℕ, ◌+◌, ◌%◌, Bool, false, List, set, u32, replicate}

-- `DEBUG_GROUP_TRACE_SIZE` and `DEBUG_INST_TRACE_SIZE` of difftest/config/config.h
abbrev pub group_trace_size : ℕ
group_trace_size = 16

abbrev pub inst_trace_size : ℕ
inst_trace_size = 16

-- `retire_inst_type`
pub data RetireInstType : Type 0 where
  ret_normal ret_int ret_exc : RetireInstType

pub record DiffState : Type 0 where
  pub group_pointer : ℕ
  pub group_pc_queue : List ℕ
  pub group_cnt_queue : List ℕ
  pub inst_pointer : ℕ
  pub inst_pc_queue : List ℕ
  pub inst_inst_queue : List ℕ
  pub inst_wen_queue : List Bool
  pub inst_wdst_queue : List ℕ
  pub inst_wdata_queue : List ℕ
  pub inst_type_queue : List RetireInstType

abbrev pub empty_trace : DiffState
empty_trace = record {
  group_pointer = 0;
  group_pc_queue = replicate group_trace_size 0;
  group_cnt_queue = replicate group_trace_size 0;
  inst_pointer = 0;
  inst_pc_queue = replicate inst_trace_size 0;
  inst_inst_queue = replicate inst_trace_size 0;
  inst_wen_queue = replicate inst_trace_size false;
  inst_wdst_queue = replicate inst_trace_size 0;
  inst_wdata_queue = replicate inst_trace_size 0;
  inst_type_queue = replicate inst_trace_size ret_normal;
}

-- The count is kept in 32 bits.
unfoldable pub record_group : ℕ → ℕ → DiffState → DiffState
record_group pc count s = record s {
  group_pc_queue = set s.group_pc_queue s.group_pointer pc;
  group_cnt_queue = set s.group_cnt_queue s.group_pointer (u32 count);
  group_pointer = (s.group_pointer + 1) % group_trace_size;
}

unfoldable pub record_inst : ℕ → ℕ → Bool → ℕ → ℕ → DiffState → DiffState
record_inst pc inst en dest word s = record s {
  inst_pc_queue = set s.inst_pc_queue s.inst_pointer pc;
  inst_inst_queue = set s.inst_inst_queue s.inst_pointer inst;
  inst_wen_queue = set s.inst_wen_queue s.inst_pointer en;
  inst_wdst_queue = set s.inst_wdst_queue s.inst_pointer dest;
  inst_wdata_queue = set s.inst_wdata_queue s.inst_pointer word;
  inst_type_queue = set s.inst_type_queue s.inst_pointer ret_normal;
  inst_pointer = (s.inst_pointer + 1) % inst_trace_size;
}

-- The enable and the destination of the slot stay as they were.
unfoldable pub record_abnormal_inst : ℕ → ℕ → RetireInstType → ℕ → DiffState → DiffState
record_abnormal_inst pc inst abnormal_type cause s = record s {
  inst_pc_queue = set s.inst_pc_queue s.inst_pointer pc;
  inst_inst_queue = set s.inst_inst_queue s.inst_pointer inst;
  inst_wdata_queue = set s.inst_wdata_queue s.inst_pointer cause;
  inst_type_queue = set s.inst_type_queue s.inst_pointer abnormal_type;
  inst_pointer = (s.inst_pointer + 1) % inst_trace_size;
}
