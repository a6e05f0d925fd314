-- ===== src/Axi.antt =====
-- `AXITransaction` of verilate/include/axi.h: the state of one burst on the cache bus.
pub mod Burst
use riscv_single_cycle_cpu.Base.{
  ℕ, zero, suc, ◌+◌, ◌*◌, ◌/◌, ◌%◌, ◌^◌, Bool, true, false, ◌==◌, leb, if◌then◌else◌, add64, u32,
  u64,
}

pub record AxiTransaction : Type 0 where
  pub busy : Bool
  pub is_write : Bool
  pub aligned : Bool
  pub n : ℕ
  pub addr : ℕ
  pub start_address : ℕ
  pub number_bytes : ℕ
  pub burst_length : ℕ
  pub aligned_address : ℕ
  pub lower_wrap_boundry : ℕ
  pub upper_wrap_boundry : ℕ

-- `memset(this, 0, sizeof(*this))`
abbrev pub reset : AxiTransaction
reset = record {
  busy = false;
  is_write = false;
  aligned = false;
  n = 0;
  addr = 0;
  start_address = 0;
  number_bytes = 0;
  burst_length = 0;
  aligned_address = 0;
  lower_wrap_boundry = 0;
  upper_wrap_boundry = 0;
}

-- `busy` and `is_write` are left as they were. `1u << AxSIZE` is an `unsigned` shift, and is
-- defined for `AxSIZE` below 32.
unfoldable pub init : AxiTransaction → ℕ → ℕ → ℕ → AxiTransaction
init tx ax_addr ax_size ax_len =
    let number_bytes = u32 (2 ^ ax_size) in
    let burst_length = add64 ax_len 1 in
    let dtsize = u64 (number_bytes * burst_length) in
    let lower = ax_addr / dtsize * dtsize in
    record tx {
      start_address = ax_addr;
      number_bytes = number_bytes;
      burst_length = burst_length;
      aligned_address = ax_addr / number_bytes * number_bytes;
      lower_wrap_boundry = lower;
      upper_wrap_boundry = add64 lower dtsize;
      aligned = false;
      n = 1;
      addr = ax_addr;
    }

-- The address before the wrap test.
next_addr : AxiTransaction → ℕ
next_addr tx =
    if tx.aligned then add64 tx.addr tx.number_bytes else add64 tx.aligned_address tx.number_bytes

unfoldable pub sync : AxiTransaction → AxiTransaction
unfolding next_addr
sync tx = record tx {
  n = add64 tx.n 1;
  aligned = true;
  addr = if leb tx.upper_wrap_boundry (next_addr tx) then tx.lower_wrap_boundry else next_addr tx;
}

unfoldable pub last : AxiTransaction → Bool
last tx = tx.n == tx.burst_length

-- `k` handshakes
abbrev pub syncs : ℕ → AxiTransaction → AxiTransaction
syncs zero tx = tx
syncs (suc k) tx = sync (syncs k tx)
