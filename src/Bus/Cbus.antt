-- ===== src/Bus/Cbus.antt =====
-- `CBusWrapperGen` of verilate/include/bus.h, which reads a request of the design for the device
-- behind it, and the older `parse_addr`. The fields of the ports come from what Verilator
-- generates, a parameter.
use riscv_single_cycle_cpu.Base.{ℕ, ◌*◌, Bool, bit_and, shl64}
use riscv_single_cycle_cpu.Bus.Dbus.{strip_base}
use riscv_single_cycle_cpu.Device.{CBusReq}

-- The functions of `VModelScope` on a request.
pub record CbusScope (Q : Type 0) : Type 0 where
  pub req_valid : Q → Bool
  pub req_is_write : Q → Bool
  pub req_size : Q → ℕ
  pub req_addr : Q → ℕ
  pub req_strobe : Q → ℕ
  pub req_word : Q → ℕ
  pub req_len : Q → ℕ

unfoldable pub wrapper : {Q : Type 0} → CbusScope Q → Q → CBusReq
wrapper top req = record {
  valid = top.req_valid req;
  is_write = top.req_is_write req;
  size = top.req_size req;
  addr = strip_base (top.req_addr req);
  strobe = top.req_strobe req;
  word = top.req_word req;
  len = top.req_len req;
}

-- `parse_addr<Strobe>`: the strobe and the value.
unfoldable pub parse_addr : ℕ → ℕ → ℕ → ℕ × ℕ
parse_addr strobe addr word =
    let shamt = bit_and addr 0x3 in (shl64 strobe shamt, shl64 word (shamt * 8))
