-- ===== src/Bus/Dbus.antt =====
-- `DBusGen` of verilate/include/bus.h: the data bus as the test bench drives it. What Verilator
-- generates from the design, the model `top` and the functions of its scope, is a parameter: a
-- record of functions over a state `V`, which holds the ports too.
pub mod Contract
pub mod Await
use riscv_single_cycle_cpu.Base.{
  ℕ, zero, suc, ◌+◌, ◌*◌, ◌%◌, ◌^◌, Bool, true, false, Option, none, some, bit_and, bit_or, bit_xor,
  ◌==◌, not, ◌&&◌, if◌then◌else◌, ◌>>=◌,
}
use riscv_single_cycle_cpu.Bus.LoadOp.{width1, width2, width4, parse, strobe, place, apply}

-- `VModel` and `VModelScope`: `eval` and `tick` of the model, the fields of the request and of
-- the response, and the functions that set a request.
pub record DbusModel (V : Type 0) : Type 0 where
  pub eval : V → V
  pub tick : V → V
  pub req_valid : V → Bool
  pub req_size : V → ℕ
  pub req_addr : V → ℕ
  pub req_strobe : V → ℕ
  pub req_word : V → ℕ
  pub resp_addr_ok : V → Bool
  pub resp_data_ok : V → Bool
  pub resp_word : V → ℕ
  pub update : Bool → ℕ → ℕ → ℕ → ℕ → V → V
  pub reset_valid : V → V
  pub issue_load : ℕ → ℕ → V → V
  pub issue_store : ℕ → ℕ → ℕ → ℕ → V → V
  pub handshake : V → ℕ → ℕ

-- `AXISize`
abbrev pub msize1 : ℕ
msize1 = 0

abbrev pub msize2 : ℕ
msize2 = 1

abbrev pub msize4 : ℕ
msize4 = 2

abbrev pub msize8 : ℕ
msize8 = 3

-- The address as the test bench sees it, and as the design does.
abbrev pub strip_base : ℕ → ℕ
strip_base addr = bit_and addr 0xffffffff7fffffff

abbrev pub add_base : ℕ → ℕ
add_base addr = bit_or addr 0x80000000

-- `ADDR_OK` and `DATA_OK` of `await`
abbrev pub data_ok_bit : ℕ
data_ok_bit = 2

-- `max_count` by default
abbrev pub await_limit : ℕ
await_limit = 128 * 1024 * 1024

module _ {V : Type 0} (b : DbusModel V) where
  unfoldable pub valid : V → Bool
  valid v = b.req_valid v

  unfoldable pub size : V → ℕ
  size v = b.req_size v

  unfoldable pub addr : V → ℕ
  addr v = strip_base (b.req_addr v)

  unfoldable pub strobe_of : V → ℕ
  strobe_of v = b.req_strobe v

  unfoldable pub wdata : V → ℕ
  wdata v = b.req_word v

  unfoldable pub addr_ok : V → Bool
  addr_ok v = b.resp_addr_ok v

  unfoldable pub data_ok : V → Bool
  data_ok v = b.resp_data_ok v

  unfoldable pub rdata : V → ℕ
  rdata v = b.resp_word v

  unfoldable pub issue : Bool → ℕ → ℕ → ℕ → ℕ → V → V
  issue on address msize lanes word v = b.eval (b.update on address msize lanes word v)

  unfoldable pub clear : V → V
  clear v = b.eval (b.reset_valid v)

  unfoldable pub async_load : ℕ → ℕ → V → V
  async_load address msize v = b.eval (b.issue_load (add_base address) msize v)

  unfoldable pub async_loadd : ℕ → V → V
  unfolding async_load
  async_loadd address v = async_load address msize8 v

  unfoldable pub async_loadw : ℕ → V → V
  unfolding async_load
  async_loadw address v = async_load address msize4 v

  unfoldable pub async_loadh : ℕ → V → V
  unfolding async_load
  async_loadh address v = async_load address msize2 v

  unfoldable pub async_loadb : ℕ → V → V
  unfolding async_load
  async_loadb address v = async_load address msize1 v

  unfoldable pub async_store : ℕ → ℕ → ℕ → ℕ → V → V
  async_store address msize lanes word v =
      b.eval (b.issue_store (add_base address) msize lanes word v)

  unfoldable pub async_stored : ℕ → ℕ → V → V
  unfolding async_store
  async_stored address word v = async_store address msize8 0xff word v

  unfoldable pub async_storew : ℕ → ℕ → V → V
  unfolding async_store
  async_storew address word v =
      let op = parse width4 address in async_store address msize4 (strobe op) (place op word) v

  unfoldable pub async_storeh : ℕ → ℕ → V → V
  unfolding async_store
  async_storeh address word v =
      let op = parse width2 address in async_store address msize2 (strobe op) (place op word) v

  unfoldable pub async_storeb : ℕ → ℕ → V → V
  unfolding async_store
  async_storeb address word v =
      let op = parse width1 address in async_store address msize1 (strobe op) (place op word) v

  -- The loop of `await` with `n` rounds left; at 0 it panics.
  unfoldable pub await_from : ℕ → Bool → ℕ → V → Option (ℕ × V)
  unfolding clear rdata
  await_from zero clear_valid remain v = none
  await_from (suc n) clear_valid remain v =
      let acked = b.handshake v remain in
      let ticked = b.tick v in
      let v' =
        if clear_valid && not (bit_and acked data_ok_bit == 0) then clear ticked else ticked in
      let left = bit_xor remain acked in
      let rest = await_from n clear_valid left v' in if left == 0 then some (rdata v, v') else rest

  -- `await<WaitDataOk, WaitAddrOk, EvalFirst, ClearValid>(max_count)`; `WaitAddrOk` is not used.
  unfoldable pub await : Bool → Bool → Bool → ℕ → V → Option (ℕ × V)
  unfolding await_from
  await wait_data_ok eval_first clear_valid max_count v =
      await_from max_count clear_valid (if wait_data_ok then data_ok_bit else 0)
        (if eval_first then b.eval v else v)

  unfoldable pub load : ℕ → ℕ → V → Option (ℕ × V)
  unfolding async_load
  load address msize v = await true false true await_limit (async_load address msize v)

  unfoldable pub loadd : ℕ → V → Option (ℕ × V)
  unfolding load
  loadd address v = load address msize8 v

  unfoldable pub loadw : ℕ → V → Option (ℕ × V)
  unfolding load
  loadw address v = load address msize4 v >>= λ r.
      some (bit_and (apply (parse width4 address) r.0) 0xffffffff, r.1)

  unfoldable pub loadh : ℕ → V → Option (ℕ × V)
  unfolding load
  loadh address v =
      load address msize2 v >>= λ r. some (bit_and (apply (parse width2 address) r.0) 0xffff, r.1)

  unfoldable pub loadb : ℕ → V → Option (ℕ × V)
  unfolding load
  loadb address v =
      load address msize1 v >>= λ r. some (bit_and (apply (parse width1 address) r.0) 0xff, r.1)

  unfoldable pub store : ℕ → ℕ → ℕ → ℕ → V → Option V
  unfolding async_store
  store address msize lanes word v =
      await true false true await_limit (async_store address msize lanes word v) >>= λ r. some r.1

  unfoldable pub stored : ℕ → ℕ → V → Option V
  unfolding store
  stored address word v = store address msize8 0xff word v

  unfoldable pub storew : ℕ → ℕ → V → Option V
  unfolding store
  storew address word v =
      let op = parse width4 address in store address msize4 (strobe op) (place op word) v

  unfoldable pub storeh : ℕ → ℕ → V → Option V
  unfolding store
  storeh address word v =
      let op = parse width2 address in store address msize2 (strobe op) (place op word) v

  unfoldable pub storeb : ℕ → ℕ → V → Option V
  unfolding store
  storeb address word v =
      let op = parse width1 address in store address msize1 (strobe op) (place op word) v
