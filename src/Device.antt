-- ===== src/Device.antt =====
-- `CBusDevice` of verilate/include/memory.h and verilate/vsrc/cbus_device.cpp, with the request
-- and the response of verilate/include/bus.h: a memory behind the cache bus. The memory object
-- and its store are parameters. `p_disable` is the flag `always_on`, and the random number that
-- `sync` draws is its argument.
pub mod Strobe
pub mod Cycle
pub mod Beats
pub mod Writes
pub mod Reads
use riscv_single_cycle_cpu.Base.{
  ℕ, zero, suc, ◌+◌, ◌*◌, ◌/◌, ◌%◌, ◌^◌, Bool, true, false, Option, none, some, List, [], ◌∷◌,
  bit_and, bit_or, ◌==◌, not, if◌then◌else◌, ◌>>=◌, ◌>>◌, asserts, add64, shl64, shr, ◌&&◌, ◌||◌,
  get_or,
}
use riscv_single_cycle_cpu.Axi
use riscv_single_cycle_cpu.Axi.{AxiTransaction}
use riscv_single_cycle_cpu.Memory.{IMemory}

pub record CBusReq : Type 0 where
  pub valid : Bool
  pub is_write : Bool
  pub size : ℕ
  pub addr : ℕ
  pub strobe : ℕ
  pub word : ℕ
  pub len : ℕ

pub record CBusResp : Type 0 where
  pub ready : Bool
  pub last : Bool
  pub word : ℕ

abbrev pub no_response : CBusResp
no_response = record { ready = false; last = false; word = 0 }

-- `STROBE_TO_MASK` of verilate/include/common.h
abbrev pub strobe_to_mask : List ℕ
strobe_to_mask =
    0x00000000 ∷ 0x000000ff ∷ 0x0000ff00 ∷ 0x0000ffff ∷ 0x00ff0000 ∷ 0x00ff00ff ∷ 0x00ffff00
    ∷ 0x00ffffff ∷ 0xff000000 ∷ 0xff0000ff ∷ 0xff00ff00 ∷ 0xff00ffff ∷ 0xffff0000 ∷ 0xffff00ff
    ∷ 0xffffff00 ∷ 0xffffffff ∷ []

-- The mask that `sync` computes from the strobe.
unfoldable pub write_mask : ℕ → ℕ
write_mask strobe =
    let mask1 = get_or strobe_to_mask (bit_and strobe 0xf) 0 in
    let mask2 = get_or strobe_to_mask (bit_and (shr strobe 4) 0xf) 0 in
    bit_or (shl64 mask2 32) mask1

-- `store` is the store of the memory object.
pub record CBusDevice (S : Type 0) : Type 0 where
  pub store : S
  pub enable : Bool
  pub strobe : ℕ
  pub word : ℕ
  pub tx : AxiTransaction
  pub ntx : AxiTransaction

unfoldable pub bool_eq : Bool → Bool → Bool
bool_eq a b = if a then b else not b

-- The five sanity checks of a request during a transaction.
unfoldable pub consistent : CBusReq → AxiTransaction → Bool
unfolding bool_eq
consistent req tx =
    req.valid
    && bool_eq req.is_write tx.is_write
    && (2 ^ req.size == tx.number_bytes)
    && (req.addr == tx.start_address)
    && (add64 req.len 1 == tx.burst_length)

module _ {S : Type 0} (mem : IMemory S) where
  unfoldable pub reset : CBusDevice S → CBusDevice S
  reset d = record d {
    store = mem.reset d.store;
    tx = Axi.reset;
    ntx = Axi.reset;
    strobe = 0;
    word = 0;
  }

  -- The data of a response, fetched if the transaction is a read.
  unfoldable pub fetch : CBusDevice S → Option (ℕ × S)
  fetch d = if d.tx.is_write then some (0, d.store) else mem.load d.tx.addr d.store

  unfoldable pub eval_resp : CBusDevice S → Option (CBusResp × CBusDevice S)
  unfolding fetch
  eval_resp d =
      if d.enable && d.tx.busy
      then (fetch d >>= λ r.
          some
            (record { ready = true; last = Axi.last d.tx; word = r.0 }, record d { store = r.1 }))
      else some (no_response, d)

  unfoldable pub eval_req : CBusReq → CBusDevice S → Option (CBusDevice S)
  unfolding consistent
  eval_req req d =
      if not d.enable
      then some d
      else if d.tx.busy
      then (asserts (consistent req d.tx)
          >> some (record d {
            strobe = req.strobe;
            word = req.word;
            ntx = if Axi.last d.tx then Axi.reset else Axi.sync d.ntx;
          }))
      else if req.valid
      then some (record d {
        ntx = record (Axi.init d.ntx req.addr req.size req.len) {
          busy = true;
          is_write = req.is_write;
        };
      })
      else some d

  -- The write of a busy transaction.
  unfoldable pub write_back : CBusDevice S → Option (CBusDevice S)
  unfolding write_mask
  write_back d =
      if d.tx.busy && d.tx.is_write
      then (mem.store d.tx.addr d.word (write_mask d.strobe) d.store >>= λ s.
          some (record d { store = s; strobe = 0; word = 0 }))
      else some d

  -- `draw` is `randf(0.0, 1.0) >= p_disable`.
  unfoldable pub sync : Bool → Bool → CBusDevice S → Option (CBusDevice S)
  unfolding write_back
  sync always_on draw d =
      if d.enable
      then (write_back d >>= λ d'. some (record d' { tx = d'.ntx; enable = always_on || draw }))
      else some (record d { enable = always_on || draw })

  -- One clock cycle as the module CBusToAXI sees it: the response to the state, the request, and
  -- the clock edge.
  unfoldable pub cycle : Bool → Bool → CBusReq → CBusDevice S → Option (CBusResp × CBusDevice S)
  unfolding eval_resp eval_req sync
  cycle always_on draw req d = do
    r ← eval_resp d
    d' ← eval_req req r.1
    d'' ← sync always_on draw d'
    some (r.0, d'')
