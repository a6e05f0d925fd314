-- ===== src/Device/Cycle.antt =====
-- A clock cycle of the device against a plain machine: idle, or at one beat of a burst.
use riscv_single_cycle_cpu.Base.{◌≡◌, arith, Bool, true, false, some, if◌then◌else◌, ◌>>=◌, ◌||◌}
use riscv_single_cycle_cpu.Axi
use riscv_single_cycle_cpu.Axi.{AxiTransaction}
use riscv_single_cycle_cpu.Memory.{IMemory}
use riscv_single_cycle_cpu.Device.{CBusReq, CBusDevice, no_response, write_mask, consistent, cycle}

-- the transaction of the next cycle: a burst ends after its last beat
abbrev pub next_tx : AxiTransaction → AxiTransaction
next_tx tx = if Axi.last tx then Axi.reset else Axi.sync tx

-- the transaction that a request starts
abbrev pub started : CBusReq → AxiTransaction → AxiTransaction
started req tx = record (Axi.init tx req.addr req.size req.len) {
  busy = true;
  is_write = req.is_write;
}

module _ {S : Type 0} (mem : IMemory S) where
  -- Between clock edges the device holds one transaction, in both copies.
  abbrev pub IsSynced : CBusDevice S → Type 0
  IsSynced d = d.ntx ≡ d.tx

  -- the device after one beat of a burst
  abbrev pub advanced : Bool → CBusDevice S → CBusDevice S
  advanced enable d = record d { enable = enable; tx = next_tx d.tx; ntx = next_tx d.tx }

  -- A disabled cycle.
  pub cycle_disabled :
      (always_on draw : Bool) (req : CBusReq) (d : CBusDevice S)
      → d.enable ≡ false
      → cycle mem always_on draw req d ≡ some (no_response, record d { enable = always_on || draw })
  unfolding cycle
  cycle_disabled always_on draw req d e = ground arith

  pub cycle_idle :
      (always_on draw : Bool) (req : CBusReq) (d : CBusDevice S)
      → IsSynced d
      → d.enable ≡ true
      → d.tx.busy ≡ false
      → req.valid ≡ false
      → cycle mem always_on draw req d ≡ some (no_response, record d { enable = always_on || draw })
  unfolding cycle
  cycle_idle always_on draw req d h e b v = ground arith

  pub cycle_start :
      (always_on draw : Bool) (req : CBusReq) (d : CBusDevice S)
      → IsSynced d
      → d.enable ≡ true
      → d.tx.busy ≡ false
      → req.valid ≡ true
      → cycle mem always_on draw req d
        ≡ some (
          no_response,
          record d { enable = always_on || draw; tx = started req d.tx; ntx = started req d.tx },
        )
  unfolding cycle
  cycle_start always_on draw req d h e b v = ground arith

  pub cycle_write :
      (always_on draw : Bool) (req : CBusReq) (d : CBusDevice S)
      → IsSynced d
      → d.enable ≡ true
      → d.tx.busy ≡ true
      → d.tx.is_write ≡ true
      → consistent req d.tx ≡ true
      → cycle mem always_on draw req d ≡ (
          mem.store d.tx.addr req.word (write_mask req.strobe) d.store >>= λ s. some (
            record { ready = true; last = Axi.last d.tx; word = 0 },
            record (advanced (always_on || draw) d) { store = s; strobe = 0; word = 0 },
          ))
  unfolding cycle
  cycle_write always_on draw req d h e b w c = ground arith

  pub cycle_read :
      (always_on draw : Bool) (req : CBusReq) (d : CBusDevice S)
      → IsSynced d
      → d.enable ≡ true
      → d.tx.busy ≡ true
      → d.tx.is_write ≡ false
      → consistent req d.tx ≡ true
      → cycle mem always_on draw req d ≡ (
          mem.load d.tx.addr d.store >>= λ r. some (
            record { ready = true; last = Axi.last d.tx; word = r.0 },
            record (advanced (always_on || draw) d) {
              store = r.1;
              strobe = req.strobe;
              word = req.word;
            },
          ))
  unfolding cycle
  cycle_read always_on draw req d h e b w c = ground arith
