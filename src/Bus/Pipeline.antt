-- ===== src/Bus/Pipeline.antt =====
-- `DBusPipelineGen` of verilate/include/bus.h: requests that wait in a queue for the data bus.
-- `none` is a failed assertion, or a write past the end of a destination. The queue `pending` of
-- the source is never used.
pub mod Steps
pub mod Order
use riscv_single_cycle_cpu.Base.{
  ℕ, zero, suc, ◌+◌, ◌-◌, ◌*◌, ◌^◌, Bool, true, false, Option, none, some, List, [], ◌∷◌, ◌++◌,
  bit_and, bit_xor, ◌==◌, ltb, not, ◌&&◌, if◌then◌else◌, ◌>>=◌, ◌>>◌, asserts, length, get_elem?,
  set,
}
use riscv_single_cycle_cpu.Bus.LoadOp
use riscv_single_cycle_cpu.Bus.LoadOp.{
  LoadOp, discard, size1_sht0, size1_sht8, size1_sht16, size1_sht24, size1_sht32, size1_sht40,
  size1_sht48, size1_sht56, size2_sht0, size2_sht16, size2_sht32, size2_sht48, size4_sht0,
  size4_sht32, size8_sht0, width1, width2, width4, parse, strobe, place, mask, apply_to,
}
use riscv_single_cycle_cpu.Bus.Dbus.{
  DbusModel, msize1, msize2, msize4, msize8, clear, async_load, async_store, valid, data_ok, rdata,
}
use riscv_single_cycle_cpu.Bus.Task.{
  Task, load_task, store_task, expect_task, is_load, apply_assert, Host, apply_load, deliver,
}

pub record Pipeline (V : Type 0) : Type 0 where
  pub top : V
  pub ongoing : List Task
  pub host : Host

abbrev pub max_ticks : ℕ
max_ticks = 2 ^ 64 - 1

module _ {V : Type 0} (b : DbusModel V) where
  unfoldable pub busy : Pipeline V → Bool
  unfolding valid
  busy p = valid b p.top

  unfoldable pub empty : Pipeline V → Bool
  empty p = elim p.ongoing [ [] ↦ true | ◌∷◌ t ts ↦ false ]

  -- The constructor asserts that the bus is not busy.
  unfoldable pub start : V → Host → Option (Pipeline V)
  unfolding valid
  start v host = do asserts (not (valid b v)); some (record { top = v; ongoing = []; host = host })

  unfoldable pub issue : Task → V → V
  unfolding is_load async_load async_store
  issue t v =
      if is_load t
      then async_load b t.addr t.size v
      else async_store b t.addr t.size t.lanes t.word v

  -- The front of the queue takes the answer; an answer to no task fails an assertion.
  unfoldable pub finish : Bool → ℕ → Pipeline V → Option (Pipeline V)
  unfolding deliver
  finish answered value p =
      if answered
      then (elim p.ongoing [
        | [] ↦ none
        | ◌∷◌ t ts ↦
            deliver t value p.host >>= λ host. some (record p { ongoing = ts; host = host })
      ])
      else some p

  -- The last lines of `tick`: the next request goes to the bus, or the same one again.
  unfoldable pub reissue : Pipeline V → Pipeline V
  unfolding clear issue
  reissue p = record p { top = elim p.ongoing [ [] ↦ clear b p.top | ◌∷◌ t ts ↦ issue t p.top ] }

  unfoldable pub tick : Pipeline V → Option (Pipeline V)
  unfolding finish reissue data_ok rdata valid
  tick p = do
    let answered = data_ok b p.top && valid b p.top
    p' ← finish answered (rdata b p.top) (record p { top = b.tick p.top })
    some (reissue p')

  unfoldable pub ticks : ℕ → Pipeline V → Option (Pipeline V)
  unfolding tick
  ticks zero p = some p
  ticks (suc n) p = tick p >>= ticks n

  unfoldable pub submit : Task → Pipeline V → Pipeline V
  unfolding issue busy
  submit t p =
      let pushed = record p { ongoing = p.ongoing ++ (t ∷ []) } in
      if busy pushed then pushed else record pushed { top = issue t p.top }

  unfoldable pub load : ℕ → ℕ → Option ℕ → LoadOp → Pipeline V → Pipeline V
  unfolding submit
  load addr size dest op p =
      submit (load_task addr size dest (elim dest [ none ↦ discard | some d ↦ op ])) p

  unfoldable pub store : ℕ → ℕ → ℕ → ℕ → Pipeline V → Pipeline V
  unfolding submit
  store addr size lanes word p = submit (store_task addr size lanes word) p

  unfoldable pub expect : ℕ → ℕ → ℕ → LoadOp → Pipeline V → Pipeline V
  unfolding submit
  expect addr size word op p = submit (expect_task addr size word op) p

  unfoldable pub loadd : ℕ → Option ℕ → Pipeline V → Option (Pipeline V)
  unfolding load
  loadd addr dest p = do asserts (bit_and addr 0x7 == 0); some (load addr msize8 dest size8_sht0 p)

  unfoldable pub loadw : ℕ → Option ℕ → Pipeline V → Option (Pipeline V)
  unfolding load
  loadw addr dest p = do
    asserts (bit_and addr 0x3 == 0)
    some (load addr msize4 dest (parse width4 addr) p)

  unfoldable pub loadh : ℕ → Option ℕ → Pipeline V → Option (Pipeline V)
  unfolding load
  loadh addr dest p = do
    asserts (bit_and addr 0x1 == 0)
    some (load addr msize2 dest (parse width2 addr) p)

  unfoldable pub loadb : ℕ → Option ℕ → Pipeline V → Option (Pipeline V)
  unfolding load
  loadb addr dest p = some (load addr msize1 dest (parse width1 addr) p)

  unfoldable pub stored : ℕ → ℕ → Pipeline V → Option (Pipeline V)
  unfolding store
  stored addr word p = do asserts (bit_and addr 0x7 == 0); some (store addr msize8 0xff word p)

  unfoldable pub storew : ℕ → ℕ → Pipeline V → Option (Pipeline V)
  unfolding store
  storew addr word p = do
    asserts (bit_and addr 0x3 == 0)
    let op = parse width4 addr
    some (store addr msize4 (strobe op) (place op word) p)

  unfoldable pub storeh : ℕ → ℕ → Pipeline V → Option (Pipeline V)
  unfolding store
  storeh addr word p = do
    asserts (bit_and addr 0x1 == 0)
    let op = parse width2 addr
    some (store addr msize2 (strobe op) (place op word) p)

  unfoldable pub storeb : ℕ → ℕ → Pipeline V → Option (Pipeline V)
  unfolding store
  storeb addr word p =
      let op = parse width1 addr in some (store addr msize1 (strobe op) (place op word) p)

  unfoldable pub expectd : ℕ → ℕ → Pipeline V → Option (Pipeline V)
  unfolding expect
  expectd addr word p = do
    asserts (bit_and addr 0x7 == 0)
    some (expect addr msize8 word size8_sht0 p)

  unfoldable pub expectw : ℕ → ℕ → Pipeline V → Option (Pipeline V)
  unfolding expect
  expectw addr word p = do
    asserts (bit_and addr 0x3 == 0)
    let op = parse width4 addr
    some (expect addr msize4 (place op word) op p)

  unfoldable pub expecth : ℕ → ℕ → Pipeline V → Option (Pipeline V)
  unfolding expect
  expecth addr word p = do
    asserts (bit_and addr 0x1 == 0)
    let op = parse width2 addr
    some (expect addr msize2 (place op word) op p)

  unfoldable pub expectb : ℕ → ℕ → Pipeline V → Option (Pipeline V)
  unfolding expect
  expectb addr word p = let op = parse width1 addr in some (expect addr msize1 (place op word) op p)

  -- `fence` with `n` rounds left of `max_count`.
  unfoldable pub fence : ℕ → Pipeline V → Option (Pipeline V)
  unfolding tick empty
  fence zero p = if empty p then some p else none
  fence (suc n) p = elim (empty p) [ true ↦ some p | false ↦ tick p >>= fence n ]
