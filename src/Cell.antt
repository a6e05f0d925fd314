-- ===== src/Cell.antt =====
-- `MemoryCellGen` and `MemoryCellFactory` of verilate/include/cell.h, over the two
-- implementations of `GenericBusInterface`. `sizeof(T)` is a `Width`, and a value of `T` a number
-- below `2 ^ (8 * Width)`. `none` is a failed assertion, or a cell that was moved from.
pub mod Words
pub mod Access
pub mod Allocation
pub mod Bytes
pub mod PipelineLoad
use riscv_single_cycle_cpu.Base.{
  ℕ, zero, suc, ◌+◌, ◌*◌, ◌/◌, ◌%◌, ◌^◌, Bool, true, false, Option, none, some, List, [], ◌∷◌, ◌++◌,
  ◌==◌, if◌then◌else◌, ◌>>=◌, ◌>>◌, asserts, add64, length, get_elem?, get_or, take,
}
use riscv_single_cycle_cpu.Bus.LoadOp.{
  Width, width1, width2, width4, width8, parse, strobe, place, apply,
}
use riscv_single_cycle_cpu.Bus.LoadOp.Placement.{bytes}
use riscv_single_cycle_cpu.Bus.Dbus
use riscv_single_cycle_cpu.Bus.Dbus.{DbusModel, msize1, msize2, msize4, msize8}
use riscv_single_cycle_cpu.Bus.Pipeline
use riscv_single_cycle_cpu.Bus.Task.{Host}
use riscv_single_cycle_cpu.Bus.Pipeline.{Pipeline, fence, max_ticks}

-- `MemorySize<Width>::Size`
abbrev pub msize_of : Width → ℕ
msize_of width1 = msize1
msize_of width2 = msize2
msize_of width4 = msize4
msize_of width8 = msize8

-- The conversion of a bus word to `T`.
abbrev pub to_type : Width → ℕ → ℕ
to_type w v = v % 2 ^ (8 * bytes w)

-- `GenericBusInterface<TBus>`: `load<Size, Width>` and `store<Size, Width>` over the bus `S`.
pub record CellBus (S : Type 0) : Type 0 where
  pub load : Width → ℕ → S → Option (ℕ × S)
  pub store : Width → ℕ → ℕ → S → Option S

-- The bytes of an object, the least first.
abbrev pub from_bytes : List ℕ → ℕ
from_bytes [] = 0
from_bytes (x ∷ xs) = x % 256 + 256 * from_bytes xs

module _ {V : Type 0} (b : DbusModel V) where
  unfoldable pub dbus_load : Width → ℕ → V → Option (ℕ × V)
  dbus_load w addr v = Dbus.load b addr (msize_of w) v >>= λ r. some (apply (parse w addr) r.0, r.1)

  unfoldable pub dbus_store : Width → ℕ → ℕ → V → Option V
  dbus_store w addr word v =
      let op = parse w addr in Dbus.store b addr (msize_of w) (strobe op) (place op word) v

  -- `GenericBusInterfaceDBusGen`
  abbrev pub dbus_cells : CellBus V
  dbus_cells = record { load = dbus_load; store = dbus_store }

  -- `uint32_t value` has four bytes whatever the width, and holds `junk` at first. It is the last
  -- object of the host while the function runs.
  unfoldable pub pipeline_load : List ℕ → Width → ℕ → Pipeline V → Option (ℕ × Pipeline V)
  pipeline_load junk w addr p = do
    let dest = length p.host
    let with_value = record p { host = p.host ++ (take 4 junk ∷ []) }
    done ←
        fence b max_ticks (Pipeline.load b addr (msize_of w) (some dest) (parse w addr) with_value)
    value ← get_elem? done.host dest
    some (from_bytes value, record done { host = take dest done.host })

  unfoldable pub pipeline_store : Width → ℕ → ℕ → Pipeline V → Option (Pipeline V)
  pipeline_store w addr word p =
      let op = parse w addr in
      some (Pipeline.store b addr (msize_of w) (strobe op) (place op word) p)

  abbrev pub pipeline_cells : List ℕ → CellBus (Pipeline V)
  pipeline_cells junk = record { load = pipeline_load junk; store = pipeline_store }

-- The bus is the pointer `p` of the source; `attached` is false where it is null.
pub record Cell : Type 0 where
  pub width : Width
  pub addr : ℕ
  pub attached : Bool

-- `init_cell`
abbrev pub init_cell : Width → ℕ → Cell
init_cell w addr = record { width = w; addr = addr; attached = true }

-- The constructor from an address.
unfoldable pub make_cell : Width → ℕ → Option Cell
make_cell w addr = do asserts (addr % bytes w == 0); some (init_cell w addr)

-- The move constructor and the move assignment: the cell made, and the one moved from.
unfoldable pub move_cell : Cell → Cell × Cell
move_cell rhs = (rhs, record rhs { addr = 0; attached = false })

module _ {S : Type 0} (bus : CellBus S) where
  unfoldable pub get : Cell → S → Option (ℕ × S)
  get c s = do asserts c.attached; r ← bus.load c.width c.addr s; some (to_type c.width r.0, r.1)

  unfoldable pub set : Cell → ℕ → S → Option S
  set c value s = do asserts c.attached; bus.store c.width c.addr value s

  -- The assignments from a cell, of the same type or of another.
  unfoldable pub assign : Cell → Cell → S → Option S
  unfolding get set
  assign c rhs s = do r ← get rhs s; set c r.0 r.1

  unfoldable pub convert : Cell → Cell → S → Option S
  unfolding get set
  convert c rhs s = do r ← get rhs s; set c (to_type c.width r.0) r.1

  unfoldable pub swap : Cell → Cell → S → Option S
  unfolding get set
  swap x y s = do u ← get x s; v ← get y u.1; s' ← set x v.0 v.1; set y u.0 s'

-- `MemoryCellFactory`; its `offset` is what changes.
unfoldable pub take_cell : Width → ℕ → Option Cell
unfolding make_cell
take_cell w addr = make_cell w addr

-- `take<T, N>`: the cells are initialised one by one, with no check of the address.
unfoldable pub take_cells : Width → ℕ → ℕ → List Cell
take_cells w zero addr = []
take_cells w (suc n) addr = init_cell w addr ∷ take_cells w n (add64 addr (bytes w))

unfoldable pub allocate : Width → ℕ → Option Cell × ℕ
unfolding take_cell
allocate w offset = (take_cell w offset, add64 offset (bytes w))

unfoldable pub allocate_and_init :
    {S : Type 0} → CellBus S → Width → ℕ → ℕ → S → Option (Cell × ℕ × S)
unfolding allocate set
allocate_and_init bus w value offset s = do
  c ← (allocate w offset).0
  s' ← set bus c value s
  some (c, (allocate w offset).1, s')

unfoldable pub reset : ℕ → ℕ
reset offset = 0
