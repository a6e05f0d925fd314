-- ===== src/Tests/Bench.antt =====
-- The memories and devices of verilate at concrete inputs.
use mathlib.Core.Option
use riscv_single_cycle_cpu.Base.{
  ℕ, ◌+◌, ◌*◌, ◌%◌, ◌^◌, ◌≡◌, ◌≢◌, refl, arith, true, false, none, some, List, [], ◌∷◌, ◌==◌,
  if◌then◌else◌, ◌>>=◌, merge,
}
use riscv_single_cycle_cpu.Axi
use riscv_single_cycle_cpu.Axi.{AxiTransaction, syncs, init, last}
use riscv_single_cycle_cpu.Axi.Burst.{beat_addr, addr-syncs}
use riscv_single_cycle_cpu.Memory.Block
use riscv_single_cycle_cpu.Memory.Block.{BlockMemory, map_bytes, map_byte}
use riscv_single_cycle_cpu.Memory.Block.Laws.{word_index, load-store, reset-store, store-IsValid}
use riscv_single_cycle_cpu.Memory.Block.Laws
use riscv_single_cycle_cpu.Memory.Block.Image.{map_bytes_undefined}
use riscv_single_cycle_cpu.Confreg
use riscv_single_cycle_cpu.Confreg.{Confreg, find, timer}
use riscv_single_cycle_cpu.Confreg.Uart.{here, next, arrives, uart_never_empty}
use riscv_single_cycle_cpu.Soc.{Soc, router}
use riscv_single_cycle_cpu.Soc.Layout.{target, router_lem}
use riscv_single_cycle_cpu.Device.{CBusReq, CBusDevice, no_response}
use riscv_single_cycle_cpu.Device.Beats.{run}
use riscv_single_cycle_cpu.Device.Reads.{load_beats, answers, read_out, read_burst}
use riscv_single_cycle_cpu.Device.Writes.{store_beats, acks, written, write_burst}
use riscv_single_cycle_cpu.Bus.LoadOp.{width2, parse, mask, place, apply}
use riscv_single_cycle_cpu.Bus.LoadOp.Placement.{bytes, apply-merge-place}

-- A burst of four double words that starts at the third of its window.
addr-syncs_example : (syncs 3 (init Axi.reset 0x1010 3 3)).addr ≡ beat_addr 0x1010 (2 ^ 3) (3 + 1) 3
addr-syncs_example =
    addr-syncs Axi.reset 0x1010 3 3 (omega arith) (omega arith) (omega arith) 2 (omega arith)

abbrev block : BlockMemory
block = record { size = 16; offset = 0x100; mem = 1 ∷ 2 ∷ []; saved_mem = 0 ∷ 0 ∷ [] }

block-IsValid : Laws.IsValid block
block-IsValid = record { whole = refl; words = refl; saved = refl }

abbrev block' : BlockMemory
block' = record block { mem = 1 ∷ merge 2 5 0xff ∷ [] }

load-store_example : Block.load 0x108 block' ≡ (
    if 1 == 1
    then Option.map (λ w. merge w 5 0xff) (Block.load 0x108 block)
    else Block.load 0x108 block)
unfolding Block.store
load-store_example = load-store 0x108 0x108 5 0xff block-IsValid refl

map_bytes_undefined_example : map_bytes 0 (1 ∷ 2 ∷ 3 ∷ 4 ∷ 5 ∷ []) (0 ∷ []) ≡ none
map_bytes_undefined_example = map_bytes_undefined 0 (1 ∷ 2 ∷ 3 ∷ 4 ∷ 5 ∷ []) (0 ∷ []) (omega arith)

abbrev registers : Confreg
unfolding Confreg.reset
registers = Confreg.reset (record {
  ctx = Confreg.context_reset;
  ctx0 = Confreg.context_reset;
  ififo = [];
  opty = false;
  output = [];
  mem = [];
  changes = [];
})

uart_never_empty_example :
    (Confreg.sync (Confreg.arrive 65 registers) ≢ none)
    × ((addr : ℕ) → Confreg.load addr (Confreg.arrive 65 registers) ≢ none)
unfolding Confreg.reset
uart_never_empty_example = uart_never_empty registers (next here (arrives 65 registers))

-- The registers with two stores to the LED pending, and after the clock edge.
abbrev pending : Confreg
pending = record registers { changes = (0xf000, 3) ∷ (0xf000, 4) ∷ [] }

abbrev edge : Confreg
unfolding Confreg.sync
edge = elim (Confreg.sync pending) [ none ↦ pending | some c ↦ c ]

abbrev soc : Soc
soc = record { mem = block; con = registers }

router_lem_example :
    let (device, paddr) = target 0x1fc00008 in
    (router.load 0x1fc00008 soc ≡ device.load paddr soc)
    × (router.store 0x1fc00008 1 0xff soc ≡ device.store paddr 1 0xff soc)
router_lem_example = router_lem 0x1fc00008 1 0xff soc

apply-merge-place_example :
    let op = parse width2 0x102 in
    apply op (merge 0xffffffffffffffff (place op 0x1234) (mask op)) % 2 ^ (8 * bytes width2)
    ≡ 0x1234 % 2 ^ (8 * bytes width2)
apply-merge-place_example =
    apply-merge-place width2 0x102 0xffffffffffffffff 0x1234 (omega arith) (omega arith)

-- A burst of two double words to the block of memory.
abbrev request : ℕ → CBusReq
request v = record {
  valid = true;
  is_write = true;
  size = 3;
  addr = 0x100;
  strobe = 0xff;
  word = v;
  len = 1;
}

abbrev device : CBusDevice Soc
device = record {
  store = soc;
  enable = true;
  strobe = 0;
  word = 0;
  tx = Axi.reset;
  ntx = Axi.reset;
}

abbrev beats : List CBusReq
beats = request 7 ∷ request 8 ∷ []

write_burst_example : run router (request 7 ∷ beats) device ≡ (
    store_beats router (request 7) 0 beats soc >>= λ s.
    some (no_response ∷ acks 2, written router device s))
write_burst_example =
    write_burst router (request 7) beats device (omega arith) (omega arith) (omega arith) refl refl
      ((refl, refl, refl, refl, refl), ((refl, refl, refl, refl, refl), tt)) (omega arith) refl refl
      refl

abbrev read_request : CBusReq
read_request = record (request 0) { is_write = false; strobe = 0 }

read_burst_example : run router (read_request ∷ read_request ∷ read_request ∷ []) device ≡ (
    load_beats router read_request 0 (read_request ∷ read_request ∷ []) soc >>= λ t.
    some (no_response ∷ answers read_request 0 t.0, read_out router read_request t.1))
read_burst_example =
    read_burst router read_request read_request (read_request ∷ []) device (omega arith)
      (omega arith) (omega arith) refl refl
      ((refl, refl, refl, refl, refl), ((refl, refl, refl, refl, refl), tt)) (omega arith) refl refl
      refl
