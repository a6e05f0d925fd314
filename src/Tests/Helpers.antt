-- ===== src/Tests/Helpers.antt =====
-- Page tables, atomics and the rings of difftest/src/test/csrc at concrete inputs.
use riscv_single_cycle_cpu.Base.{ℕ, ◌≡◌, ◌≢◌, arith, false, some, ◌==◌, if◌then◌else◌}
use riscv_single_cycle_cpu.Ram.{pmem_read}
use riscv_single_cycle_cpu.Ram.Laws.{InRam, word_of}
use riscv_single_cycle_cpu.Helpers.{AmoState, amo_helper}
use riscv_single_cycle_cpu.Helpers.Atomics.{add, amo_helper-amo}
use riscv_single_cycle_cpu.Golden.Atomic.{amo}

-- Three tables at 0x80000000, 0x80001000 and 0x80002000; the last entry is a leaf.
abbrev words : ℕ → ℕ
words i =
    if i == 0
    then 0x20000401
    else if i == 512
    then 0x20000801
    else if i == 1024
    then 0x2000000f
    else 5

abbrev inside : InRam 0x80000008
inside = (omega arith, omega arith)

abbrev state : AmoState
state = record { ram = some words; lr_addr = 0; lr_valid = false }

amo_helper-amo_example :
    let r = amo_helper 8 0x80000008 10 0xff state in
    (r.0 ≡ pmem_read 0x80000008 (some words))
    × (amo 63 0o17 r.0 10 ≡ some (pmem_read 0x80000008 r.1.ram))
    × ((x : ℕ) → InRam x → word_of x ≢ 1 → pmem_read x r.1.ram ≡ pmem_read x (some words))
amo_helper-amo_example =
    amo_helper-amo 8 0o17 0x80000008 10 words 0 false add inside (omega arith) (omega arith)
