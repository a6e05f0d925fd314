-- ===== src/Queue.antt =====
-- The two rings that feed input to the design: the UART of
-- difftest/src/test/csrc/common/uart.cpp, which drops a character when it is full and answers
-- "root\n" over and over when it is empty, and the keyboard of keyboard.cpp, which stops the
-- program when it overflows. Both hold 1024 slots; `none` is a failed assertion.
pub mod Order
use riscv_single_cycle_cpu.Base.{
  ℕ, ◌+◌, ◌%◌, Bool, true, false, Option, none, some, List, [], ◌∷◌, ◌==◌, not, if◌then◌else◌,
  bit_or, get_or, set, ◌>>=◌, ◌>>◌, asserts, replicate,
}

-- `QUEUE_SIZE` and `KEY_QUEUE_LEN`
abbrev pub queue_size : ℕ
queue_size = 1024

pub record Ring : Type 0 where
  pub slots : List ℕ
  pub f : ℕ
  pub r : ℕ

abbrev pub empty_ring : Ring
empty_ring = record { slots = replicate 1024 0; f = 0; r = 0 }

unfoldable pub uart_enqueue : ℕ → Ring → Ring
uart_enqueue ch q =
    let next = (q.r + 1) % queue_size in
    if not (next == q.f) then record q { slots = set q.slots q.r ch; r = next } else q

-- "root\n"
abbrev pub preset : List ℕ
preset = 114 ∷ 111 ∷ 111 ∷ 116 ∷ 10 ∷ []

-- The character, the ring and the static `last`.
unfoldable pub uart_dequeue : Ring → ℕ → ℕ × Ring × ℕ
uart_dequeue q last =
    if not (q.f == q.r)
    then (get_or q.slots q.f 0, record q { f = (q.f + 1) % queue_size }, last)
    else (get_or preset last 0, q, if last + 1 == 5 then 0 else last + 1)

-- `keymap` is the table of the key codes, an argument.
unfoldable pub send_key : List ℕ → ℕ → Bool → Ring → Option Ring
send_key keymap scancode is_keydown q =
    let code = get_or keymap scancode 0 in
    let next = (q.r + 1) % queue_size in
    if code == 0
    then some q
    else (asserts (not (next == q.f))
        >> some (record q {
          slots = set q.slots q.r (bit_or code (if is_keydown then 0x8000 else 0));
          r = next;
        }))

unfoldable pub read_key : Ring → ℕ × Ring
read_key q =
    if not (q.f == q.r)
    then (get_or q.slots q.f 0, record q { f = (q.f + 1) % queue_size })
    else (0, q)
