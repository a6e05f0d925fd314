-- ===== src/Confreg.antt =====
-- `Confreg` of verilate/include/confreg.h and verilate/vsrc/confreg.cpp: the configuration
-- registers, a virtual UART and a UART behind a pseudo terminal. `none` is a panic, a failed
-- assertion, or `front` of an empty queue. The pseudo terminal is a flag that says whether
-- `opty` is open and a list of what was put to it; the worker thread's `push_back` is the
-- operation `arrive`, which may come between any two others.
pub mod Uart
pub mod Registers
pub mod Pty
use mathlib.Core.Option.{get_or}
use riscv_single_cycle_cpu.Base.{
  ℕ, ◌+◌, ◌*◌, ◌/◌, ◌%◌, ◌^◌, Bool, true, false, Option, none, some, List, [], ◌∷◌, ◌++◌, bit_and,
  bit_or, ◌==◌, not, if◌then◌else◌, ◌>>=◌, ◌>>◌, asserts, add64, shl64, shr, u32, ◌&&◌,
}

abbrev pub uart_rxd : ℕ
uart_rxd = 0x1000

abbrev pub uart_txd : ℕ
uart_txd = 0x1000

abbrev pub uart_lsr : ℕ
uart_lsr = 0x1014

abbrev pub num : ℕ
num = 0xf010

abbrev pub timer : ℕ
timer = 0xe000

abbrev pub io_simu : ℕ
io_simu = 0xffec

abbrev pub virtual_uart : ℕ
virtual_uart = 0xfff0

abbrev pub simu_flag : ℕ
simu_flag = 0xfff4

abbrev pub open_trace : ℕ
open_trace = 0xfff8

abbrev pub num_monitor : ℕ
num_monitor = 0xfffc

abbrev pub addr_mask : ℕ
addr_mask = 0xffff

pub record Context : Type 0 where
  pub uart_avail : Bool
  pub uart_written : Bool
  pub uart_fetched : Bool
  pub uart_data : ℕ
  pub vuart_written : Bool
  pub vuart_data : ℕ
  pub v_open_trace : Bool
  pub v_num_monitor : Bool
  pub v_num : ℕ

abbrev pub context_reset : Context
context_reset = record {
  uart_avail = false;
  uart_written = false;
  uart_fetched = false;
  uart_data = 0;
  vuart_written = false;
  vuart_data = 0;
  v_open_trace = true;
  v_num_monitor = true;
  v_num = 0;
}

-- `std::unordered_map<addr_t, word_t>`
abbrev pub WordMap : Type 0
WordMap = List (ℕ × ℕ)

unfoldable pub find : ℕ → WordMap → Option ℕ
find k [] = none
find k ((j, v) ∷ m) = if j == k then some v else find k m

-- `it->second = v` at a key that is there; nothing otherwise
unfoldable pub assign : ℕ → ℕ → WordMap → WordMap
assign k v [] = []
assign k v ((j, w) ∷ m) = if j == k then (j, v) ∷ m else (j, w) ∷ assign k v m

-- `mem[k]++`, which makes a missing entry 0 first
unfoldable pub increment : ℕ → WordMap → WordMap
increment k [] = (k, 1) ∷ []
increment k ((j, w) ∷ m) = if j == k then (j, add64 w 1) ∷ m else (j, w) ∷ increment k m

pub record Confreg : Type 0 where
  pub ctx : Context
  pub ctx0 : Context
  pub ififo : List ℕ
  pub opty : Bool
  pub output : List ℕ
  pub mem : WordMap
  pub changes : List (ℕ × ℕ)

abbrev pub initial_mem : WordMap
initial_mem =
    (0x8000, 0)
    ∷ (0x8004, 0)
    ∷ (0x8008, 0)
    ∷ (0x800c, 0)
    ∷ (0x8010, 0)
    ∷ (0x8014, 0)
    ∷ (0x8018, 0)
    ∷ (0x801c, 0)
    ∷ (0xf000, 0x0000ffff)
    ∷ (0xf004, 0)
    ∷ (0xf008, 0)
    ∷ (num, 0)
    ∷ (0xf020, 0x000000ff)
    ∷ (0xf024, 0)
    ∷ (0xf028, 0)
    ∷ (0xf02c, 0x0000aaaa)
    ∷ (timer, 0)
    ∷ (io_simu, 0)
    ∷ (virtual_uart, 0)
    ∷ (simu_flag, 0xffffffff)
    ∷ (open_trace, 1)
    ∷ (num_monitor, 1)
    ∷ []

-- `_uart_reset` clears the queue. The pending `changes` are kept.
unfoldable pub reset : Confreg → Confreg
reset c = record c { ctx = context_reset; ctx0 = context_reset; ififo = []; mem = initial_mem }

-- `ififo.front()` and `ififo.pop_front()`
abbrev pub front : List ℕ → Option ℕ
front [] = none
front (x ∷ q) = some x

abbrev pub pop_front : List ℕ → Option (List ℕ)
pop_front [] = none
pop_front (x ∷ q) = some q

-- `_uart_get_char`
unfoldable pub uart_get_char : Confreg → Option (ℕ × Confreg)
uart_get_char c =
    let fetched = record c { ctx = record c.ctx { uart_fetched = true } } in
    if c.ctx.uart_avail then front c.ififo >>= (λ x. some (x, fetched)) else some (0, c)

-- `_uart_put_char`
unfoldable pub uart_put_char : ℕ → Confreg → Confreg
uart_put_char ch c = record c { ctx = record c.ctx { uart_written = true; uart_data = ch } }

abbrev pub bool_word : Bool → ℕ
bool_word b = if b then 1 else 0

unfoldable pub load : ℕ → Confreg → Option (ℕ × Confreg)
unfolding uart_get_char
load address c =
    let addr = bit_and address addr_mask in
    if addr == uart_lsr
    then some (bool_word c.ctx.uart_avail, c)
    else if addr == uart_rxd
    then uart_get_char c
    else some (get_or (find addr c.mem) 0, c)

unfoldable pub swap_bytes : ℕ → ℕ
swap_bytes v = bit_or (bit_and (shr v 16) 0xffff) (bit_and (shl64 v 16) 0xffff0000)

unfoldable pub push_change : ℕ → ℕ → Confreg → Confreg
push_change addr v c = record c { changes = c.changes ++ ((addr, v) ∷ []) }

unfoldable pub store : ℕ → ℕ → ℕ → Confreg → Option Confreg
unfolding uart_put_char swap_bytes push_change
store address v mask c =
    let addr = bit_and address addr_mask in
    if addr == uart_lsr
    then none
    else if addr == uart_txd
    then (asserts (mask == 0xff) >> some (uart_put_char (bit_and v 0xff) c))
    else if addr == virtual_uart
    then some (
        push_change addr (bit_and v 0xff)
          (record c { ctx = record c.ctx { vuart_written = true; vuart_data = bit_and v 0xff } }))
    else if addr == num
    then some (push_change addr v (record c { ctx = record c.ctx { v_num = v } }))
    else if addr == simu_flag
    then some (push_change addr 0xffffffff c)
    else if addr == io_simu
    then some (push_change addr (swap_bytes v) c)
    else if addr == open_trace
    then some (
        push_change addr (bool_word (not (v == 0)))
          (record c { ctx = record c.ctx { v_open_trace = not (v == 0) } }))
    else if addr == num_monitor
    then some (
        push_change addr (bit_and v 1)
          (record c { ctx = record c.ctx { v_num_monitor = not (bit_and v 1 == 0) } }))
    else some (push_change addr v c)

unfoldable pub commit : List (ℕ × ℕ) → WordMap → WordMap
commit [] m = m
commit ((addr, v) ∷ changes) m = commit changes (assign addr v m)

abbrev pub is_empty : List ℕ → Bool
is_empty [] = true
is_empty (x ∷ q) = false

-- The queue is popped if a character was fetched in this cycle; `internal_assert` wants it not
-- to be empty.
unfoldable pub uart_fetch : Confreg → Option (List ℕ)
uart_fetch c = if c.ctx.uart_fetched then pop_front c.ififo else some c.ififo

unfoldable pub sync : Confreg → Option Confreg
unfolding uart_fetch
sync c = do
  ififo ← uart_fetch c
  some record {
    ctx = record c.ctx {
      uart_avail = not (is_empty ififo);
      uart_written = false;
      uart_fetched = false;
      vuart_written = false;
    };
    ctx0 = c.ctx;
    ififo = ififo;
    opty = c.opty;
    output = if c.ctx.uart_written && c.opty then c.output ++ (c.ctx.uart_data ∷ []) else c.output;
    mem = increment timer (commit c.changes c.mem);
    changes = [];
  }

-- A character from the terminal, pushed by the worker thread.
unfoldable pub arrive : ℕ → Confreg → Confreg
arrive ch c = record c { ififo = c.ififo ++ (ch ∷ []) }

abbrev pub trace_enabled : Confreg → Bool
trace_enabled c = c.ctx0.v_open_trace

abbrev pub monitor_enabled : Confreg → Bool
monitor_enabled c = c.ctx0.v_num_monitor

abbrev pub has_char : Confreg → Bool
has_char c = c.ctx0.vuart_written

abbrev pub get_char : Confreg → ℕ
get_char c = c.ctx0.vuart_data

-- The last cycle's view, which `ModelBase::checkout_confreg` reads. An `int` is its 32 bits.
abbrev pub get_current_num : Confreg → ℕ
get_current_num c = u32 (shr c.ctx0.v_num 24)

abbrev pub get_acked_num : Confreg → ℕ
get_acked_num c = bit_and c.ctx0.v_num 0xff
