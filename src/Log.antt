-- ===== src/Log.antt =====
-- The logging of verilate/vsrc/common.cpp: the context `_ctx` and what reaches the two standard
-- streams. A message is the text that `vfprintf` makes of it, as bytes. The lock is held by each
-- function as a whole.
pub mod Buffer
use riscv_single_cycle_cpu.Base.{
  ℕ, Bool, true, false, List, [], ◌∷◌, ◌++◌, ◌==◌, leb, ◌&&◌, ◌||◌, if◌then◌else◌, length,
}

pub record LogCtx : Type 0 where
  pub debug_enabled : Bool
  pub log_enabled : Bool
  pub status_enabled : Bool
  pub in_status_line : Bool
  pub char_buffer : List ℕ
  pub out : List ℕ
  pub err : List ℕ

abbrev pub max_buffer_size : ℕ
max_buffer_size = 1024

abbrev pub move_to_front : List ℕ
move_to_front = 13 ∷ []

abbrev pub clear_to_right : List ℕ
clear_to_right = 27 ∷ b'[' ∷ b'K' ∷ []

unfoldable pub put_out : List ℕ → LogCtx → LogCtx
put_out text c = record c { out = c.out ++ text }

unfoldable pub put_err : List ℕ → LogCtx → LogCtx
put_err text c = record c { err = c.err ++ text }

unfoldable pub check_status_line : LogCtx → LogCtx
unfolding put_out
check_status_line c =
    if c.in_status_line
    then record (put_out (move_to_front ++ clear_to_right) c) { in_status_line = false }
    else c

unfoldable pub enable_debugging : Bool → LogCtx → LogCtx
enable_debugging enable c = record c { debug_enabled = enable }

unfoldable pub enable_logging : Bool → LogCtx → LogCtx
enable_logging enable c = record c { log_enabled = enable }

unfoldable pub enable_status_line : Bool → LogCtx → LogCtx
enable_status_line enable c = record c { status_enabled = enable }

-- `_log_debug`, and the macro `log_debug`
unfoldable pub print_debug : List ℕ → LogCtx → LogCtx
unfolding check_status_line put_out
print_debug message c = put_out message (check_status_line c)

unfoldable pub log_debug : List ℕ → LogCtx → LogCtx
unfolding print_debug
log_debug message c = if c.log_enabled && c.debug_enabled then print_debug message c else c

unfoldable pub info : List ℕ → LogCtx → LogCtx
unfolding check_status_line put_out
info message c = if c.log_enabled then put_out message (check_status_line c) else c

unfoldable pub warn : List ℕ → LogCtx → LogCtx
unfolding check_status_line put_err
warn message c = if c.log_enabled then put_err message (check_status_line c) else c

unfoldable pub notify : List ℕ → LogCtx → LogCtx
unfolding check_status_line put_err
notify message c = put_err message (check_status_line c)

-- `fputs(buf.data(), …)` prints up to the first byte 0.
unfoldable pub c_string : List ℕ → List ℕ
c_string [] = []
c_string (x ∷ xs) = if x == 0 then [] else x ∷ c_string xs

unfoldable pub notify_char : ℕ → LogCtx → LogCtx
notify_char ch c =
    let buf = c.char_buffer ++ (ch ∷ []) in
    if c.status_enabled
    then (if ch == 10 || leb max_buffer_size (length buf)
        then record (put_err (c_string buf) (check_status_line c)) { char_buffer = [] }
        else record c { char_buffer = buf })
    else put_err (ch ∷ []) c

unfoldable pub status_line : List ℕ → LogCtx → LogCtx
unfolding put_out
status_line message c =
    if c.status_enabled
    then put_out (move_to_front ++ (message ++ (clear_to_right ++ (b' ' ∷ []))))
        (record c { in_status_line = true })
    else c

unfoldable pub log_separator : LogCtx → LogCtx
unfolding put_out put_err
log_separator c = put_err (10 ∷ []) (put_out (10 ∷ []) c)
