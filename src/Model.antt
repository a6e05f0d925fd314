-- ===== src/Model.antt =====
-- `ModelBase` of verilate/include/model.h and verilate/vsrc/model.cpp: the installed devices, the
-- two traces, and the check of the number register. What Verilator generates is not in the
-- repository: writing an FST file is a list of the times of its dumps, and `eval` changes nothing
-- that is kept here. `none` is a failed assertion, a null pointer, or a read of `_fst_enabled`
-- before it is set: the constructor does not set it. A path and a message are bytes.
pub mod Monitor
pub mod TextTrace
use riscv_single_cycle_cpu.Base.{
  ℕ, zero, suc, ◌+◌, ◌*◌, ◌/◌, ◌%◌, ◌^◌, Bool, true, false, Option, none, some, List, [], ◌∷◌, ◌++◌,
  ◌==◌, ltb, leb, not, ◌&&◌, ◌||◌, if◌then◌else◌, ◌>>=◌, ◌>>◌, asserts, add64, u32, length, take,
}
use riscv_single_cycle_cpu.Confreg.Pty
use riscv_single_cycle_cpu.Confreg.Pty.{Pty}
use riscv_single_cycle_cpu.Log
use riscv_single_cycle_cpu.Log.{LogCtx}
use riscv_single_cycle_cpu.Memory.Block.{BlockMemory}
use riscv_single_cycle_cpu.Confreg
use riscv_single_cycle_cpu.Confreg.{
  Confreg, get_current_num, monitor_enabled, has_char, get_char, get_acked_num,
}

-- What `dev` answers with: the SoC router, or the memory alone.
pub data Installed : Type 0 where
  nothing : Installed
  soc : BlockMemory → Confreg → Installed
  plain : BlockMemory → Installed

-- An FST file: its path, the times of its dumps, and whether it is open.
pub record FstFile : Type 0 where
  pub path : List ℕ
  pub times : List ℕ

pub record Model : Type 0 where
  pub installed : Installed
  pub memory_installed : Bool
  pub num_workers : ℕ
  pub fst_folder : List ℕ
  pub fst_enabled : Option Bool
  pub fst_count : ℕ
  pub fst_tfp : Option FstFile
  pub closed_fst : List FstFile
  pub text_tfp : Option (List (List ℕ))
  pub closed_text : List (List (List ℕ))
  pub current_num : ℕ
  pub log : LogCtx

-- The constructor.
abbrev pub fresh : LogCtx → Model
fresh log = record {
  installed = nothing;
  memory_installed = false;
  num_workers = 1;
  fst_folder = [];
  fst_enabled = none;
  fst_count = 0;
  fst_tfp = none;
  closed_fst = [];
  text_tfp = none;
  closed_text = [];
  current_num = 0;
  log = log;
}

abbrev pub is_some {ℓ} : {A : Type ℓ} → Option A → Bool
is_some none = false
is_some (some a) = true

-- `new_confreg` is the state that the constructor of `Confreg` leaves.
unfoldable pub install_soc : BlockMemory → Confreg → Model → Option Model
install_soc mem new_confreg m = do
  asserts (not m.memory_installed)
  some (record m { installed = soc mem new_confreg; memory_installed = true })

unfoldable pub install_memory : BlockMemory → Model → Option Model
install_memory mem m = do
  asserts (not m.memory_installed)
  some (record m { installed = plain mem; memory_installed = true })

unfoldable pub remove_memory : Model → Option Model
remove_memory m = do
  asserts m.memory_installed
  some (record m { installed = nothing; memory_installed = false })

abbrev pub time_scale : ℕ
time_scale = 10

unfoldable pub fst_avail : Model → Bool
fst_avail m = is_some m.fst_tfp

unfoldable pub enable_fst_trace : Bool → Model → Model
enable_fst_trace enable m = record m { fst_enabled = some enable }

unfoldable pub fst_time : Model → ℕ
fst_time m = m.fst_count * time_scale % 2 ^ 64

unfoldable pub fst_advance : ℕ → Model → Option Model
fst_advance incr m = do
  enabled ← m.fst_enabled
  some (if enabled then record m { fst_count = add64 m.fst_count incr } else m)

unfoldable pub fst_dump : ℕ → Model → Option Model
unfolding fst_time
fst_dump offset m = do
  enabled ← m.fst_enabled
  some (
      if enabled
      then record m {
        fst_tfp = elim m.fst_tfp [
          | none ↦ none
          | some file ↦
              some (record file { times = file.times ++ (add64 (fst_time m) offset ∷ []) })
        ];
      }
      else m)

-- `opens` says whether the file could be opened.
-- `_fst_path`
abbrev pub fst_path : Model → List ℕ → List ℕ
fst_path m path = elim m.fst_folder as (λ f. List ℕ) [
  | [] ↦ path
  | ◌∷◌ c cs ↦ (c ∷ cs) ++ (b'/' ∷ path)
]

unfoldable pub start_fst_trace : List ℕ → Bool → Model → Option Model
unfolding fst_avail enable_fst_trace fst_dump
start_fst_trace path opens m = do
  asserts (not (fst_avail m))
  asserts opens
  fst_dump 0 (
      enable_fst_trace true (record m {
        fst_count = 0;
        fst_tfp = some (record { path = fst_path m path; times = [] });
      }))

abbrev pub keep_closed : Option FstFile → List FstFile → List FstFile
keep_closed none files = files
keep_closed (some file) files = files ++ (file ∷ [])

-- The message about the time is left out.
unfoldable pub stop_fst_trace : Model → Option Model
unfolding fst_avail enable_fst_trace fst_dump
stop_fst_trace m =
    if fst_avail m
    then (fst_dump time_scale (enable_fst_trace true m) >>= λ m'.
        some (record m' { fst_tfp = none; closed_fst = keep_closed m'.fst_tfp m'.closed_fst }))
    else some m

unfoldable pub text_avail : Model → Bool
text_avail m = is_some m.text_tfp

unfoldable pub start_text_trace : Bool → Model → Option Model
unfolding text_avail
start_text_trace opens m = do
  asserts (not (text_avail m))
  asserts opens
  some (record m { text_tfp = some [] })

unfoldable pub stop_text_trace : Model → Model
stop_text_trace m = elim m.text_tfp [
  | none ↦ m
  | some lines ↦ record m { text_tfp = none; closed_text = m.closed_text ++ (lines ∷ []) }
]

-- The destructor.
unfoldable pub destroy : Model → Option Model
unfolding stop_fst_trace stop_text_trace
destroy m = stop_fst_trace m >>= λ m'. some (stop_text_trace m')

-- `%0wx` of a 32-bit value: at least `w` hexadecimal digits, with no zeros before the others.
abbrev pub hex_digit : ℕ → ℕ
hex_digit d = if ltb d 10 then b'0' + d else 87 + d

abbrev pub hex_digits : ℕ → ℕ → List ℕ
hex_digits zero v = []
hex_digits (suc n) v = hex_digit (v / 16 ^ n % 16) ∷ hex_digits n v

-- The digits of a value of at most `n` digits, with zeros to `w` of them.
unfoldable pub print_hex : ℕ → ℕ → ℕ → List ℕ
print_hex w zero v = []
print_hex w (suc n) v =
    let rest = print_hex w n v in
    if leb (suc n) w || leb (16 ^ n) v then hex_digits (suc n) v else rest

abbrev pub trace_limit : ℕ
trace_limit = 64

-- `snprintf(buf, TEXT_TRACE_MAX_LEN, "%01x %08x %02x %08x", enable, pc, id, value)`; an argument
-- of `%x` is read as 32 bits.
unfoldable pub trace_line : Bool → ℕ → ℕ → ℕ → List ℕ
trace_line enable pc id value = take 63 (
    print_hex 1 8 (if enable then 1 else 0)
    ++ (32 ∷ print_hex 8 8 (u32 pc)
        ++ (32 ∷ print_hex 2 8 (u32 id) ++ (32 ∷ print_hex 8 8 (u32 value)))))

unfoldable pub text_dump : Bool → ℕ → ℕ → ℕ → Model → Model
unfolding trace_line
text_dump enable pc id value m = elim m.text_tfp [
  | none ↦ m
  | some lines ↦ record m { text_tfp = some (lines ++ (trace_line enable pc id value ∷ [])) }
]

-- `ticks`; `tick` is a method of the class that is derived.
unfoldable pub ticks : ℕ → (Model → Option Model) → Model → Option Model
ticks zero tick m = some m
ticks (suc count) tick m = tick m >>= ticks count tick

-- `completed` is the text `(info) #%d completed.`, in blue.
unfoldable pub check_num : (ℕ → List ℕ) → Confreg → Model → Option Model
check_num completed con m = if m.current_num == get_current_num con then some m else do
  asserts (u32 (m.current_num + 1) == get_current_num con)
  asserts (get_acked_num con == get_current_num con)
  some (record m {
    current_num = get_current_num con;
    log = Log.info (completed (get_current_num con)) m.log;
  })

unfoldable pub checkout_confreg : (ℕ → List ℕ) → Model → Option Model
unfolding check_num
checkout_confreg completed m = elim m.installed [
  | nothing ↦ none
  | plain mem ↦ none
  | soc mem con ↦ (if monitor_enabled con then check_num completed con m else some m) >>= λ m'.
      some (
        if has_char con && leb (get_char con) 0x7f
        then record m' { log = Log.notify_char (get_char con) m'.log }
        else m')
]

-- `completed` is the text, as in `check_num`.
unfoldable pub print_num_monitor : (ℕ → List ℕ) → ℕ → Model → Model
print_num_monitor completed num m = record m { log = Log.info (completed num) m.log }

-- The registers with their pseudo terminal are there after `install_soc`.
unfoldable pub open_pty : List ℕ → Bool → Bool → Option Pty → Option (Option Pty)
open_pty connected reads writes con = elim con [
  | none ↦ some none
  | some pty ↦ Pty.open_pty connected reads writes pty >>= λ opened. some (some opened)
]

unfoldable pub set_num_workers : ℕ → Model → Model
set_num_workers n_workers m = record m { num_workers = n_workers }

unfoldable pub set_fst_folder : List ℕ → Model → Model
set_fst_folder folder m = record m { fst_folder = folder }
