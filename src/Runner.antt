-- ===== src/Runner.antt =====
-- `ProgramRunner` of verilate/include/runner.h: from the command line to the run of the model.
-- The parser of the command line, CLI11, is a parameter: it changes the arguments, or ends the
-- program. So are the files, and the type of floating point numbers. What `main` does to the model
-- is the list of its calls; `none` is a failed assertion, or the end of the program by the parser.
pub mod Calls
use riscv_single_cycle_cpu.Base.{
  ℕ, ◌*◌, Bool, true, false, Option, some, List, [], ◌∷◌, ◌++◌, not, ◌&&◌, if◌then◌else◌, ◌>>=◌,
}
use riscv_single_cycle_cpu.Text.Image.{codes, text_eq, is_empty, parse_memory_file}
use riscv_single_cycle_cpu.Memory.Block.{BlockMemory, block_of_data}

-- `MEMORY_SIZE` of verilate/include/common.h
abbrev pub memory_size : ℕ
memory_size = 1024 * 1024

abbrev pub default_memfile : List ℕ
default_memfile = codes "misc/nscscc/func_test.coe"

abbrev pub default_ref_trace : List ℕ
default_ref_trace = codes "misc/nscscc/func_test.txt"

abbrev pub default_pty : List ℕ
default_pty = codes "build/vpty"

abbrev pub default_fst_folder : List ℕ
default_fst_folder = codes "build"

pub record Args (F : Type 0) : Type 0 where
  pub fst_trace_path : List ℕ
  pub text_trace_path : List ℕ
  pub memfile_path : List ℕ
  pub ref_trace_path : List ℕ
  pub pty_path : List ℕ
  pub fst_folder : List ℕ
  pub num_workers : ℕ
  pub status_enable : Bool
  pub debug_enable : Bool
  pub p_disable : F
  pub force_diff : Bool

abbrev pub default_args : {F : Type 0} → F → Args F
default_args zero_float = record {
  fst_trace_path = [];
  text_trace_path = [];
  memfile_path = default_memfile;
  ref_trace_path = [];
  pty_path = default_pty;
  fst_folder = default_fst_folder;
  num_workers = 1;
  status_enable = true;
  debug_enable = false;
  p_disable = zero_float;
  force_diff = false;
}

-- The flags that the caller sets before `main`.
pub record Setup : Type 0 where
  pub init_memory : Bool
  pub init_text_trace : Bool
  pub init_fst_trace : Bool
  pub init_soc : Bool
  pub init_pty : Bool
  pub set_num_workers : Bool
  pub set_fst_folder : Bool

abbrev pub default_setup : Setup
default_setup = record {
  init_memory = true;
  init_text_trace = true;
  init_fst_trace = true;
  init_soc = true;
  init_pty = true;
  set_num_workers = false;
  set_fst_folder = false;
}

unfoldable pub no_init_memory : Setup → Setup
no_init_memory s = record s { init_memory = false }

unfoldable pub no_init_text_trace : Setup → Setup
no_init_text_trace s = record s { init_text_trace = false }

unfoldable pub no_init_fst_trace : Setup → Setup
no_init_fst_trace s = record s { init_fst_trace = false }

unfoldable pub no_soc : Setup → Setup
no_soc s = record s { init_soc = false }

unfoldable pub no_pty : Setup → Setup
no_pty s = record s { init_pty = false }

unfoldable pub with_fst_folder : Setup → Setup
with_fst_folder s = record s { set_fst_folder = true }

unfoldable pub with_workers : Setup → Setup
with_workers s = record s { set_num_workers = true }

-- The options that the parser is told of.
pub data CliOption : Type 0 where
  memfile fst_trace text_trace ref_trace pty fst_folder_option num_workers_option : CliOption
  status debug p_disable_option force_diff_option : CliOption

abbrev pub offered_if : Bool → List CliOption → List CliOption
offered_if on opts = if on then opts else []

unfoldable pub options : Setup → List CliOption
options s =
    offered_if s.init_memory (memfile ∷ [])
    ++ (offered_if s.init_fst_trace (fst_trace ∷ [])
        ++ (offered_if s.init_text_trace (text_trace ∷ ref_trace ∷ [])
            ++ (offered_if s.init_pty (pty ∷ [])
                ++ (offered_if s.set_fst_folder (fst_folder_option ∷ [])
                    ++ (offered_if s.set_num_workers (num_workers_option ∷ [])
                        ++ (status ∷ debug ∷ p_disable_option ∷ force_diff_option ∷ []))))))

-- The calls that `main` makes: the three switches of the log, then those of the model.
pub data Call (F : Type 0) : Type 0 where
  enable_logging enable_status_line enable_debugging : Bool → Call F
  set_p_disable : F → Call F
  set_force_diff : Bool → Call F
  install_soc install_memory : BlockMemory → Call F
  start_fst_trace start_text_trace open_pty call_set_fst_folder : List ℕ → Call F
  call_set_num_workers : ℕ → Call F
  run delete_model : Call F

-- The reference trace of the default program.
unfoldable pub resolve_ref_trace : {F : Type 0} → Args F → Args F
resolve_ref_trace args =
    if text_eq args.memfile_path default_memfile && is_empty args.ref_trace_path
    then record args { ref_trace_path = default_ref_trace }
    else args

abbrev pub call_if : {F : Type 0} → Bool → Call F → List (Call F)
call_if on call = if on then call ∷ [] else []

module _ {F : Type 0} (parse : List CliOption → List (List ℕ) → Args F → Option (Args F))
    (open_file : List ℕ → Option (List ℕ)) where
  -- The memory, with the image if there is one.
  unfoldable pub make_memory : Setup → Args F → Option BlockMemory
  make_memory s args =
      (if s.init_memory
        then parse_memory_file args.memfile_path (open_file args.memfile_path)
        else some [])
      >>= λ image. block_of_data memory_size image 0

  -- `top` with its devices and its traces.
  unfoldable pub set_up : Setup → Args F → BlockMemory → List (Call F)
  set_up s args mem =
      (if s.init_soc then install_soc mem else install_memory mem)
      ∷ (call_if (s.init_fst_trace && not (is_empty args.fst_trace_path))
            (start_fst_trace args.fst_trace_path)
          ++ (call_if (s.init_text_trace && not (is_empty args.text_trace_path))
                (start_text_trace args.text_trace_path)
              ++ (call_if (s.init_pty && not (is_empty args.pty_path)) (open_pty args.pty_path)
                  ++ (call_if s.set_fst_folder (call_set_fst_folder args.fst_folder)
                      ++ call_if s.set_num_workers (call_set_num_workers args.num_workers)))))

  unfoldable pub main : F → Setup → List (List ℕ) → Option (List (Call F))
  unfolding options resolve_ref_trace make_memory set_up
  main zero_float s argv = do
    parsed ← parse (options s) argv (default_args zero_float)
    let args = resolve_ref_trace parsed
    mem ← make_memory s args
    some (
        enable_logging true
        ∷ enable_status_line args.status_enable
        ∷ enable_debugging args.debug_enable
        ∷ set_p_disable args.p_disable
        ∷ set_force_diff args.force_diff
        ∷ (set_up s args mem ++ (run ∷ delete_model ∷ [])))
