-- ===== src/Runner/Calls.antt =====
-- The calls that `ProgramRunner::main` of verilate/include/runner.h makes, performed on the model of
-- verilate/vsrc/model.cpp.
use riscv_single_cycle_cpu.Base.{
  >>=-some, ℕ, ◌≡◌, ◌∙◌, refl, arith, Bool, true, false, Option, none, some, List, [], ◌∷◌, ◌++◌,
  not, ◌&&◌, ◌||◌, if◌then◌else◌, ◌>>=◌, Bool-cases, Option-cases, inl, inr,
}
use riscv_single_cycle_cpu.Confreg.{Confreg}
use riscv_single_cycle_cpu.Confreg.Pty
use riscv_single_cycle_cpu.Worker
use riscv_single_cycle_cpu.Worker.{ThreadWorker, World, idle_worker}
use riscv_single_cycle_cpu.Log
use riscv_single_cycle_cpu.Log.{LogCtx}
use riscv_single_cycle_cpu.Memory.Block.{BlockMemory}
use riscv_single_cycle_cpu.Model
use riscv_single_cycle_cpu.Model.{
  Model, fresh, fst_path, nothing, soc, plain, fst_avail, enable_fst_trace, fst_dump, fst_time,
  text_avail, destroy,
}
use riscv_single_cycle_cpu.Runner.{
  Args, Setup, CliOption, Call, options, default_args, make_memory, main, resolve_ref_trace,
  default_memfile, default_ref_trace, enable_logging, enable_status_line, enable_debugging,
  set_p_disable, set_force_diff, install_soc, install_memory, start_fst_trace, start_text_trace,
  open_pty, call_set_fst_folder, call_set_num_workers, run, delete_model, set_up,
}
use riscv_single_cycle_cpu.Text.Image.{is_empty, text_eq}

-- The model with its public fields, the probability that its device was given, and what its
-- pseudo terminal needs beside the registers: whether the input is open, the worker that reads
-- from it, and the threads.
pub record Top (F : Type 0) : Type 0 where
  pub model : Model
  pub p_disable : F
  pub force_diff : Bool
  pub device_p : Option F
  pub ipty : Bool
  pub worker : ThreadWorker
  pub world : World

-- `TModel()`
abbrev pub new_top : {F : Type 0} → F → LogCtx → Top F
new_top zero_float log = record {
  model = fresh log;
  p_disable = zero_float;
  force_diff = false;
  device_p = none;
  ipty = false;
  worker = idle_worker;
  world = record { flags = []; threads = [] };
}

-- Which paths open for an FST trace, a text trace, and the two ends of the terminal, and the
-- message of the terminal.
pub record Files : Type 0 where
  pub fst_opens : List ℕ → Bool
  pub text_opens : List ℕ → Bool
  pub reads : List ℕ → Bool
  pub writes : List ℕ → Bool
  pub connected : List ℕ → List ℕ

-- The traces and the terminal that the arguments and the switches of the program ask for.
abbrev pub wants_fst : {F : Type 0} → Setup → Args F → Bool
wants_fst s args = s.init_fst_trace && not (is_empty args.fst_trace_path)

abbrev pub wants_text : {F : Type 0} → Setup → Args F → Bool
wants_text s args = s.init_text_trace && not (is_empty args.text_trace_path)

abbrev pub wants_pty : {F : Type 0} → Setup → Args F → Bool
wants_pty s args = s.init_soc && s.init_pty && not (is_empty args.pty_path)

module _ {F : Type 0} (files : Files) (con : Confreg) (run_model : Top F → Option (Top F)) where
  -- A call that only changes the model.
  abbrev pub on_model : Option Model → Top F → Option (Top F)
  on_model x t = x >>= λ m. some (record t { model = m })

  unfoldable pub perform_open_pty : List ℕ → Top F → Option (Top F)
  unfolding Model.open_pty Pty.open_pty
  perform_open_pty path t = elim t.model.installed [
    | nothing ↦ some t
    | plain mem ↦ some t
    | soc mem c ↦
        Pty.open_pty (files.connected path) (files.reads path) (files.writes path)
          (record { con = c; ipty = t.ipty; worker = t.worker; world = t.world; log = t.model.log })
        >>= λ pty. some (record t {
          model = record t.model { installed = soc mem pty.con; log = pty.log };
          ipty = pty.ipty;
          worker = pty.worker;
          world = pty.world;
        })
  ]

  -- The effect of a call. `run_model` is the run of the derived class.
  unfoldable pub perform : Call F → Top F → Option (Top F)
  unfolding Model.install_soc Model.install_memory Model.start_fst_trace Model.start_text_trace
      Model.set_fst_folder Model.set_num_workers Model.destroy Log.enable_logging
      Log.enable_status_line Log.enable_debugging perform_open_pty
  perform (enable_logging on) t =
      on_model (some (record t.model { log = Log.enable_logging on t.model.log })) t
  perform (enable_status_line on) t =
      on_model (some (record t.model { log = Log.enable_status_line on t.model.log })) t
  perform (enable_debugging on) t =
      on_model (some (record t.model { log = Log.enable_debugging on t.model.log })) t
  perform (set_p_disable p) t = some (record t { p_disable = p })
  perform (set_force_diff on) t = some (record t { force_diff = on })
  perform (install_soc mem) t =
      on_model (Model.install_soc mem con t.model) (record t { device_p = some t.p_disable })
  perform (install_memory mem) t =
      on_model (Model.install_memory mem t.model) (record t { device_p = some t.p_disable })
  perform (start_fst_trace path) t =
      on_model (Model.start_fst_trace path (files.fst_opens (fst_path t.model path)) t.model) t
  perform (start_text_trace path) t =
      on_model (Model.start_text_trace (files.text_opens path) t.model) t
  perform (open_pty path) t = perform_open_pty path t
  perform (call_set_fst_folder folder) t = on_model (some (Model.set_fst_folder folder t.model)) t
  perform (call_set_num_workers n) t = on_model (some (Model.set_num_workers n t.model)) t
  perform run t = run_model t
  perform delete_model t = on_model (Model.destroy t.model) t

  unfoldable pub perform_all : List (Call F) → Top F → Option (Top F)
  unfolding perform
  perform_all [] t = some t
  perform_all (call ∷ calls) t = perform call t >>= perform_all calls

  -- Both ends of the terminal open.
  abbrev pub connects : Setup → Args F → Bool
  connects s args = wants_pty s args && files.reads args.pty_path && files.writes args.pty_path

  -- The model that a program of these arguments runs.
  abbrev pub configured : Setup → Args F → BlockMemory → LogCtx → Top F
  configured s args mem log =
      let started = Worker.loop (record { flags = []; threads = [] }) in
      record {
        model = record (fresh log) {
          installed =
              if s.init_soc then soc mem (record con { opty = connects s args }) else plain mem;
          memory_installed = true;
          fst_enabled = if wants_fst s args then some true else none;
          fst_tfp =
              if wants_fst s args
              then some (record { path = args.fst_trace_path; times = 0 ∷ [] })
              else none;
          text_tfp = if wants_text s args then some [] else none;
          fst_folder = if s.set_fst_folder then args.fst_folder else [];
          num_workers = if s.set_num_workers then args.num_workers else 1;
          log = if connects s args then Log.info (files.connected args.pty_path) log else log;
        };
        p_disable = args.p_disable;
        force_diff = args.force_diff;
        device_p = some args.p_disable;
        ipty = wants_pty s args && files.reads args.pty_path;
        worker = if connects s args then started.0 else idle_worker;
        world = if connects s args then started.1 else record { flags = []; threads = [] };
      }

  perform_all-append :
      (xs ys : List (Call F)) (t : Top F)
      → perform_all (xs ++ ys) t ≡ (perform_all xs t >>= perform_all ys)
  unfolding perform_all
  perform_all-append [] ys t = refl
  perform_all-append (x ∷ xs) ys t = elim (Option-cases (perform x t)) [
    | inl fails ↦ rw fails
    | inr (t', done) ↦ rw done (perform_all-append xs ys t')
  ]

  -- The run and the destructor of the model.
  abbrev pub run_and_delete : Top F → Option (Top F)
  run_and_delete t = run_model t >>= λ t'. on_model (Model.destroy t'.model) t'

  last_calls : (t : Top F) → perform_all (run ∷ delete_model ∷ []) t ≡ run_and_delete t
  unfolding perform_all perform
  last_calls t = elim (Option-cases (run_model t)) [
    | inl fails ↦ rw fails
    | inr (t', ran) ↦ rw ran (>>=-some (on_model (Model.destroy t'.model) t'))
  ]

-- The log with the three switches set.
unfoldable pub switched : {F : Type 0} → Args F → LogCtx → LogCtx
unfolding Log.enable_logging Log.enable_status_line Log.enable_debugging
switched args log =
    Log.enable_debugging args.debug_enable
      (Log.enable_status_line args.status_enable (Log.enable_logging true log))

module _ {F : Type 0} (parse : List CliOption → List (List ℕ) → Args F → Option (Args F))
    (open_file : List ℕ → Option (List ℕ)) (files : Files) (con : Confreg)
    (run_model : Top F → Option (Top F)) (unconnected : con.opty ≡ false) where
  -- The fields that `main` sets itself.
  abbrev public_fields : Args F → LogCtx → Top F
  public_fields args log = record (new_top args.p_disable log) { force_diff = args.force_diff }

  set_up-configured :
      (s : Setup) (args : Args F) (mem : BlockMemory) (log : LogCtx)
      → (not (wants_fst s args) || files.fst_opens args.fst_trace_path) ≡ true
      → (not (wants_text s args) || files.text_opens args.text_trace_path) ≡ true
      → perform_all files con run_model (set_up parse open_file s args mem) (public_fields args log)
        ≡ some (configured files con run_model s args mem log)
  unfolding perform_all perform perform_open_pty Pty.open_pty set_up Model.install_soc
      Model.install_memory Model.start_fst_trace Model.start_text_trace Model.set_fst_folder
      Model.set_num_workers fst_avail enable_fst_trace fst_dump fst_time text_avail Worker.move
  set_up-configured s args mem log fst_ok text_ok = ground arith

  -- The calls of `main` once the arguments and the memory are known.
  calls-configured :
      (zero_float : F) (s : Setup) (args : Args F) (mem : BlockMemory) (log : LogCtx)
      → (not (wants_fst s args) || files.fst_opens args.fst_trace_path) ≡ true
      → (not (wants_text s args) || files.text_opens args.text_trace_path) ≡ true
      → perform_all files con run_model
          (enable_logging true
            ∷ enable_status_line args.status_enable
            ∷ enable_debugging args.debug_enable
            ∷ set_p_disable args.p_disable
            ∷ set_force_diff args.force_diff
            ∷ (set_up parse open_file s args mem ++ run ∷ delete_model ∷ []))
          (new_top zero_float log)
        ≡ run_and_delete files con run_model
            (configured files con run_model s args mem (switched args log))
  unfolding perform_all perform switched
  calls-configured zero_float s args mem log fst_ok text_ok =
      perform_all-append files con run_model (set_up parse open_file s args mem)
        (run ∷ delete_model ∷ []) (public_fields args (switched args log))
      ∙ rw (set_up-configured s args mem (switched args log) fst_ok text_ok) (
          last_calls files con run_model
            (configured files con run_model s args mem (switched args log)))

  -- Suppose that the parser accepts the command line, that the memory can be made of the image,
  -- which the undefined shift of `map_bytes` prevents for an image of five bytes or more, and that
  -- the files of the traces that are asked for open. Then no assertion fails before the run: the
  -- model that runs has the devices with the pause probability, the traces, the terminal if both
  -- its ends open, the folder, the number of workers and the fields that the arguments and the
  -- switches of the program ask for, and the log is switched as they say. What is left afterwards
  -- is that run, followed by the destructor.
  pub main-configured :
      (zero_float : F) (s : Setup) (argv : List (List ℕ)) (log : LogCtx) {args : Args F}
      {mem : BlockMemory}
      → parse (options s) argv (default_args zero_float) ≡ some args
      → make_memory parse open_file s args ≡ some mem
      → (not (wants_fst s args) || files.fst_opens args.fst_trace_path) ≡ true
      → (not (wants_text s args) || files.text_opens args.text_trace_path) ≡ true
      → (main parse open_file zero_float s argv >>= λ calls.
          perform_all files con run_model calls (new_top zero_float log))
        ≡ run_and_delete files con run_model
            (configured files con run_model s args mem (switched args log))
  unfolding main resolve_ref_trace make_memory switched set_up
  main-configured zero_float s argv log {args} {mem} parsed image fst_ok text_ok =
      elim (Bool-cases
        (text_eq args.memfile_path default_memfile && is_empty args.ref_trace_path)) [
          | inl asks ↦
              rw (parsed, asks, image)
                (calls-configured zero_float s (record args { ref_trace_path = default_ref_trace })
                  mem log fst_ok text_ok)
          | inr keeps ↦
              rw (parsed, keeps, image) (calls-configured zero_float s args mem log fst_ok text_ok)
        ]
