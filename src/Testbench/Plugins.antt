-- ===== src/Testbench/Plugins.antt =====
-- The plugins of a test, verilate/include/testbench.h: what stands between `WITH` and the source
-- code of a test.
pub mod Nesting
use riscv_single_cycle_cpu.Base.{ℕ, Bool, true, false, List, [], ◌∷◌, ◌++◌, if◌then◌else◌, some}
use riscv_single_cycle_cpu.Testbench.{TestbenchStatus, finished, skipped, Test, Bench}

-- The functions that the plugins call: the switches of the log and those of the model, `top`.
pub record Controls (W : Type 0) : Type 0 where
  pub enable_logging : Bool → W → W
  pub enable_debugging : Bool → W → W
  pub enable_status_line : Bool → W → W
  pub reset : W → W
  pub enable_fst_trace : Bool → W → W
  pub start_fst_trace : ℕ → W → W
  pub stop_fst_trace : W → W
  pub enable_statistics : Bool → W → W
  pub reset_statistics : W → W
  pub print_statistics : ℕ → W → W

pub data Plugin : Type 0 where
  top_reset skip log debug status trace stat : Plugin

-- A block of a test so far: the world, what it deferred, in order, and whether it has returned.
pub record Progress (W : Type 0) : Type 0 where
  pub world : W
  pub deferred : List (W → W)
  pub returned : TestbenchStatus

module _ {W : Type 0} where
  -- `ENABLE_WITH_BOTH_FN`
  unfoldable pub enable_with_both_fn : (Bool → W → W) → (W → W) → (W → W) → Progress W → Progress W
  enable_with_both_fn controller pre_fn post_fn p = record p {
    world = pre_fn (controller true p.world);
    deferred = p.deferred ++ ((λ w. controller false (post_fn w)) ∷ []);
  }

  -- `ENABLE_WITH_FN` and `ENABLE`
  unfoldable pub enable_with_fn : (Bool → W → W) → (W → W) → Progress W → Progress W
  unfolding enable_with_both_fn
  enable_with_fn controller fn p = enable_with_both_fn controller fn (λ w. w) p

  unfoldable pub enable : (Bool → W → W) → Progress W → Progress W
  unfolding enable_with_fn
  enable controller p = enable_with_fn controller (λ w. w) p

  -- One plugin; `run_all` is `TESTBENCH_RUN_ALL`.
  unfoldable pub plugin : Controls W → Bool → ℕ → Plugin → Progress W → Progress W
  unfolding enable_with_both_fn enable
  plugin top run_all name top_reset p = record p { world = top.reset p.world }
  plugin top run_all name skip p = if run_all then p else record p { returned = skipped }
  plugin top run_all name log p = enable top.enable_logging p
  plugin top run_all name debug p = enable top.enable_debugging p
  plugin top run_all name status p = enable top.enable_status_line p
  plugin top run_all name trace p =
      enable_with_both_fn top.enable_fst_trace (λ w. top.reset (top.start_fst_trace name w))
        top.stop_fst_trace p
  plugin top run_all name stat p =
      enable_with_both_fn top.enable_statistics top.reset_statistics (top.print_statistics name) p

  -- The plugins in order, up to a `return`.
  unfoldable pub plugins : Controls W → Bool → ℕ → List Plugin → Progress W → Progress W
  unfolding plugin
  plugins top run_all name [] p = p
  plugins top run_all name (x ∷ xs) p =
      let rest = plugins top run_all name xs (plugin top run_all name x p) in
      elim (plugin top run_all name x p).returned [
        | finished ↦ rest
        | skipped ↦ plugin top run_all name x p
      ]

  -- the rest of the test, where no plugin has returned
  abbrev pub reach_end :
      (W → W) → W → List (W → W) → TestbenchStatus → W × List (W → W) × TestbenchStatus
  reach_end source w fs finished = (source w, fs, finished)
  reach_end source w fs skipped = (w, fs, skipped)

  -- the setters that `PRETEST_HOOK` and `POSTTEST_HOOK` declare
  unfoldable pub pretest_hook_setter : (W → W) → Bench W → Bench W
  pretest_hook_setter fn b = record b { pretest_hook = fn }

  unfoldable pub posttest_hook_setter : (W → W) → Bench W → Bench W
  posttest_hook_setter fn b = record b { posttest_hook = fn }

  -- `WITH` plugins, source code, `AS` a name.
  unfoldable pub with_plugins : Controls W → Bool → List Plugin → (W → W) → ℕ → Test W
  unfolding plugins
  with_plugins top run_all xs source name = record {
    name = name;
    body = λ w.
        let p =
          plugins top run_all name xs (record { world = w; deferred = []; returned = finished }) in
        let done = reach_end source p.world p.deferred p.returned in (done.0, done.1, some done.2);
  }
