-- ===== src/Testbench/Plugins/Nesting.antt =====
-- The plugins of a test nest: each undoes what it did after everything inside it.
use riscv_single_cycle_cpu.Base.{
  ℕ, Bool, true, false, ◌&&◌, ◌≡◌, refl, ap, ◌∙◌, List, [], ◌∷◌, ◌++◌, if◌then◌else◌, some,
}
use riscv_single_cycle_cpu.Testbench.{
  TestbenchStatus, finished, skipped, Bench, passes, told, run_reversed, run, Message, ok,
}
use riscv_single_cycle_cpu.Testbench.Serial.{IsReady, run-some}
use riscv_single_cycle_cpu.Testbench.Plugins.{
  Controls, Plugin, top_reset, skip, log, debug, status, trace, stat, Progress, plugin, plugins,
  with_plugins, reach_end,
}

module _ {W : Type 0} (top : Controls W) (name : ℕ) where
  -- what a plugin does at once, and what it undoes at the end
  abbrev pub before : Plugin → W → W
  before top_reset w = top.reset w
  before skip w = w
  before log w = top.enable_logging true w
  before debug w = top.enable_debugging true w
  before status w = top.enable_status_line true w
  before trace w = top.reset (top.start_fst_trace name (top.enable_fst_trace true w))
  before stat w = top.reset_statistics (top.enable_statistics true w)

  abbrev pub after : Plugin → W → W
  after top_reset w = w
  after skip w = w
  after log w = top.enable_logging false w
  after debug w = top.enable_debugging false w
  after status w = top.enable_status_line false w
  after trace w = top.enable_fst_trace false (top.stop_fst_trace w)
  after stat w = top.enable_statistics false (top.print_statistics name w)

  -- The source code within its plugins. From a `SKIP` on nothing runs, unless all tests do.
  abbrev pub within : Bool → List Plugin → (W → W) → W → W
  within run_all [] source w = source w
  within run_all (skip ∷ xs) source w =
      let rest = within run_all xs source w in if run_all then rest else w
  within run_all (x ∷ xs) source w = after x (within run_all xs source (before x w))

  -- the end of a test: the source code unless it has returned, then what was deferred
  abbrev close : (W → W) → Progress W → W
  close source p =
      run_reversed p.deferred (elim p.returned [ finished ↦ source p.world | skipped ↦ p.world ])

  run_reversed-append :
      (fs : List (W → W)) (f : W → W) (w : W)
      → run_reversed (fs ++ f ∷ []) w ≡ run_reversed fs (f w)
  run_reversed-append [] f w = refl
  run_reversed-append (g ∷ fs) f w = ap g (run_reversed-append fs f w)

  close-plugins :
      (run_all : Bool) (xs : List Plugin) (source : W → W) (w : W) (fs : List (W → W))
      → close source
          (plugins top run_all name xs (record { world = w; deferred = fs; returned = finished }))
        ≡ run_reversed fs (within run_all xs source w)
  unfolding plugins plugin
  close-plugins run_all [] source w fs = refl
  close-plugins true (skip ∷ xs) source w fs = close-plugins true xs source w fs
  close-plugins false (skip ∷ xs) source w fs = refl
  close-plugins run_all (top_reset ∷ xs) source w fs =
      close-plugins run_all xs source (before top_reset w) fs
  close-plugins run_all (log ∷ xs) source w fs =
      close-plugins run_all xs source (before log w) (fs ++ after log ∷ [])
      ∙ run_reversed-append fs (after log) _
  close-plugins run_all (debug ∷ xs) source w fs =
      close-plugins run_all xs source (before debug w) (fs ++ after debug ∷ [])
      ∙ run_reversed-append fs (after debug) _
  close-plugins run_all (status ∷ xs) source w fs =
      close-plugins run_all xs source (before status w) (fs ++ after status ∷ [])
      ∙ run_reversed-append fs (after status) _
  close-plugins run_all (trace ∷ xs) source w fs =
      close-plugins run_all xs source (before trace w) (fs ++ after trace ∷ [])
      ∙ run_reversed-append fs (after trace) _
  close-plugins run_all (stat ∷ xs) source w fs =
      close-plugins run_all xs source (before stat w) (fs ++ after stat ∷ [])
      ∙ run_reversed-append fs (after stat) _

  -- whether the source code runs
  abbrev pub runs : Bool → List Plugin → Bool
  runs run_all [] = true
  runs run_all (skip ∷ xs) = run_all && runs run_all xs
  runs run_all (x ∷ xs) = runs run_all xs

  abbrev status_of : Bool → TestbenchStatus
  status_of reached = if reached then finished else skipped

  returned-plugins :
      (run_all : Bool) (xs : List Plugin) (w : W) (fs : List (W → W))
      → (plugins top run_all name xs
          (record { world = w; deferred = fs; returned = finished })).returned
        ≡ status_of (runs run_all xs)
  unfolding plugins plugin
  returned-plugins run_all [] w fs = refl
  returned-plugins true (skip ∷ xs) w fs = returned-plugins true xs w fs
  returned-plugins false (skip ∷ xs) w fs = refl
  returned-plugins run_all (top_reset ∷ xs) w fs =
      returned-plugins run_all xs (before top_reset w) fs
  returned-plugins run_all (log ∷ xs) w fs =
      returned-plugins run_all xs (before log w) (fs ++ after log ∷ [])
  returned-plugins run_all (debug ∷ xs) w fs =
      returned-plugins run_all xs (before debug w) (fs ++ after debug ∷ [])
  returned-plugins run_all (status ∷ xs) w fs =
      returned-plugins run_all xs (before status w) (fs ++ after status ∷ [])
  returned-plugins run_all (trace ∷ xs) w fs =
      returned-plugins run_all xs (before trace w) (fs ++ after trace ∷ [])
  returned-plugins run_all (stat ∷ xs) w fs =
      returned-plugins run_all xs (before stat w) (fs ++ after stat ∷ [])

  at_end :
      (source : W → W) (w : W) (fs : List (W → W)) (s : TestbenchStatus)
      → (run_reversed (reach_end source w fs s).1 (reach_end source w fs s).0
          ≡ close source (record { world = w; deferred = fs; returned = s }))
        × ((reach_end source w fs s).2 ≡ s)
  at_end source w fs finished = (refl, refl)
  at_end source w fs skipped = (refl, refl)

  body_lem :
      (run_all : Bool) (xs : List Plugin) (source : W → W) (w : W)
      → let done = (with_plugins top run_all xs source name).body w in
        (run_reversed done.1 done.0 ≡ within run_all xs source w)
        × (done.2 ≡ some (status_of (runs run_all xs)))
  unfolding with_plugins
  body_lem run_all xs source w =
      let p =
        plugins top run_all name xs (record { world = w; deferred = []; returned = finished }) in
      let (closed, status_is) = at_end source p.world p.deferred p.returned in
      (
        closed ∙ close-plugins run_all xs source w [],
        ap (λ x. some x) (status_is ∙ returned-plugins run_all xs w []),
      )

  message_if :
      (reached : Bool)
      → told name (status_of reached) ≡ (if reached then ok name else Message.skip name)
  message_if true = refl
  message_if false = refl

  -- A test with plugins: the pre-test hook, then the plugins in order, each with what it undoes
  -- after everything that follows it, around the source code, which a `SKIP` before it leaves out
  -- together with the plugins after it, unless all tests are to run; last the post-test hook. The
  -- message says whether the source code ran.
  pub run-with_plugins :
      (run_all : Bool) (xs : List Plugin) (source : W → W) (b : Bench W)
      → IsReady b
      → run (with_plugins top run_all xs source name) b
        ≡ passes (record b {
          world = b.posttest_hook (within run_all xs source (b.pretest_hook b.world));
          log = b.log ++ (if runs run_all xs then ok name else Message.skip name) ∷ [];
        })
  unfolding with_plugins
  run-with_plugins run_all xs source b ready =
      let (same, returns) = body_lem run_all xs source (b.pretest_hook b.world) in
      run-some (with_plugins top run_all xs source name) b ready returns
      ∙ rw same (
          ap
            (λ (m : Message). passes (record b {
              world = b.posttest_hook (within run_all xs source (b.pretest_hook b.world));
              log = b.log ++ m ∷ [];
            }))
            (message_if (runs run_all xs)))
