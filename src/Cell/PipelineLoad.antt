-- ===== src/Cell/PipelineLoad.antt =====
-- The load that a cell of verilate/include/cell.h makes over the pipeline: its value goes through a
-- `uint32_t`.
use riscv_single_cycle_cpu.Base.{
  ℕ, ◌/◌, ◌≤◌, ◌≡◌, refl, ap, ◌∙◌, arith, false, Option, none, some, List, [], ◌∷◌, ◌++◌, length,
  take, get_elem?-middle, ltb,
}
use riscv_single_cycle_cpu.Bus.LoadOp.{Width, width8, parse, size8_sht0, apply_to}
use riscv_single_cycle_cpu.Bus.LoadOp.Placement.{bytes}
use riscv_single_cycle_cpu.Bus.Dbus.{DbusModel, msize8, add_base}
use riscv_single_cycle_cpu.Bus.Dbus.Contract.{Request, IsServed}
use riscv_single_cycle_cpu.Bus.Task.{Host, load_task, deliver, apply_load}
use riscv_single_cycle_cpu.Bus.Pipeline
use riscv_single_cycle_cpu.Bus.Pipeline.{Pipeline, max_ticks, submit, fence}
use riscv_single_cycle_cpu.Bus.Pipeline.Steps.{at, replay}
use riscv_single_cycle_cpu.Bus.Pipeline.Order.{submits, settled, run-replay}
use riscv_single_cycle_cpu.Cell.{pipeline_load, from_bytes, to_type, msize_of}
use riscv_single_cycle_cpu.Cell.Words.{Words, IsPlaced, respond_word, peek, apply-peek}
use riscv_single_cycle_cpu.Cell.Bytes.{
  length-take_le, set-middle, take-append, length-take_four, op_bytes-parse, to_type-from_bytes,
}

-- Eight bytes do not fit into an object of four.
deliver-small :
    (addr word : ℕ) (junk : List ℕ) (host : Host)
    → deliver
        (load_task addr msize8 (some (length host)) size8_sht0)
        word
        (host ++ (take 4 junk ∷ []))
      ≡ none
unfolding deliver apply_load
deliver-small addr word junk host =
    rw (get_elem?-middle host (take 4 junk) []) (ground (arith, length-take_le 4 junk))

-- The four bytes of the variable after the answer.
deliver-fits :
    (w : Width) (addr size word : ℕ) (junk : List ℕ) (host : Host)
    → bytes w ≤ 4
    → 4 ≤ length junk
    → deliver
        (load_task addr size (some (length host)) (parse w addr))
        word
        (host ++ (take 4 junk ∷ []))
      ≡ some (host ++ (apply_to (parse w addr) word (take 4 junk) ∷ []))
unfolding deliver apply_load
deliver-fits w addr size word junk host narrow enough = rw (
  get_elem?-middle host (take 4 junk) [],
  length-take_four junk enough,
  op_bytes-parse w addr,
  ltb-false,
  set-middle host (take 4 junk) (apply_to (parse w addr) word (take 4 junk)),
)
  where
    ltb-false : ltb 4 (bytes w) ≡ false
    ltb-false = ground arith

module _ {V M : Type 0} (b : DbusModel V) {respond : Request → M → ℕ × M} {latency : ℕ}
    (s : IsServed b respond latency) where
  none-settled : (x : Option (Pipeline V)) → settled b s x ≡ none → x ≡ none
  none-settled none h = refl
  none-settled (some p) h = cc

  -- A cell of eight bytes cannot be loaded over the pipeline. From a pipeline at rest, and on a
  -- design that answers within the ticks of the fence, the load writes eight bytes into the four
  -- of its variable, whatever is stored.
  pub pipeline_load-width8 :
      (junk : List ℕ) (addr : ℕ) (v : V) (host : Host)
      → s.request v ≡ none
      → latency ≤ max_ticks
      → pipeline_load b junk width8 addr (at v [] host) ≡ none
  unfolding pipeline_load Pipeline.load parse
  pipeline_load-width8 junk addr v host idle fast =
      let t = load_task addr msize8 (some (length host)) size8_sht0 in
      let done : fence b max_ticks (submit b t (at v [] (host ++ (take 4 junk ∷ [])))) ≡ none =
        none-settled _ (
          run-replay b s (submits t ∷ []) max_ticks (at v [] (host ++ (take 4 junk ∷ []))) idle
            (omega arith)
          ∙ rw (deliver-small addr (respond _ (s.memory v)).0 junk host)) in
      rw done

module _ {V : Type 0} (b : DbusModel V) {latency : ℕ} (s : IsServed b respond_word latency) where
  settled-eq_some :
      (x : Option (Pipeline V)) {m : Words} {host : Host}
      → settled b s x ≡ some (m, host)
      → (p : Pipeline V) × (x ≡ some p) × (s.memory p.top ≡ m) × (p.host ≡ host)
  settled-eq_some none h = cc
  settled-eq_some (some p) {m} {host} h = (
    p,
    refl,
    ap (λ (o : Option (Words × Host)). elim o [ none ↦ m | some t ↦ t.0 ]) h,
    ap (λ (o : Option (Words × Host)). elim o [ none ↦ host | some t ↦ t.1 ]) h,
  )

  -- A cell of at most four bytes can be loaded over the pipeline. From a pipeline at rest, and on
  -- a design that is a memory of words and answers within the ticks of the fence, the load at an
  -- address that is aligned to its width and below 2^31 returns a number whose low bytes are those
  -- at the address, and leaves the memory and the other objects as they were.
  pub pipeline_load-peek :
      (w : Width) (junk : List ℕ) (addr : ℕ) (v : V) (host : Host)
      → bytes w ≤ 4
      → IsPlaced w addr
      → 4 ≤ length junk
      → s.request v ≡ none
      → latency ≤ max_ticks
      → (value : ℕ) × (p : Pipeline V) × (pipeline_load b junk w addr (at v [] host)
          ≡ some (value, p))
        × (to_type w value ≡ peek w addr (s.memory v))
        × (s.memory p.top ≡ s.memory v)
        × (p.host ≡ host)
  unfolding pipeline_load Pipeline.load
  pipeline_load-peek w junk addr v host narrow aligned enough idle fast =
      let t = load_task addr (msize_of w) (some (length host)) (parse w addr) in
      let word = s.memory v (add_base addr / 8) in
      let obj = apply_to (parse w addr) word (take 4 junk) in
      let start = at v [] (host ++ (take 4 junk ∷ [])) in
      let answered : replay respond_word (t ∷ []) (s.memory v) start.host
          ≡ some (s.memory v, host ++ (obj ∷ [])) =
        rw (deliver-fits w addr (msize_of w) word junk host narrow enough) in
      let (p, done, same_memory, left) =
        settled-eq_some (fence b max_ticks (submit b t start))
          (run-replay b s (submits t ∷ []) max_ticks start idle (omega arith) ∙ answered) in
      (
        from_bytes obj,
        record p { host = host },
        rw (done, left, get_elem?-middle host obj [], take-append host (obj ∷ [])),
        to_type-from_bytes w addr word (take 4 junk) (rw (length-take_four junk enough) narrow)
            ∙ apply-peek w addr (s.memory v) aligned,
        same_memory,
        refl,
      )
