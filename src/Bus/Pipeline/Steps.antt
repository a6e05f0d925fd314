-- ===== src/Bus/Pipeline/Steps.antt =====
-- One step of the pipeline in verilate/include/bus.h against in-order execution: what the tasks
-- do if each is answered before the next is looked at.
use riscv_single_cycle_cpu.Base.{
  ℕ, ◌≡◌, refl, arith, true, false, Option, none, some, List, [], ◌∷◌, ◌++◌, if◌then◌else◌, ◌>>=◌,
  >>=-assoc,
}
use riscv_single_cycle_cpu.Bus.Dbus.{DbusModel, add_base, clear, valid, data_ok, rdata}
use riscv_single_cycle_cpu.Bus.Dbus.Contract.{Request, read, write, send, IsServed}
use riscv_single_cycle_cpu.Bus.Task.{Task, Host, is_load, deliver}
use riscv_single_cycle_cpu.Bus.Pipeline.{Pipeline, issue, finish, reissue, tick, submit, busy}

-- The request that a task makes.
abbrev pub request_of : Task → Request
request_of t =
    if is_load t
    then read (add_base t.addr) t.size
    else write (add_base t.addr) t.size t.lanes t.word

-- The request of the front.
abbrev pub front_request : List Task → Option Request
front_request [] = none
front_request (t ∷ ts) = some (request_of t)

module _ {M : Type 0} (respond : Request → M → ℕ × M) where
  -- In-order execution over the memory and the destinations.
  abbrev pub replay : List Task → M → Host → Option (M × Host)
  replay [] m host = some (m, host)
  replay (t ∷ ts) m host = let r = respond (request_of t) m in deliver t r.0 host >>= replay ts r.1

module _ {V : Type 0} where
  abbrev pub at : V → List Task → Host → Pipeline V
  at v ts host = record { top = v; ongoing = ts; host = host }

module _ {V M : Type 0} (b : DbusModel V) {respond : Request → M → ℕ × M} {latency : ℕ}
    (s : IsServed b respond latency) where
  pub issue-send : (t : Task) (v : V) → issue b t v ≡ send b (request_of t) v
  unfolding issue is_load
  issue-send t v = ground arith

  -- What `reissue` leaves on the bus.
  abbrev pub shown_next : List Task → V → V
  shown_next [] v = clear b v
  shown_next (t ∷ ts) v = issue b t v

  pub request-shown_next : (ts : List Task) (v : V) → s.request (shown_next ts v) ≡ front_request ts
  unfolding clear
  request-shown_next [] v = s.request-clear v
  request-shown_next (t ∷ ts) v = rw (issue-send t v) (s.request-send (request_of t) v)

  pub memory-shown_next : (ts : List Task) (v : V) → s.memory (shown_next ts v) ≡ s.memory v
  unfolding clear
  memory-shown_next [] v = s.memory-clear v
  memory-shown_next (t ∷ ts) v = rw (issue-send t v) (s.memory-send (request_of t) v)

  reissue_lem :
      (v : V) (ts : List Task) (host : Host)
      → reissue b (at v ts host) ≡ at (shown_next ts v) ts host
  unfolding reissue
  reissue_lem v [] host = refl
  reissue_lem v (t ∷ ts) host = refl

  -- A submission is seen by the bus only if the queue was empty.
  pub submit-nil :
      (t : Task) (v : V) (host : Host)
      → s.request v ≡ none
      → submit b t (at v [] host) ≡ at (issue b t v) (t ∷ []) host
  unfolding submit busy valid
  submit-nil t v host idle = rw (s.valid_lem v, idle)

  pub submit-cons :
      (t u : Task) (ts : List Task) (v : V) (host : Host)
      → s.request v ≡ some (request_of u)
      → submit b t (at v (u ∷ ts) host) ≡ at v (u ∷ ts ++ t ∷ []) host
  unfolding submit busy valid
  submit-cons t u ts v host shown = rw (s.valid_lem v, shown)

  pub tick-nil :
      (v : V) (host : Host)
      → s.request v ≡ none
      → tick b (at v [] host) ≡ some (at (clear b (b.tick v)) [] host)
  unfolding tick finish reissue valid data_ok
  tick-nil v host idle = rw (s.valid_lem v, idle) (ground arith)

  pub tick-waits :
      (t : Task) (ts : List Task) (v : V) (host : Host)
      → b.resp_data_ok v ≡ false
      → tick b (at v (t ∷ ts) host) ≡ some (at (issue b t (b.tick v)) (t ∷ ts) host)
  unfolding tick finish reissue valid data_ok
  tick-waits t ts v host waits = rw waits

  pub tick-answers :
      (t : Task) (ts : List Task) (v : V) (host : Host)
      → s.request v ≡ some (request_of t)
      → b.resp_data_ok v ≡ true
      → tick b (at v (t ∷ ts) host) ≡ (
          deliver t (respond (request_of t) (s.memory v)).0 host >>= λ host'.
          some (at (shown_next ts (b.tick v)) ts host'))
  unfolding tick finish valid data_ok rdata
  tick-answers t ts v host shown done =
      rw (done, s.valid_lem v, shown, s.word_lem (request_of t) v shown done)
        (simp (>>=-assoc, reissue_lem))
