-- ===== src/Bus/Dbus/Contract.antt =====
-- What the bus helpers of verilate/include/bus.h rely on in the design behind the data bus: it
-- answers the request that its ports show, after a bounded number of cycles.
use riscv_single_cycle_cpu.Base.{
  ℕ, ◌<◌, ◌≤◌, ◌≡◌, Bool, true, false, Option, none, some, if◌then◌else◌,
}
use riscv_single_cycle_cpu.Bus.Dbus.{DbusModel, data_ok_bit}

pub data Request : Type 0 where
  read : ℕ → ℕ → Request
  write : ℕ → ℕ → ℕ → ℕ → Request

abbrev pub is_some {ℓ} : {A : Type ℓ} → Option A → Bool
is_some none = false
is_some (some a) = true

-- The request goes to the ports, and the model is evaluated.
abbrev pub send : {V : Type 0} → DbusModel V → Request → V → V
send b (read addr size) v = b.eval (b.issue_load addr size v)
send b (write addr size lanes word) v = b.eval (b.issue_store addr size lanes word v)

-- `request` is what the ports show, `memory` what the design stores, `respond` the answer to a
-- request, and `wait` bounds the cycles until it comes.
pub record IsServed {V M : Type 0} (b : DbusModel V) (respond : Request → M → ℕ × M) (latency : ℕ)
    : Type 0 where
  pub request : V → Option Request
  pub memory : V → M
  pub wait : V → ℕ
  pub valid_lem : (v : V) → b.req_valid v ≡ is_some (request v)
  pub request-send : (r : Request) (v : V) → request (send b r v) ≡ some r
  pub memory-send : (r : Request) (v : V) → memory (send b r v) ≡ memory v
  pub wait-send : (r : Request) (v : V) → request v ≡ some r → wait (send b r v) ≤ wait v
  pub wait-lt : (v : V) → wait v < latency
  pub request-clear : (v : V) → request (b.eval (b.reset_valid v)) ≡ none
  pub memory-clear : (v : V) → memory (b.eval (b.reset_valid v)) ≡ memory v
  pub memory-tick_none : (v : V) → request v ≡ none → memory (b.tick v) ≡ memory v
  pub request-tick : (v : V) → b.resp_data_ok v ≡ false → request (b.tick v) ≡ request v
  pub memory-tick : (v : V) → b.resp_data_ok v ≡ false → memory (b.tick v) ≡ memory v
  pub wait-tick :
      (r : Request) (v : V)
      → request v ≡ some r
      → b.resp_data_ok v ≡ false
      → wait (b.tick v) < wait v
  pub word_lem :
      (r : Request) (v : V)
      → request v ≡ some r
      → b.resp_data_ok v ≡ true
      → b.resp_word v ≡ (respond r (memory v)).0
  pub memory-tick_done :
      (r : Request) (v : V)
      → request v ≡ some r
      → b.resp_data_ok v ≡ true
      → memory (b.tick v) ≡ (respond r (memory v)).1
  pub handshake_lem :
      (v : V) → b.handshake v data_ok_bit ≡ (if b.resp_data_ok v then data_ok_bit else 0)
