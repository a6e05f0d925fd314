-- ===== src/Axi/Burst.antt =====
-- The addresses and the end of a burst of `AXITransaction`, verilate/include/axi.h, against the
-- wrapping bursts of the AXI specification.
use native.Mathlib.Nat.{
  div-div-eq-div-mul, div-add-mod, mod-lt, mod-add-mod, mod_self, mod-eq_of_lt, mul-suc,
  mul-le-mul_left, mul-le-mul, div-mul-le_self,
}
use native.Mathlib.Numerals.{add-one}
use riscv_single_cycle_cpu.Base.{
  ℕ, zero, suc, ◌+◌, ◌-◌, ◌*◌, ◌/◌, ◌%◌, ◌^◌, ◌≤◌, ◌<◌, ◌==◌, if◌then◌else◌, ◌≡◌, refl, sym, ap,
  ◌∙◌, arith, ◌⊎◌, inl, inr, ==_iff, Bool-cases,
}
use riscv_single_cycle_cpu.Axi.{AxiTransaction, init, sync, syncs, last, next_addr}

-- beat `k` of a wrapping burst of `l` beats of `b` bytes that starts at `start`, aligned to `b`:
-- the beats stay in one window of `b * l` bytes, and go round in it.
abbrev pub beat_addr : ℕ → ℕ → ℕ → ℕ → ℕ
beat_addr start b l k = start / (b * l) * (b * l) + b * ((start / b + k) % l)

abbrev current : AxiTransaction → ℕ
current tx = if tx.aligned then tx.addr else tx.aligned_address

-- The state after `k` handshakes.
pub record InBurst (start b l k : ℕ) (tx : AxiTransaction) : Type 0 where
  pub bytes : tx.number_bytes ≡ b
  pub length : tx.burst_length ≡ l
  pub lower : tx.lower_wrap_boundry ≡ start / (b * l) * (b * l)
  pub upper : tx.upper_wrap_boundry ≡ start / (b * l) * (b * l) + b * l
  pub count : tx.n ≡ k + 1
  pub place : current tx ≡ beat_addr start b l k

-- The remainder of the next number: one more, or back to 0.
mod_next :
    (a l : ℕ)
    → 0 < l
    → ((suc (a % l) ≡ l) × ((a + 1) % l ≡ 0)) ⊎ ((suc (a % l) < l) × ((a + 1) % l ≡ suc (a % l)))
mod_next a l h = elim (Bool-cases (suc (a % l) == l)) [
  | inl e ↦
      let full : suc (a % l) ≡ l = (==_iff _ _).0 e in
      inl (full, sym (mod-add-mod a l 1) ∙ ap (λ (t : ℕ). t % l) (omega arith) ∙ mod_self l)
  | inr e ↦
      let below : suc (a % l) < l = ground (arith, mod-lt a h) in
      inr (below, sym (mod-add-mod a l 1) ∙ mod-eq_of_lt (omega arith) ∙ add-one (a % l))
]

-- A multiple of `b`, within a multiple of `b * l`.
split_multiple : (m q r b l : ℕ) → l * q + r ≡ m → m * b ≡ q * (b * l) + b * r
split_multiple m q r b l e = rw (← e) (omega arith)

-- One more step of `b` bytes, in the middle of the window and at its end.
step_inside : (b l r : ℕ) → 0 < b → suc r < l → b * r + b + b ≤ b * l
step_inside b l r h k = omega (arith, mul-le-mul_left b k)

step_end : (b l r : ℕ) → suc r ≡ l → b * r + b ≡ b * l
step_end b l r e = rw (← e) (omega (arith, mul-suc b r))

module _ (start b l : ℕ) (b_pos : 0 < b) (l_pos : 0 < l) (room : start + b * l < 2 ^ 64) where
  aligned_start : start / b * b ≡ beat_addr start b l 0
  aligned_start =
      let zero_beat : start / b + 0 ≡ start / b = omega arith in
      rw (← div-div-eq-div-mul start b l, zero_beat)
        (split_multiple (start / b) (start / b / l) (start / b % l) b l (div-add-mod (start / b) l))

  -- the address before the wrap test does not wrap round the word
  next_addr-InBurst :
      {k : ℕ} {tx : AxiTransaction}
      → InBurst start b l k tx
      → next_addr tx ≡ beat_addr start b l k + b
  unfolding next_addr
  next_addr-InBurst {k} {tx} v = ground (
    arith,
    mod_next (start / b + k) l l_pos,
    step_inside b l ((start / b + k) % l) b_pos,
    step_end b l ((start / b + k) % l),
    div-mul-le_self start (b * l),
  )

  -- the place in the window, before and after one step
  beat_addr_next :
      (k : ℕ)
      → let r = (start / b + k) % l in
        ((b * r + b ≡ b * l) × (beat_addr start b l (k + 1) ≡ start / (b * l) * (b * l)))
        ⊎ ((b * r + b + b ≤ b * l) × (beat_addr start b l (k + 1) ≡ beat_addr start b l k + b))
  beat_addr_next k = elim (mod_next (start / b + k) l l_pos) [
    | inl (full, z) ↦ inl (step_end b l _ full, omega (arith, ap (λ (t : ℕ). b * t) (shift ∙ z)))
    | inr (below, z) ↦ inr (
      step_inside b l _ b_pos below,
      omega (arith, ap (λ (t : ℕ). b * t) (shift ∙ z), mul-suc b ((start / b + k) % l)),
    )
  ]
    where
      shift : (start / b + (k + 1)) % l ≡ (start / b + k + 1) % l
      shift = ap (λ (t : ℕ). t % l) (omega arith)

  pub sync-InBurst :
      {k : ℕ} {tx : AxiTransaction}
      → k < 2 ^ 32
      → InBurst start b l k tx
      → InBurst start b l (k + 1) (sync tx)
  unfolding sync
  sync-InBurst {k} {tx} h v = ground (arith, next_addr-InBurst v, beat_addr_next k)

-- `AxSIZE` has three bits.
size_bound : (s : ℕ) → s < 8 → (1 ≤ 2 ^ s) × (2 ^ s ≤ 128)
size_bound zero h = omega arith
size_bound (suc zero) h = omega arith
size_bound (suc (suc zero)) h = omega arith
size_bound (suc (suc (suc zero))) h = omega arith
size_bound (suc (suc (suc (suc zero)))) h = omega arith
size_bound (suc (suc (suc (suc (suc zero))))) h = omega arith
size_bound (suc (suc (suc (suc (suc (suc zero)))))) h = omega arith
size_bound (suc (suc (suc (suc (suc (suc (suc zero))))))) h = omega arith
size_bound (suc (suc (suc (suc (suc (suc (suc (suc s)))))))) h = absurd (omega arith)

module _ (tx : AxiTransaction) (start size len : ℕ) (size_fits : size < 8) (len_fits : len < 256)
    (room : start < 2 ^ 64 - 2 ^ 15) where
  window_room : 2 ^ size * (len + 1) ≤ 2 ^ 15
  window_room =
      let beats : len + 1 ≤ 256 = omega arith in mul-le-mul (size_bound size size_fits).1 beats

  init-InBurst : InBurst start (2 ^ size) (len + 1) 0 (init tx start size len)
  unfolding init
  init-InBurst =
      rw (bytes_fit, length_fit, window_fit)
        record {
          bytes = refl;
          length = refl;
          lower = refl;
          upper = omega (arith, window_room, div-mul-le_self start (2 ^ size * (len + 1)));
          count = refl;
          place =
              aligned_start start (2 ^ size) (len + 1) (size_bound size size_fits).0 (omega arith)
                (omega (arith, window_room));
        }
    where
      bytes_fit : 2 ^ size % 2 ^ 32 ≡ 2 ^ size
      bytes_fit = omega (arith, size_bound size size_fits)

      length_fit : (len + 1) % 2 ^ 64 ≡ len + 1
      length_fit = omega arith

      window_fit : 2 ^ size * (len + 1) % 2 ^ 64 ≡ 2 ^ size * (len + 1)
      window_fit = mod-eq_of_lt (omega (arith, window_room))

  pub syncs-InBurst :
      (k : ℕ) → k < 2 ^ 32 → InBurst start (2 ^ size) (len + 1) k (syncs k (init tx start size len))
  syncs-InBurst zero h = init-InBurst
  syncs-InBurst (suc k) h = rw (← add-one k) (
      sync-InBurst start (2 ^ size) (len + 1) (size_bound size size_fits).0 (omega arith)
        (omega (arith, window_room)) (omega arith) (syncs-InBurst k (omega arith)))

  -- In a burst of `len + 1 ≤ 256` beats of `2 ^ size ≤ 128` bytes that starts below
  -- `2 ^ 64 - 2 ^ 15`, the transfer after `k + 1` handshakes goes to the address that the AXI
  -- specification gives to beat `k + 1` of a wrapping burst, `k` being below `2 ^ 31`.
  pub addr-syncs :
      (k : ℕ)
      → k < 2 ^ 31
      → (syncs (suc k) (init tx start size len)).addr ≡ beat_addr start (2 ^ size) (len + 1) (suc k)
  unfolding sync
  addr-syncs k h = (syncs-InBurst (suc k) (omega arith)).place

  -- In a burst of `len + 1 ≤ 256` beats of `2 ^ size ≤ 128` bytes that starts below
  -- `2 ^ 64 - 2 ^ 15`, `last` holds after `len` handshakes and at no other number `k < 2 ^ 32` of them.
  pub last-syncs : (k : ℕ) → k < 2 ^ 32 → last (syncs k (init tx start size len)) ≡ (k == len)
  unfolding last
  last-syncs k h = ground (arith, syncs-InBurst k h)

  -- In a burst of `len + 1 ≤ 256` beats of `2 ^ size ≤ 128` bytes that starts below
  -- `2 ^ 64 - 2 ^ 15`, the bytes of every beat after the first lie between the lower and the upper
  -- boundary of the burst's window; `k`, the beat less one, is below `2 ^ 31`.
  pub syncs_in_window :
      (k : ℕ)
      → k < 2 ^ 31
      → let tx' = syncs (suc k) (init tx start size len) in
        (tx'.lower_wrap_boundry ≤ tx'.addr) × (tx'.addr + tx'.number_bytes ≤ tx'.upper_wrap_boundry)
  syncs_in_window k h = omega (
    arith,
    syncs-InBurst (suc k) (omega arith),
    addr-syncs k h,
    mul-suc (2 ^ size) ((start / 2 ^ size + suc k) % (len + 1)),
    mul-le-mul_left (2 ^ size) (mod-lt (start / 2 ^ size + suc k) {m = len + 1} (omega arith)),
  )
