-- ===== src/Queue/Order.antt =====
-- The rings of uart.cpp and keyboard.cpp, difftest/src/test/csrc/common, as queues.
use riscv_single_cycle_cpu.Base.{
  ℕ, zero, suc, ◌+◌, ◌-◌, ◌%◌, ◌<◌, ◌≡◌, ◌≢◌, refl, sym, ◌∙◌, ap, arith, Bool, true, false, some,
  List, [], ◌∷◌, ◌++◌, ◌==◌, if◌then◌else◌, bit_or, get_or, set, length, length-set,
  get_or-set_self, get_or-set_ne, ltb, Bool-cases, inl, inr, ◌⊎◌, ==_iff, ==-ne, lt→ltb,
}
use riscv_single_cycle_cpu.Queue.{Ring, queue_size, uart_enqueue, uart_dequeue, send_key, preset}

pub record IsRing (q : Ring) : Type 0 where
  pub slots : length q.slots ≡ queue_size
  pub f : q.f < queue_size
  pub r : q.r < queue_size

-- How many characters wait.
abbrev pub count : Ring → ℕ
count q = (q.r + queue_size - q.f) % queue_size

-- `n` slots from `f` on, around the end.
abbrev pub items : List ℕ → ℕ → ℕ → List ℕ
items slots f zero = []
items slots f (suc n) = get_or slots f 0 ∷ items slots ((f + 1) % queue_size) n

-- The characters that wait, the oldest first.
abbrev pub contents : Ring → List ℕ
contents q = items q.slots q.f (count q)

-- A slot behind the `n` ones does not matter to them.
items-set :
    (slots : List ℕ) (f n r v : ℕ)
    → f < queue_size
    → r ≡ (f + n) % queue_size
    → n < queue_size
    → items (set slots r v) f n ≡ items slots f n
items-set slots f zero r v below at room = refl
items-set slots f (suc n) r v below at room =
    rw
      (
        get_or-set_ne slots r f v 0 (omega arith),
        items-set slots ((f + 1) % queue_size) n r v (omega arith) (omega arith) (omega arith),
      )
      refl

-- One more at the end.
items-snoc :
    (slots : List ℕ) (f n : ℕ)
    → f < queue_size
    → items slots f (suc n) ≡ items slots f n ++ (get_or slots ((f + n) % queue_size) 0 ∷ [])
items-snoc slots f zero below = let same : (f + 0) % queue_size ≡ f = omega arith in rw same refl
items-snoc slots f (suc n) below =
    let same : ((f + 1) % queue_size + n) % queue_size ≡ (f + suc n) % queue_size = omega arith in
    let rest = items-snoc slots ((f + 1) % queue_size) n (omega arith) in
    ap (λ xs. get_or slots f 0 ∷ xs) (rw same at rest)

-- A ring that takes one more character at its end.
abbrev pushed : ℕ → Ring → Ring
pushed v q = record q { slots = set q.slots q.r v; r = (q.r + 1) % queue_size }

pushed-IsRing : (v : ℕ) (q : Ring) → IsRing q → IsRing (pushed v q)
pushed-IsRing v q h = record {
  slots = length-set q.slots q.r v ∙ h.slots;
  f = h.f;
  r = omega arith;
}

contents-pushed :
    (v : ℕ) (q : Ring)
    → IsRing q
    → (q.r + 1) % queue_size ≢ q.f
    → contents (pushed v q) ≡ contents q ++ (v ∷ [])
contents-pushed v q h free =
    let f_lt = h.f in
    let r_lt = h.r in
    let more : count (pushed v q) ≡ suc (count q) = omega arith in
    let at : (q.f + count q) % queue_size ≡ q.r = omega arith in
    rw
      (
        more,
        items-snoc (set q.slots q.r v) q.f (count q) f_lt,
        at,
        items-set q.slots q.f (count q) q.r v f_lt (sym at) (omega arith),
        get_or-set_self q.slots q.r v 0 (omega (arith, h.slots)),
      )
      refl

-- A ring without its first character.
abbrev popped : Ring → Ring
popped q = record q { f = (q.f + 1) % queue_size }

contents-popped :
    (q : Ring) → IsRing q → q.f ≢ q.r → contents q ≡ get_or q.slots q.f 0 ∷ contents (popped q)
contents-popped q h some_left =
    let f_lt = h.f in
    let r_lt = h.r in let less : count q ≡ suc (count (popped q)) = omega arith in rw less refl

popped-IsRing : (q : Ring) → IsRing q → IsRing (popped q)
popped-IsRing q h = record { slots = h.slots; f = omega arith; r = h.r }

-- On a valid ring `uart_enqueue` appends its character, or drops it if 1023 are waiting, and the
-- ring stays valid.
pub contents-uart_enqueue :
    (ch : ℕ) (q : Ring)
    → IsRing q
    → IsRing (uart_enqueue ch q)
      × (contents (uart_enqueue ch q)
          ≡ (if ltb (count q) 1023 then contents q ++ (ch ∷ []) else contents q))
unfolding uart_enqueue
contents-uart_enqueue ch q h =
    let f_lt = h.f in
    let r_lt = h.r in
    elim (Bool-cases ((q.r + 1) % queue_size == q.f)) [
      | inl full ↦ let all : ltb (count q) 1023 ≡ false = ground arith in rw (full, all) (h, refl)
      | inr free ↦
          let ne : (q.r + 1) % queue_size ≢ q.f = ground arith in
          let room : ltb (count q) 1023 ≡ true = lt→ltb (count q) 1023 (omega arith) in
          rw (free, room) (pushed-IsRing ch q h, contents-pushed ch q h ne)
    ]

-- On a valid ring `uart_dequeue` returns the oldest character and removes it, or, with none
-- waiting, returns the next of "root\n" and leaves the ring; the ring stays valid.
pub contents-uart_dequeue :
    (q : Ring) (last : ℕ)
    → IsRing q
    → let r = uart_dequeue q last in
      IsRing r.1
      × (((contents q ≡ r.0 ∷ contents r.1) × (r.2 ≡ last))
          ⊎ ((contents q ≡ []) × (r.1 ≡ q) × (r.0 ≡ get_or preset last 0)))
unfolding uart_dequeue
contents-uart_dequeue q last h = elim (Bool-cases (q.f == q.r)) [
  | inl none_left ↦
      let same : q.f ≡ q.r = (==_iff q.f q.r).0 none_left in
      let zero_left : count q ≡ 0 = omega arith in
      rw (none_left, zero_left) (h, inr (refl, refl, refl))
  | inr some_left ↦
      let ne : q.f ≢ q.r = ground arith in
      rw some_left (popped-IsRing q h, inl (contents-popped q h ne, refl))
]

-- On a valid ring with fewer than 1023 keys `send_key` does not stop the program: it appends the
-- code of a key that the table knows, with the bit of a key that goes down, and ignores another.
pub contents-send_key :
    (keymap : List ℕ) (scancode : ℕ) (is_keydown : Bool) (q : Ring)
    → IsRing q
    → count q < 1023
    → (q' : Ring) × (send_key keymap scancode is_keydown q ≡ some q')
      × IsRing q'
      × (contents q' ≡ (
          if get_or keymap scancode 0 == 0
          then contents q
          else contents q
            ++ (bit_or (get_or keymap scancode 0) (if is_keydown then 0x8000 else 0) ∷ [])))
unfolding send_key
contents-send_key keymap scancode is_keydown q h room =
    elim (Bool-cases (get_or keymap scancode 0 == 0)) [
      | inl unknown ↦ (q, rw unknown refl, h, rw unknown refl)
      | inr known ↦
          let f_lt = h.f in
          let r_lt = h.r in
          let ne : (q.r + 1) % queue_size ≢ q.f = omega arith in
          let code = bit_or (get_or keymap scancode 0) (if is_keydown then 0x8000 else 0) in
          (
            pushed code q,
            rw (known, ==-ne ((q.r + 1) % queue_size) q.f ne) refl,
            pushed-IsRing code q h,
            rw known (contents-pushed code q h ne),
          )
    ]
