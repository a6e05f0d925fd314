-- ===== src/Log/Buffer.antt =====
-- The character buffer of `notify_char` in verilate/vsrc/common.cpp.
use mathlib.Core.List.{append-nil, append_assoc}
use riscv_single_cycle_cpu.Base.{
  ℕ, ◌<◌, ◌≡◌, ◌≢◌, refl, sym, ap, ◌∙◌, arith, true, List, [], ◌∷◌, ◌++◌, ◌==◌, leb, ◌||◌, length,
  All, Bool-cases, inl, inr, ==-ne,
}
use riscv_single_cycle_cpu.Log.{
  LogCtx, max_buffer_size, put_out, put_err, check_status_line, c_string, notify_char,
}

abbrev pub notify_all : List ℕ → LogCtx → LogCtx
notify_all [] c = c
notify_all (ch ∷ chs) c = notify_all chs (notify_char ch c)

-- The characters that wait are few, and none of them is a byte 0 or the end of a line.
pub record IsBuffered (c : LogCtx) : Type 0 where
  pub room : length c.char_buffer < max_buffer_size
  pub texts : All (λ x. x ≢ 0) c.char_buffer
  pub lines : All (λ x. x ≢ 10) c.char_buffer

All-snoc : (P : ℕ → Type 0) (xs : List ℕ) (x : ℕ) → All P xs → P x → All P (xs ++ (x ∷ []))
All-snoc P [] x h p = (p, tt)
All-snoc P (y ∷ xs) x h p = (h.0, All-snoc P xs x h.1 p)

c_string-text : (xs : List ℕ) → All (λ x. x ≢ 0) xs → c_string xs ≡ xs
unfolding c_string
c_string-text [] h = refl
c_string-text (x ∷ xs) h = rw (==-ne x 0 h.0) (ap (λ t. x ∷ t) (c_string-text xs h.1))

err-check_status_line : (c : LogCtx) → (check_status_line c).err ≡ c.err
unfolding check_status_line put_out
err-check_status_line c = ground arith

status-check_status_line : (c : LogCtx) → (check_status_line c).status_enabled ≡ c.status_enabled
unfolding check_status_line put_out
status-check_status_line c = ground arith

-- What was printed, followed by what waits.
abbrev pub output : LogCtx → List ℕ
output c = c.err ++ c.char_buffer

abbrev Keeps : LogCtx → ℕ → LogCtx → Type 0
Keeps c ch c' = IsBuffered c' × (c'.status_enabled ≡ true) × (output c' ≡ output c ++ (ch ∷ []))

notify_char-Keeps :
    (ch : ℕ) (c : LogCtx)
    → c.status_enabled ≡ true
    → IsBuffered c
    → ch ≢ 0
    → Keeps c ch (notify_char ch c)
unfolding notify_char put_err
notify_char-Keeps ch c on b char =
    elim (Bool-cases (ch == 10 || leb max_buffer_size (length buf))) [
      | inl full ↦
          rw (on, full)
            (
              record { room = omega arith; texts = tt; lines = tt },
              status-check_status_line (record c { status_enabled = true }),
              rw (
                append-nil,
                err-check_status_line (record c { status_enabled = true }),
                c_string-text buf texts,
                append_assoc,
              ),
            )
      | inr waits ↦
          rw (on, waits)
            (
              record {
                room = ground arith;
                texts = texts;
                lines = All-snoc (λ x. x ≢ 10) c.char_buffer ch b.lines (ground arith);
              },
              refl,
              rw append_assoc,
            )
    ]
  where
    buf : List ℕ
    buf = c.char_buffer ++ (ch ∷ [])

    texts : All (λ x. x ≢ 0) buf
    texts = All-snoc (λ x. x ≢ 0) c.char_buffer ch b.texts char

-- While the status line is on, characters other than the byte 0 are neither lost nor reordered:
-- what was printed, followed by what waits, is what it was, followed by the characters. What
-- waits stays shorter than the buffer and holds no end of a line.
pub notify_all-output :
    (chs : List ℕ) (c : LogCtx)
    → c.status_enabled ≡ true
    → IsBuffered c
    → All (λ x. x ≢ 0) chs
    → (output (notify_all chs c) ≡ output c ++ chs) × IsBuffered (notify_all chs c)
notify_all-output [] c on b texts = (sym (append-nil (output c)), b)
notify_all-output (ch ∷ chs) c on b texts =
    let (b', on', one) = notify_char-Keeps ch c on b texts.0 in
    let (all, kept) = notify_all-output chs (notify_char ch c) on' b' texts.1 in
    (all ∙ ap (λ (t : List ℕ). t ++ chs) one ∙ append_assoc (output c) (ch ∷ []) chs, kept)
