-- ===== src/Bus/Compare.antt =====
-- `_TestbenchDBusWrapperGen` of verilate/include/testbench.h: a data bus whose loads and stores
-- are compared with a reference, `ICacheRefModel` of verilate/include/reference.h.
use riscv_single_cycle_cpu.Base.{
  ℕ, ◌≤◌, ◌≡◌, refl, sym, ◌∙◌, arith, Bool, true, false, Option, none, some, List, [], ◌∷◌, ◌==◌,
  ◌&&◌, if◌then◌else◌, ◌>>=◌, ◌>>◌, asserts, ==-refl, ==_iff, Bool-cases, Option-cases, inl, inr,
}
use riscv_single_cycle_cpu.Bus.Dbus
use riscv_single_cycle_cpu.Bus.Dbus.{DbusModel, await_limit, add_base}
use riscv_single_cycle_cpu.Bus.Dbus.Contract.{Request, read, write, IsServed}
use riscv_single_cycle_cpu.Bus.Dbus.Await.{
  load-respond, store-respond, outcome-eq_some, written-eq_some,
}

-- A reference over its state; `none` is a failed assertion.
pub record RefModel (R : Type 0) : Type 0 where
  pub reset : R → R
  pub load : ℕ → ℕ → R → Option (ℕ × R)
  pub store : ℕ → ℕ → ℕ → ℕ → R → Option R
  pub check_internal : R → Option R
  pub check_memory : R → Option R

module _ {V R : Type 0} (b : DbusModel V) (ref' : RefModel R) where
  -- The constructor resets the reference, the destructor checks its memory.
  unfoldable pub open_wrapper : V → R → V × R
  open_wrapper v r = (v, ref'.reset r)

  unfoldable pub close_wrapper : V × R → Option (V × R)
  close_wrapper s = ref'.check_memory s.1 >>= λ r. some (s.0, r)

  unfoldable pub load : ℕ → ℕ → V × R → Option (ℕ × V × R)
  load addr size s = do
    got ← Dbus.load b addr size s.0
    expected ← ref'.load addr size s.1
    asserts (got.0 == expected.0)
    r ← ref'.check_internal expected.1
    some (got.0, got.1, r)

  unfoldable pub store : ℕ → ℕ → ℕ → ℕ → V × R → Option (V × R)
  store addr size lanes word s = do
    v ← Dbus.store b addr size lanes word s.0
    r ← ref'.store addr size lanes word s.1
    r' ← ref'.check_internal r
    some (v, r')

pub data Access : Type 0 where
  loads : ℕ → ℕ → Access
  stores : ℕ → ℕ → ℕ → ℕ → Access

abbrev pub same_words : List ℕ → List ℕ → Bool
same_words [] [] = true
same_words [] (y ∷ ys) = false
same_words (x ∷ xs) [] = false
same_words (x ∷ xs) (y ∷ ys) = (x == y) && same_words xs ys

==-comm_false : (x y : ℕ) → (x == y) ≡ false → (y == x) ≡ false
==-comm_false x y h = ground arith

module _ {V R M : Type 0} (b : DbusModel V) (ref' : RefModel R) {respond : Request → M → ℕ × M}
    {latency : ℕ} (s : IsServed b respond latency) (fast : latency ≤ await_limit) where
  -- Accesses through the wrapper: the words that were loaded, and both sides afterwards.
  abbrev pub run : List Access → V × R → Option (List ℕ × V × R)
  run [] t = some ([], t.0, t.1)
  run (loads addr size ∷ accs) t = do
    r ← load b ref' addr size t
    rest ← run accs (r.1, r.2)
    some (r.0 ∷ rest.0, rest.1, rest.2)
  run (stores addr size lanes word ∷ accs) t = store b ref' addr size lanes word t >>= run accs

  -- The same accesses to the reference alone, with its own checks, and to the memory alone.
  abbrev pub run_ref : List Access → R → Option (List ℕ × R)
  run_ref [] r = some ([], r)
  run_ref (loads addr size ∷ accs) r = do
    expected ← ref'.load addr size r
    r' ← ref'.check_internal expected.1
    rest ← run_ref accs r'
    some (expected.0 ∷ rest.0, rest.1)
  run_ref (stores addr size lanes word ∷ accs) r = do
    stored ← ref'.store addr size lanes word r
    r' ← ref'.check_internal stored
    run_ref accs r'

  abbrev pub answers : List Access → M → List ℕ × M
  answers [] m = ([], m)
  answers (loads addr size ∷ accs) m =
      let a = respond (read (add_base addr) size) m in
      let rest = answers accs a.1 in (a.0 ∷ rest.0, rest.1)
  answers (stores addr size lanes word ∷ accs) m =
      answers accs (respond (write (add_base addr) size lanes word) m).1

  -- The words, the memory of the design, and the reference.
  abbrev pub seen : Option (List ℕ × V × R) → Option (List ℕ × M × R)
  seen x = x >>= λ t. some (t.0, s.memory t.1, t.2)

  -- The reference's run, if it has loaded the words `a.0`, beside the memory `a.1`.
  abbrev pub agreeing : List ℕ × M → Option (List ℕ × R) → Option (List ℕ × M × R)
  agreeing a x = x >>= λ q. if same_words q.0 a.0 then some (q.0, a.1, q.1) else none

  abbrev with_word : ℕ → List ℕ × M × R → Option (List ℕ × M × R)
  with_word w t = some (w ∷ t.0, t.1, t.2)

  seen-cons :
      (w : ℕ) (x : Option (List ℕ × V × R))
      → seen (x >>= λ rest. some (w ∷ rest.0, rest.1, rest.2)) ≡ (seen x >>= with_word w)
  seen-cons w none = refl
  seen-cons w (some t) = refl

  -- One word more on both sides: the same, or another.
  agreeing-same :
      (w : ℕ) (a : List ℕ × M) (x : Option (List ℕ × R))
      → agreeing (w ∷ a.0, a.1) (x >>= λ rest. some (w ∷ rest.0, rest.1))
        ≡ (agreeing a x >>= with_word w)
  agreeing-same w a none = refl
  agreeing-same w a (some q) = elim (Bool-cases (same_words q.0 a.0)) [
    | inl same ↦ rw (==-refl w, same)
    | inr differ ↦ rw (==-refl w, differ)
  ]

  agreeing-other :
      (w w' : ℕ) (a : List ℕ × M) (x : Option (List ℕ × R))
      → (w == w') ≡ false
      → agreeing (w' ∷ a.0, a.1) (x >>= λ rest. some (w ∷ rest.0, rest.1)) ≡ none
  agreeing-other w w' a none differ = refl
  agreeing-other w w' a (some q) differ = rw differ

  -- A comparison that fails, whatever the reference does afterwards.
  differs :
      (w w' : ℕ) (accs : List Access) (a : List ℕ × M) (x : Option R)
      → (w == w') ≡ false
      → agreeing (w' ∷ a.0, a.1) (x >>= λ r. run_ref accs r >>= λ rest. some (w ∷ rest.0, rest.1))
        ≡ none
  differs w w' accs a none differ = refl
  differs w w' accs a (some r) differ = agreeing-other w w' a (run_ref accs r) differ

  -- Over a design that answers from a memory within the limit of `await`, and any reference, a
  -- sequence of loads and stores through the wrapper comes to just what the reference comes to
  -- alone, if every word that the reference loads is the one that the memory yields, and fails if
  -- one of them differs or a check of the reference fails. The memory of the design is left as
  -- the accesses leave the memory alone.
  pub run-agreeing :
      (accs : List Access) (v : V) (r : R)
      → seen (run accs (v, r)) ≡ agreeing (answers accs (s.memory v)) (run_ref accs r)
  unfolding load store
  run-agreeing [] v r = refl
  run-agreeing (loads addr size ∷ accs) v r =
      let (v1, got, kept) =
        outcome-eq_some b s (Dbus.load b addr size v) (load-respond b s addr size v fast) in
      let word = (respond (read (add_base addr) size) (s.memory v)).0 in
      elim (Option-cases (ref'.load addr size r)) [
        | inl fails ↦ rw (got, fails)
        | inr (expected, loaded) ↦ elim (Bool-cases (word == expected.0)) [
          | inr differ ↦
              rw (got, loaded, differ)
                (sym (
                  differs expected.0 word accs _ (ref'.check_internal expected.1)
                    (==-comm_false word expected.0 differ)))
          | inl same ↦ elim (Option-cases (ref'.check_internal expected.1)) [
            | inl bad ↦ rw (got, loaded, same, bad)
            | inr (r1, checked) ↦
                rw (got, loaded, same, checked, ← (==_iff word expected.0).0 same)
                  (seen-cons word (run accs (v1, r1))
                    ∙ rw (run-agreeing accs v1 r1, kept)
                        (sym (agreeing-same word _ (run_ref accs r1))))
          ]
        ]
      ]
  run-agreeing (stores addr size lanes word ∷ accs) v r =
      let (v1, stored, kept) =
        written-eq_some b s (Dbus.store b addr size lanes word v)
          (store-respond b s addr size lanes word v fast) in
      elim (Option-cases (ref'.store addr size lanes word r)) [
        | inl fails ↦ rw (stored, fails)
        | inr (r1, stored_r) ↦ elim (Option-cases (ref'.check_internal r1)) [
          | inl bad ↦ rw (stored, stored_r, bad)
          | inr (r2, checked) ↦ rw (stored, stored_r, checked) (run-agreeing accs v1 r2 ∙ rw kept)
        ]
      ]
