-- ===== src/Difftest/Packets/Delivery.antt =====
-- The order in which the DPI functions of difftest/src/test/csrc/difftest/interface.cpp are called
-- within a cycle.
use riscv_single_cycle_cpu.Base.{
  ℕ, zero, suc, ◌≡◌, ◌≢◌, refl, sym, ap, Option, none, some, List, [], ◌∷◌, set, get_or-set_ne,
}
use riscv_single_cycle_cpu.Difftest.{CoreState, InstrCommit, no_commit}
use riscv_single_cycle_cpu.Difftest.Packets.{instr_commit, deliver, update_at}

set_comm {ℓ} :
    {A : Type ℓ} (xs : List A) (i j : ℕ) (a b : A)
    → i ≢ j
    → set (set xs i a) j b ≡ set (set xs j b) i a
set_comm [] i j a b ne = refl
set_comm (x ∷ xs) zero zero a b ne = absurd (ne refl)
set_comm (x ∷ xs) zero (suc j) a b ne = refl
set_comm (x ∷ xs) (suc i) zero a b ne = refl
set_comm (x ∷ xs) (suc i) (suc j) a b ne =
    ap (λ ys. x ∷ ys) (set_comm xs i j a b (λ e. ne (ap suc e)))

-- Two commits of one cycle, for different slots, may be delivered in either order.
pub instr_commit_comm :
    (i j : ℕ) (p q : InstrCommit) (s : CoreState)
    → i ≢ j
    → instr_commit i p (instr_commit j q s) ≡ instr_commit j q (instr_commit i p s)
unfolding instr_commit
instr_commit_comm i j p q s ne =
    rw
      (
        get_or-set_ne s.commit j i _ no_commit (λ e. ne (sym e)),
        get_or-set_ne s.commit i j _ no_commit ne,
      )
      (ap (λ (cs : List InstrCommit). record s { commit = cs })
        (set_comm s.commit j i _ _ (λ e. ne (sym e))))

update_at_comm :
    (f g : CoreState → CoreState) (i j : ℕ) (cs : List CoreState)
    → i ≢ j
    → update_at f i (update_at g j cs) ≡ update_at g j (update_at f i cs)
update_at_comm f g i j [] ne = refl
update_at_comm f g zero zero (c ∷ cs) ne = absurd (ne refl)
update_at_comm f g zero (suc j) (c ∷ cs) ne = refl
update_at_comm f g (suc i) zero (c ∷ cs) ne = refl
update_at_comm f g (suc i) (suc j) (c ∷ cs) ne =
    ap (λ (ys : List CoreState). c ∷ ys) (update_at_comm f g i j cs (λ e. ne (ap suc e)))

-- Packets for different cores may be delivered in either order, whatever they carry.
pub deliver_comm :
    (f g : CoreState → CoreState) (i j : ℕ) (cores : Option (List CoreState))
    → i ≢ j
    → deliver f i (deliver g j cores) ≡ deliver g j (deliver f i cores)
unfolding deliver
deliver_comm f g i j none ne = refl
deliver_comm f g i j (some cs) ne = ap some (update_at_comm f g i j cs ne)
