-- ===== src/Core/Powers.antt =====
-- Powers of two as factors of one another.
use native.Mathlib.Nat.{pow-suc, pow-zero, add-suc, add-zero, mul-one, mul_assoc}
use riscv_single_cycle_cpu.Base.{ℕ, zero, suc, ◌+◌, ◌*◌, ◌^◌, ◌≡◌, sym, ap, ◌∙◌}

pub pow-add : (n m k : ℕ) → n ^ (m + k) ≡ n ^ m * n ^ k
pow-add n m zero = rw (add-zero m, pow-zero n) (sym (mul-one (n ^ m)))
pow-add n m (suc k) =
    let up : n ^ m * n ^ suc k ≡ n ^ m * n ^ k * n =
      ap (λ (t : ℕ). n ^ m * t) (pow-suc n k) ∙ sym (mul_assoc (n ^ m) (n ^ k) n) in
    rw (add-suc m k, pow-suc n (m + k), pow-add n m k) (sym up)
