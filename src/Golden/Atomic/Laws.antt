-- ===== src/Golden/Atomic/Laws.antt =====
-- What an atomic instruction that the check accepts leaves in the golden memory.
use native.Mathlib.Nat.{
  add-mul-mod_self_left, mod-eq_of_lt, mod-lt, div-add-mod, mul-le-mul_left, pow-suc, one-le-pow,
}
use riscv_single_cycle_cpu.Base.{
  ℕ, zero, suc, ◌+◌, ◌-◌, ◌*◌, ◌/◌, ◌%◌, ◌^◌, ◌≤◌, ◌<◌, ◌≡◌, refl, ap, ◌∙◌, arith, true, Option,
  none, some, ◌==◌, not, ◌&&◌, get_or, Bool-cases, inl, inr, ◌⊎◌, >>=-eq-some,
}
use riscv_single_cycle_cpu.Golden.{
  Pmem, pmem_base, pmem_size, read_goldenmem, update_goldenmem, le_bytes, bytes_at,
}
use riscv_single_cycle_cpu.Golden.Update.{masked, update_goldenmem_self, update_goldenmem_other}
use riscv_single_cycle_cpu.Golden.Atomic.{amo, atomic_double, handle_atomic}

mod_split : (v p : ℕ) → 0 < p → v % (256 * p) ≡ v % 256 + 256 * (v / 256 % p)
mod_split v p h =
    let q = v / 256 in
    let whole : v ≡ v % 256 + 256 * (q % p) + 256 * p * (q / p) =
      omega (arith, ap (λ (t : ℕ). 256 * t) (div-add-mod q p)) in
    let small : v % 256 + 256 * (q % p) < 256 * p =
      omega (arith, mul-le-mul_left 256 (mod-lt q h)) in
    ap (λ (t : ℕ). t % (256 * p)) whole
    ∙ add-mul-mod_self_left (v % 256 + 256 * (q % p)) (256 * p) (q / p)
    ∙ mod-eq_of_lt small

-- Reading back the bytes of a value.
bytes_at-le_bytes :
    (n v off : ℕ) (m : Pmem)
    → ((j : ℕ) → j < n → m (off + j) ≡ get_or (le_bytes n v) j 0 % 256)
    → bytes_at n off m ≡ v % 256 ^ n
unfolding bytes_at
bytes_at-le_bytes zero v off m h = omega arith
bytes_at-le_bytes (suc n) v off m h =
    let rest =
      bytes_at-le_bytes n (v / 256) (off + 1) m
        (λ j p. ap m (omega arith) ∙ h (suc j) (omega arith)) in
    rw (step, here, rest)
  where
    here : m off ≡ v % 256
    here = ap m (omega arith) ∙ h 0 (omega arith) ∙ omega arith

    step : v % 256 ^ suc n ≡ v % 256 + 256 * (v / 256 % 256 ^ n)
    step =
        ap (λ (t : ℕ). v % t) (pow-suc 256 n ∙ omega arith)
        ∙ mod_split v (256 ^ n) (one-le-pow n 256 (omega arith))

-- A read that succeeds returns the bytes at its offset.
pub read-eq_some :
    (addr n : ℕ) (m : Pmem) {v : ℕ}
    → read_goldenmem addr n m ≡ some v
    → (pmem_base ≤ addr)
      × (addr + n ≤ pmem_base + pmem_size)
      × (v ≡ bytes_at n (addr - pmem_base) m)
unfolding read_goldenmem
read-eq_some addr n m e = ground arith

read_total :
    (addr : ℕ) (m : Pmem)
    → pmem_base ≤ addr
    → addr + 8 ≤ pmem_base + pmem_size
    → read_goldenmem addr 8 m ≡ some (bytes_at 8 (addr - pmem_base) m)
unfolding read_goldenmem
read_total addr m lo hi = ground arith

get_or-le_bytes : (n v j : ℕ) → get_or (le_bytes n v) j 0 % 256 ≡ get_or (le_bytes n v) j 0
get_or-le_bytes zero v j = refl
get_or-le_bytes (suc n) v zero = omega arith
get_or-le_bytes (suc n) v (suc j) = get_or-le_bytes n (v / 256) j

-- the mask 0xff names the eight bytes
all_masked : (j : ℕ) → j < 8 → masked 0xff j ≡ true
all_masked zero h = refl
all_masked (suc zero) h = refl
all_masked (suc (suc zero)) h = refl
all_masked (suc (suc (suc zero))) h = refl
all_masked (suc (suc (suc (suc zero)))) h = refl
all_masked (suc (suc (suc (suc (suc zero))))) h = refl
all_masked (suc (suc (suc (suc (suc (suc zero)))))) h = refl
all_masked (suc (suc (suc (suc (suc (suc (suc zero))))))) h = refl
all_masked (suc (suc (suc (suc (suc (suc (suc (suc j)))))))) h = absurd (omega arith)

-- The golden memory after an update of all eight bytes reads back the value.
read-update_full :
    (addr v : ℕ) (m : Pmem) {m' : Pmem}
    → pmem_base ≤ addr
    → addr + 8 ≤ pmem_base + pmem_size
    → update_goldenmem addr (le_bytes 8 v) 0xff 8 m ≡ some m'
    → read_goldenmem addr 8 m' ≡ some (v % 2 ^ 64)
read-update_full addr v m {m'} lo hi e =
    read_total addr m' lo hi ∙ ap some (bytes_at-le_bytes 8 v (addr - pmem_base) m' each)
  where
    each : (j : ℕ) → j < 8 → m' (addr - pmem_base + j) ≡ get_or (le_bytes 8 v) j 0 % 256
    each j below =
        update_goldenmem_self addr (le_bytes 8 v) 0xff 8 j m (addr - pmem_base + j) (omega arith) e
          (omega arith) below
        ∙ rw (all_masked j below)

-- A check that is not refused goes on to the switch, at the value it was given.
atomic_double-eq_zero :
    (addr rs fuop t : ℕ) (m : Pmem) {m' : Pmem}
    → atomic_double addr rs fuop t m ≡ some (0, m')
    → (mem : ℕ) × (ret : ℕ) × (read_goldenmem addr 8 m ≡ some mem)
      × ((mem ≡ t) ⊎ (fuop ≡ 0o07) ⊎ (fuop ≡ 0o03))
      × (amo 63 fuop t rs ≡ some ret)
      × (update_goldenmem addr (le_bytes 8 ret) 0xff 8 m ≡ some m')
unfolding atomic_double
atomic_double-eq_zero addr rs fuop t m {m'} e =
    let (mem, seen, rest) = >>=-eq-some (read_goldenmem addr 8 m) _ e in
    elim (Bool-cases (not (mem == t) && not (fuop == 0o07) && not (fuop == 0o03))) [
      | inl refused ↦ absurd (let bad = rw refused at rest in ground arith)
      | inr agreed ↦
          let kept = rw agreed at rest in
          let (ret, result, tail) = >>=-eq-some (amo 63 fuop t rs) _ kept in
          let (final, wrote, done) =
            >>=-eq-some (update_goldenmem addr (le_bytes 8 ret) 0xff 8 m) _ tail in
          (
            mem,
            ret,
            seen,
            (ground arith),
            result,
            rw (ap {B = Pmem} (λ (r : Option (ℕ × Pmem)). elim r [ none ↦ m | some p ↦ p.1 ]) done)
                at wrote,
          )
    ]

-- When `handle_atomic` returns 0 at the mask of a double word, the core saw the golden value or
-- ran operation 003 or 007, the golden memory reads back the result of the operation, modulo
-- `2 ^ 64`, and no byte outside the double word has changed.
pub handle_atomic_double :
    (addr word fuop out : ℕ) (m : Pmem) {m' : Pmem}
    → handle_atomic addr word 0xff fuop out m ≡ some (0, m')
    → (mem : ℕ) × (ret : ℕ) × (read_goldenmem addr 8 m ≡ some mem)
      × ((mem ≡ out) ⊎ (fuop ≡ 0o07) ⊎ (fuop ≡ 0o03))
      × (amo 63 fuop out word ≡ some ret)
      × (read_goldenmem addr 8 m' ≡ some (ret % 2 ^ 64))
      × ((off : ℕ) → (pmem_base + off < addr) ⊎ (addr + 8 ≤ pmem_base + off) → m' off ≡ m off)
unfolding handle_atomic
handle_atomic_double addr word fuop out m {m'} e =
    let (mem, ret, seen, agreed, result, wrote) = atomic_double-eq_zero addr word fuop out m e in
    let (low, high, _) = read-eq_some addr 8 m seen in
    (
      mem,
      ret,
      seen,
      agreed,
      result,
      read-update_full addr ret m low high wrote,
      λ off outside.
          update_goldenmem_other addr (le_bytes 8 ret) 0xff 8 m off (omega arith) wrote outside,
    )
