-- ===== src/Golden/Update.antt =====
-- The bytes that `update_goldenmem` of difftest/src/test/csrc/difftest/goldenmem.cpp writes.
use riscv_single_cycle_cpu.Base.{
  ℕ, zero, suc, ◌+◌, ◌-◌, ◌%◌, ◌^◌, ◌≤◌, ◌<◌, ◌≡◌, ◌≢◌, ◌∙◌, arith, Bool, true, false, some, List,
  ◌==◌, if◌then◌else◌, add64, shr, get_or, get_elem?, Bool-cases, inl, inr, ◌⊎◌, ==_iff, ==-refl,
  refl, leb, le→leb, length, get_elem?-eq-get_or, ==-ne, get_or-eq_of_some, not, >>=-eq-some,
}
use riscv_single_cycle_cpu.Golden.{
  in_pmem, pmem_write, Pmem, pmem_base, pmem_size, paddr_write, put_bytes, update_byte, update_from,
  update_goldenmem,
}

-- the mask names byte `i`
abbrev pub masked : ℕ → ℕ → Bool
masked mask i = not (shr mask i % 2 == 0)

-- A write of one byte that succeeds is inside, and sets that byte.
paddr_write-eq_some :
    (addr v : ℕ) (m : Pmem) {m' : Pmem}
    → paddr_write addr v 1 m ≡ some m'
    → (pmem_base ≤ addr)
      × (addr < pmem_base + pmem_size)
      × (m' ≡ (λ j. if j == addr - pmem_base then v % 256 else m j))
unfolding paddr_write put_bytes
paddr_write-eq_some addr v m e = ground arith

-- A round that the mask names writes its byte; another does nothing.
update_byte-eq_some :
    (addr : ℕ) (bytes : List ℕ) (mask i : ℕ) (m : Pmem) {m' : Pmem}
    → addr + i < 2 ^ 64
    → update_byte addr bytes mask i m ≡ some m'
    → ((masked mask i ≡ false) × (m' ≡ m))
      ⊎ ((masked mask i ≡ true)
          × (pmem_base ≤ addr + i)
          × (m' ≡ (λ j. if j == addr + i - pmem_base then get_or bytes i 0 % 256 else m j)))
unfolding update_byte
update_byte-eq_some addr bytes mask i m {m'} h e = elim (Bool-cases (shr mask i % 2 == 0)) [
  | inl skip ↦ inl (rw skip, (let kept = rw skip at e in cc))
  | inr hit ↦
      let (byte, there, wrote) = >>=-eq-some (get_elem? bytes i) _ (rw hit at e) in
      let no_wrap : add64 addr i ≡ addr + i = omega arith in
      let (low, high, made) = paddr_write-eq_some (addr + i) byte m (rw no_wrap at wrote) in
      inr (rw hit, low, rw (get_or-eq_of_some bytes i 0 there) made)
]

-- What one round does to the byte of its own address, and to the others.
update_byte_self :
    (addr : ℕ) (bytes : List ℕ) (mask i : ℕ) (m : Pmem) {m' : Pmem} (off : ℕ)
    → addr + i < 2 ^ 64
    → update_byte addr bytes mask i m ≡ some m'
    → pmem_base + off ≡ addr + i
    → m' off ≡ (if masked mask i then get_or bytes i 0 % 256 else m off)
update_byte_self addr bytes mask i m {m'} off h e place =
    elim (update_byte-eq_some addr bytes mask i m h e) [
      | inl (skip, kept) ↦ rw (skip, kept)
      | inr (hit, low, made) ↦
          let here : off ≡ addr + i - pmem_base = omega arith in
          rw (hit, made, here, ==-refl (addr + i - pmem_base))
    ]

update_byte_other :
    (addr : ℕ) (bytes : List ℕ) (mask i : ℕ) (m : Pmem) {m' : Pmem} (off : ℕ)
    → addr + i < 2 ^ 64
    → update_byte addr bytes mask i m ≡ some m'
    → pmem_base + off ≢ addr + i
    → m' off ≡ m off
update_byte_other addr bytes mask i m {m'} off h e place =
    elim (update_byte-eq_some addr bytes mask i m h e) [
      | inl (skip, kept) ↦ rw kept
      | inr (hit, low, made) ↦ rw (made, ==-ne off (addr + i - pmem_base) (omega arith))
    ]

update_from_other :
    (n addr : ℕ) (bytes : List ℕ) (mask i : ℕ) (m : Pmem) {m' : Pmem} (off : ℕ)
    → addr + i + n ≤ 2 ^ 64
    → update_from n addr bytes mask i m ≡ some m'
    → (pmem_base + off < addr + i) ⊎ (addr + i + n ≤ pmem_base + off)
    → m' off ≡ m off
unfolding update_from
update_from_other zero addr bytes mask i m off h e out = cc
update_from_other (suc n) addr bytes mask i m off h e out =
    let (mid, first, rest) = >>=-eq-some (update_byte addr bytes mask i m) _ e in
    update_from_other n addr bytes mask (i + 1) mid off (omega arith) rest (omega arith)
    ∙ update_byte_other addr bytes mask i m off (omega arith) first (omega arith)

update_from_self :
    (n addr : ℕ) (bytes : List ℕ) (mask i j : ℕ) (m : Pmem) {m' : Pmem} (off : ℕ)
    → addr + i + n ≤ 2 ^ 64
    → update_from n addr bytes mask i m ≡ some m'
    → pmem_base + off ≡ addr + j
    → i ≤ j
    → j < i + n
    → m' off ≡ (if masked mask j then get_or bytes j 0 % 256 else m off)
unfolding update_from
update_from_self zero addr bytes mask i j m off h e place lo hi = absurd (omega arith)
update_from_self (suc n) addr bytes mask i j m {m'} off h e place lo hi =
    let (mid, first, rest) = >>=-eq-some (update_byte addr bytes mask i m) _ e in
    elim (Bool-cases (i == j)) [
      | inl now ↦
          let same : i ≡ j = (==_iff i j).0 now in
          update_from_other n addr bytes mask (i + 1) mid off (omega arith) rest (omega arith)
          ∙ rw same at (update_byte_self addr bytes mask i m off (omega arith) first (omega arith))
      | inr later ↦
          let ne : i ≢ j = ground arith in
          let tail =
            update_from_self n addr bytes mask (i + 1) j mid off (omega arith) rest place
              (omega arith) (omega arith) in
          let kept = update_byte_other addr bytes mask i m off (omega arith) first (omega arith) in
          rw (← kept) tail
    ]

-- After an update that succeeds and does not run over `2 ^ 64`, byte `j` of the range is the new
-- byte, modulo 256, if the mask names it, and the old one if not.
pub update_goldenmem_self :
    (addr : ℕ) (bytes : List ℕ) (mask len j : ℕ) (m : Pmem) {m' : Pmem} (off : ℕ)
    → addr + len ≤ 2 ^ 64
    → update_goldenmem addr bytes mask len m ≡ some m'
    → pmem_base + off ≡ addr + j
    → j < len
    → m' off ≡ (if masked mask j then get_or bytes j 0 % 256 else m off)
unfolding update_goldenmem
update_goldenmem_self addr bytes mask len j m off h e place below =
    update_from_self len addr bytes mask 0 j m off (omega arith) e place (omega arith) (omega arith)

-- An update that succeeds and does not run over `2 ^ 64` changes no byte outside its range.
pub update_goldenmem_other :
    (addr : ℕ) (bytes : List ℕ) (mask len : ℕ) (m : Pmem) {m' : Pmem} (off : ℕ)
    → addr + len ≤ 2 ^ 64
    → update_goldenmem addr bytes mask len m ≡ some m'
    → (pmem_base + off < addr) ⊎ (addr + len ≤ pmem_base + off)
    → m' off ≡ m off
unfolding update_goldenmem
update_goldenmem_other addr bytes mask len m off h e out =
    update_from_other len addr bytes mask 0 m off (omega arith) e (omega arith)

update_byte_total :
    (addr : ℕ) (bytes : List ℕ) (mask i : ℕ) (m : Pmem)
    → pmem_base ≤ addr
    → addr + i < pmem_base + pmem_size
    → i < length bytes
    → (m' : Pmem) × (update_byte addr bytes mask i m ≡ some m')
unfolding update_byte paddr_write in_pmem pmem_write
update_byte_total addr bytes mask i m lo hi inside =
    let there = get_elem?-eq-get_or bytes i 0 inside in
    let no_wrap : add64 addr i ≡ addr + i = omega arith in
    let low : leb pmem_base (addr + i) ≡ true = le→leb pmem_base (addr + i) (omega arith) in
    let high : leb (addr + i) (pmem_base + pmem_size - 1) ≡ true =
      le→leb (addr + i) _ (omega arith) in
    let room : leb (addr + i - pmem_base + 1) pmem_size ≡ true =
      le→leb (addr + i - pmem_base + 1) pmem_size (omega arith) in
    elim (Bool-cases (shr mask i % 2 == 0)) [
      | inl skip ↦ (m, rw skip refl)
      | inr hit ↦ (
        put_bytes 1 (addr + i - pmem_base) (get_or bytes i 0) m,
        rw (hit, there, no_wrap, low, high, room) refl,
      )
    ]

update_from_total :
    (n addr : ℕ) (bytes : List ℕ) (mask i : ℕ) (m : Pmem)
    → pmem_base ≤ addr
    → addr + i + n ≤ pmem_base + pmem_size
    → i + n ≤ length bytes
    → (m' : Pmem) × (update_from n addr bytes mask i m ≡ some m')
unfolding update_from
update_from_total zero addr bytes mask i m lo hi inside = (m, refl)
update_from_total (suc n) addr bytes mask i m lo hi inside =
    let (mid, first) = update_byte_total addr bytes mask i m lo (omega arith) (omega arith) in
    let (final, rest) =
      update_from_total n addr bytes mask (i + 1) mid lo (omega arith) (omega arith) in
    (final, rw first rest)

-- An update of a range inside the memory, from as many bytes, succeeds, whatever the mask.
pub update_goldenmem_total :
    (addr : ℕ) (bytes : List ℕ) (mask len : ℕ) (m : Pmem)
    → pmem_base ≤ addr
    → addr + len ≤ pmem_base + pmem_size
    → len ≤ length bytes
    → (m' : Pmem) × (update_goldenmem addr bytes mask len m ≡ some m')
unfolding update_goldenmem
update_goldenmem_total addr bytes mask len m lo hi inside =
    update_from_total len addr bytes mask 0 m lo (omega arith) (omega arith)
