-- ===== src/Bus/LoadOp/Store.antt =====
-- The overloaded `apply(data, dest)` of `LoadOp`, verilate/include/bus.h, whose cases fall through
-- from the widest write to the narrowest.
use riscv_single_cycle_cpu.Base.{
  ℕ, zero, suc, ◌+◌, ◌-◌, ◌/◌, ◌%◌, ◌≤◌, ◌<◌, ◌≡◌, refl, ◌∙◌, ap, arith, List, get_or, set, length,
  length-set, get_or-set_self, get_or-set_ne, ltb, leb, ◌&&◌, if◌then◌else◌,
}
use riscv_single_cycle_cpu.Bus.LoadOp.{
  LoadOp, write_bytes, write1, write2, write4, write8, apply_to, apply,
}
use riscv_single_cycle_cpu.Bus.LoadOp.{
  size2_sht0, size2_sht16, size2_sht32, size2_sht48, size4_sht0, size4_sht32, size8_sht0, discard,
}

-- byte `i` of `v`
abbrev pub byte : ℕ → ℕ → ℕ
byte zero v = v % 256
byte (suc i) v = byte i (v / 256)

byte_of_pos : (k v : ℕ) → 0 < k → byte k v ≡ byte (k - 1) (v / 256)
byte_of_pos zero v h = absurd (omega arith)
byte_of_pos (suc k) v h = let e : k ≡ suc k - 1 = omega arith in ap (λ i. byte i (v / 256)) e

length-write_bytes : (n lo v : ℕ) (dest : List ℕ) → length (write_bytes n lo v dest) ≡ length dest
unfolding write_bytes
length-write_bytes zero lo v dest = refl
length-write_bytes (suc n) lo v dest =
    length-write_bytes n (lo + 1) (v / 256) (set dest lo (v % 256)) ∙ length-set dest lo (v % 256)

-- What `n` bytes of `v` from index `lo` on leave at index `j`.
get_or-write_bytes :
    (n lo v j : ℕ) (dest : List ℕ)
    → lo + n ≤ length dest
    → get_or (write_bytes n lo v dest) j 0
      ≡ (if leb lo j && ltb j (lo + n) then byte (j - lo) v else get_or dest j 0)
unfolding write_bytes
get_or-write_bytes zero lo v j dest h = ground arith
get_or-write_bytes (suc n) lo v j dest h = ground (
  arith,
  get_or-write_bytes n (lo + 1) (v / 256) j (set dest lo (v % 256)),
  length-set dest lo (v % 256),
  get_or-set_self dest lo (v % 256) 0,
  get_or-set_ne dest lo j (v % 256) 0,
  byte_of_pos (j - lo) v,
)

-- index `j` of `dest` with `n` bytes of `v` written at its start
abbrev pub written : ℕ → ℕ → List ℕ → ℕ → ℕ
written n v dest j = if ltb j n then byte j v else get_or dest j 0

get_or-write_bytes_start :
    (n v j : ℕ) (dest : List ℕ)
    → n ≤ length dest
    → get_or (write_bytes n 0 v dest) j 0 ≡ written n v dest j
get_or-write_bytes_start n v j dest h =
    let e : j - 0 ≡ j = omega arith in
    let f : 0 + n ≡ n = omega arith in
    rw (get_or-write_bytes n 0 v j dest (omega arith), e, f) (ground arith)

-- Each write covers the narrower ones that follow it.
get_or-write1 :
    (v : ℕ) (dest : List ℕ) (j : ℕ)
    → 1 ≤ length dest
    → get_or (write1 v dest) j 0 ≡ written 1 v dest j
unfolding write1
get_or-write1 v dest j h = ground (arith, get_or-write_bytes_start 1 v j dest)

get_or-write2 :
    (v : ℕ) (dest : List ℕ) (j : ℕ)
    → 2 ≤ length dest
    → get_or (write2 v dest) j 0 ≡ written 2 v dest j
unfolding write2
get_or-write2 v dest j h = ground (
  arith,
  get_or-write_bytes_start 2 v j dest,
  length-write_bytes 2 0 v dest,
  get_or-write1 v (write_bytes 2 0 v dest) j,
)

get_or-write4 :
    (v : ℕ) (dest : List ℕ) (j : ℕ)
    → 4 ≤ length dest
    → get_or (write4 v dest) j 0 ≡ written 4 v dest j
unfolding write4
get_or-write4 v dest j h = ground (
  arith,
  get_or-write_bytes_start 4 v j dest,
  length-write_bytes 4 0 v dest,
  get_or-write2 v (write_bytes 4 0 v dest) j,
)

get_or-write8 :
    (v : ℕ) (dest : List ℕ) (j : ℕ)
    → 8 ≤ length dest
    → get_or (write8 v dest) j 0 ≡ written 8 v dest j
unfolding write8
get_or-write8 v dest j h = ground (
  arith,
  get_or-write_bytes_start 8 v j dest,
  length-write_bytes 8 0 v dest,
  get_or-write4 v (write_bytes 8 0 v dest) j,
)

-- the bytes that an operation transfers
abbrev pub op_bytes : LoadOp → ℕ
op_bytes size8_sht0 = 8
op_bytes size4_sht32 = 4
op_bytes size4_sht0 = 4
op_bytes size2_sht48 = 2
op_bytes size2_sht32 = 2
op_bytes size2_sht16 = 2
op_bytes size2_sht0 = 2
op_bytes discard = 0
op_bytes _ = 1

-- With as many bytes at the destination as the operation's width, `apply(data, dest)` leaves there
-- exactly that many bytes of the shifted word, in spite of the fall-through, and no other byte
-- changes.
pub get_or-apply_to :
    (op : LoadOp) (v : ℕ) (dest : List ℕ) (j : ℕ)
    → op_bytes op ≤ length dest
    → get_or (apply_to op v dest) j 0 ≡ written (op_bytes op) (apply op v) dest j
unfolding apply_to
get_or-apply_to size8_sht0 v dest j h = get_or-write8 _ dest j h
get_or-apply_to size4_sht32 v dest j h = get_or-write4 _ dest j h
get_or-apply_to size4_sht0 v dest j h = get_or-write4 _ dest j h
get_or-apply_to size2_sht48 v dest j h = get_or-write2 _ dest j h
get_or-apply_to size2_sht32 v dest j h = get_or-write2 _ dest j h
get_or-apply_to size2_sht16 v dest j h = get_or-write2 _ dest j h
get_or-apply_to size2_sht0 v dest j h = get_or-write2 _ dest j h
get_or-apply_to discard v dest j h = ground arith
get_or-apply_to _ v dest j h = get_or-write1 _ dest j h

pub length-apply_to :
    (op : LoadOp) (v : ℕ) (dest : List ℕ) → length (apply_to op v dest) ≡ length dest
unfolding apply_to write1 write2 write4 write8
length-apply_to size8_sht0 v dest = simp length-write_bytes
length-apply_to size4_sht32 v dest = simp length-write_bytes
length-apply_to size4_sht0 v dest = simp length-write_bytes
length-apply_to size2_sht48 v dest = simp length-write_bytes
length-apply_to size2_sht32 v dest = simp length-write_bytes
length-apply_to size2_sht16 v dest = simp length-write_bytes
length-apply_to size2_sht0 v dest = simp length-write_bytes
length-apply_to discard v dest = refl
length-apply_to _ v dest = length-write_bytes 1 0 _ dest
