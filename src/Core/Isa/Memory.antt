-- ===== src/Core/Isa/Memory.antt =====
-- A load or a store in the core, from its fetch to the answer of the data bus.
use riscv_single_cycle_cpu.Base.{
  ℕ, zero, suc, ◌*◌, ◌%◌, ◌^◌, ◌<◌, ◌≡◌, refl, ap, ◌∙◌, arith, Bool, true, false, not, ◌&&◌, add64,
  if◌then◌else◌,
}
use riscv_single_cycle_cpu.Bus.LoadOp.{Width, parse, strobe, place, apply}
use riscv_single_cycle_cpu.Bus.LoadOp.Placement.{bytes}
use riscv_single_cycle_cpu.Core.Lanes.{rd, wd, Write}
use riscv_single_cycle_cpu.Core.Lanes.Aligned.{msize, extended}
use riscv_single_cycle_cpu.Core.Lanes.Access.{wd-parse, rd-wd}
use riscv_single_cycle_cpu.Core.Datapath.{
  Core, Pins, Wires, wires, clock, read_reg, write_reg, known,
}
use riscv_single_cycle_cpu.Core.Isa.Words.{IsWords, read_reg-lt}
use riscv_single_cycle_cpu.Core.Isa.Retire.{fetched}
use riscv_single_cycle_cpu.Core.Isa.Refinement.{waiting, wait}
use riscv_single_cycle_cpu.Core.Isa.Accesses.{
  Load, Store, load_width, load_unsigned, store_width, encode_load, encode_store, in_core, address,
  answered, loaded, load-Wired, store-Wired,
}

-- The core is where it was, with the instruction kept.
abbrev Stays : ℕ → Core → Core → Type 0
Stays word c c' = (c'.pc ≡ c.pc) × (c'.regs ≡ c.regs) × (c'.curr_instr ≡ word)

kept : (k : Bool) (x y word : ℕ) → (if k then x else y) ≡ word → (if k then word else y) ≡ word
kept true x y word e = refl
kept false x y word e = e

and_false : (x : Bool) → (x && false) ≡ false
and_false true = refl
and_false false = refl

and_true : (x : Bool) → (x && true) ≡ x
and_true true = refl
and_true false = refl

module _ (is_store : Bool) (word : ℕ) (p : Pins) (c : Core) (no_reset : p.reset ≡ false)
    (hold_is : (wires p c).if_hold_pc ≡ answered p)
    (wreg_is : (wires p c).if_wreg ≡ (not is_store && answered p)) where
  access_waits :
      (wires p c).if_curr_ins ≡ true
      → (wires p c).instr ≡ word
      → in_core p c ≡ word
      → p.dresp_ok ≡ false
      → p.mul_done ≡ false
      → p.div_done ≡ false
      → Stays word c (clock p c)
  unfolding clock
  access_waits ins instr at_word no_answer dm dd =
      rw (hold_is, wreg_is, ins, instr, no_reset, no_answer, dm, dd, and_false (not is_store))
        (refl, refl, kept p.iresp_ok p.iresp_data c.curr_instr word at_word)

  access_done :
      (next rd value : ℕ)
      → (wires p c).next_pc ≡ next
      → (wires p c).d.rd ≡ rd
      → (wires p c).writeregdata ≡ value
      → p.dresp_ok ≡ true
      → ((clock p c).pc ≡ next)
        × ((clock p c).regs ≡ (if not is_store then write_reg c.regs rd value else c.regs))
        × ((clock p c).curr_instr ≡ 0)
  unfolding clock
  access_done next rd value n r v answer =
      rw (hold_is, wreg_is, n, r, v, no_reset, answer, and_true (not is_store)) (refl, refl, refl)

-- the data bus answers
abbrev pub answering : ℕ → Pins
answering x = record waiting { dresp_ok = true; dresp_data = x }

-- From the fetch edge on the core stays, until the data bus answers.
module _ (word : ℕ) (s : Core)
    (waits : (p : Pins) (c : Core)
      → in_core p c ≡ word
      → p.reset ≡ false
      → p.dresp_ok ≡ false
      → p.mul_done ≡ false
      → p.div_done ≡ false
      → Stays word c (clock p c)) where
  wait_from : (n : ℕ) (c : Core) → Stays word s c → Stays word s (wait n c)
  wait_from zero c k = k
  wait_from (suc n) c (pc, regs, instr) =
      let (pc', regs', instr') = waits waiting c instr refl refl refl refl in
      wait_from n (clock waiting c) (pc' ∙ pc, regs' ∙ regs, instr')

  fetch_and_wait : (n : ℕ) → Stays word s (wait n (clock (fetched word) s))
  fetch_and_wait n = wait_from n _ (waits (fetched word) s refl refl refl refl refl)

no_strobe : (addr size x : ℕ) → (wd false addr size x).strobe ≡ 0
unfolding wd
no_strobe addr size x = refl

loaded_lem :
    (op : Load) (addr x : ℕ)
    → addr % bytes (load_width op) ≡ 0
    → x < 2 ^ 64
    → loaded op addr x
      ≡ extended
          (load_unsigned op)
          (8 * bytes (load_width op))
          (apply (parse (load_width op) addr) x)
loaded_lem op addr x aligned hx =
    let w = load_width op in
    ap known (rd-wd w addr x 0 (load_unsigned op) aligned hx (omega arith)).0

-- What an access requests of the data bus.
abbrev Requests : Width → ℕ → Wires → Type 0
Requests w addr n = (n.c.d_valid ≡ true) × (n.alures ≡ addr) × (n.c.d_byte ≡ msize w)

-- A load from an address aligned to its width: however many edges pass after the fetch before the
-- data bus answers, the core then requests that address and width with no strobe, and at the
-- answer it moves on to the next instruction and writes what the test bench's operation applies
-- to the bus word, sign- or zero-extended.
pub load-Completes :
    (op : Load) (rd rs1 imm n x : ℕ) (s : Core)
    → rd < 32
    → rs1 < 32
    → imm < 2 ^ 12
    → x < 2 ^ 64
    → address s.regs rs1 imm % bytes (load_width op) ≡ 0
    → let w = load_width op in
      let addr = address s.regs rs1 imm in
      let s' = wait n (clock (fetched (encode_load op rd rs1 imm)) s) in
      let asked = wires (answering x) s' in
      let next = clock (answering x) s' in
      (Requests w addr asked × (asked.store.strobe ≡ 0))
      × (next.pc ≡ add64 s.pc 4)
      × (next.regs
          ≡ write_reg s.regs rd
              (extended (load_unsigned op) (8 * bytes w) (apply (parse w addr) x)))
      × (next.curr_instr ≡ 0)
load-Completes op rd rs1 imm n x s h h1 hi hx aligned =
    let (pc, regs, instr) = stays in
    let s' = wait n (clock (fetched word) s) in
    let p = answering x in
    let wired = load-Wired p s' op rd rs1 imm h h1 hi instr in
    let same = ap (λ (t : ℕ → ℕ). address t rs1 imm) regs in
    let (pc', regs', instr') =
      access_done false word p s' refl wired.6 wired.7 _ rd _ wired.5 wired.10 wired.11 refl in
    (
      ((wired.1, wired.0 ∙ same, wired.2), ap (λ (t : Write). t.strobe) wired.3 ∙ no_strobe _ _ _),
      pc' ∙ ap (λ (t : ℕ). add64 t 4) pc,
      regs'
          ∙ ap (λ (t : ℕ → ℕ). write_reg t rd (loaded op (address t rs1 imm) x)) regs
          ∙ ap (write_reg s.regs rd) (loaded_lem op (address s.regs rs1 imm) x aligned hx),
      instr',
    )
  where
    word : ℕ
    word = encode_load op rd rs1 imm

    stays : Stays word s (wait n (clock (fetched word) s))
    stays =
        fetch_and_wait word s
          (λ p c e r a m d.
            let wired = load-Wired p c op rd rs1 imm h h1 hi e in
            access_waits false word p c r wired.6 wired.7 wired.8 wired.9 e a m d)
          n

-- A store to an address aligned to its width: however many edges pass after the fetch before the
-- data bus answers, the core then requests that address and width, with the strobe and the word of
-- the test bench's operation for the bits stored, and at the answer it moves on to the next
-- instruction and leaves the registers.
pub store-Completes :
    (op : Store) (rs1 rs2 imm n x : ℕ) (s : Core)
    → rs1 < 32
    → rs2 < 32
    → imm < 2 ^ 12
    → IsWords s.regs
    → address s.regs rs1 imm % bytes (store_width op) ≡ 0
    → let w = store_width op in
      let addr = address s.regs rs1 imm in
      let s' = wait n (clock (fetched (encode_store op rs1 rs2 imm)) s) in
      let asked = wires (answering x) s' in
      let next = clock (answering x) s' in
      (Requests w addr asked
        × (asked.store ≡ record {
          wd = place (parse w addr) (read_reg s.regs rs2 % 2 ^ (8 * bytes w));
          strobe = strobe (parse w addr);
        }))
      × (next.pc ≡ add64 s.pc 4)
      × (next.regs ≡ s.regs)
      × (next.curr_instr ≡ 0)
store-Completes op rs1 rs2 imm n x s h1 h2 hi words aligned =
    let (pc, regs, instr) = stays in
    let s' = wait n (clock (fetched word) s) in
    let p = answering x in
    let wired = store-Wired p s' op rs1 rs2 imm h1 h2 hi instr in
    let w = store_width op in
    let same = ap (λ (t : ℕ → ℕ). address t rs1 imm) regs in
    let (pc', regs', instr') =
      access_done true word p s' refl wired.6 wired.7 _ 0 _ wired.5 wired.10 wired.11 refl in
    (
      (
        (wired.1, wired.0 ∙ same, wired.2),
        wired.3
            ∙ ap (λ (t : ℕ → ℕ). wd true (address t rs1 imm % 8) (msize w) (read_reg t rs2)) regs
            ∙ wd-parse w (address s.regs rs1 imm) (read_reg s.regs rs2) aligned
                (read_reg-lt s.regs rs2 words),
      ),
      pc' ∙ ap (λ (t : ℕ). add64 t 4) pc,
      regs' ∙ regs,
      instr',
    )
  where
    word : ℕ
    word = encode_store op rs1 rs2 imm

    stays : Stays word s (wait n (clock (fetched word) s))
    stays =
        fetch_and_wait word s
          (λ p c e r a m d.
            let wired = store-Wired p c op rs1 rs2 imm h1 h2 hi e in
            access_waits true word p c r wired.6 wired.7 wired.8 wired.9 e a m d)
          n
