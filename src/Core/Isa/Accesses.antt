-- ===== src/Core/Isa/Accesses.antt =====
-- The loads and stores that vsrc/src/controlunit.sv decodes: their encodings, and the wires of the
-- core while one is in it.
use riscv_single_cycle_cpu.Base.{
  ℕ, ◌/◌, ◌%◌, ◌^◌, ◌<◌, ◌≡◌, refl, arith, Bool, true, false, not, ◌&&◌, ◌||◌, add64, if◌then◌else◌,
}
use riscv_single_cycle_cpu.Bus.LoadOp.{Width, width1, width2, width4, width8}
use riscv_single_cycle_cpu.Core.Control.{control}
use riscv_single_cycle_cpu.Core.Alu.{alu}
use riscv_single_cycle_cpu.Core.Lanes.{rd, wd}
use riscv_single_cycle_cpu.Core.Lanes.Aligned.{msize}
use riscv_single_cycle_cpu.Core.Datapath.{Core, Pins, Wires, wires, read_reg, known}
use riscv_single_cycle_cpu.Core.Isa.{signed_field}
use riscv_single_cycle_cpu.Core.Isa.Encoding.{fields}
use riscv_single_cycle_cpu.Core.Isa.Fields.{fields-Fields}
use riscv_single_cycle_cpu.Core.Isa.Decoding.{decode_load, decode_store}

pub data Load : Type 0 where
  lb lh lw ld lbu lhu lwu : Load

pub data Store : Type 0 where
  sb sh sw sd : Store

abbrev pub funct3_load : Load → ℕ
funct3_load lb = 0b000
funct3_load lh = 0b001
funct3_load lw = 0b010
funct3_load ld = 0b011
funct3_load lbu = 0b100
funct3_load lhu = 0b101
funct3_load lwu = 0b110

abbrev pub load_width : Load → Width
load_width lb = width1
load_width lh = width2
load_width lw = width4
load_width ld = width8
load_width lbu = width1
load_width lhu = width2
load_width lwu = width4

-- A load of 8 bytes has nothing to extend, and the control unit does not ask for a sign.
abbrev pub load_unsigned : Load → Bool
load_unsigned lb = false
load_unsigned lh = false
load_unsigned lw = false
load_unsigned _ = true

abbrev pub store_width : Store → Width
store_width sb = width1
store_width sh = width2
store_width sw = width4
store_width sd = width8

abbrev pub encode_load : Load → (rd rs1 imm : ℕ) → ℕ
encode_load op rd rs1 imm = fields (imm / 2 ^ 5) (imm % 2 ^ 5) rs1 (funct3_load op) rd 0b0000011

abbrev pub encode_store : Store → (rs1 rs2 imm : ℕ) → ℕ
encode_store op rs1 rs2 imm =
    fields (imm / 2 ^ 5) rs2 rs1 (msize (store_width op)) (imm % 2 ^ 5) 0b0100011

-- the instruction word in the core
abbrev pub in_core : Pins → Core → ℕ
in_core p c = if p.iresp_ok then p.iresp_data else c.curr_instr

abbrev pub address : (ℕ → ℕ) → ℕ → ℕ → ℕ
address regs rs1 imm = add64 (read_reg regs rs1) (signed_field 12 imm)

-- an answer on the data bus, or of a unit
abbrev pub answered : Pins → Bool
answered p = p.dresp_ok || p.mul_done || p.div_done

-- The wires of an access: what it requests of the data bus, and when the core moves on.
abbrev pub Wired : Bool → Width → (addr next stored rd value word : ℕ) → Pins → Wires → Type 0
Wired is_store w addr next stored rd value word p n =
    (n.alures ≡ addr)
    × (n.c.d_valid ≡ true)
    × (n.c.d_byte ≡ msize w)
    × (n.store ≡ wd is_store (addr % 8) (msize w) stored)
    × (n.c.branch ≡ false)
    × (n.next_pc ≡ next)
    × (n.if_hold_pc ≡ answered p)
    × (n.if_wreg ≡ (not is_store && answered p))
    × (n.if_curr_ins ≡ true)
    × (n.instr ≡ word)
    × (n.d.rd ≡ rd)
    × (n.writeregdata ≡ value)

and_false : (x : Bool) → (x && false) ≡ false
and_false true = refl
and_false false = refl

-- what a load writes of the word that the data bus answers with
abbrev pub loaded : Load → ℕ → ℕ → ℕ
loaded op addr x = known (rd (addr % 8) (msize (load_width op)) (load_unsigned op) x)

module _ (p : Pins) (c : Core) where
  pub load-Wired :
      (op : Load) (rd rs1 imm : ℕ)
      → rd < 32
      → rs1 < 32
      → imm < 2 ^ 12
      → in_core p c ≡ encode_load op rd rs1 imm
      → let addr = address c.regs rs1 imm in
        Wired false
          (load_width op)
          addr
          (add64 c.pc 4)
          0
          rd
          (loaded op addr p.dresp_data)
          (encode_load op rd rs1 imm)
          p
          (wires p c)
  unfolding wires control alu
  load-Wired lb rd rs1 imm h h1 hi e =
      rw
        (
          e,
          decode_load
              (fields-Fields (imm / 2 ^ 5) (imm % 2 ^ 5) rs1 0b000 rd _ (omega arith) (omega arith)
                h1 (omega arith) h (omega arith))
              imm hi (omega arith),
          and_false p.iresp_ok,
        )
        (refl, refl, refl, refl, refl, refl, refl, refl, refl, refl, refl, refl)
  load-Wired lh rd rs1 imm h h1 hi e =
      rw
        (
          e,
          decode_load
              (fields-Fields (imm / 2 ^ 5) (imm % 2 ^ 5) rs1 0b001 rd _ (omega arith) (omega arith)
                h1 (omega arith) h (omega arith))
              imm hi (omega arith),
          and_false p.iresp_ok,
        )
        (refl, refl, refl, refl, refl, refl, refl, refl, refl, refl, refl, refl)
  load-Wired lw rd rs1 imm h h1 hi e =
      rw
        (
          e,
          decode_load
              (fields-Fields (imm / 2 ^ 5) (imm % 2 ^ 5) rs1 0b010 rd _ (omega arith) (omega arith)
                h1 (omega arith) h (omega arith))
              imm hi (omega arith),
          and_false p.iresp_ok,
        )
        (refl, refl, refl, refl, refl, refl, refl, refl, refl, refl, refl, refl)
  load-Wired ld rd rs1 imm h h1 hi e =
      rw
        (
          e,
          decode_load
              (fields-Fields (imm / 2 ^ 5) (imm % 2 ^ 5) rs1 0b011 rd _ (omega arith) (omega arith)
                h1 (omega arith) h (omega arith))
              imm hi (omega arith),
          and_false p.iresp_ok,
        )
        (refl, refl, refl, refl, refl, refl, refl, refl, refl, refl, refl, refl)
  load-Wired lbu rd rs1 imm h h1 hi e =
      rw
        (
          e,
          decode_load
              (fields-Fields (imm / 2 ^ 5) (imm % 2 ^ 5) rs1 0b100 rd _ (omega arith) (omega arith)
                h1 (omega arith) h (omega arith))
              imm hi (omega arith),
          and_false p.iresp_ok,
        )
        (refl, refl, refl, refl, refl, refl, refl, refl, refl, refl, refl, refl)
  load-Wired lhu rd rs1 imm h h1 hi e =
      rw
        (
          e,
          decode_load
              (fields-Fields (imm / 2 ^ 5) (imm % 2 ^ 5) rs1 0b101 rd _ (omega arith) (omega arith)
                h1 (omega arith) h (omega arith))
              imm hi (omega arith),
          and_false p.iresp_ok,
        )
        (refl, refl, refl, refl, refl, refl, refl, refl, refl, refl, refl, refl)
  load-Wired lwu rd rs1 imm h h1 hi e =
      rw
        (
          e,
          decode_load
              (fields-Fields (imm / 2 ^ 5) (imm % 2 ^ 5) rs1 0b110 rd _ (omega arith) (omega arith)
                h1 (omega arith) h (omega arith))
              imm hi (omega arith),
          and_false p.iresp_ok,
        )
        (refl, refl, refl, refl, refl, refl, refl, refl, refl, refl, refl, refl)

  pub store-Wired :
      (op : Store) (rs1 rs2 imm : ℕ)
      → rs1 < 32
      → rs2 < 32
      → imm < 2 ^ 12
      → in_core p c ≡ encode_store op rs1 rs2 imm
      → let addr = address c.regs rs1 imm in
        Wired true
          (store_width op)
          addr
          (add64 c.pc 4)
          (read_reg c.regs rs2)
          0
          addr
          (encode_store op rs1 rs2 imm)
          p
          (wires p c)
  unfolding wires control alu
  store-Wired sb rs1 rs2 imm h1 h2 hi e =
      rw
        (
          e,
          decode_store
              (fields-Fields (imm / 2 ^ 5) rs2 rs1 0b000 (imm % 2 ^ 5) _ (omega arith) h2 h1
                (omega arith) (omega arith) (omega arith))
              imm hi (omega arith),
          and_false p.iresp_ok,
        )
        (refl, refl, refl, refl, refl, refl, refl, refl, refl, refl, refl, refl)
  store-Wired sh rs1 rs2 imm h1 h2 hi e =
      rw
        (
          e,
          decode_store
              (fields-Fields (imm / 2 ^ 5) rs2 rs1 0b001 (imm % 2 ^ 5) _ (omega arith) h2 h1
                (omega arith) (omega arith) (omega arith))
              imm hi (omega arith),
          and_false p.iresp_ok,
        )
        (refl, refl, refl, refl, refl, refl, refl, refl, refl, refl, refl, refl)
  store-Wired sw rs1 rs2 imm h1 h2 hi e =
      rw
        (
          e,
          decode_store
              (fields-Fields (imm / 2 ^ 5) rs2 rs1 0b010 (imm % 2 ^ 5) _ (omega arith) h2 h1
                (omega arith) (omega arith) (omega arith))
              imm hi (omega arith),
          and_false p.iresp_ok,
        )
        (refl, refl, refl, refl, refl, refl, refl, refl, refl, refl, refl, refl)
  store-Wired sd rs1 rs2 imm h1 h2 hi e =
      rw
        (
          e,
          decode_store
              (fields-Fields (imm / 2 ^ 5) rs2 rs1 0b011 (imm % 2 ^ 5) _ (omega arith) h2 h1
                (omega arith) (omega arith) (omega arith))
              imm hi (omega arith),
          and_false p.iresp_ok,
        )
        (refl, refl, refl, refl, refl, refl, refl, refl, refl, refl, refl, refl)
