-- ===== src/Core/Control.antt =====
-- The control unit, vsrc/src/controlunit.sv. A signal that an arm of the `case` does not assign
-- keeps its value: the unit takes the signals held from the last evaluation.
use riscv_single_cycle_cpu.Base.{ℕ, Bool, true, false, not, ◌==◌, if◌then◌else◌}

pub record Control : Type 0 where
  pub jump : ℕ
  pub m2reg : ℕ
  pub branch : Bool
  pub wmem : Bool
  pub aluc : ℕ
  pub shift : Bool
  pub aluimm : Bool
  pub wreg : Bool
  pub d_valid : Bool
  pub d_byte : ℕ
  pub read_sign : Bool
  pub mul_valid : Bool
  pub div_valid : Bool
  pub mul_sign : Bool
  pub div_sign : Bool
  pub mul_w : Bool
  pub div_w : Bool

-- the assignments before the `case`
cleared : Control → Control
cleared held = record held {
  d_valid = false;
  d_byte = 0b000;
  read_sign = false;
  mul_valid = false;
  div_valid = false;
  mul_sign = false;
  div_sign = false;
  mul_w = false;
  div_w = false;
}

-- an arm that writes a register
writing : ℕ → Bool → Control → Control
writing m2reg aluimm o = record o {
  jump = 0b00;
  m2reg = m2reg;
  branch = false;
  wmem = false;
  shift = false;
  aluimm = aluimm;
  wreg = true;
}

-- `7'b0000011`
load_arm : ℕ → Control → Control
unfolding writing
load_arm func3 o =
    let c = record (writing 0b001 true o) { d_valid = true; aluc = 0b0000 } in
    if func3 == 0b000
    then record c { d_byte = 0b000; read_sign = true }
    else if func3 == 0b001
    then record c { d_byte = 0b001; read_sign = true }
    else if func3 == 0b010
    then record c { d_byte = 0b010; read_sign = true }
    else if func3 == 0b011
    then record c { d_byte = 0b011 }
    else if func3 == 0b100
    then record c { d_byte = 0b000 }
    else if func3 == 0b101
    then record c { d_byte = 0b001 }
    else if func3 == 0b110
    then record c { d_byte = 0b010 }
    else record c { d_byte = 0b000 }

-- `7'b0010011`
immediate_arm : ℕ → ℕ → Control → Control
unfolding writing
immediate_arm func7 func3 o =
    let c = writing 0b000 true o in
    if func3 == 0b000
    then record c { aluc = 0b0000 }
    else if func3 == 0b001
    then record c { aluc = 0b0101 }
    else if func3 == 0b010
    then record c { aluc = 0b0111 }
    else if func3 == 0b011
    then record c { aluc = 0b1001 }
    else if func3 == 0b100
    then record c { aluc = 0b0100 }
    else if func3 == 0b101
    then (if func7 == 0b0000000
        then record c { aluc = 0b0110 }
        else if func7 == 0b0100000
        then record c { aluc = 0b1000 }
        else record c { aluc = 0b0000 })
    else if func3 == 0b110
    then record c { aluc = 0b0011 }
    else record c { aluc = 0b0010 }

-- `7'b0011011`
immediate_word_arm : ℕ → ℕ → Control → Control
unfolding writing
immediate_word_arm func7 func3 o =
    let c = writing 0b000 true o in
    if func3 == 0b000
    then record c { aluc = 0b1011 }
    else if func3 == 0b001
    then record c { aluc = 0b1101 }
    else if func3 == 0b101
    then (if func7 == 0b0000000
        then record c { aluc = 0b1110 }
        else if func7 == 0b0100000
        then record c { aluc = 0b1111 }
        else record c { aluc = 0b0000 })
    else record c { aluc = 0b0000 }

-- `7'b0100011`
store_arm : ℕ → Control → Control
unfolding writing
store_arm func3 o =
    let c = record (writing 0b000 true o) {
      d_valid = true;
      wmem = true;
      wreg = false;
      aluc = 0b0000;
    } in
    if func3 == 0b000
    then record c { d_byte = 0b000 }
    else if func3 == 0b001
    then record c { d_byte = 0b001 }
    else if func3 == 0b010
    then record c { d_byte = 0b010 }
    else if func3 == 0b011
    then record c { d_byte = 0b011 }
    else record c { d_byte = 0b000 }

-- `7'b0110011`, which does not assign `branch`, nor `m2reg` for another `func7`
register_arm : ℕ → ℕ → Control → Control
register_arm func7 func3 o =
    let c = record o { jump = 0b00; wmem = false; shift = false; aluimm = false; wreg = true } in
    if func7 == 0b0000000
    then (let d = record c { m2reg = 0b000 } in
        if func3 == 0b000
        then record d { aluc = 0b0000 }
        else if func3 == 0b001
        then record d { aluc = 0b0101 }
        else if func3 == 0b010
        then record d { aluc = 0b0111 }
        else if func3 == 0b011
        then record d { aluc = 0b1001 }
        else if func3 == 0b100
        then record d { aluc = 0b0100 }
        else if func3 == 0b101
        then record d { aluc = 0b0110 }
        else if func3 == 0b110
        then record d { aluc = 0b0011 }
        else record d { aluc = 0b0010 })
    else if func7 == 0b0000001
    then (let d = record c { aluc = 0b0000 } in
        if func3 == 0b000
        then record d { m2reg = 0b100; mul_valid = true; mul_sign = true }
        else if func3 == 0b100
        then record d { m2reg = 0b101; div_valid = true; div_sign = true }
        else if func3 == 0b101
        then record d { m2reg = 0b101; div_valid = true }
        else if func3 == 0b110
        then record d { m2reg = 0b110; div_valid = true; div_sign = true }
        else if func3 == 0b111
        then record d { m2reg = 0b110; div_valid = true }
        else record d { m2reg = 0b000; div_valid = false })
    else if func7 == 0b0100000
    then (let d = record c { m2reg = 0b000 } in
        if func3 == 0b000
        then record d { aluc = 0b0001 }
        else if func3 == 0b101
        then record d { aluc = 0b1000 }
        else record d { aluc = 0b0000 })
    else record c { aluc = 0b0000 }

-- `7'b0111011`
register_word_arm : ℕ → ℕ → Control → Control
unfolding writing
register_word_arm func7 func3 o =
    let c = record (writing 0b000 false o) { aluc = 0b0000 } in
    if func3 == 0b000
    then (if func7 == 0b0000000
        then record c { aluc = 0b1011 }
        else if func7 == 0b0000001
        then record c { m2reg = 0b100; mul_valid = true; mul_sign = true; mul_w = true }
        else if func7 == 0b0100000
        then record c { aluc = 0b1100 }
        else c)
    else if func3 == 0b001
    then record c { aluc = 0b1101 }
    else if func3 == 0b100
    then record c { m2reg = 0b101; div_valid = true; div_sign = true; div_w = true }
    else if func3 == 0b101
    then (if func7 == 0b0000000
        then record c { aluc = 0b1110 }
        else if func7 == 0b0000001
        then record c { m2reg = 0b101; div_valid = true; div_w = true }
        else if func7 == 0b0100000
        then record c { aluc = 0b1111 }
        else c)
    else if func3 == 0b110
    then record c { m2reg = 0b110; div_valid = true; div_sign = true; div_w = true }
    else if func3 == 0b111
    then record c { m2reg = 0b110; div_valid = true; div_w = true }
    else c

-- `7'b1100011`
branch_arm : ℕ → Bool → Bool → Control → Control
unfolding writing
branch_arm func3 zero sf o =
    let c = record (writing 0b000 false o) { jump = 0b01; wreg = false } in
    if func3 == 0b000
    then record c { branch = zero; aluc = 0b0001 }
    else if func3 == 0b001
    then record c { branch = not zero; aluc = 0b0001 }
    else if func3 == 0b100
    then record c { branch = sf; aluc = 0b0001 }
    else if func3 == 0b101
    then record c { branch = not sf; aluc = 0b0001 }
    else if func3 == 0b110
    then record c { branch = sf; aluc = 0b1010 }
    else if func3 == 0b111
    then record c { branch = not sf; aluc = 0b1010 }
    else record c { branch = false; aluc = 0b0000 }

-- `7'b1100111` and `7'b1101111`
jump_arm : ℕ → Bool → Control → Control
unfolding writing
jump_arm jump shift o = record (writing 0b010 true o) {
  jump = jump;
  branch = true;
  aluc = 0b0000;
  shift = shift;
}

unfoldable pub control : ℕ → ℕ → ℕ → Bool → Bool → Control → Control
unfolding cleared writing load_arm immediate_arm immediate_word_arm store_arm register_arm
    register_word_arm branch_arm jump_arm
control opcode func7 func3 zero sf held =
    let o = cleared held in
    if opcode == 0b0000011
    then load_arm func3 o
    else if opcode == 0b0010011
    then immediate_arm func7 func3 o
    else if opcode == 0b0010111
    then record (writing 0b000 true o) { aluc = 0b0000; shift = true }
    else if opcode == 0b0011011
    then immediate_word_arm func7 func3 o
    else if opcode == 0b0100011
    then store_arm func3 o
    else if opcode == 0b0110011
    then register_arm func7 func3 o
    else if opcode == 0b0110111
    then record (writing 0b000 true o) { aluc = 0b0000 }
    else if opcode == 0b0111011
    then register_word_arm func7 func3 o
    else if opcode == 0b1100011
    then branch_arm func3 zero sf o
    else if opcode == 0b1100111
    then jump_arm 0b11 false o
    else if opcode == 0b1101111
    then jump_arm 0b10 true o
    else record (writing 0b000 false o) { aluc = 0b0000; wreg = false }
