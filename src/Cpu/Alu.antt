-- ===== src/Cpu/Alu.antt =====
-- cpu.h, `executeOne`: the cases R_TYPE and I_ARITH.
use mocker.Prelude.{
  ℕ, ◌==◌, Bool, Option, none, some, if◌then◌else◌, ltb, add32, sub32, bit_and, bit_or, bit_xor,
  lt_signed, sar32, ◌<<◌, ◌>>◌,
}
use mocker.Memory.{ProtectedMemory}
use mocker.Encode.{decode_rd, decode_funct3, decode_rs1, decode_rs2, decode_funct7, decode_imm_i}
use mocker.Encode.Opcode
use mocker.Cpu.State.{Hart, Stepped, illegal, retire, reg, set_reg, next_pc}

abbrev pub as_int : Bool → ℕ
as_int b = if b then 1 else 0

-- A sum or difference wraps, as RV32I asks; the overflow of an int32_t is undefined in C++.
unfoldable pub alu_normal : ℕ → ℕ → ℕ → ℕ
alu_normal funct3 a b =
    if funct3 == Opcode.f3_add_sub
    then add32 a b
    else if funct3 == Opcode.f3_sll
    then a << bit_and b 31
    else if funct3 == Opcode.f3_slt
    then as_int (lt_signed a b)
    else if funct3 == Opcode.f3_sltu
    then as_int (ltb a b)
    else if funct3 == Opcode.f3_xor
    then bit_xor a b
    else if funct3 == Opcode.f3_srl_sra
    then a >> bit_and b 31
    else if funct3 == Opcode.f3_or
    then bit_or a b
    else if funct3 == Opcode.f3_and
    then bit_and a b
    else 0

-- `none` is an illegal instruction.
unfoldable pub alu_r : ℕ → ℕ → ℕ → ℕ → Option ℕ
alu_r funct7 funct3 a b =
    if funct7 == Opcode.f7_normal
    then some (alu_normal funct3 a b)
    else if funct7 == Opcode.f7_alt
    then (if funct3 == Opcode.f3_add_sub
        then some (sub32 a b)
        else if funct3 == Opcode.f3_srl_sra
        then some (sar32 a (bit_and b 31))
        else none)
    else none

unfoldable pub alu_i : ℕ → ℕ → ℕ → ℕ → Option ℕ
alu_i funct7 funct3 a imm =
    if funct3 == Opcode.f3_add_sub
    then some (add32 a imm)
    else if funct3 == Opcode.f3_slt
    then some (as_int (lt_signed a imm))
    else if funct3 == Opcode.f3_sltu
    then some (as_int (ltb a imm))
    else if funct3 == Opcode.f3_xor
    then some (bit_xor a imm)
    else if funct3 == Opcode.f3_or
    then some (bit_or a imm)
    else if funct3 == Opcode.f3_and
    then some (bit_and a imm)
    else if funct3 == Opcode.f3_sll
    then some (a << bit_and imm 0x1F)
    else if funct3 == Opcode.f3_srl_sra
    then (let sh = bit_and imm 0x1F in
        if funct7 == Opcode.f7_alt then some (sar32 a sh) else some (a >> sh))
    else none

-- Write the result back, or trap.
abbrev pub finish : Hart → ProtectedMemory → ℕ → Option ℕ → Option Stepped
finish h m instr none = illegal h m instr
finish h m instr (some r) = retire (set_reg h (decode_rd instr) r) m (next_pc h)

unfoldable pub execute_r : Hart → ProtectedMemory → ℕ → Option Stepped
execute_r h m instr = finish h m instr (
    alu_r (decode_funct7 instr) (decode_funct3 instr) (reg h (decode_rs1 instr))
      (reg h (decode_rs2 instr)))

unfoldable pub execute_i : Hart → ProtectedMemory → ℕ → Option Stepped
execute_i h m instr = finish h m instr (
    alu_i (decode_funct7 instr) (decode_funct3 instr) (reg h (decode_rs1 instr))
      (decode_imm_i instr))
