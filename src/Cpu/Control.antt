-- ===== src/Cpu/Control.antt =====
-- cpu.h, `executeOne`: the cases BRANCH, JAL, JALR, LUI and AUIPC.
use mocker.Prelude.{
  ℕ, ◌==◌, Bool, not, Option, none, some, if◌then◌else◌, ltb, add32, lt_signed, bit_and, not32,
}
use mocker.Memory.{ProtectedMemory}
use mocker.Encode.{
  decode_rd, decode_funct3, decode_rs1, decode_rs2, decode_imm_i, decode_imm_b, decode_imm_u,
  decode_imm_j,
}
use mocker.Encode.Opcode
use mocker.Cpu.State.{Hart, Stepped, illegal, retire, reg, set_reg, next_pc}

-- Whether the branch is taken; `none` is an illegal instruction.
unfoldable pub branch_taken : ℕ → ℕ → ℕ → Option Bool
branch_taken funct3 a b =
    if funct3 == Opcode.f3_beq
    then some (a == b)
    else if funct3 == Opcode.f3_bne
    then some (not (a == b))
    else if funct3 == Opcode.f3_blt
    then some (lt_signed a b)
    else if funct3 == Opcode.f3_bge
    then some (not (lt_signed a b))
    else if funct3 == 0b110
    then some (ltb a b)
    else if funct3 == 0b111
    then some (not (ltb a b))
    else none

-- Go to the target or to the next instruction, or trap.
abbrev pub finish_branch : Hart → ProtectedMemory → ℕ → Option Bool → Option Stepped
finish_branch h m instr none = illegal h m instr
finish_branch h m instr (some taken) =
    retire h m (if taken then add32 h.pc (decode_imm_b instr) else next_pc h)

unfoldable pub execute_branch : Hart → ProtectedMemory → ℕ → Option Stepped
execute_branch h m instr =
    finish_branch h m instr
      (branch_taken (decode_funct3 instr) (reg h (decode_rs1 instr)) (reg h (decode_rs2 instr)))

unfoldable pub execute_jal : Hart → ProtectedMemory → ℕ → Option Stepped
execute_jal h m instr =
    retire (set_reg h (decode_rd instr) (add32 h.pc 4)) m (add32 h.pc (decode_imm_j instr))

unfoldable pub execute_jalr : Hart → ProtectedMemory → ℕ → Option Stepped
execute_jalr h m instr =
    let ret = add32 h.pc 4 in
    let target = bit_and (add32 (reg h (decode_rs1 instr)) (decode_imm_i instr)) (not32 1) in
    retire (set_reg h (decode_rd instr) ret) m target

unfoldable pub execute_lui : Hart → ProtectedMemory → ℕ → Option Stepped
execute_lui h m instr = retire (set_reg h (decode_rd instr) (decode_imm_u instr)) m (next_pc h)

unfoldable pub execute_auipc : Hart → ProtectedMemory → ℕ → Option Stepped
execute_auipc h m instr =
    retire (set_reg h (decode_rd instr) (add32 h.pc (decode_imm_u instr))) m (next_pc h)
