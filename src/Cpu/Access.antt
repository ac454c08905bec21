-- ===== src/Cpu/Access.antt =====
-- cpu.h, `executeOne`: the cases LOAD and STORE.
use mocker.Prelude.{ℕ, ◌==◌, ◌%◌, ◌^◌, Option, if◌then◌else◌, ◌>>=◌, add32}
use mocker.Csr.Cause
use mocker.Memory.{
  ProtectedMemory, MemFault, load_byte, load_half, load_word, store_byte, store_half, store_word,
}
use mocker.Encode.{
  decode_rd, decode_funct3, decode_rs1, decode_rs2, decode_imm_i, decode_imm_s, sign_ext,
}
use mocker.Encode.Opcode
use mocker.Cpu.State.{Hart, Stepped, trap, illegal, retire, reg, set_reg, next_pc, mem_id}

-- Below the inner switch: fault, or write the value back.
abbrev pub finish_load :
    Hart → ProtectedMemory → ℕ → ℕ → (ℕ → ℕ) → Option (MemFault × ℕ) → Option Stepped
finish_load h m rd addr extend r = r >>= λ (fault, v).
    if fault.occurred
    then trap h m Cause.load_fault addr
    else retire (set_reg h rd (extend v)) m (next_pc h)

unfoldable pub execute_load : Hart → ProtectedMemory → ℕ → Option Stepped
execute_load h m instr =
    let addr = add32 (reg h (decode_rs1 instr)) (decode_imm_i instr) in
    let funct3 = decode_funct3 instr in
    let finish = finish_load h m (decode_rd instr) addr in
    if funct3 == Opcode.f3_byte
    then finish (λ v. sign_ext v 8) (load_byte m addr (mem_id h))
    else if funct3 == Opcode.f3_half
    then finish (λ v. sign_ext v 16) (load_half m addr (mem_id h))
    else if funct3 == Opcode.f3_word
    then finish (λ v. v) (load_word m addr (mem_id h))
    else if funct3 == 0b100
    then finish (λ v. v) (load_byte m addr (mem_id h))
    else if funct3 == 0b101
    then finish (λ v. v) (load_half m addr (mem_id h))
    else illegal h m instr

abbrev pub finish_store :
    Hart → ProtectedMemory → ℕ → Option (MemFault × ProtectedMemory) → Option Stepped
finish_store h m addr r = r >>= λ (fault, m').
    if fault.occurred then trap h m' Cause.store_fault addr else retire h m' (next_pc h)

unfoldable pub execute_store : Hart → ProtectedMemory → ℕ → Option Stepped
execute_store h m instr =
    let addr = add32 (reg h (decode_rs1 instr)) (decode_imm_s instr) in
    let val = reg h (decode_rs2 instr) in
    let funct3 = decode_funct3 instr in
    let finish = finish_store h m addr in
    if funct3 == Opcode.f3_byte
    then finish (store_byte m addr (val % 2 ^ 8) (mem_id h))
    else if funct3 == Opcode.f3_half
    then finish (store_half m addr (val % 2 ^ 16) (mem_id h))
    else if funct3 == Opcode.f3_word
    then finish (store_word m addr val (mem_id h))
    else illegal h m instr
