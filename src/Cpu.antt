-- ===== src/Cpu.antt =====
-- cpu.h: a hart, the delivery of a trap and the execution of one instruction. The trace output is left
-- out.
pub mod State
pub mod Names
pub mod Alu
pub mod Access
pub mod Control
pub mod System
pub mod Arms
pub mod User
pub mod Instructions
use mocker.Prelude.{
  ℕ, ◌==◌, ◌&&◌, ◌||◌, Bool, true, false, Option, none, some, if◌then◌else◌, ◌>>=◌, ◌<<◌,
}
use mocker.Csr.{interrupts_enabled}
use mocker.Csr.Cause
use mocker.Memory.{ProtectedMemory, load_word}
use mocker.Encode.{decode_opcode}
use mocker.Encode.Opcode
use State.{Hart, Stepped, halted, is_user, mem_id, deliver_trap, trap, illegal}
use Alu.{execute_r, execute_i}
use Access.{execute_load, execute_store}
use Control.{execute_branch, execute_jal, execute_jalr, execute_lui, execute_auipc}
use System.{execute_system}

-- The switch on the opcode.
unfoldable pub execute : Hart → ProtectedMemory → ℕ → Option Stepped
execute h m instr =
    let opcode = decode_opcode instr in
    if opcode == Opcode.r_type
    then execute_r h m instr
    else if opcode == Opcode.i_arith
    then execute_i h m instr
    else if opcode == Opcode.load
    then execute_load h m instr
    else if opcode == Opcode.store
    then execute_store h m instr
    else if opcode == Opcode.branch
    then execute_branch h m instr
    else if opcode == Opcode.jal
    then execute_jal h m instr
    else if opcode == Opcode.jalr
    then execute_jalr h m instr
    else if opcode == Opcode.lui
    then execute_lui h m instr
    else if opcode == Opcode.auipc
    then execute_auipc h m instr
    else if opcode == Opcode.system
    then execute_system h m instr
    else illegal h m instr

-- `none` is undefined behaviour: an access past the end of the memory array.
unfoldable pub execute_one : Hart → ProtectedMemory → Option Stepped
execute_one h m =
    if h.timer_pending && interrupts_enabled h.csr && is_user h.mode
    then trap (record h { timer_pending = false }) m Cause.timer_int 0
    else (load_word m h.pc (mem_id h) >>= λ (fault, instr).
        if fault.occurred
        then trap h m Cause.insn_fault h.pc
        else if instr == 0 || instr == 0xFFFFFFFF
        then some (record { ok = false; hart = record h { state = halted }; mem = m })
        else execute h m instr)
