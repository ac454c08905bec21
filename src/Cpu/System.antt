-- ===== src/Cpu/System.antt =====
-- cpu.h, `executeOne`: the case SYSTEM (ECALL, EBREAK, MRET and the CSR instructions).
use mocker.Prelude.{
  ℕ, ◌+◌, ◌==◌, true, Option, none, some, if◌then◌else◌, update, u64, bit_and, bit_or, not32, ◌>>◌,
}
use mocker.Csr.{read, write, trap_return}
use mocker.Csr.Cause
use mocker.Memory.{ProtectedMemory}
use mocker.Encode.{decode_rd, decode_funct3, decode_rs1}
use mocker.Cpu.State.{Hart, Stepped, trap, illegal, retire, reg, set_reg, next_pc, is_user}

-- The value that a CSR instruction writes; `none` is an illegal instruction.
unfoldable pub csr_new_value : Hart → ℕ → ℕ → ℕ → Option ℕ
csr_new_value h funct3 rs1 old =
    if funct3 == 0b001
    then some (reg h rs1)
    else if funct3 == 0b010
    then some (bit_or old (reg h rs1))
    else if funct3 == 0b011
    then some (bit_and old (not32 (reg h rs1)))
    else if funct3 == 0b101
    then some rs1
    else if funct3 == 0b110
    then some (bit_or old rs1)
    else if funct3 == 0b111
    then some (bit_and old (not32 rs1))
    else none

-- The result of the write is not looked at.
abbrev pub write_csr : Hart → ProtectedMemory → ℕ → ℕ → ℕ → Option ℕ → Option Stepped
write_csr h m instr csr_addr old none = illegal h m instr
write_csr h m instr csr_addr old (some new_val) =
    retire (set_reg (record h { csr = (write h.csr csr_addr new_val).0 }) (decode_rd instr) old) m
      (next_pc h)

abbrev pub with_old : Hart → ProtectedMemory → ℕ → ℕ → Option ℕ → Option Stepped
with_old h m instr csr_addr none = illegal h m instr
with_old h m instr csr_addr (some old) =
    write_csr h m instr csr_addr old (csr_new_value h (decode_funct3 instr) (decode_rs1 instr) old)

unfoldable pub execute_csr : Hart → ProtectedMemory → ℕ → Option Stepped
execute_csr h m instr =
    let csr_addr = instr >> 20 in with_old h m instr csr_addr (read h.csr csr_addr)

-- MRET returns without counting a cycle.
unfoldable pub execute_mret : Hart → ProtectedMemory → Option Stepped
execute_mret h m =
    let (csr', prev) = trap_return h.csr in
    some (record {
      ok = true;
      hart = record h {
        csr = csr';
        mode = prev;
        x = update h.x 0 0;
        pc = csr'.mepc;
        steps = u64 (h.steps + 1);
      };
      mem = m;
    })

unfoldable pub execute_system : Hart → ProtectedMemory → ℕ → Option Stepped
execute_system h m instr =
    if instr == 0x00000073
    then trap h m (if is_user h.mode then Cause.ecall_u else Cause.ecall_m) 0
    else if instr == 0x00100073
    then trap h m Cause.breakpoint h.pc
    else if instr == 0x30200073
    then (if is_user h.mode then illegal h m instr else execute_mret h m)
    else if is_user h.mode
    then illegal h m instr
    else execute_csr h m instr
