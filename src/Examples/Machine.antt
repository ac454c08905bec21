-- ===== src/Examples/Machine.antt =====
-- Examples for csr.h, memory.h and cpu.h.
use mocker.Output.{decimal, signed_decimal, hexadecimal}
use mocker.Prelude.{
  bytes, ℕ, inr, ltb, add32, ◌-◌, ◌%◌, ◌<◌, ◌≤◌, ◌≡◌, ◌⊎◌, ◌↔◌, refl, arith, false, none, some,
  if◌then◌else◌, ◌==◌,
}
use mocker.Prelude.Bits.{bit}
use mocker.Csr.{
  CsrFile, user, machine, reset, read, write, trap_enter, trap_return, interrupts_enabled,
}
use mocker.Csr.CsrAddr
use mocker.Csr.Cause
use mocker.Csr.Laws.{read-write}
use mocker.Csr.Traps.{trap_return-trap_enter, is_trap_field}
use mocker.Memory.{
  ProtectedMemory, MemFault, load, check, store_word, raw_load_word, raw_store_word,
}
use mocker.Memory.Raw.{raw_load_word-raw_store_word, raw_word_overrun}
use mocker.Memory.Protection.{
  InSlot, Confined, check_user_iff, store_word-Confined, store_word_leaks,
}
use mocker.Cpu.State.{retire, reg, set_reg, next_pc, Hart, Stepped, init}
use mocker.Cpu.{execute_one, execute}
use mocker.Encode.{encode_b, encode_i}
use mocker.Encode.Opcode
use mocker.Encode.Cut.{low_12}
use mocker.Assembler.Mnemonic.{find_form, branch_op, jump_register}
use mocker.Cpu.Instructions
use mocker.Cpu.Instructions.{execute-encode_b, execute-jalr}
use mocker.Cpu.User.{Outcome, execute_one_user}
use mocker.Kernel.Interrupts.{StaysOff, execute_one-StaysOff}
use mocker.Examples.{two_ecalls, two_ecalls-IsBytes, hart0}

-- mtvec is written, and mepc read.
read-write_example :
    read (write reset CsrAddr.mtvec 0x400).0 CsrAddr.mepc
    ≡ (if CsrAddr.mepc == CsrAddr.mtvec then some 0x400 else read reset CsrAddr.mepc)
read-write_example = read-write reset CsrAddr.mtvec CsrAddr.mepc 0x400 (unfold write in refl)

-- MIE is set, and so is bit 0.
abbrev enabled : CsrFile
enabled = record reset { mstatus = 9 }

trap_return-trap_enter_example :
    let r = trap_return (trap_enter enabled 0x10008 Cause.timer_int 0 user) in
    (r.1 ≡ user)
    × (interrupts_enabled r.0 ≡ interrupts_enabled enabled)
    × (r.0.mepc ≡ 0x10008)
    × ((k : ℕ) → k < 32 → is_trap_field k ≡ false → bit k r.0.mstatus ≡ bit k 9)
trap_return-trap_enter_example = trap_return-trap_enter enabled 0x10008 Cause.timer_int 0 user

check_user_iff_example : ((check 0x20010 load (some 1)).occurred ≡ false) ↔ InSlot 1 0x20010
check_user_iff_example = check_user_iff 0x20010 1 load (omega arith) (λ e. cc)

store_word-Confined_example :
    (f : MemFault) × (m' : ProtectedMemory) × (store_word two_ecalls 0x20010 7 (some 1)
      ≡ some (f, m'))
    × ((f.occurred ≡ false) ↔ InSlot 1 0x20010)
    × Confined 1 3 two_ecalls m'
store_word-Confined_example = store_word-Confined two_ecalls 0x20010 7 1 (omega arith)

-- Hart 0 stores at the last byte of its slot.
store_word_leaks_example :
    (f : MemFault) × (m' : ProtectedMemory) × (store_word two_ecalls 0x1FFFF 0xAABBCCDD (some 0)
      ≡ some (f, m'))
    × (f.occurred ≡ false)
    × (m'.bytes 0x20002 ≡ 0xAA)
    × (¬ InSlot 0 0x20002)
store_word_leaks_example =
    store_word_leaks two_ecalls 0x1FFFF 0xAABBCCDD 0 (omega arith) (omega arith, omega arith)
      (omega arith)

raw_load_word-raw_store_word_example :
    (m' : ProtectedMemory) × (raw_store_word two_ecalls 0xFFFFC 0x12345678 ≡ some m')
    × (raw_load_word m' 0xFFFFC ≡ some 0x12345678)
    × ((j : ℕ) → (j < 0xFFFFC) ⊎ (0x100000 ≤ j) → m'.bytes j ≡ two_ecalls.bytes j)
raw_load_word-raw_store_word_example =
    raw_load_word-raw_store_word two_ecalls 0xFFFFC 0x12345678 two_ecalls-IsBytes (omega arith)
      (omega arith)

raw_word_overrun_example :
    (raw_load_word two_ecalls 0xFFFFD ≡ none) × (raw_store_word two_ecalls 0xFFFFD 1 ≡ none)
raw_word_overrun_example = raw_word_overrun two_ecalls 0xFFFFD 1 (omega arith) (omega arith)

execute_one_user_example :
    (s : Stepped) × (execute_one hart0 two_ecalls ≡ some s) × Outcome hart0 two_ecalls s
execute_one_user_example =
    execute_one_user hart0 two_ecalls (unfold init in omega arith) (unfold init in refl)
      two_ecalls-IsBytes

-- Hart 0 with its interrupts disabled.
abbrev disabled0 : Hart
disabled0 = record hart0 { csr = reset }

execute_one-StaysOff_example :
    (s : Stepped) × (execute_one disabled0 two_ecalls ≡ some s) × StaysOff s
execute_one-StaysOff_example =
    execute_one-StaysOff disabled0 two_ecalls (unfold init in omega arith) (unfold init in refl)
      two_ecalls-IsBytes (unfold interrupts_enabled in refl)

-- bltu t0, t1 on two registers that are 0, JALR to 0x10001 + 2048, and CSRRCI of two bits of mstatus.
execute-encode_b_example :
    (funct3 : ℕ) × (find_form (bytes "bltu") ≡ some (branch_op funct3))
    × (execute hart0 two_ecalls (encode_b 0xFFFFFFF0 6 5 funct3 Opcode.branch)
        ≡ retire hart0 two_ecalls
            (if ltb (reg hart0 5) (reg hart0 6) then add32 hart0.pc 0xFFFFFFF0 else next_pc hart0))
execute-encode_b_example =
    execute-encode_b hart0 two_ecalls Instructions.bltu 0xFFFFFFF0 6 5
      (inr (omega arith, omega arith)) refl (omega arith) (omega arith)

execute-jalr_example :
    let target = add32 (reg hart0 2) (low_12 2049) in
    (find_form (bytes "jalr") ≡ some jump_register)
    × (execute hart0 two_ecalls (encode_i 2049 2 Opcode.f3_jalr 1 Opcode.jalr)
        ≡ retire (set_reg hart0 1 (add32 hart0.pc 4)) two_ecalls (target - target % 2))
execute-jalr_example = execute-jalr hart0 two_ecalls 2049 2 1 (omega arith) (omega arith)

abbrev kernel0 : Hart
kernel0 = record hart0 { mode = machine; csr = enabled }

-- Two numbers as they are printed.
printed_minus_16 : signed_decimal 0xFFFFFFF0 ≡ bytes "-16"
unfolding signed_decimal decimal
printed_minus_16 = refl

printed_pc : hexadecimal 0x1001C ≡ bytes "1001c"
unfolding hexadecimal
printed_pc = refl
