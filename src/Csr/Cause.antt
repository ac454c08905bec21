-- ===== src/Csr/Cause.antt =====
-- csr.h, the namespace Cause: the values of mcause.
use mocker.Prelude.{ℕ, bit_or}

abbrev pub insn_misalign : ℕ
insn_misalign = 0

abbrev pub insn_fault : ℕ
insn_fault = 1

abbrev pub illegal_insn : ℕ
illegal_insn = 2

abbrev pub breakpoint : ℕ
breakpoint = 3

abbrev pub load_fault : ℕ
load_fault = 5

abbrev pub store_fault : ℕ
store_fault = 7

abbrev pub ecall_u : ℕ
ecall_u = 8

abbrev pub ecall_m : ℕ
ecall_m = 11

abbrev pub interrupt_bit : ℕ
interrupt_bit = 0x80000000

abbrev pub timer_int : ℕ
timer_int = bit_or interrupt_bit 7
