-- ===== src/Csr/CsrAddr.antt =====
-- csr.h, the namespace CSRAddr: the addresses of the registers.
use mocker.Prelude.{ℕ}

abbrev pub mstatus : ℕ
mstatus = 0x300

abbrev pub mtvec : ℕ
mtvec = 0x305

abbrev pub mepc : ℕ
mepc = 0x341

abbrev pub mcause : ℕ
mcause = 0x342

abbrev pub mtval : ℕ
mtval = 0x343

abbrev pub mip : ℕ
mip = 0x344

abbrev pub mie : ℕ
mie = 0x304

abbrev pub mhartid : ℕ
mhartid = 0xF14

abbrev pub cycle : ℕ
cycle = 0xC00
