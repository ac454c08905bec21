-- ===== src/Csr.antt =====
-- csr.h: the privilege modes, the trap causes and the control and status registers of a hart. Each
-- register is a 32-bit pattern, the cycle counter one of 64 bits.
pub mod Cause
pub mod CsrAddr
pub mod MStatus
pub mod Laws
pub mod Traps
use mocker.Prelude.{
  ℕ, ◌+◌, ◌==◌, if◌then◌else◌, bit_and, bit_or, not32, ◌>>◌, Option, none, some, Bool, true, false,
  not,
}
use mocker.Csr.MStatus

pub data PrivMode : Type 0 where
  user machine : PrivMode

pub record CsrFile : Type 0 where
  pub mstatus : ℕ
  pub mtvec : ℕ
  pub mepc : ℕ
  pub mcause : ℕ
  pub mtval : ℕ
  pub mip : ℕ
  pub mie : ℕ
  pub hartid : ℕ
  pub cycle : ℕ

-- The registers as they are before `init`.
abbrev pub reset : CsrFile
reset = record {
  mstatus = 0;
  mtvec = 0;
  mepc = 0;
  mcause = 0;
  mtval = 0;
  mip = 0;
  mie = 0;
  hartid = 0;
  cycle = 0;
}

-- `none` stands for `ok = false`.
unfoldable pub read : CsrFile → ℕ → Option ℕ
read c addr =
    if addr == CsrAddr.mstatus
    then some c.mstatus
    else if addr == CsrAddr.mtvec
    then some c.mtvec
    else if addr == CsrAddr.mepc
    then some c.mepc
    else if addr == CsrAddr.mcause
    then some c.mcause
    else if addr == CsrAddr.mtval
    then some c.mtval
    else if addr == CsrAddr.mip
    then some c.mip
    else if addr == CsrAddr.mie
    then some c.mie
    else if addr == CsrAddr.mhartid
    then some c.hartid
    else if addr == CsrAddr.cycle
    then some (bit_and c.cycle 0xFFFFFFFF)
    else none

-- The registers after the write, which `ok = false` leaves as they are.
unfoldable pub write : CsrFile → ℕ → ℕ → CsrFile × Bool
write c addr val =
    if addr == CsrAddr.mstatus
    then (record c { mstatus = val }, true)
    else if addr == CsrAddr.mtvec
    then (record c { mtvec = val }, true)
    else if addr == CsrAddr.mepc
    then (record c { mepc = val }, true)
    else if addr == CsrAddr.mcause
    then (record c { mcause = val }, true)
    else if addr == CsrAddr.mtval
    then (record c { mtval = val }, true)
    else if addr == CsrAddr.mip
    then (record c { mip = val }, true)
    else if addr == CsrAddr.mie
    then (record c { mie = val }, true)
    else (c, false)

-- `x & mask` as a condition.
abbrev pub has : ℕ → ℕ → Bool
has x mask = not (bit_and x mask == 0)

abbrev mode_bits : PrivMode → ℕ
mode_bits machine = MStatus.mpp_m
mode_bits user = MStatus.mpp_u

-- mstatus with the three fields that a trap changes cleared.
abbrev clear_fields : ℕ → ℕ
clear_fields s = bit_and s (not32 (bit_or (bit_or MStatus.mie MStatus.mpie) MStatus.mpp_mask))

unfoldable pub trap_enter : CsrFile → ℕ → ℕ → ℕ → PrivMode → CsrFile
trap_enter c pc cause tval from =
    let kept = if has c.mstatus MStatus.mie then MStatus.mpie else 0 in
    record c {
      mepc = pc;
      mcause = cause;
      mtval = tval;
      mstatus = bit_or (bit_or (clear_fields c.mstatus) kept) (mode_bits from);
    }

unfoldable pub trap_return : CsrFile → CsrFile × PrivMode
trap_return c =
    let mpp = bit_and c.mstatus MStatus.mpp_mask >> MStatus.mpp_shift in
    let ret = if mpp == 3 then machine else user in
    let kept = if has c.mstatus MStatus.mpie then MStatus.mie else 0 in
    (
      record c {
        mstatus = bit_or (bit_or (bit_or (clear_fields c.mstatus) kept) MStatus.mpie) MStatus.mpp_u;
      },
      ret,
    )

unfoldable pub interrupts_enabled : CsrFile → Bool
interrupts_enabled c = has c.mstatus MStatus.mie
