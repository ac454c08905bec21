-- ===== src/Csr/Traps.antt =====
-- csr.h, `trapEnter` and `trapReturn` on the fields of mstatus.
use mocker.Prelude.{
  ℕ, ◌+◌, ◌*◌, ◌/◌, ◌^◌, ◌<◌, ◌≡◌, ◌∙◌, ◌==◌, refl, arith, Bool, true, false, ◌&&◌, ◌||◌,
  if◌then◌else◌, bit_and,
}
use mocker.Prelude.Bits.{
  bit, bit-bit_or, bit-bit_and, bit_and_shifted, bit_and_mask, all_below, all_below_lem,
}
use mocker.Csr.MStatus
use mocker.Csr.{has, CsrFile, PrivMode, user, machine, trap_enter, trap_return, interrupts_enabled}

-- Whether bit `k` of mstatus belongs to MIE, MPIE or MPP.
abbrev pub is_trap_field : ℕ → Bool
is_trap_field k = k == 3 || k == 7 || k == 11 || k == 12

abbrev pub is_machine : PrivMode → Bool
is_machine machine = true
is_machine user = false

masks_keep : ℕ → Bool
masks_keep k =
    is_trap_field k
    || (bit k 0xFFFFE777 == 1 && bit k 8 == 0 && bit k 128 == 0 && bit k 6144 == 0 && bit k 0 == 0)

-- At any other bit the masks of the two functions keep the bit.
other_masks :
    (k : ℕ)
    → k < 32
    → is_trap_field k ≡ false
    → (bit k 0xFFFFE777 ≡ 1) × (bit k 8 ≡ 0) × (bit k 128 ≡ 0) × (bit k 6144 ≡ 0) × (bit k 0 ≡ 0)
unfolding all_below masks_keep
other_masks k h o = ground (arith, all_below_lem 32 masks_keep k refl)

bit_test : (k x : ℕ) → bit_and x (1 * 2 ^ k) ≡ bit k x * 2 ^ k
bit_test k x = rw (bit_and_shifted k x 1, bit_and_mask 1 (x / 2 ^ k))

mpp_test : (x : ℕ) → bit_and x 6144 / 2 ^ 11 ≡ bit 11 x + 2 * bit 12 x
mpp_test x = omega (arith, bit_and_shifted 11 x 3, bit_and_mask 2 (x / 2 ^ 11))

module _ (c : CsrFile) where
  mie_is_set : has c.mstatus MStatus.mie ≡ (bit 3 c.mstatus == 1)
  mie_is_set = ground (arith, bit_test 3 c.mstatus)

  mpie_is_set : has c.mstatus MStatus.mpie ≡ (bit 7 c.mstatus == 1)
  mpie_is_set = ground (arith, bit_test 7 c.mstatus)

module _ (c : CsrFile) (pc cause tval : ℕ) (from : PrivMode) where
  abbrev entered : ℕ
  entered = (trap_enter c pc cause tval from).mstatus

  enter_mie : bit 3 entered ≡ 0
  unfolding trap_enter
  enter_mie = simp (bit-bit_or, bit-bit_and) (ground arith)

  enter_mpie : bit 7 entered ≡ bit 3 c.mstatus
  unfolding trap_enter
  enter_mpie = simp (bit-bit_or, bit-bit_and, mie_is_set c) (ground arith)

  enter_mpp : (bit 11 entered ≡ bit 12 entered) × ((bit 11 entered == 1) ≡ is_machine from)
  unfolding trap_enter
  enter_mpp = simp (bit-bit_or, bit-bit_and) (ground arith)

  enter_other : (k : ℕ) → k < 32 → is_trap_field k ≡ false → bit k entered ≡ bit k c.mstatus
  unfolding trap_enter
  enter_other k h o = simp (bit-bit_or, bit-bit_and) (ground (arith, other_masks k))

module _ (c : CsrFile) where
  abbrev returned : ℕ
  returned = (trap_return c).0.mstatus

  return_mie : bit 3 returned ≡ bit 7 c.mstatus
  unfolding trap_return
  return_mie = simp (bit-bit_or, bit-bit_and, mpie_is_set c) (ground arith)

  return_mpie : bit 7 returned ≡ 1
  unfolding trap_return
  return_mpie = simp (bit-bit_or, bit-bit_and) (ground arith)

  return_other : (k : ℕ) → k < 32 → is_trap_field k ≡ false → bit k returned ≡ bit k c.mstatus
  unfolding trap_return
  return_other k h o = simp (bit-bit_or, bit-bit_and) (ground (arith, other_masks k))

  return_mode :
      (trap_return c).1 ≡ (if bit 11 c.mstatus == 1 && bit 12 c.mstatus == 1 then machine else user)
  unfolding trap_return
  return_mode = ground (arith, mpp_test c.mstatus)

mode_of_bits :
    (from : PrivMode) (x y : ℕ)
    → x ≡ y
    → (x == 1) ≡ is_machine from
    → (if x == 1 && y == 1 then machine else user) ≡ from
mode_of_bits machine x y e h = ground arith
mode_of_bits user x y e h = ground arith

-- Entering a trap turns interrupts off and keeps every bit of mstatus below bit 32 outside MIE, MPIE and
-- MPP.
pub trap_enter_lem :
    (c : CsrFile) (pc cause tval : ℕ) (from : PrivMode)
    → let d = trap_enter c pc cause tval from in
      (interrupts_enabled d ≡ false)
      × ((k : ℕ) → k < 32 → is_trap_field k ≡ false → bit k d.mstatus ≡ bit k c.mstatus)
unfolding interrupts_enabled
trap_enter_lem c pc cause tval from = (
  ground (arith, mie_is_set (trap_enter c pc cause tval from), enter_mie c pc cause tval from),
  enter_other c pc cause tval from,
)

-- Returning from a trap right after entering it comes back to the mode that trapped, with interrupts
-- enabled exactly when they were, to the pc that trapped, and with every bit of mstatus below bit 32 outside
-- MIE, MPIE and MPP as it was.
pub trap_return-trap_enter :
    (c : CsrFile) (pc cause tval : ℕ) (from : PrivMode)
    → let r = trap_return (trap_enter c pc cause tval from) in
      (r.1 ≡ from)
      × (interrupts_enabled r.0 ≡ interrupts_enabled c)
      × (r.0.mepc ≡ pc)
      × ((k : ℕ) → k < 32 → is_trap_field k ≡ false → bit k r.0.mstatus ≡ bit k c.mstatus)
trap_return-trap_enter c pc cause tval from =
    let d = trap_enter c pc cause tval from in
    let mpp = enter_mpp c pc cause tval from in
    (
      return_mode d ∙ mode_of_bits from (bit 11 d.mstatus) (bit 12 d.mstatus) mpp.0 mpp.1,
      (unfold interrupts_enabled in
          ground (
            arith,
            mie_is_set c,
            mie_is_set (trap_return d).0,
            return_mie d,
            enter_mpie c pc cause tval from,
          )),
      (unfold trap_enter trap_return in refl),
      (λ k h o. return_other d k h o ∙ enter_other c pc cause tval from k h o),
    )
