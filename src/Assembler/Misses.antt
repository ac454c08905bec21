-- ===== src/Assembler/Misses.antt =====
-- assembler.h, encode.h and cpu.h: labels that `finalise` accepts and that are not reached.
use mocker.Prelude.{
  ℕ, ◌+◌, ◌-◌, ◌%◌, ◌^◌, ◌<◌, ◌≡◌, ◌≢◌, inl, Bool, not, ◌&&◌, refl, sym, ap, subst, ◌∙◌, true,
  false, some, List, [], ◌∷◌, ◌++◌, length, if◌then◌else◌, add32, sub32, arith, lookup, ltb,
  bit_and,
}
use mathlib.Core.Option.{some-injective}
use mocker.Prelude.Bits.{bit_and_mask}
use mocker.Memory.{ProtectedMemory}
use mocker.Encode.{encode_b, encode_j}
use mocker.Encode.Opcode
use mocker.Encode.RoundTrip.{FitsSigned}
use mocker.Cpu.State.{Hart, retire, reg, set_reg, next_pc}
use mocker.Cpu.Control.{branch_taken}
use mocker.Cpu.{execute}
use mocker.Assembler.Labels.{patched-jal, patched-branch}
use mocker.Assembler.Resolve.{is_low_label, finalise}
use mocker.Assembler.Items
use mocker.Assembler.Items.{Item, middle-IsItem, words_of, address_of, labels_of}
use mocker.Assembler.Settled.{settled, item_defined, all_defined}
use mocker.Assembler.Resolved.{patched-encode_j, patched-encode_b}
use mocker.Assembler.State.{Assembler}
use mocker.Assembler.Represents.{Represents}
use mocker.Assembler.Linked.{resolved, finalise-Represents, all_defined-middle}
use mocker.Assembler.Positions.{lookup-StandsAt, HoldsAt}
use mocker.Assembler.Transfers.{settled_named, address_even, resolved-HoldsAt}

-- A jump to a label that is longer than four bytes and ends in "__lo", defined or not, in a state that
-- represents a list of items: `finalise` returns, with the result that the other items have, and leaves
-- the jump at its place with offset 0, so that it jumps to itself.
pub finalise-low_label :
    (base : ℕ) (front back : List Item) (rd : ℕ) (a : Assembler) (name : List ℕ) (h : Hart)
    (m : ProtectedMemory)
    → Represents base (front ++ Items.jump name rd ∷ back) a
    → is_low_label name ≡ true
    → h.pc < 2 ^ 32
    → (b : Assembler) × (w : ℕ) × (finalise a
        ≡ some (all_defined a.label_defs (front ++ back) && not a.has_error, b))
      × HoldsAt b.program (length (words_of front)) (w ∷ [])
      × (execute h m w ≡ retire (set_reg h rd (next_pc h)) m h.pc)
finalise-low_label base front back rd a name h m r low pc_ok =
    let item = Items.jump name rd in
    let items = front ++ item ∷ back in
    let b = middle-IsItem front item back r.are_items in
    let none : sub32 h.pc h.pc ≡ 0 = omega arith in
    let fits : FitsSigned (2 ^ 20) (sub32 h.pc h.pc) = inl (omega arith) in
    let (w, made, run) = patched-jal h m h.pc pc_ok pc_ok (omega arith) rd b fits in
    let kept : w ∷ [] ≡ encode_j 0 rd Opcode.jal ∷ [] =
      some-injective _ _ (sym made ∙ patched-encode_j rd h.pc h.pc b)
      ∙ ap (λ (offset : ℕ). encode_j offset rd Opcode.jal ∷ []) none in
    let idx = length (words_of front) in
    let place : settled a.label_defs base idx item ≡ w ∷ [] = rw low (sym kept) in
    let counts : item_defined a.label_defs item ≡ true = rw low refl in
    (
      resolved base items a,
      w,
      finalise-Represents base items a r
          ∙ ap (λ (ok : Bool). some (ok && not a.has_error, resolved base items a))
              (all_defined-middle a.label_defs front back item counts),
      subst (HoldsAt (resolved base items a).program idx) place
          (resolved-HoldsAt base front back item a),
      run,
    )

-- The offset that the 13 bits of an encoded branch stand for.
abbrev cut : ℕ → ℕ
cut offset =
    if ltb (offset % 2 ^ 13) (2 ^ 12) then offset % 2 ^ 13 else offset % 2 ^ 13 + 2 ^ 32 - 2 ^ 13

cut-FitsSigned : (offset : ℕ) → FitsSigned (2 ^ 12) (cut offset)
cut-FitsSigned offset = ground arith

cut_even : (offset : ℕ) → offset % 2 ≡ 0 → cut offset % 2 ≡ 0
cut_even offset e = ground arith

encode_b-cut :
    (offset rs2 rs1 funct3 opcode : ℕ)
    → encode_b (cut offset) rs2 rs1 funct3 opcode ≡ encode_b offset rs2 rs1 funct3 opcode
unfolding encode_b
encode_b-cut offset rs2 rs1 funct3 opcode =
    let same : cut offset % 2 ^ 13 ≡ offset % 2 ^ 13 = ground arith in
    let masked : bit_and (cut offset) 0x1FFF ≡ bit_and offset 0x1FFF =
      bit_and_mask 13 (cut offset) ∙ same ∙ sym (bit_and_mask 13 offset) in
    rw masked refl

-- A branch whose condition holds, in a state that represents a list of items, to a label that is defined, not
-- one of those that are longer than four bytes and end in "__lo", and out of the range of a signed 13-bit
-- offset: `finalise` returns with the result that the other items have, and the word that it leaves at the
-- branch's place goes to another address than the label's.
pub finalise-far_branch :
    (base : ℕ) (front back : List Item) (rs2 rs1 funct3 : ℕ) (a : Assembler) (name : List ℕ)
    (target : ℕ) (h : Hart) (m : ProtectedMemory)
    → Represents base (front ++ Items.branch name rs2 rs1 funct3 ∷ back) a
    → is_low_label name ≡ false
    → lookup name a.label_defs ≡ some target
    → h.pc ≡ address_of base (length (words_of front))
    → ¬ FitsSigned (2 ^ 12) (sub32 target h.pc)
    → branch_taken funct3 (reg h rs1) (reg h rs2) ≡ some true
    → (b : Assembler) × (w : ℕ) × (pc : ℕ) × (finalise a
        ≡ some (all_defined a.label_defs (front ++ back) && not a.has_error, b))
      × HoldsAt b.program (length (words_of front)) (w ∷ [])
      × (execute h m w ≡ retire h m pc)
      × (pc ≢ target)
finalise-far_branch base front back rs2 rs1 funct3 a name target h m r low at here far t =
    let item = Items.branch name rs2 rs1 funct3 in
    let items = front ++ item ∷ back in
    let idx = length (words_of front) in
    let (b2, b1, b3) = middle-IsItem front item back r.are_items in
    let pc_ok : h.pc < 2 ^ 32 = omega (arith, here) in
    let offset = sub32 target h.pc in
    let landing = add32 h.pc (cut offset) in
    let bound : cut offset < 2 ^ 32 = ground (arith, cut-FitsSigned offset) in
    let back_again : sub32 landing h.pc ≡ cut offset = omega arith in
    let fits : FitsSigned (2 ^ 12) (sub32 landing h.pc) = rw back_again (cut-FitsSigned offset) in
    let (before, after, split, place_of) =
      lookup-StandsAt base items name (ap (lookup name) (sym r.same_labels) ∙ at) in
    let whole : offset % 2 ≡ 0 =
      rw (place_of, here) (address_even base (length (words_of before)) idx) in
    let even : sub32 landing h.pc % 2 ≡ 0 = rw back_again (cut_even offset whole) in
    let (w, made, run) =
      patched-branch h m landing pc_ok (omega arith) even rs2 rs1 funct3 true b2 b1 b3 fits t in
    let word : w ∷ []
        ≡ encode_b (sub32 target (address_of base idx)) rs2 rs1 funct3 Opcode.branch ∷ [] =
      some-injective _ _ (sym made ∙ patched-encode_b rs2 rs1 funct3 landing h.pc b2 b1 b3)
      ∙ ap (λ (o : ℕ). encode_b o rs2 rs1 funct3 Opcode.branch ∷ []) back_again
      ∙ ap (λ (v : ℕ). v ∷ []) (encode_b-cut offset rs2 rs1 funct3 Opcode.branch)
      ∙ ap (λ (pc : ℕ). encode_b (sub32 target pc) rs2 rs1 funct3 Opcode.branch ∷ []) here in
    let place : settled a.label_defs base idx item ≡ w ∷ [] =
      settled_named a.label_defs base idx item refl low at ∙ sym word in
    let counts : item_defined a.label_defs item ≡ true = rw (low, at) refl in
    (
      resolved base items a,
      w,
      landing,
      finalise-Represents base items a r
          ∙ ap (λ (ok : Bool). some (ok && not a.has_error, resolved base items a))
              (all_defined-middle a.label_defs front back item counts),
      subst (HoldsAt (resolved base items a).program idx) place
          (resolved-HoldsAt base front back item a),
      run,
      λ e. far (subst (λ k. FitsSigned (2 ^ 12) (sub32 k h.pc)) e fits),
    )
