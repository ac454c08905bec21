-- ===== src/Assembler/Transfers.antt =====
-- assembler.h, encode.h and cpu.h: after resolveLabels, jumps, branches and address loads reach
-- the labels that they name.
use mocker.Prelude.{
  ℕ, ◌%◌, ◌^◌, ◌<◌, ◌≡◌, ◌≢◌, refl, sym, ap, subst, ◌∙◌, Bool, false, Option, none, some, List, [],
  ◌∷◌, ◌++◌, length, if◌then◌else◌, sub32, arith, lookup,
}
use mathlib.Core.Option.{some-injective}
use native.Mathlib.Nat.{zero-add}
use mocker.Memory.{ProtectedMemory}
use mocker.Encode.RoundTrip.{FitsSigned}
use mocker.Cpu.State.{Hart, retire, reg, set_reg, next_pc}
use mocker.Cpu.Control.{branch_taken}
use mocker.Cpu.{execute}
use mocker.Assembler.LoadConstant.{Leaves, lui_addi-Leaves}
use mocker.Assembler.Labels.{patched-jal, patched-branch}
use mocker.Assembler.Resolve.{is_low_label, resolve_labels}
use mocker.Assembler.Items
use mocker.Assembler.Items.{Item, IsItem, middle-IsItem, AreItems, words_of, address_of, labels_of}
use mocker.Assembler.Settled.{Defs, aimed, settled, settled_words, all_defined}
use mocker.Assembler.Resolved.{patched-encode_j, patched-encode_b}
use mocker.Assembler.State.{Assembler}
use mocker.Assembler.Represents.{Represents}
use mocker.Assembler.Linked.{resolved, resolve_labels-Represents}
use mocker.Assembler.Positions.{StandsAt, lookup-StandsAt, HoldsAt, settled-HoldsAt}

-- The label that an item names.
abbrev pub name_of : Item → Option (List ℕ)
name_of (Items.word w) = none
name_of (Items.label name) = none
name_of (Items.jump name rd) = some name
name_of (Items.branch name rs2 rs1 funct3) = some name
name_of (Items.address name rd) = some name

-- The address is in the range of the item's offset; for a branch, with what its condition is; for la,
-- its register is not x0.
abbrev pub InReach : Hart → Bool → ℕ → Item → Type 0
InReach h taken target (Items.word w) = ⊥
InReach h taken target (Items.label name) = ⊥
InReach h taken target (Items.jump name rd) = FitsSigned (2 ^ 20) (sub32 target h.pc)
InReach h taken target (Items.branch name rs2 rs1 funct3) =
    FitsSigned (2 ^ 12) (sub32 target h.pc)
    × (branch_taken funct3 (reg h rs1) (reg h rs2) ≡ some taken)
InReach h taken target (Items.address name rd) = rd ≢ 0

-- What running the words of an item does, for the address of its label.
abbrev pub Arrives : Hart → ProtectedMemory → Bool → ℕ → Item → List ℕ → Type 0
Arrives h m taken target (Items.word w) words = ⊥
Arrives h m taken target (Items.label name) words = ⊥
Arrives h m taken target (Items.jump name rd) words =
    (w : ℕ) × (words ≡ w ∷ []) × (execute h m w ≡ retire (set_reg h rd (next_pc h)) m target)
Arrives h m taken target (Items.branch name rs2 rs1 funct3) words =
    (w : ℕ) × (words ≡ w ∷ []) × (execute h m w ≡ retire h m (if taken then target else next_pc h))
Arrives h m taken target (Items.address name rd) words = Leaves h m rd target words

pub address_even : (base j k : ℕ) → sub32 (address_of base j) (address_of base k) % 2 ≡ 0
address_even base j k = omega arith

module _ (h : Hart) (m : ProtectedMemory) (taken : Bool) (base idx target : ℕ)
    (pc : h.pc ≡ address_of base idx) (word : target < 2 ^ 32)
    (even : sub32 target h.pc % 2 ≡ 0) where
  aimed-Arrives :
      (item : Item)
      → IsItem item
      → InReach h taken target item
      → Arrives h m taken target item (aimed base idx item target)
  aimed-Arrives (Items.word w) i reach = reach
  aimed-Arrives (Items.label name) i reach = reach
  aimed-Arrives (Items.jump name rd) i reach =
      let pc_ok : h.pc < 2 ^ 32 = omega (arith, pc) in
      let (w, made, run) = patched-jal h m target pc_ok word even rd i reach in
      (w, rw (← pc) (some-injective _ _ (sym (patched-encode_j rd target h.pc i) ∙ made)), run)
  aimed-Arrives (Items.branch name rs2 rs1 funct3) (b2, b1, b3) (fits, t) =
      let pc_ok : h.pc < 2 ^ 32 = omega (arith, pc) in
      let (w, made, run) =
        patched-branch h m target pc_ok word even rs2 rs1 funct3 taken b2 b1 b3 fits t in
      (
        w,
        rw (← pc) (
            some-injective _ _ (sym (patched-encode_b rs2 rs1 funct3 target h.pc b2 b1 b3) ∙ made)),
        run,
      )
  aimed-Arrives (Items.address name rd) (n, b) reach = lui_addi-Leaves h m rd target reach b word

pub settled_named :
    (defs : Defs) (base idx : ℕ) (item : Item) {name : List ℕ} {target : ℕ}
    → name_of item ≡ some name
    → is_low_label name ≡ false
    → lookup name defs ≡ some target
    → settled defs base idx item ≡ aimed base idx item target
settled_named defs base idx (Items.word w) e low at = cc
settled_named defs base idx (Items.label name) e low at = cc
settled_named defs base idx (Items.jump name rd) e low at = rw (some-injective _ _ e, low, at) refl
settled_named defs base idx (Items.branch name rs2 rs1 funct3) e low at =
    rw (some-injective _ _ e, low, at) refl
settled_named defs base idx (Items.address name rd) e low at =
    rw (some-injective _ _ e, low, at) refl

-- The words of an item after resolveLabels.
pub resolved-HoldsAt :
    (base : ℕ) (front back : List Item) (item : Item) (a : Assembler)
    → HoldsAt
        (resolved base (front ++ item ∷ back) a).program
        (length (words_of front))
        (settled a.label_defs base (length (words_of front)) item)
resolved-HoldsAt base front back item a =
    let items = front ++ item ∷ back in
    let idx = length (words_of front) in
    subst
      (λ k.
        HoldsAt (settled_words a.label_defs base 0 items) idx (settled a.label_defs base k item))
      (zero-add idx) (settled-HoldsAt a.label_defs base 0 front item back)

-- A state that represents a list of items, as every file's does, and in it a jump, a branch or a load of an
-- address that names a label which is defined and not one of those that are longer than four bytes and end
-- in "__lo". The label is in reach of the offset of a jump or branch, and la has another register than x0.
-- Then resolveLabels returns, the label stands in front of the word at its address, and the program that it
-- leaves holds words at the item's place that jump to that address, branch to it if the condition holds, or
-- leave it in the register.
pub resolve_labels-Arrives :
    (base : ℕ) (front back : List Item) (item : Item) (a : Assembler) (name : List ℕ) (target : ℕ)
    (h : Hart) (m : ProtectedMemory) (taken : Bool)
    → Represents base (front ++ item ∷ back) a
    → name_of item ≡ some name
    → is_low_label name ≡ false
    → lookup name a.label_defs ≡ some target
    → h.pc ≡ address_of base (length (words_of front))
    → InReach h taken target item
    → (ok : Bool) × (b : Assembler) × (resolve_labels a ≡ some (ok, b))
      × StandsAt base (front ++ item ∷ back) name target
      × ((part : List ℕ) × HoldsAt b.program (length (words_of front)) part
          × Arrives h m taken target item part)
resolve_labels-Arrives base front back item a name target h m taken r named low at pc reach =
    let items = front ++ item ∷ back in
    let idx = length (words_of front) in
    let (before, after, split, place) =
      lookup-StandsAt base items name (ap (lookup name) (sym r.same_labels) ∙ at) in
    let word : target < 2 ^ 32 = omega (arith, place) in
    let even : sub32 target h.pc % 2 ≡ 0 =
      rw (place, pc) (address_even base (length (words_of before)) idx) in
    let is_item = middle-IsItem front item back r.are_items in
    let here : settled a.label_defs base idx item ≡ aimed base idx item target =
      settled_named a.label_defs base idx item named low at in
    (
      all_defined a.label_defs items,
      resolved base items a,
      resolve_labels-Represents base items a r,
      (before, after, split, place),
      (
        aimed base idx item target,
        subst (HoldsAt (resolved base items a).program idx) here
            (resolved-HoldsAt base front back item a),
        aimed-Arrives h m taken base idx target pc word even item is_item reach,
      ),
    )
