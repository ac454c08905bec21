-- ===== src/Assembler/Positions.antt =====
-- assembler.h: where the entries of `labelDefs` and the words of an item stand in the program.
use mocker.Prelude.{
  ℕ, ◌+◌, ◌≡◌, ◌⊎◌, refl, sym, ap, ◌∙◌, inl, inr, some, List, [], ◌∷◌, ◌++◌, length, length-append,
  arith, lookup, insert, eq-of_equal,
}
use mathlib.Core.List.{append_assoc}
use native.Mathlib.Nat.{add-zero}
use mocker.Assembler.Resolved.{length-settled}
use mocker.Assembler.Items
use mocker.Assembler.Items.{Item, IsItem, placeholder, words_of, address_of, labels_of, item_labels}
use mocker.Assembler.Settled.{Defs, settled, settled_words}

-- A label of the program stands in front of the word at the address.
abbrev pub StandsAt : ℕ → List Item → List ℕ → ℕ → Type 0
StandsAt base items name target =
    (front : List Item) × (back : List Item) × (items ≡ front ++ Items.label name ∷ back)
    × (target ≡ address_of base (length (words_of front)))

-- What a table holds after an entry was inserted.
lookup-insert_inv :
    (name key : List ℕ) (a : ℕ) (m : Defs) {target : ℕ}
    → lookup name (insert key a m) ≡ some target
    → ((name ≡ key) × (target ≡ a)) ⊎ (lookup name m ≡ some target)
lookup-insert_inv name key a [] e = ground (arith, eq-of_equal name key)
lookup-insert_inv name key a ((other, b) ∷ m) {target = target} e = ground (
  arith,
  eq-of_equal key other,
  eq-of_equal name other,
  lookup-insert_inv name key a m {target = target},
)

lookup-item_labels :
    (base idx : ℕ) (item : Item) (name : List ℕ) (defs : Defs) {target : ℕ}
    → lookup name (item_labels base idx item defs) ≡ some target
    → ((item ≡ Items.label name) × (target ≡ address_of base idx))
      ⊎ (lookup name defs ≡ some target)
lookup-item_labels base idx (Items.word w) name defs e = inr e
lookup-item_labels base idx (Items.label key) name defs e =
    elim (lookup-insert_inv name key (address_of base idx) defs e) [
      | inl (same, at) ↦ inl (cc, at)
      | inr there ↦ inr there
    ]
lookup-item_labels base idx (Items.jump other rd) name defs e = inr e
lookup-item_labels base idx (Items.branch other rs2 rs1 funct3) name defs e = inr e
lookup-item_labels base idx (Items.address other rd) name defs e = inr e

lookup-labels_of :
    (base idx : ℕ) (items : List Item) (name : List ℕ) (defs : Defs) {target : ℕ}
    → lookup name (labels_of base idx items defs) ≡ some target
    → ((front : List Item) × (back : List Item) × (items ≡ front ++ Items.label name ∷ back)
        × (target ≡ address_of base (idx + length (words_of front))))
      ⊎ (lookup name defs ≡ some target)
lookup-labels_of base idx [] name defs e = inr e
lookup-labels_of base idx (item ∷ items) name defs e =
    let n = length (placeholder item) in
    elim (lookup-labels_of base (idx + n) items name (item_labels base idx item defs) e) [
      | inl (front, back, split, at) ↦ inl (
        item ∷ front,
        back,
        cc split,
        at
            ∙ ap (address_of base)
                (omega (arith, length-append (placeholder item) (words_of front))),
      )
      | inr there ↦ elim (lookup-item_labels base idx item name defs there) [
        | inl (is_label, at) ↦ inl ([], items, cc is_label, at ∙ ap (address_of base) (omega arith))
        | inr earlier ↦ inr earlier
      ]
    ]

pub lookup-StandsAt :
    (base : ℕ) (items : List Item) (name : List ℕ) {target : ℕ}
    → lookup name (labels_of base 0 items []) ≡ some target
    → StandsAt base items name target
lookup-StandsAt base items name e = elim (lookup-labels_of base 0 items name [] e) [
  | inl (front, back, split, at) ↦ (front, back, split, at ∙ ap (address_of base) (omega arith))
  | inr nowhere ↦ absurd (cc nowhere)
]

-- The words stand in the program from the index on.
abbrev pub HoldsAt : List ℕ → ℕ → List ℕ → Type 0
HoldsAt words idx part =
    (front : List ℕ) × (back : List ℕ) × (words ≡ front ++ (part ++ back)) × (length front ≡ idx)

pub settled-HoldsAt :
    (defs : Defs) (base idx : ℕ) (front : List Item) (item : Item) (back : List Item)
    → HoldsAt
        (settled_words defs base idx (front ++ item ∷ back))
        (length (words_of front))
        (settled defs base (idx + length (words_of front)) item)
settled-HoldsAt defs base idx [] item back =
    ([], settled_words defs base (idx + length (placeholder item)) back, rw add-zero refl, refl)
settled-HoldsAt defs base idx (first ∷ front) item back =
    let n = length (placeholder first) in
    let now = settled defs base idx first in
    let (before, after, e, at) = settled-HoldsAt defs base (idx + n) front item back in
    let size : length (now ++ before) ≡ length (placeholder first ++ words_of front) = omega (
      arith,
      length-append now before,
      length-append (placeholder first) (words_of front),
      length-settled defs base idx first,
    ) in
    let same : idx + n + length (words_of front)
        ≡ idx + length (placeholder first ++ words_of front) =
      omega (arith, length-append (placeholder first) (words_of front)) in
    (now ++ before, after, rw (← same, e) (sym (append_assoc now before _)), size)
