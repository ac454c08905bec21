-- ===== src/Assembler/Settled.antt =====
-- assembler.h: what `resolveLabels` makes of the words of a list of items, and that it does.
use mocker.Prelude.{
  ℕ, ◌+◌, ◌-◌, ◌<◌, ◌≡◌, ◌≢◌, refl, ap, inl, inr, Bool, true, false, ◌&&◌, Bool-cases, Option, none,
  some, List, [], ◌∷◌, ◌++◌, length, length-append, get_elem?, modify, ltb, if◌then◌else◌, sub32,
  arith, bytes, lookup,
}
use mathlib.Core.List.{append_assoc}
use mocker.Encode.{encode_b, encode_j}
use mocker.Encode.Opcode
use mocker.Assembler.{lui_addi, patched}
use mocker.Assembler.Text.{drop}
use mocker.Assembler.State.{Patch}
use mocker.Assembler.Resolve.{is_low_label, write_words, resolve_found, resolve_patch}
use mocker.Assembler.Items.{Item, word, label, jump, branch, address, placeholder, address_of}

abbrev pub Defs : Type 0
Defs = List (List ℕ × ℕ)

-- The words for a label's address, or the placeholder where no patch is made.
abbrev pub settle : Option ℕ → List ℕ → (ℕ → List ℕ) → List ℕ
settle none old new = old
settle (some target) old new = new target

abbrev pub is_some : Option ℕ → Bool
is_some none = false
is_some (some target) = true

-- The words that a label's address replaces the placeholder of an item with.
abbrev pub aimed : ℕ → ℕ → Item → ℕ → List ℕ
aimed base idx (word w) target = w ∷ []
aimed base idx (label name) target = []
aimed base idx (jump name rd) target =
    encode_j (sub32 target (address_of base idx)) rd Opcode.jal ∷ []
aimed base idx (branch name rs2 rs1 funct3) target =
    encode_b (sub32 target (address_of base idx)) rs2 rs1 funct3 Opcode.branch ∷ []
aimed base idx (address name rd) target = lui_addi rd target

abbrev pub settle_named : Defs → List ℕ → List ℕ → (ℕ → List ℕ) → List ℕ
settle_named defs name old new =
    if is_low_label name then old else settle (lookup name defs) old new

abbrev pub named_defined : Defs → List ℕ → Bool
named_defined defs name = if is_low_label name then true else is_some (lookup name defs)

abbrev pub settled : Defs → ℕ → ℕ → Item → List ℕ
settled defs base idx (word w) = w ∷ []
settled defs base idx (label name) = []
settled defs base idx (jump name rd) =
    settle_named defs name (placeholder (jump name rd)) (aimed base idx (jump name rd))
settled defs base idx (branch name rs2 rs1 funct3) =
    settle_named defs name (placeholder (branch name rs2 rs1 funct3))
      (aimed base idx (branch name rs2 rs1 funct3))
settled defs base idx (address name rd) =
    settle_named defs name (placeholder (address name rd)) (aimed base idx (address name rd))

abbrev pub item_defined : Defs → Item → Bool
item_defined defs (word w) = true
item_defined defs (label name) = true
item_defined defs (jump name rd) = named_defined defs name
item_defined defs (branch name rs2 rs1 funct3) = named_defined defs name
item_defined defs (address name rd) = named_defined defs name

abbrev pub settled_words : Defs → ℕ → ℕ → List Item → List ℕ
settled_words defs base idx [] = []
settled_words defs base idx (item ∷ items) =
    settled defs base idx item ++ settled_words defs base (idx + length (placeholder item)) items

abbrev pub all_defined : Defs → List Item → Bool
all_defined defs [] = true
all_defined defs (item ∷ items) = item_defined defs item && all_defined defs items

modify-append :
    (xs ys : List ℕ) (x y : ℕ) → modify (xs ++ x ∷ ys) (length xs) (λ _. y) ≡ xs ++ y ∷ ys
modify-append [] ys x y = refl
modify-append (z ∷ xs) ys x y = ap (λ (l : List ℕ). z ∷ l) (modify-append xs ys x y)

get_elem?-append : (xs ys : List ℕ) (x : ℕ) → get_elem? (xs ++ x ∷ ys) (length xs) ≡ some x
get_elem?-append [] ys x = refl
get_elem?-append (z ∷ xs) ys x = get_elem?-append xs ys x

write_words-append :
    (before old new after : List ℕ)
    → length new ≡ length old
    → write_words (before ++ (old ++ after)) (length before) new ≡ some (before ++ (new ++ after))
write_words-append before [] [] after e = refl
write_words-append before [] (n ∷ new) after e = absurd (omega arith)
write_words-append before (w ∷ old) [] after e = absurd (omega arith)
write_words-append before (w ∷ old) (n ∷ new) after e =
    let room : ltb (length before) (length (before ++ w ∷ (old ++ after))) ≡ true =
      ground (arith, length-append before (w ∷ (old ++ after))) in
    let idx : length before + 1 ≡ length (before ++ n ∷ []) =
      omega (arith, length-append before (n ∷ [])) in
    rw
      (
        room,
        modify-append before (old ++ after) w n,
        idx,
        ← append_assoc before (n ∷ []) (old ++ after),
        ← append_assoc before (n ∷ []) (new ++ after),
      )
      (write_words-append (before ++ n ∷ []) old new after (omega arith))

-- One patch on the placeholder that it belongs to.
module _ (defs : Defs) (before after : List ℕ) (w : ℕ) (old : List ℕ) (name : List ℕ) (pc : ℕ)
    (new : ℕ → List ℕ) (same_length : (target : ℕ) → length (new target) ≡ length (w ∷ old))
    (made : (target : ℕ) → patched w target pc ≡ some (new target)) where
  abbrev pub here : Patch
  here = record { idx = length before; label = name; instr_pc = pc }

  resolve_found_lem :
      (found : Option ℕ)
      → resolve_found (before ++ ((w ∷ old) ++ after)) here found
        ≡ some (is_some found, before ++ (settle found (w ∷ old) new ++ after))
  resolve_found_lem none = refl
  resolve_found_lem (some target) =
      rw
        (
          get_elem?-append before (old ++ after) w,
          made target,
          write_words-append before (w ∷ old) (new target) after (same_length target),
        )
        refl

  pub resolve_patch_lem :
      resolve_patch defs (before ++ ((w ∷ old) ++ after)) here
      ≡ some (named_defined defs name, before ++ (settle_named defs name (w ∷ old) new ++ after))
  unfolding resolve_patch
  resolve_patch_lem = elim (Bool-cases (is_low_label name)) [
    | inl e ↦ rw e refl
    | inr e ↦ rw e (resolve_found_lem (lookup name defs))
  ]

drop-append : (xs ys : List ℕ) → drop (length xs) (xs ++ ys) ≡ ys
drop-append [] ys = refl
drop-append (x ∷ xs) ys = drop-append xs ys

positive_length : (xs : List ℕ) → xs ≢ [] → 0 < length xs
positive_length [] n = absurd (n refl)
positive_length (x ∷ xs) n = omega arith

-- The label of the second patch of la.
pub is_low_label-append : (name : List ℕ) → name ≢ [] → is_low_label (name ++ bytes "__lo") ≡ true
is_low_label-append name n =
    let total : length (name ++ bytes "__lo") ≡ length name + 4 =
      length-append name (bytes "__lo") in
    let long : ltb 4 (length name + 4) ≡ true = ground (arith, positive_length name n) in
    let front : length name + 4 - 4 ≡ length name = omega arith in
    rw (total, long, front, drop-append name (bytes "__lo")) refl
