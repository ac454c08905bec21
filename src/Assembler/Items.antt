-- ===== src/Assembler/Items.antt =====
-- assembler.h: a source program as the list of what its lines contribute, and the parts of the
-- assembler's state that such a list stands for.

use mocker.Prelude.{
  IsWord, ℕ, ◌+◌, ◌*◌, ◌<◌, ◌≢◌, ◌≡◌, refl, sym, length-append, arith, List, [], ◌∷◌, ◌++◌, length,
  bytes, insert, add32, u32,
}
use mathlib.Core.List.{append_assoc}
use native.Mathlib.Nat.{add-zero}
use mocker.Encode.{encode_i, encode_u, encode_b, encode_j}
use mocker.Encode.Opcode
use mocker.Assembler.State.{Patch}

pub data Item : Type 0 where
  word : ℕ → Item
  label : (name : List ℕ) → Item
  jump : (name : List ℕ) (rd : ℕ) → Item
  branch : (name : List ℕ) (rs2 rs1 funct3 : ℕ) → Item
  address : (name : List ℕ) (rd : ℕ) → Item

abbrev pub IsItem : Item → Type 0
IsItem (word w) = IsWord w
IsItem (label name) = Unit {0}
IsItem (jump name rd) = rd < 32
IsItem (branch name rs2 rs1 funct3) = (rs2 < 32) × (rs1 < 32) × (funct3 < 8)
IsItem (address name rd) = (name ≢ []) × (rd < 32)

abbrev pub AreItems : List Item → Type 0
AreItems [] = Unit {0}
AreItems (item ∷ items) = IsItem item × AreItems items

-- The words that stand in the program until the labels are resolved.
abbrev pub placeholder : Item → List ℕ
placeholder (word w) = w ∷ []
placeholder (label name) = []
placeholder (jump name rd) = encode_j 0 rd Opcode.jal ∷ []
placeholder (branch name rs2 rs1 funct3) = encode_b 0 rs2 rs1 funct3 Opcode.branch ∷ []
placeholder (address name rd) =
    encode_u 0 rd Opcode.lui ∷ encode_i 0 rd Opcode.f3_add_sub rd Opcode.i_arith ∷ []

abbrev pub words_of : List Item → List ℕ
words_of [] = []
words_of (item ∷ items) = placeholder item ++ words_of items

-- The address of the word at an index.
abbrev pub address_of : ℕ → ℕ → ℕ
address_of base idx = add32 base (u32 (idx * 4))

abbrev pub patch_at : ℕ → ℕ → List ℕ → Patch
patch_at base idx name = record { idx = idx; label = name; instr_pc = address_of base idx }

abbrev pub item_patches : ℕ → ℕ → Item → List Patch
item_patches base idx (word w) = []
item_patches base idx (label name) = []
item_patches base idx (jump name rd) = patch_at base idx name ∷ []
item_patches base idx (branch name rs2 rs1 funct3) = patch_at base idx name ∷ []
item_patches base idx (address name rd) =
    patch_at base idx name ∷ patch_at base (idx + 1) (name ++ bytes "__lo") ∷ []

abbrev pub patches_of : ℕ → ℕ → List Item → List Patch
patches_of base idx [] = []
patches_of base idx (item ∷ items) =
    item_patches base idx item ++ patches_of base (idx + length (placeholder item)) items

abbrev pub item_labels : ℕ → ℕ → Item → List (List ℕ × ℕ) → List (List ℕ × ℕ)
item_labels base idx (label name) defs = insert name (address_of base idx) defs
item_labels base idx (word w) defs = defs
item_labels base idx (jump name rd) defs = defs
item_labels base idx (branch name rs2 rs1 funct3) defs = defs
item_labels base idx (address name rd) defs = defs

-- Each label has the address of the word that follows it; of two with one name the last counts.
abbrev pub labels_of : ℕ → ℕ → List Item → List (List ℕ × ℕ) → List (List ℕ × ℕ)
labels_of base idx [] defs = defs
labels_of base idx (item ∷ items) defs =
    labels_of base (idx + length (placeholder item)) items (item_labels base idx item defs)

-- The three lists of two programs one behind the other.

pub words_of-append :
    (items more : List Item) → words_of (items ++ more) ≡ words_of items ++ words_of more
words_of-append [] more = refl
words_of-append (item ∷ items) more =
    simp
      (words_of-append items more, append_assoc (placeholder item) (words_of items) (words_of more))

pub patches_of-append :
    (base idx : ℕ) (items more : List Item)
    → patches_of base idx (items ++ more)
      ≡ patches_of base idx items ++ patches_of base (idx + length (words_of items)) more
patches_of-append base idx [] more = rw add-zero refl
patches_of-append base idx (item ∷ items) more =
    let here = length (placeholder item) in
    let e : idx + here + length (words_of items)
        ≡ idx + length (placeholder item ++ words_of items) =
      omega (arith, length-append (placeholder item) (words_of items)) in
    rw (patches_of-append base (idx + here) items more, e)
      (sym (
        append_assoc (item_patches base idx item) (patches_of base (idx + here) items)
          (patches_of base (idx + length (placeholder item ++ words_of items)) more)))

pub labels_of-append :
    (base idx : ℕ) (items more : List Item) (defs : List (List ℕ × ℕ))
    → labels_of base idx (items ++ more) defs
      ≡ labels_of base (idx + length (words_of items)) more (labels_of base idx items defs)
labels_of-append base idx [] more defs = rw add-zero refl
labels_of-append base idx (item ∷ items) more defs =
    let here = length (placeholder item) in
    let e : idx + here + length (words_of items)
        ≡ idx + length (placeholder item ++ words_of items) =
      omega (arith, length-append (placeholder item) (words_of items)) in
    rw (labels_of-append base (idx + here) items more (item_labels base idx item defs), e) refl

pub AreItems-append :
    (items more : List Item) → AreItems items → AreItems more → AreItems (items ++ more)
AreItems-append [] more p q = q
AreItems-append (item ∷ items) more (h, p) q = (h, AreItems-append items more p q)

pub middle-IsItem :
    (front : List Item) (item : Item) (back : List Item)
    → AreItems (front ++ item ∷ back)
    → IsItem item
middle-IsItem [] item back (i, p) = i
middle-IsItem (first ∷ front) item back (i, p) = middle-IsItem front item back p
