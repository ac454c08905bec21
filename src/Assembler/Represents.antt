-- ===== src/Assembler/Represents.antt =====
-- assembler.h: the assembler's state represents a list of items, and the members that append words,
-- patches and labels append one item to it.
use mocker.Prelude.{
  IsWord, ℕ, ◌+◌, ◌-◌, ◌*◌, ◌<◌, ◌≡◌, ◌≢◌, refl, sym, ap, ◌∙◌, List, [], ◌∷◌, ◌++◌, length,
  length-append, add32, sub32, u32, arith,
}
use mathlib.Core.List.{append_assoc, append-nil}
use native.Mathlib.Nat.{zero-add}
use mocker.Encode.{encode_i, encode_u, encode_b, encode_j}
use mocker.Encode.Opcode
use mocker.Assembler.State.{
  Assembler, initial, fail, current_pc, emit, add_patch, emit_branch_patch,
}
use mocker.Assembler.Line.{emit_address, define_label}
use mocker.Assembler.Items.{
  Item, word, label, jump, branch, address, IsItem, AreItems, AreItems-append, placeholder,
  words_of, words_of-append, address_of, item_patches, patches_of, patches_of-append, item_labels,
  labels_of, labels_of-append,
}

pub record Represents (base : ℕ) (items : List Item) (a : Assembler) : Type 0 where
  pub same_base : a.base_addr ≡ base
  pub same_program : a.program ≡ words_of items
  pub same_patches : a.patches ≡ patches_of base 0 items
  pub same_labels : a.label_defs ≡ labels_of base 0 items []
  pub are_items : AreItems items

pub initial-Represents : (base : ℕ) → Represents base [] (initial base)
initial-Represents base = record {
  same_base = refl;
  same_program = refl;
  same_patches = refl;
  same_labels = refl;
  are_items = tt;
}

pub fail-Represents :
    {base : ℕ} {items : List Item} {a : Assembler}
    → Represents base items a
    → Represents base items (fail a)
fail-Represents r = record {
  same_base = r.same_base;
  same_program = r.same_program;
  same_patches = r.same_patches;
  same_labels = r.same_labels;
  are_items = r.are_items;
}

module _ {base : ℕ} {items : List Item} {a : Assembler} (r : Represents base items a) where
  pub current_pc_lem : current_pc a ≡ address_of base (length a.program)
  unfolding current_pc
  current_pc_lem = rw (r.same_base) refl

  -- The state after an item, by what the item appends to each list.
  grown :
      (item : Item) (b : Assembler)
      → IsItem item
      → b.base_addr ≡ a.base_addr
      → b.program ≡ a.program ++ placeholder item
      → b.patches ≡ a.patches ++ item_patches base (length a.program) item
      → b.label_defs ≡ item_labels base (length a.program) item a.label_defs
      → Represents base (items ++ item ∷ []) b
  grown item b is_item same words patches labels =
      let n = length (words_of items) in
      let e : length a.program ≡ n = ap length (r.same_program) in
      record {
        same_base = same ∙ r.same_base;
        same_program =
            words
            ∙ rw (r.same_program, words_of-append items (item ∷ []), append-nil (placeholder item))
                refl;
        same_patches =
            patches
            ∙ rw
                (
                  r.same_patches,
                  e,
                  patches_of-append base 0 items (item ∷ []),
                  zero-add n,
                  append-nil (item_patches base n item),
                )
                refl;
        same_labels =
            labels
            ∙ rw (r.same_labels, e, labels_of-append base 0 items (item ∷ []) [], zero-add n) refl;
        are_items = AreItems-append items (item ∷ []) (r.are_items) (is_item, tt);
      }

  pub emit-Represents : (w : ℕ) → IsWord w → Represents base (items ++ word w ∷ []) (emit a w)
  unfolding emit
  emit-Represents w p = grown (word w) (emit a w) p refl refl (sym (append-nil (a.patches))) refl

  pub define_label-Represents :
      (name : List ℕ) → Represents base (items ++ label name ∷ []) (define_label a name)
  unfolding define_label
  define_label-Represents name =
      grown (label name) (define_label a name) tt refl (sym (append-nil (a.program)))
        (sym (append-nil (a.patches))) (rw current_pc_lem refl)

  pub jump-Represents :
      (name : List ℕ) (rd : ℕ)
      → rd < 32
      → Represents base
          (items ++ jump name rd ∷ [])
          (emit_branch_patch a name (encode_j 0 rd Opcode.jal))
  unfolding emit_branch_patch emit add_patch
  jump-Represents name rd b =
      grown (jump name rd) (emit_branch_patch a name (encode_j 0 rd Opcode.jal)) b refl refl
        (rw current_pc_lem refl) refl

  pub branch-Represents :
      (name : List ℕ) (rs2 rs1 funct3 : ℕ)
      → rs2 < 32
      → rs1 < 32
      → funct3 < 8
      → Represents base
          (items ++ branch name rs2 rs1 funct3 ∷ [])
          (emit_branch_patch a name (encode_b 0 rs2 rs1 funct3 Opcode.branch))
  unfolding emit_branch_patch emit add_patch
  branch-Represents name rs2 rs1 funct3 b2 b1 b3 =
      grown (branch name rs2 rs1 funct3)
        (emit_branch_patch a name (encode_b 0 rs2 rs1 funct3 Opcode.branch)) (b2, b1, b3) refl refl
        (rw current_pc_lem refl) refl

  pub emit_address-Represents :
      (name : List ℕ) (rd : ℕ)
      → name ≢ []
      → rd < 32
      → Represents base (items ++ address name rd ∷ []) (emit_address a name rd)
  unfolding emit add_patch current_pc
  emit_address-Represents name rd n b =
      let both =
        a.program
        ++ encode_u 0 rd Opcode.lui ∷ []
        ++ encode_i 0 rd Opcode.f3_add_sub rd Opcode.i_arith ∷ [] in
      let m = length (a.program) in
      let e : length both ≡ m + 2 = omega (
        arith,
        length-append (a.program ++ encode_u 0 rd Opcode.lui ∷ [])
            (encode_i 0 rd Opcode.f3_add_sub rd Opcode.i_arith ∷ []),
        length-append (a.program) (encode_u 0 rd Opcode.lui ∷ []),
      ) in
      let idx : m + 2 - 2 ≡ m = omega arith in
      let idx' : m + 2 - 1 ≡ m + 1 = omega arith in
      let pc : sub32 (add32 base (u32 ((m + 2) * 4))) 8 ≡ address_of base m = omega arith in
      let pc' : sub32 (add32 base (u32 ((m + 2) * 4))) 4 ≡ address_of base (m + 1) = omega arith in
      grown (address name rd) (emit_address a name rd) (n, b) refl
        (append_assoc (a.program) (encode_u 0 rd Opcode.lui ∷ [])
          (encode_i 0 rd Opcode.f3_add_sub rd Opcode.i_arith ∷ []))
        (rw (e, r.same_base, pc, pc', idx, idx') (append_assoc (a.patches) _ _)) refl
