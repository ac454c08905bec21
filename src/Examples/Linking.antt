-- ===== src/Examples/Linking.antt =====
-- Examples for assembler.h: labels and the places that they are replaced in.
use mocker.Prelude.{
  Bool, not, ◌&&◌, if◌then◌else◌, ℕ, zero, suc, ◌≡◌, ◌≢◌, inl, refl, true, false, some, List, [],
  ◌∷◌, bytes, arith,
}
use mocker.Encode.{encode_j, encode_i, decode_opcode, decode_rd}
use mocker.Assembler.{patched}
use mocker.Assembler.Text.{clean, to_lower, tokenize, tokens, is_alnum}
use mocker.Assembler.Mnemonic.{find_form, mnemonics}
use mocker.Encode.Opcode
use mocker.Cpu.State.{init, retire, set_reg, next_pc}
use mocker.Cpu.Control.{branch_taken}
use mocker.Cpu.{execute}
use mocker.Assembler.State.{Assembler, initial, emit, add_patch, emit_branch_patch, current_pc}
use mocker.Assembler.Line.{
  assemble_lines, assemble_line, assemble_instruction, assemble_form, define_label,
}
use mocker.Assembler.Resolve.{
  resolve_labels, resolve_patches, resolve_patch, finalise, assemble_file, accepted, rejected,
}
use mocker.Assembler.Items
use mocker.Assembler.Items.{Item, AreItems, words_of, labels_of, patches_of}
use mocker.Assembler.Represents.{Represents}
use mocker.Assembler.Settled.{settled_words, all_defined}
use mocker.Assembler.Linked.{resolve_labels-assemble_lines, assemble_file-assemble_lines}
use mocker.Assembler.Positions.{StandsAt, HoldsAt}
use mocker.Assembler.Transfers.{Arrives, resolve_labels-Arrives}
use mocker.Assembler.Misses.{finalise-low_label, finalise-far_branch}
use mocker.Examples.{two_ecalls, hart0}

abbrev pub skip_lines : List (List ℕ)
skip_lines = bytes "  j end  # over the ecall" ∷ bytes "ecall" ∷ bytes "end: ebreak" ∷ []

-- What the lines leave: three words, a label and a patch.
abbrev skip_state : Assembler
skip_state = record {
  program = 0x6F ∷ 0x73 ∷ 0x100073 ∷ [];
  label_defs = (bytes "end", 0x10008) ∷ [];
  patches = record { idx = 0; label = bytes "end"; instr_pc = 0x10000 } ∷ [];
  has_error = false;
  base_addr = 0x10000;
}

skip_assembled : assemble_lines (initial 0x10000) skip_lines ≡ some skip_state
unfolding assemble_lines assemble_line assemble_instruction assemble_form define_label find_form
    mnemonics clean to_lower tokenize tokens is_alnum emit add_patch emit_branch_patch current_pc
    encode_j encode_i
skip_assembled = refl

skip_file : assemble_file 0x10000 (some skip_lines) ≡ accepted (0x80006F ∷ 0x73 ∷ 0x100073 ∷ [])
unfolding assemble_file finalise resolve_labels resolve_patches resolve_patch patched decode_opcode
    decode_rd assemble_lines assemble_line assemble_instruction assemble_form define_label find_form
    mnemonics clean to_lower tokenize tokens is_alnum emit add_patch emit_branch_patch current_pc
    encode_j encode_i
skip_file = refl

resolve_labels-assemble_lines_example :
    (items : List Item) × Represents 0x10000 items skip_state
    × (resolve_labels skip_state
        ≡ some (
          all_defined skip_state.label_defs items,
          record skip_state { program = settled_words skip_state.label_defs 0x10000 0 items },
        ))
resolve_labels-assemble_lines_example =
    resolve_labels-assemble_lines 0x10000 skip_lines skip_state skip_assembled

assemble_file-assemble_lines_example :
    (items : List Item) × Represents 0x10000 items skip_state
    × (assemble_file 0x10000 (some skip_lines) ≡ (
        if all_defined skip_state.label_defs items && not skip_state.has_error
        then accepted (settled_words skip_state.label_defs 0x10000 0 items)
        else rejected))
assemble_file-assemble_lines_example =
    assemble_file-assemble_lines 0x10000 skip_lines skip_state skip_assembled

abbrev skip_items : List Item
skip_items =
    Items.jump (bytes "end") 0
    ∷ Items.word 0x73
    ∷ Items.label (bytes "end")
    ∷ Items.word 0x100073
    ∷ []

skip-Represents : Represents 0x10000 skip_items skip_state
skip-Represents = record {
  same_base = refl;
  same_program = unfold encode_j in refl;
  same_patches = refl;
  same_labels = refl;
  are_items = (omega arith, (omega arith, (tt, (omega arith, tt))));
}

resolve_labels-Arrives_example :
    (ok : Bool) × (b : Assembler) × (resolve_labels skip_state ≡ some (ok, b))
    × StandsAt 0x10000 skip_items (bytes "end") 0x10008
    × ((part : List ℕ) × HoldsAt b.program 0 part
        × Arrives hart0 two_ecalls true 0x10008 (Items.jump (bytes "end") 0) part)
unfolding init
resolve_labels-Arrives_example =
    resolve_labels-Arrives 0x10000 []
      (Items.word 0x73 ∷ Items.label (bytes "end") ∷ Items.word 0x100073 ∷ [])
      (Items.jump (bytes "end") 0) skip_state (bytes "end") 0x10008 hart0 two_ecalls true
      skip-Represents refl refl refl refl (inl (omega arith))

-- A jump to a label that is not defined, and whose name hides that.
abbrev low_items : List Item
low_items = Items.jump (bytes "far__lo") 0 ∷ []

abbrev low_state : Assembler
low_state = record {
  program = 0x6F ∷ [];
  label_defs = [];
  patches = record { idx = 0; label = bytes "far__lo"; instr_pc = 0x10000 } ∷ [];
  has_error = false;
  base_addr = 0x10000;
}

low-Represents : Represents 0x10000 low_items low_state
low-Represents = record {
  same_base = refl;
  same_program = unfold encode_j in refl;
  same_patches = refl;
  same_labels = refl;
  are_items = (omega arith, tt);
}

finalise-low_label_example :
    (b : Assembler) × (w : ℕ) × (finalise low_state ≡ some (true, b))
    × HoldsAt b.program 0 (w ∷ [])
    × (execute hart0 two_ecalls w ≡ retire (set_reg hart0 0 (next_pc hart0)) two_ecalls 0x10000)
unfolding init
finalise-low_label_example =
    finalise-low_label 0x10000 [] [] 0 low_state (bytes "far__lo") hart0 two_ecalls low-Represents
      refl (omega arith)

-- A branch over 1100 words.
abbrev words_then : ℕ → List Item → List Item
words_then zero items = items
words_then (suc n) items = Items.word 0x13 ∷ words_then n items

abbrev far_back : List Item
far_back = words_then 1100 (Items.label (bytes "far") ∷ [])

words_then-AreItems : (n : ℕ) (items : List Item) → AreItems items → AreItems (words_then n items)
words_then-AreItems zero items p = p
words_then-AreItems (suc n) items p = (omega arith, words_then-AreItems n items p)

abbrev far_items : List Item
far_items = Items.branch (bytes "far") 0 0 Opcode.f3_beq ∷ far_back

abbrev far_state : Assembler
far_state = record {
  program = words_of far_items;
  label_defs = labels_of 0x10000 0 far_items [];
  patches = patches_of 0x10000 0 far_items;
  has_error = false;
  base_addr = 0x10000;
}

far-Represents : Represents 0x10000 far_items far_state
far-Represents = record {
  same_base = refl;
  same_program = refl;
  same_patches = refl;
  same_labels = refl;
  are_items = (
    (omega arith, omega arith, omega arith),
    words_then-AreItems 1100 (Items.label (bytes "far") ∷ []) (tt, tt),
  );
}

finalise-far_branch_example :
    (b : Assembler) × (w : ℕ) × (pc : ℕ) × (finalise far_state
      ≡ some (all_defined far_state.label_defs far_back && true, b))
    × HoldsAt b.program 0 (w ∷ [])
    × (execute hart0 two_ecalls w ≡ retire hart0 two_ecalls pc)
    × (pc ≢ 0x11134)
unfolding init
finalise-far_branch_example =
    finalise-far_branch 0x10000 [] far_back 0 0 Opcode.f3_beq far_state (bytes "far") 0x11134 hart0
      two_ecalls far-Represents refl refl refl (λ fits. omega arith) (unfold branch_taken in refl)
