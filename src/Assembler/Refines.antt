-- ===== src/Assembler/Refines.antt =====
-- assembler.h: `assembleLine` and the loop of `loadFile` append items to what the state represents.
use mocker.Prelude.{
  AllWords, ℕ, ◌+◌, Bool, if_both, Option, none, some, List, [], ◌∷◌, ◌++◌, map, length, Ensures,
  Ensures->>=, arith, ◌==◌, ◌&&◌,
}
use mocker.Encode.Bounds.{encode_r-IsWord, encode_i-IsWord, encode_s-IsWord, encode_u-IsWord}
use mocker.Assembler.{li_words}
use mocker.Assembler.Text.{
  clean, tokenize, to_lower, before, from, drop, is_empty, ends_in_colon, but_last,
}
use mocker.Assembler.Immediate.{parse_imm}
use mocker.Assembler.State.{
  Assembler, MemOperand, fail, emit, parse_reg, parse_mem_operand, has_byte,
}
use mocker.Assembler.Mnemonic.{
  Form, fixed, move, negate, load_constant, load_address, jump, compare_zero, zero_compare,
  register_op, immediate_op, load_op, store_op, branch_op, jump_link, jump_register, upper, csr_op,
  csr_read, raw_word, find_form,
}
use mocker.Assembler.Line.{
  operand, emit_all, finish_load, finish_store, assemble_form, run_form, assemble_instruction,
  instruction_unless_empty, assemble_line, assemble_lines, define_label, is_label, is_space_or_tab,
}
use mocker.Assembler.Widths.{parse_imm-IsWord, li_words-AllWords}
use mocker.Assembler.Items
use mocker.Assembler.Items.{Item}
use mocker.Assembler.Represents.{
  Represents, fail-Represents, emit-Represents, define_label-Represents, jump-Represents,
  branch-Represents, emit_address-Represents,
}
use mocker.Assembler.Operands.{
  AllNonEmpty, operand-NonEmpty, tokenize-AllNonEmpty, IsForm, find_form-IsForm,
}
use mocker.Assembler.Readers.{
  Grows, ReadReg, ReadMem, LineGrows, same, parse_reg-ReadReg, read_one-Grows, read_two-Grows,
  parse_mem_operand-ReadMem, emits, with_operands-Grows, behind,
}

emit_all-Grows :
    (base : ℕ) (items : List Item) (words : List ℕ) (b : Assembler)
    → AllWords words
    → Represents base items b
    → Grows base items (emit_all b words)
emit_all-Grows base items [] b p r = same b r
emit_all-Grows base items (w ∷ words) b (h, p) r =
    behind base items (Items.word w ∷ []) _
      (emit_all-Grows base (items ++ Items.word w ∷ []) words (emit b w) p (emit-Represents r w h))

module _ {base : ℕ} {items : List Item} where
  finish_load-Grows :
      (funct3 : ℕ) (tok : List ℕ) (read : Option MemOperand × Assembler)
      → ReadMem base items read
      → Ensures (Grows base items) (finish_load funct3 tok read)
  finish_load-Grows funct3 tok (none, a) r = same a r
  finish_load-Grows funct3 tok (some m, a) r =
      read_one-Grows a tok r _ (λ rd b h s. emits _ b (encode_i-IsWord _ _ _ _ _ (omega arith)) s)

  finish_store-Grows :
      (funct3 : ℕ) (tok : List ℕ) (read : Option MemOperand × Assembler)
      → ReadMem base items read
      → Ensures (Grows base items) (finish_store funct3 tok read)
  finish_store-Grows funct3 tok (none, a) r = same a r
  finish_store-Grows funct3 tok (some m, a) r =
      read_one-Grows a tok r _ (λ rs b h s. emits _ b (encode_s-IsWord _ _ _ _ _ (omega arith)) s)

  -- Every arm, for operands that are not empty.
  assemble_form-Grows :
      (form : Form) (a : Assembler) (ops : List (List ℕ))
      → IsForm form
      → AllNonEmpty ops
      → Represents base items a
      → Ensures (Grows base items) (assemble_form form a ops)
  unfolding assemble_form
  assemble_form-Grows (fixed w) a ops f p r = emits w a (f) r
  assemble_form-Grows (move imm funct3) a ops f p r = with_operands-Grows 2 a ops _ r (λ h.
      read_two-Grows a _ r _ _
        (λ rs rd b i j s. emits _ b (encode_i-IsWord _ _ _ _ _ (omega arith)) s))
  assemble_form-Grows negate a ops f p r = with_operands-Grows 2 a ops _ r (λ h.
      read_two-Grows a _ r _ _
        (λ rs rd b i j s. emits _ b (encode_r-IsWord _ _ _ _ _ _ (omega arith)) s))
  assemble_form-Grows load_constant a ops f p r = with_operands-Grows 2 a ops _ r (λ h.
      read_one-Grows a _ r _ (λ rd b i s.
        emit_all-Grows base items (li_words rd (parse_imm (operand ops 1))) b
          (li_words-AllWords rd _) s))
  assemble_form-Grows load_address a ops f p r = with_operands-Grows 2 a ops _ r (λ h.
      read_one-Grows a _ r _ (λ rd b i s. (
        Items.address (operand ops 1) rd ∷ [],
        emit_address-Represents s _ rd (operand-NonEmpty ops 1 p (omega arith)) i,
      )))
  assemble_form-Grows (jump rd) a ops f p r =
      with_operands-Grows 1 a ops _ r
        (λ h. (Items.jump (operand ops 0) rd ∷ [], jump-Represents r _ rd f))
  assemble_form-Grows (compare_zero funct3) a ops f p r = with_operands-Grows 2 a ops _ r (λ h.
      read_one-Grows a _ r _ (λ rs b i s. (_, branch-Represents s _ 0 rs funct3 (omega arith) i f)))
  assemble_form-Grows (zero_compare funct3) a ops f p r = with_operands-Grows 2 a ops _ r (λ h.
      read_one-Grows a _ r _ (λ rs b i s. (_, branch-Represents s _ rs 0 funct3 i (omega arith) f)))
  assemble_form-Grows (register_op funct7 funct3) a ops f p r =
      with_operands-Grows 3 a ops _ r (λ h.
        Ensures->>= (ReadReg base items) (Grows base items) (parse_reg a (operand ops 2)) _
          (parse_reg-ReadReg a (operand ops 2) r)
          (λ (rs2, b) (i, s).
            read_two-Grows b _ s _ _
              (λ rs1 rd c j k t. emits _ c (encode_r-IsWord _ _ _ _ _ _ (omega arith)) t)))
  assemble_form-Grows (immediate_op funct3 funct7) a ops f p r =
      with_operands-Grows 3 a ops _ r (λ h.
        read_two-Grows a _ r _ _
          (λ rs rd b i j s. emits _ b (encode_i-IsWord _ _ _ _ _ (omega arith)) s))
  assemble_form-Grows (load_op funct3) a ops f p r = with_operands-Grows 2 a ops _ r (λ h.
      Ensures->>= (ReadMem base items) (Grows base items) (parse_mem_operand a (operand ops 1)) _
        (parse_mem_operand-ReadMem a (operand ops 1) r) (finish_load-Grows funct3 (operand ops 0)))
  assemble_form-Grows (store_op funct3) a ops f p r = with_operands-Grows 2 a ops _ r (λ h.
      Ensures->>= (ReadMem base items) (Grows base items) (parse_mem_operand a (operand ops 1)) _
        (parse_mem_operand-ReadMem a (operand ops 1) r) (finish_store-Grows funct3 (operand ops 0)))
  assemble_form-Grows (branch_op funct3) a ops f p r = with_operands-Grows 3 a ops _ r (λ h.
      read_two-Grows a _ r _ _ (λ rs2 rs1 b i j s. (_, branch-Represents s _ rs2 rs1 funct3 i j f)))
  assemble_form-Grows jump_link a ops f p r =
      with_operands-Grows 2 a ops _ r
        (λ h. read_one-Grows a _ r _ (λ rd b i s. (_, jump-Represents s _ rd i)))
  assemble_form-Grows jump_register a ops f p r = with_operands-Grows 3 a ops _ r (λ h.
      read_two-Grows a _ r _ _
        (λ rs rd b i j s. emits _ b (encode_i-IsWord _ _ _ _ _ (omega arith)) s))
  assemble_form-Grows (upper opcode) a ops f p r =
      with_operands-Grows 2 a ops _ r
        (λ h. read_one-Grows a _ r _ (λ rd b i s. emits _ b (encode_u-IsWord _ _ _ f) s))
  assemble_form-Grows (csr_op funct3) a ops f p r = with_operands-Grows 3 a ops _ r (λ h.
      read_two-Grows a _ r _ _
        (λ rs rd b i j s. emits _ b (encode_i-IsWord _ _ _ _ _ (omega arith)) s))
  assemble_form-Grows csr_read a ops f p r = with_operands-Grows 2 a ops _ r (λ h.
      read_one-Grows a _ r _ (λ rd b i s. emits _ b (encode_i-IsWord _ _ _ _ _ (omega arith)) s))
  assemble_form-Grows raw_word a ops f p r =
      with_operands-Grows 1 a ops _ r (λ h. emits _ a (parse_imm-IsWord (operand ops 0)) r)

  assemble_instruction-LineGrows :
      (a : Assembler) (line : List ℕ)
      → Represents base items a
      → Ensures (LineGrows base items) (assemble_instruction a line)
  unfolding assemble_instruction
  assemble_instruction-LineGrows a line r = of_form (find_form mnem) (find_form-IsForm mnem)
    where
      mnem : List ℕ
      mnem = map to_lower (before is_space_or_tab line)

      ops : List (List ℕ)
      ops = tokenize (clean (from is_space_or_tab line))

      of_form :
          (found : Option Form)
          → Ensures IsForm found
          → Ensures (LineGrows base items) (run_form found a ops)
      of_form none f = same (fail a) (fail-Represents r)
      of_form (some form) f =
          Ensures->>= (Grows base items) (LineGrows base items) (assemble_form form a ops) _
            (assemble_form-Grows form a ops f (tokenize-AllNonEmpty _) r) (λ b g. g)

instruction_unless_empty-LineGrows :
    (base : ℕ) (items : List Item) (a : Assembler) (line : List ℕ)
    → Represents base items a
    → Ensures (LineGrows base items) (instruction_unless_empty a line)
instruction_unless_empty-LineGrows base items a [] r = same a r
instruction_unless_empty-LineGrows base items a (c ∷ s) r =
    assemble_instruction-LineGrows a (c ∷ s) r

assemble_line-LineGrows :
    (base : ℕ) (items : List Item) (a : Assembler) (raw_line : List ℕ)
    → Represents base items a
    → Ensures (LineGrows base items) (assemble_line a raw_line)
unfolding assemble_line
assemble_line-LineGrows base items a raw_line r =
    let line = clean raw_line in
    let name = before (λ c. c == b':') line in
    let rest = clean (drop (length name + 1) line) in
    let labelled = λ (text : List ℕ). Items.label text ∷ [] in
    if_both (Ensures (LineGrows base items)) (is_empty line) (same a r) (
      if_both (Ensures (LineGrows base items)) (ends_in_colon line)
        (labelled (but_last line), define_label-Represents r (but_last line))
        (if_both (Ensures (LineGrows base items)) (has_byte b':' line && is_label name)
          (weaken name (instruction_unless_empty (define_label a name) rest) (
            instruction_unless_empty-LineGrows base (items ++ Items.label name ∷ [])
              (define_label a name) rest (define_label-Represents r name)))
          (assemble_instruction-LineGrows a line r)))
  where
    weaken :
        (name : List ℕ) (o : Option (Bool × Assembler))
        → Ensures (LineGrows base (items ++ Items.label name ∷ [])) o
        → Ensures (LineGrows base items) o
    weaken name none g = tt
    weaken name (some (ok, b)) g = behind base items (Items.label name ∷ []) b g

Ensures-behind :
    (base : ℕ) (items more : List Item) (o : Option Assembler)
    → Ensures (Grows base (items ++ more)) o
    → Ensures (Grows base items) o
Ensures-behind base items more none g = tt
Ensures-behind base items more (some b) g = behind base items more b g

-- Over the lines of a file.
pub assemble_lines-Grows :
    (base : ℕ) (lines : List (List ℕ)) (items : List Item) (a : Assembler)
    → Represents base items a
    → Ensures (Grows base items) (assemble_lines a lines)
unfolding assemble_lines
assemble_lines-Grows base [] items a r = same a r
assemble_lines-Grows base (line ∷ lines) items a r =
    Ensures->>= (LineGrows base items) (Grows base items) (assemble_line a line) _
      (assemble_line-LineGrows base items a line r)
      (λ (ok, b) (more, s).
        Ensures-behind base items more (assemble_lines b lines)
          (assemble_lines-Grows base lines (items ++ more) b s))
