-- ===== src/Assembler/Line.antt =====
-- assembler.h, `assembleLine` and `loadFile`. The operands of an instruction are read in any order in
-- the source; it shows only in which message is printed first.
use mocker.Prelude.{
  ℕ, ◌+◌, ◌-◌, ◌==◌, ◌&&◌, ◌||◌, not, Bool, true, false, Option, none, some, List, [], ◌∷◌, ◌++◌,
  map, if◌then◌else◌, ltb, length, ◌<<◌, sub32, zero, suc, bit_and, bit_or, ◌>>=◌, bytes, insert,
}
use mocker.Encode.{encode_r, encode_i, encode_s, encode_b, encode_u, encode_j}
use mocker.Encode.Opcode
use mocker.Assembler.{li_words}
use mocker.Assembler.Text.{
  clean, tokenize, is_alnum, is_empty, to_lower, all, before, from, drop, but_last, ends_in_colon,
}
use mocker.Assembler.Immediate.{parse_imm}
use mocker.Assembler.State.{
  Assembler, MemOperand, fail, current_pc, emit, add_patch, emit_branch_patch, parse_reg,
  parse_mem_operand, has_byte,
}
use mocker.Assembler.Mnemonic.{
  Form, fixed, move, negate, load_constant, load_address, jump, compare_zero, zero_compare,
  register_op, immediate_op, load_op, store_op, branch_op, jump_link, jump_register, upper, csr_op,
  csr_read, raw_word, find_form,
}

-- `ops[i]`; an arm asks for an operand only where `need` has found it.
abbrev pub operand : List (List ℕ) → ℕ → List ℕ
operand [] i = []
operand (tok ∷ ops) zero = tok
operand (tok ∷ ops) (suc i) = operand ops i

-- `need(n)` in front of the rest of an arm.
abbrev pub with_operands : ℕ → Assembler → List (List ℕ) → Option Assembler → Option Assembler
with_operands n a ops arm = if ltb (length ops) n then some (fail a) else arm

abbrev pub emit_all : Assembler → List ℕ → Assembler
emit_all a [] = a
emit_all a (w ∷ words) = emit_all (emit a w) words

abbrev pub shift_immediate : ℕ → ℕ → ℕ → ℕ
shift_immediate funct3 funct7 i =
    if (funct3 == Opcode.f3_srl_sra) && (funct7 == Opcode.f7_alt)
    then bit_or (bit_and i 0x1F) (Opcode.f7_alt << 5)
    else i

abbrev pub finish_load : ℕ → List ℕ → Option MemOperand × Assembler → Option Assembler
finish_load funct3 tok (none, a) = some a
finish_load funct3 tok (some m, a) =
    parse_reg a tok >>= λ (rd, b). some (emit b (encode_i m.offset m.base funct3 rd Opcode.load))

abbrev pub finish_store : ℕ → List ℕ → Option MemOperand × Assembler → Option Assembler
finish_store funct3 tok (none, a) = some a
finish_store funct3 tok (some m, a) =
    parse_reg a tok >>= λ (rs, b). some (emit b (encode_s m.offset rs m.base funct3 Opcode.store))

-- The two placeholders of `la`, and a patch for each of them.
abbrev pub emit_address : Assembler → List ℕ → ℕ → Assembler
emit_address a label rd =
    let first = emit a (encode_u 0 rd Opcode.lui) in
    let both = emit first (encode_i 0 rd Opcode.f3_add_sub rd Opcode.i_arith) in
    let n = length both.program in
    add_patch (add_patch both (n - 2) label (sub32 (current_pc both) 8)) (n - 1)
      (label ++ bytes "__lo") (sub32 (current_pc both) 4)

-- The two-register readings that several arms share: `reg(i)` and `reg(j)`.
abbrev pub read_two :
    Assembler → List ℕ → List ℕ → (ℕ → ℕ → Assembler → Assembler) → Option Assembler
read_two a first second arm =
    parse_reg a first >>= λ (m, b). parse_reg b second >>= λ (n, c). some (arm m n c)

abbrev pub read_one : Assembler → List ℕ → (ℕ → Assembler → Assembler) → Option Assembler
read_one a tok arm = parse_reg a tok >>= λ (n, b). some (arm n b)

-- The arm of a mnemonic; `assembleLine` then returns `!hasError`.
unfoldable pub assemble_form : Form → Assembler → List (List ℕ) → Option Assembler
assemble_form (fixed word) a ops = some (emit a word)
assemble_form (move imm funct3) a ops = with_operands 2 a ops (
    read_two a (operand ops 1) (operand ops 0)
      (λ rs rd b. emit b (encode_i imm rs funct3 rd Opcode.i_arith)))
assemble_form negate a ops = with_operands 2 a ops (
    read_two a (operand ops 1) (operand ops 0)
      (λ rs rd b. emit b (encode_r Opcode.f7_alt rs 0 Opcode.f3_add_sub rd Opcode.r_type)))
assemble_form load_constant a ops =
    with_operands 2 a ops
      (read_one a (operand ops 0) (λ rd b. emit_all b (li_words rd (parse_imm (operand ops 1)))))
assemble_form load_address a ops =
    with_operands 2 a ops (read_one a (operand ops 0) (λ rd b. emit_address b (operand ops 1) rd))
assemble_form (jump rd) a ops =
    with_operands 1 a ops (some (emit_branch_patch a (operand ops 0) (encode_j 0 rd Opcode.jal)))
assemble_form (compare_zero funct3) a ops = with_operands 2 a ops (
    read_one a (operand ops 0)
      (λ rs b. emit_branch_patch b (operand ops 1) (encode_b 0 0 rs funct3 Opcode.branch)))
assemble_form (zero_compare funct3) a ops = with_operands 2 a ops (
    read_one a (operand ops 0)
      (λ rs b. emit_branch_patch b (operand ops 1) (encode_b 0 rs 0 funct3 Opcode.branch)))
assemble_form (register_op funct7 funct3) a ops = with_operands 3 a ops (
    parse_reg a (operand ops 2) >>= λ (rs2, b).
    read_two b (operand ops 1) (operand ops 0)
      (λ rs1 rd c. emit c (encode_r funct7 rs2 rs1 funct3 rd Opcode.r_type)))
assemble_form (immediate_op funct3 funct7) a ops = with_operands 3 a ops (
    read_two a (operand ops 1) (operand ops 0) (λ rs1 rd b.
      let i = shift_immediate funct3 funct7 (parse_imm (operand ops 2)) in
      emit b (encode_i i rs1 funct3 rd Opcode.i_arith)))
assemble_form (load_op funct3) a ops =
    with_operands 2 a ops
      (parse_mem_operand a (operand ops 1) >>= finish_load funct3 (operand ops 0))
assemble_form (store_op funct3) a ops =
    with_operands 2 a ops
      (parse_mem_operand a (operand ops 1) >>= finish_store funct3 (operand ops 0))
assemble_form (branch_op funct3) a ops = with_operands 3 a ops (
    read_two a (operand ops 1) (operand ops 0)
      (λ rs2 rs1 b. emit_branch_patch b (operand ops 2) (encode_b 0 rs2 rs1 funct3 Opcode.branch)))
assemble_form jump_link a ops = with_operands 2 a ops (
    read_one a (operand ops 0)
      (λ rd b. emit_branch_patch b (operand ops 1) (encode_j 0 rd Opcode.jal)))
assemble_form jump_register a ops = with_operands 3 a ops (
    read_two a (operand ops 1) (operand ops 0)
      (λ rs1 rd b. emit b (encode_i (parse_imm (operand ops 2)) rs1 Opcode.f3_jalr rd Opcode.jalr)))
assemble_form (upper opcode) a ops = with_operands 2 a ops (
    read_one a (operand ops 0)
      (λ rd b. emit b (encode_u (parse_imm (operand ops 1) << 12) rd opcode)))
assemble_form (csr_op funct3) a ops = with_operands 3 a ops (
    read_two a (operand ops 1) (operand ops 0)
      (λ rs1 rd b. emit b (encode_i (parse_imm (operand ops 2)) rs1 funct3 rd Opcode.system)))
assemble_form csr_read a ops = with_operands 2 a ops (
    read_one a (operand ops 0)
      (λ rd b. emit b (encode_i (parse_imm (operand ops 1)) 0 0b010 rd Opcode.system)))
assemble_form raw_word a ops = with_operands 1 a ops (some (emit a (parse_imm (operand ops 0))))

-- The label in front of an instruction, and the rest of the line: there is none unless letters, digits
-- and underscores stand before the first colon, one at least.
abbrev pub is_space_or_tab : ℕ → Bool
is_space_or_tab c = (c == b' ') || (c == 9)

abbrev pub is_label : List ℕ → Bool
is_label [] = false
is_label (c ∷ s) = all (λ d. is_alnum d || (d == b'_')) (c ∷ s)

unfoldable pub define_label : Assembler → List ℕ → Assembler
define_label a label = record a { label_defs = insert label (current_pc a) a.label_defs }

-- The chain of tests on the mnemonic, with what `assembleLine` returns.
abbrev pub run_form : Option Form → Assembler → List (List ℕ) → Option (Bool × Assembler)
run_form none a ops = some (false, fail a)
run_form (some form) a ops = assemble_form form a ops >>= λ b. some (not b.has_error, b)

-- The line behind its label: mnemonic and operands.
unfoldable pub assemble_instruction : Assembler → List ℕ → Option (Bool × Assembler)
assemble_instruction a line =
    let mnem = map to_lower (before is_space_or_tab line) in
    let rest = clean (from is_space_or_tab line) in run_form (find_form mnem) a (tokenize rest)

abbrev pub instruction_unless_empty : Assembler → List ℕ → Option (Bool × Assembler)
instruction_unless_empty a [] = some (true, a)
instruction_unless_empty a (c ∷ s) = assemble_instruction a (c ∷ s)

unfoldable pub assemble_line : Assembler → List ℕ → Option (Bool × Assembler)
assemble_line a raw_line =
    let line = clean raw_line in
    let name = before (λ c. c == b':') line in
    if is_empty line
    then some (true, a)
    else if ends_in_colon line
    then some (true, define_label a (but_last line))
    else if has_byte b':' line && is_label name
    then instruction_unless_empty (define_label a name) (clean (drop (length name + 1) line))
    else assemble_instruction a line

-- The lines of a file that could be opened; a line that fails is reported, and the next one follows.
unfoldable pub assemble_lines : Assembler → List (List ℕ) → Option Assembler
assemble_lines a [] = some a
assemble_lines a (line ∷ lines) = assemble_line a line >>= λ (_, b). assemble_lines b lines
