-- ===== src/Assembler/Mnemonic.antt =====
-- assembler.h, the mnemonics of `assembleLine`: each with the form of its operands and the constants
-- that its arm puts into the word.
use mocker.Prelude.{ℕ, Option, List, [], ◌∷◌, bytes, lookup}
use mocker.Encode.{encode_i}
use mocker.Encode.Opcode

pub data Form : Type 0 where
  -- One word without operands.
  fixed : (word : ℕ) → Form
  -- rd, rs: an operation of I_ARITH with a constant, or rd := -rs.
  move : (imm funct3 : ℕ) → Form
  negate : Form
  -- rd, constant and rd, label.
  load_constant load_address : Form
  -- label
  jump : (rd : ℕ) → Form
  -- rs, label: a branch that compares rs with x0, or x0 with rs.
  compare_zero zero_compare : (funct3 : ℕ) → Form
  -- rd, rs1, rs2 and rd, rs1, constant.
  register_op : (funct7 funct3 : ℕ) → Form
  immediate_op : (funct3 funct7 : ℕ) → Form
  -- register, offset(register)
  load_op store_op : (funct3 : ℕ) → Form
  -- rs1, rs2, label
  branch_op : (funct3 : ℕ) → Form
  -- rd, label
  jump_link : Form
  -- rd, rs1, constant
  jump_register : Form
  -- rd, constant
  upper : (opcode : ℕ) → Form
  -- rd, rs1, csr and rd, csr.
  csr_op : (funct3 : ℕ) → Form
  csr_read : Form
  -- constant
  raw_word : Form

-- `funct7` is left out by most callers of `emitI`, which then takes F7::NORMAL.
unfoldable pub mnemonics : List (List ℕ × Form)
mnemonics =
    (bytes "nop", fixed (encode_i 0 0 Opcode.f3_add_sub 0 Opcode.i_arith))
    ∷ (bytes "ret", fixed (encode_i 0 1 Opcode.f3_jalr 0 Opcode.jalr))
    ∷ (bytes "mv", move 0 Opcode.f3_add_sub)
    ∷ (bytes "not", move 0xFFFFFFFF Opcode.f3_xor)
    ∷ (bytes "neg", negate)
    ∷ (bytes "li", load_constant)
    ∷ (bytes "la", load_address)
    ∷ (bytes "j", jump 0)
    ∷ (bytes "call", jump 1)
    ∷ (bytes "beqz", compare_zero Opcode.f3_beq)
    ∷ (bytes "bnez", compare_zero Opcode.f3_bne)
    ∷ (bytes "blez", zero_compare Opcode.f3_bge)
    ∷ (bytes "bgez", compare_zero Opcode.f3_bge)
    ∷ (bytes "bltz", compare_zero Opcode.f3_blt)
    ∷ (bytes "bgtz", zero_compare Opcode.f3_blt)
    ∷ (bytes "add", register_op Opcode.f7_normal Opcode.f3_add_sub)
    ∷ (bytes "sub", register_op Opcode.f7_alt Opcode.f3_add_sub)
    ∷ (bytes "and", register_op Opcode.f7_normal Opcode.f3_and)
    ∷ (bytes "or", register_op Opcode.f7_normal Opcode.f3_or)
    ∷ (bytes "xor", register_op Opcode.f7_normal Opcode.f3_xor)
    ∷ (bytes "sll", register_op Opcode.f7_normal Opcode.f3_sll)
    ∷ (bytes "srl", register_op Opcode.f7_normal Opcode.f3_srl_sra)
    ∷ (bytes "sra", register_op Opcode.f7_alt Opcode.f3_srl_sra)
    ∷ (bytes "slt", register_op Opcode.f7_normal Opcode.f3_slt)
    ∷ (bytes "sltu", register_op Opcode.f7_normal Opcode.f3_sltu)
    ∷ (bytes "addi", immediate_op Opcode.f3_add_sub Opcode.f7_normal)
    ∷ (bytes "andi", immediate_op Opcode.f3_and Opcode.f7_normal)
    ∷ (bytes "ori", immediate_op Opcode.f3_or Opcode.f7_normal)
    ∷ (bytes "xori", immediate_op Opcode.f3_xor Opcode.f7_normal)
    ∷ (bytes "slti", immediate_op Opcode.f3_slt Opcode.f7_normal)
    ∷ (bytes "sltiu", immediate_op Opcode.f3_sltu Opcode.f7_normal)
    ∷ (bytes "slli", immediate_op Opcode.f3_sll Opcode.f7_normal)
    ∷ (bytes "srli", immediate_op Opcode.f3_srl_sra Opcode.f7_normal)
    ∷ (bytes "srai", immediate_op Opcode.f3_srl_sra Opcode.f7_alt)
    ∷ (bytes "lw", load_op Opcode.f3_word)
    ∷ (bytes "lh", load_op Opcode.f3_half)
    ∷ (bytes "lb", load_op Opcode.f3_byte)
    ∷ (bytes "lhu", load_op 0b101)
    ∷ (bytes "lbu", load_op 0b100)
    ∷ (bytes "sw", store_op Opcode.f3_word)
    ∷ (bytes "sh", store_op Opcode.f3_half)
    ∷ (bytes "sb", store_op Opcode.f3_byte)
    ∷ (bytes "beq", branch_op Opcode.f3_beq)
    ∷ (bytes "bne", branch_op Opcode.f3_bne)
    ∷ (bytes "blt", branch_op Opcode.f3_blt)
    ∷ (bytes "bge", branch_op Opcode.f3_bge)
    ∷ (bytes "bltu", branch_op 0b110)
    ∷ (bytes "bgeu", branch_op 0b111)
    ∷ (bytes "jal", jump_link)
    ∷ (bytes "jalr", jump_register)
    ∷ (bytes "lui", upper Opcode.lui)
    ∷ (bytes "auipc", upper Opcode.auipc)
    ∷ (bytes "csrrw", csr_op 0b001)
    ∷ (bytes "csrrs", csr_op 0b010)
    ∷ (bytes "csrrc", csr_op 0b011)
    ∷ (bytes "csrr", csr_read)
    ∷ (bytes "ecall", fixed 0x00000073)
    ∷ (bytes "ebreak", fixed 0x00100073)
    ∷ (bytes "mret", fixed 0x30200073)
    ∷ (bytes ".word", raw_word)
    ∷ []

unfoldable pub find_form : List ℕ → Option Form
unfolding mnemonics
find_form mnem = lookup mnem mnemonics
