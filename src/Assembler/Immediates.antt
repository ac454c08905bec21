-- ===== src/Assembler/Immediates.antt =====
-- assembler.h, encode.h and cpu.h: the text of an operation with a constant, assembled and executed.
use mocker.Prelude.{
  ℕ, ◌^◌, ◌<◌, ◌≡◌, refl, ap, ◌∙◌, Bool, not, some, List, [], ◌∷◌, map, bytes, if◌then◌else◌, add32,
  lt_signed, ltb, ◌+◌, ◌/◌, ◌%◌, ◌<<◌, ◌>>◌, ◌==◌, ◌≢◌, false, sar32, bit_and, bit_or, bit_xor,
  arith,
}
use mocker.Prelude.Bits.{bit_and_mask, bit_or_sum_low}
use mocker.Memory.{ProtectedMemory}
use mocker.Encode.{encode_i}
use mocker.Encode.Opcode
use mocker.Encode.Cut.{low_12, decode-encode_i_cut}
use mocker.Cpu.State.{Hart, retire, reg, set_reg, next_pc}
use mocker.Cpu.Alu.{alu_i, execute_i}
use mocker.Cpu.{execute}
use mocker.Assembler.Text.{to_lower}
use mocker.Assembler.Immediate.{parse_imm}
use mocker.Assembler.Registers.{register, reg_token}
use mocker.Assembler.State.{Assembler, emit}
use mocker.Assembler.Mnemonic.{immediate_op, find_form, mnemonics}
use mocker.Assembler.Line.{assemble_line, assemble_form, shift_immediate}
use mocker.Assembler.Operations.{parse_reg-register, emit-has_error, register_bound}
use mocker.Assembler.Source.{IsToken, instruction}
use mocker.Assembler.Tokens.{assemble_line-instruction}

pub data Operation : Type 0 where
  addi andi ori xori slti sltiu slli srli srai : Operation

abbrev pub name : Operation → List ℕ
name addi = bytes "addi"
name andi = bytes "andi"
name ori = bytes "ori"
name xori = bytes "xori"
name slti = bytes "slti"
name sltiu = bytes "sltiu"
name slli = bytes "slli"
name srli = bytes "srli"
name srai = bytes "srai"

-- What RV32I means by each: the low 12 bits of the constant with their sign, or its low five for a shift.
abbrev pub meaning : Operation → ℕ → ℕ → ℕ
meaning addi a i = add32 a (low_12 i)
meaning andi a i = bit_and a (low_12 i)
meaning ori a i = bit_or a (low_12 i)
meaning xori a i = bit_xor a (low_12 i)
meaning slti a i = if lt_signed a (low_12 i) then 1 else 0
meaning sltiu a i = if ltb a (low_12 i) then 1 else 0
meaning slli a i = a << (i % 32)
meaning srli a i = a >> (i % 32)
meaning srai a i = sar32 a (i % 32)

-- The seven upper bits of srli's constant are not those of srai.
abbrev pub Allowed : Operation → ℕ → Type 0
Allowed srli i = i % 2 ^ 12 / 2 ^ 5 ≢ 32
Allowed _ i = Unit

abbrev funct3_of : Operation → ℕ
funct3_of addi = Opcode.f3_add_sub
funct3_of andi = Opcode.f3_and
funct3_of ori = Opcode.f3_or
funct3_of xori = Opcode.f3_xor
funct3_of slti = Opcode.f3_slt
funct3_of sltiu = Opcode.f3_sltu
funct3_of slli = Opcode.f3_sll
funct3_of srli = Opcode.f3_srl_sra
funct3_of srai = Opcode.f3_srl_sra

abbrev funct7_of : Operation → ℕ
funct7_of srai = Opcode.f7_alt
funct7_of _ = Opcode.f7_normal

find_form-name :
    (op : Operation) → find_form (name op) ≡ some (immediate_op (funct3_of op) (funct7_of op))
unfolding find_form mnemonics
find_form-name addi = refl
find_form-name andi = refl
find_form-name ori = refl
find_form-name xori = refl
find_form-name slti = refl
find_form-name sltiu = refl
find_form-name slli = refl
find_form-name srli = refl
find_form-name srai = refl

-- The constant that assembleLine puts into the word.
abbrev constant : Operation → ℕ → ℕ
constant op i = shift_immediate (funct3_of op) (funct7_of op) i

-- The five bits of a shift, and the bit that makes srai of srli.
srai_constant : (i : ℕ) → bit_or (bit_and i 0x1F) (Opcode.f7_alt << 5) ≡ i % 32 + 1024
srai_constant i = bit_or_sum_low 10 (bit_and_mask 5 i) refl (omega arith) (omega arith)

low_five : (v i : ℕ) → v % 32 ≡ i % 32 → bit_and v 0x1F ≡ i % 32
low_five v i e = bit_and_mask 5 v ∙ e

alu_i-meaning :
    (op : Operation) (a i : ℕ)
    → Allowed op i
    → alu_i (constant op i % 2 ^ 12 / 2 ^ 5) (funct3_of op) a (low_12 (constant op i))
      ≡ some (meaning op a i)
unfolding alu_i
alu_i-meaning addi a i u = refl
alu_i-meaning andi a i u = refl
alu_i-meaning ori a i u = refl
alu_i-meaning xori a i u = refl
alu_i-meaning slti a i u = refl
alu_i-meaning sltiu a i u = refl
alu_i-meaning slli a i u = rw (low_five (low_12 i) i (ground arith)) refl
alu_i-meaning srli a i u =
    let normal : (i % 2 ^ 12 / 2 ^ 5 == Opcode.f7_alt) ≡ false = ground arith in
    rw (low_five (low_12 i) i (ground arith), normal) refl
alu_i-meaning srai a i u =
    let upper : (i % 32 + 1024) % 2 ^ 12 / 2 ^ 5 ≡ 32 = omega arith in
    rw (srai_constant i, low_five (low_12 (i % 32 + 1024)) i (ground arith), upper) refl

funct3_bound : (op : Operation) → funct3_of op < 8
funct3_bound op = ground arith

execute-encode_i :
    (h : Hart) (m : ProtectedMemory) (op : Operation) (i rs1 rd : ℕ)
    → Allowed op i
    → rs1 < 32
    → rd < 32
    → execute h m (encode_i (constant op i) rs1 (funct3_of op) rd Opcode.i_arith)
      ≡ retire (set_reg h rd (meaning op (reg h rs1) i)) m (next_pc h)
unfolding execute execute_i
execute-encode_i h m op i rs1 rd allowed b1 b =
    let (opc, d, f3, s1, imm, f7, addr) =
      decode-encode_i_cut (constant op i) rs1 (funct3_of op) rd Opcode.i_arith b1 (funct3_bound op)
        b (omega arith) in
    simp (opc, d, f3, s1, imm, f7, alu_i-meaning op (reg h rs1) i allowed)

assemble_form-immediate_op :
    (a : Assembler) (funct3 funct7 : ℕ) (d s1 c : List ℕ) (rd rs1 : ℕ)
    → reg_token d ≡ register rd
    → reg_token s1 ≡ register rs1
    → assemble_form (immediate_op funct3 funct7) a (d ∷ s1 ∷ c ∷ [])
      ≡ some (
          emit a
            (encode_i (shift_immediate funct3 funct7 (parse_imm c)) rs1 funct3 rd Opcode.i_arith))
unfolding assemble_form
assemble_form-immediate_op a funct3 funct7 d s1 c rd rs1 e e1 =
    rw (parse_reg-register a s1 rs1 e1, parse_reg-register a d rd e) refl

-- A line with one of the nine operations with a constant, in upper or lower case, the names of two
-- registers and a constant, with a comma and a blank between them; for srli the constant has other upper bits
-- than srai. assembleLine appends one word and nothing else, with the result that there was no error
-- before, and executing the word writes the operation of RV32I on the source register to the destination and
-- goes on behind it, with the low 12 bits of the constant and their sign, or the low five for a shift:
-- what does not fit is dropped without an error.
pub assemble_line-immediate :
    (a : Assembler) (h : Hart) (m : ProtectedMemory) (op : Operation) (mnem d s1 c : List ℕ)
    (rd rs1 : ℕ)
    → IsToken mnem
    → map to_lower mnem ≡ name op
    → IsToken d
    → IsToken s1
    → IsToken c
    → reg_token d ≡ register rd
    → reg_token s1 ≡ register rs1
    → Allowed op (parse_imm c)
    → (w : ℕ) × (assemble_line a (instruction mnem (d ∷ s1 ∷ c ∷ []))
        ≡ some (not a.has_error, emit a w))
      × (execute h m w ≡ retire (set_reg h rd (meaning op (reg h rs1) (parse_imm c))) m (next_pc h))
assemble_line-immediate a h m op mnem d s1 c rd rs1 t e td t1 tc ed e1 allowed =
    let form = immediate_op (funct3_of op) (funct7_of op) in
    let found : find_form (map to_lower mnem) ≡ some form = ap find_form e ∙ find_form-name op in
    let line = assemble_line-instruction a mnem d (s1 ∷ c ∷ []) form t (td, (t1, (tc, tt))) found in
    let w = encode_i (constant op (parse_imm c)) rs1 (funct3_of op) rd Opcode.i_arith in
    (
      w,
      line
          ∙ rw (assemble_form-immediate_op a (funct3_of op) (funct7_of op) d s1 c rd rs1 ed e1)
              (ap (λ (error : Bool). some (not error, emit a w)) (emit-has_error a w)),
      execute-encode_i h m op (parse_imm c) rs1 rd allowed (register_bound s1 rs1 e1)
          (register_bound d rd ed),
    )
