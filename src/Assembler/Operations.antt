-- ===== src/Assembler/Operations.antt =====
-- assembler.h, encode.h and cpu.h: the text of an operation on registers, assembled, fetched as a
-- word and executed.
use mocker.Prelude.{
  ℕ, ◌%◌, ◌<◌, ◌≡◌, refl, ap, subst, ◌∙◌, Bool, not, some, List, [], ◌∷◌, map, bytes, if◌then◌else◌,
  add32, sub32, lt_signed, ltb, sar32, ◌<<◌, ◌>>◌, bit_and, bit_or, bit_xor, arith,
}
use mocker.Prelude.Bits.{bit_and_mask}
use mocker.Memory.{ProtectedMemory}
use mocker.Encode.{encode_r}
use mocker.Encode.Opcode
use mocker.Encode.RoundTrip.{decode-encode_r}
use mocker.Cpu.State.{Hart, retire, reg, set_reg, next_pc}
use mocker.Cpu.Alu.{alu_r, alu_normal, execute_r}
use mocker.Cpu.{execute}
use mocker.Assembler.Text.{to_lower}
use mocker.Assembler.Registers.{register, reg_token}
use mocker.Assembler.State.{Assembler, parse_reg, emit}
use mocker.Assembler.Mnemonic.{register_op, find_form, mnemonics}
use mocker.Assembler.Line.{assemble_line, assemble_form}
use mocker.Assembler.Operands.{IsRegister, reg_token-IsRegister}
use mocker.Assembler.Source.{IsToken, instruction}
use mocker.Assembler.Tokens.{assemble_line-instruction}

pub data Operation : Type 0 where
  add sub and or xor sll srl sra slt sltu : Operation

abbrev pub name : Operation → List ℕ
name add = bytes "add"
name sub = bytes "sub"
name and = bytes "and"
name or = bytes "or"
name xor = bytes "xor"
name sll = bytes "sll"
name srl = bytes "srl"
name sra = bytes "sra"
name slt = bytes "slt"
name sltu = bytes "sltu"

-- What RV32I means by each: arithmetic modulo 2 ^ 32, shifts by the low five bits.
abbrev pub meaning : Operation → ℕ → ℕ → ℕ
meaning add a b = add32 a b
meaning sub a b = sub32 a b
meaning and a b = bit_and a b
meaning or a b = bit_or a b
meaning xor a b = bit_xor a b
meaning sll a b = a << (b % 32)
meaning srl a b = a >> (b % 32)
meaning sra a b = sar32 a (b % 32)
meaning slt a b = if lt_signed a b then 1 else 0
meaning sltu a b = if ltb a b then 1 else 0

abbrev funct7_of : Operation → ℕ
funct7_of sub = Opcode.f7_alt
funct7_of sra = Opcode.f7_alt
funct7_of _ = Opcode.f7_normal

abbrev funct3_of : Operation → ℕ
funct3_of add = Opcode.f3_add_sub
funct3_of sub = Opcode.f3_add_sub
funct3_of and = Opcode.f3_and
funct3_of or = Opcode.f3_or
funct3_of xor = Opcode.f3_xor
funct3_of sll = Opcode.f3_sll
funct3_of srl = Opcode.f3_srl_sra
funct3_of sra = Opcode.f3_srl_sra
funct3_of slt = Opcode.f3_slt
funct3_of sltu = Opcode.f3_sltu

find_form-name :
    (op : Operation) → find_form (name op) ≡ some (register_op (funct7_of op) (funct3_of op))
unfolding find_form mnemonics
find_form-name add = refl
find_form-name sub = refl
find_form-name and = refl
find_form-name or = refl
find_form-name xor = refl
find_form-name sll = refl
find_form-name srl = refl
find_form-name sra = refl
find_form-name slt = refl
find_form-name sltu = refl

alu_r-meaning :
    (op : Operation) (a b : ℕ) → alu_r (funct7_of op) (funct3_of op) a b ≡ some (meaning op a b)
unfolding alu_r alu_normal
alu_r-meaning add a b = refl
alu_r-meaning sub a b = refl
alu_r-meaning and a b = refl
alu_r-meaning or a b = refl
alu_r-meaning xor a b = refl
alu_r-meaning sll a b = rw (bit_and_mask 5 b) refl
alu_r-meaning srl a b = rw (bit_and_mask 5 b) refl
alu_r-meaning sra a b = rw (bit_and_mask 5 b) refl
alu_r-meaning slt a b = refl
alu_r-meaning sltu a b = refl

funct7_bound : (op : Operation) → funct7_of op < 128
funct7_bound op = ground arith

funct3_bound : (op : Operation) → funct3_of op < 8
funct3_bound op = ground arith

-- The word of an operation does what the operation means.
execute-encode_r :
    (h : Hart) (m : ProtectedMemory) (op : Operation) (rs2 rs1 rd : ℕ)
    → rs2 < 32
    → rs1 < 32
    → rd < 32
    → execute h m (encode_r (funct7_of op) rs2 rs1 (funct3_of op) rd Opcode.r_type)
      ≡ retire (set_reg h rd (meaning op (reg h rs1) (reg h rs2))) m (next_pc h)
unfolding execute execute_r
execute-encode_r h m op rs2 rs1 rd b2 b1 b =
    let (opc, d, f3, s1, s2, f7) =
      decode-encode_r (funct7_of op) rs2 rs1 (funct3_of op) rd Opcode.r_type (funct7_bound op) b2 b1
        (funct3_bound op) b (omega arith) in
    simp (opc, d, f3, s1, s2, f7, alu_r-meaning op (reg h rs1) (reg h rs2))

pub parse_reg-register :
    (a : Assembler) (tok : List ℕ) (n : ℕ)
    → reg_token tok ≡ register n
    → parse_reg a tok ≡ some (n, a)
unfolding parse_reg
parse_reg-register a tok n e = rw e refl

pub register_bound : (tok : List ℕ) (n : ℕ) → reg_token tok ≡ register n → n < 32
register_bound tok n e = subst IsRegister e (reg_token-IsRegister tok)

assemble_form-register_op :
    (a : Assembler) (funct7 funct3 : ℕ) (d s1 s2 : List ℕ) (rd rs1 rs2 : ℕ)
    → reg_token d ≡ register rd
    → reg_token s1 ≡ register rs1
    → reg_token s2 ≡ register rs2
    → assemble_form (register_op funct7 funct3) a (d ∷ s1 ∷ s2 ∷ [])
      ≡ some (emit a (encode_r funct7 rs2 rs1 funct3 rd Opcode.r_type))
unfolding assemble_form
assemble_form-register_op a funct7 funct3 d s1 s2 rd rs1 rs2 e e1 e2 =
    rw (parse_reg-register a s2 rs2 e2, parse_reg-register a s1 rs1 e1, parse_reg-register a d rd e)
      refl

pub emit-has_error : (a : Assembler) (w : ℕ) → (emit a w).has_error ≡ a.has_error
unfolding emit
emit-has_error a w = refl

-- A line with one of the ten register operations in upper or lower case, and the names of three
-- registers with a comma and a blank between them: assembleLine appends one word and nothing else, with the
-- result that there was no error before, and executing the word writes the operation of RV32I
-- on the two source registers to the destination and goes on behind it.
pub assemble_line-operation :
    (a : Assembler) (h : Hart) (m : ProtectedMemory) (op : Operation) (mnem d s1 s2 : List ℕ)
    (rd rs1 rs2 : ℕ)
    → IsToken mnem
    → map to_lower mnem ≡ name op
    → IsToken d
    → IsToken s1
    → IsToken s2
    → reg_token d ≡ register rd
    → reg_token s1 ≡ register rs1
    → reg_token s2 ≡ register rs2
    → (w : ℕ) × (assemble_line a (instruction mnem (d ∷ s1 ∷ s2 ∷ []))
        ≡ some (not a.has_error, emit a w))
      × (execute h m w ≡ retire (set_reg h rd (meaning op (reg h rs1) (reg h rs2))) m (next_pc h))
assemble_line-operation a h m op mnem d s1 s2 rd rs1 rs2 t e td t1 t2 ed e1 e2 =
    let form = register_op (funct7_of op) (funct3_of op) in
    let found : find_form (map to_lower mnem) ≡ some form = ap find_form e ∙ find_form-name op in
    let line =
      assemble_line-instruction a mnem d (s1 ∷ s2 ∷ []) form t (td, (t1, (t2, tt))) found in
    let w = encode_r (funct7_of op) rs2 rs1 (funct3_of op) rd Opcode.r_type in
    (
      w,
      line
          ∙ rw
              (assemble_form-register_op a (funct7_of op) (funct3_of op) d s1 s2 rd rs1 rs2 ed e1
                e2)
              (ap (λ (error : Bool). some (not error, emit a w)) (emit-has_error a w)),
      execute-encode_r h m op rs2 rs1 rd (register_bound s2 rs2 e2) (register_bound s1 rs1 e1)
          (register_bound d rd ed),
    )
