-- ===== src/Cpu/Instructions.antt =====
-- cpu.h with encode.h: what the encoded branches, JALR and the CSR instructions do.
use mocker.Prelude.{
  ℕ, ◌-◌, ◌/◌, ◌%◌, ◌^◌, ◌<◌, ◌≡◌, refl, Bool, not, some, List, bytes, ltb, lt_signed, ◌==◌,
  if◌then◌else◌, add32, bit_and, bit_or, not32, arith,
}
use mocker.Prelude.Bits.{bit_and_mask, bit_and_shifted}
use mocker.Memory.{ProtectedMemory}
use mocker.Encode.{encode_b, encode_i}
use mocker.Encode.Opcode
use mocker.Encode.RoundTrip.{FitsSigned, decode-encode_b}
use mocker.Encode.Cut.{low_12, decode-encode_i_cut}
use mocker.Cpu.State.{Hart, retire, reg, set_reg, next_pc}
use mocker.Cpu.Control.{branch_taken, execute_branch, execute_jalr}
use mocker.Cpu.{execute}
use mocker.Assembler.Mnemonic.{branch_op, jump_register, find_form, mnemonics}

pub data Condition : Type 0 where
  beq bne blt bge bltu bgeu : Condition

abbrev pub name : Condition → List ℕ
name beq = bytes "beq"
name bne = bytes "bne"
name blt = bytes "blt"
name bge = bytes "bge"
name bltu = bytes "bltu"
name bgeu = bytes "bgeu"

-- What RV32I means by each.
abbrev pub holds : Condition → ℕ → ℕ → Bool
holds beq a b = a == b
holds bne a b = not (a == b)
holds blt a b = lt_signed a b
holds bge a b = not (lt_signed a b)
holds bltu a b = ltb a b
holds bgeu a b = not (ltb a b)

abbrev pub condition_funct3 : Condition → ℕ
condition_funct3 beq = 0
condition_funct3 bne = 1
condition_funct3 blt = 4
condition_funct3 bge = 5
condition_funct3 bltu = 6
condition_funct3 bgeu = 7

find_form-name : (c : Condition) → find_form (name c) ≡ some (branch_op (condition_funct3 c))
unfolding find_form mnemonics
find_form-name beq = refl
find_form-name bne = refl
find_form-name blt = refl
find_form-name bge = refl
find_form-name bltu = refl
find_form-name bgeu = refl

branch_taken-holds :
    (c : Condition) (a b : ℕ) → branch_taken (condition_funct3 c) a b ≡ some (holds c a b)
unfolding branch_taken
branch_taken-holds beq a b = refl
branch_taken-holds bne a b = refl
branch_taken-holds blt a b = refl
branch_taken-holds bge a b = refl
branch_taken-holds bltu a b = refl
branch_taken-holds bgeu a b = refl

condition_bound : (c : Condition) → condition_funct3 c < 8
condition_bound c = ground arith

-- The six branches: the assembler's arm for the mnemonic, and what its word does with an even offset of 13
-- bits: the hart goes to the offset from the pc if the condition of RV32I holds of the two registers, signed
-- for blt and bge, and to the next instruction if not, and nothing else changes.
pub execute-encode_b :
    (h : Hart) (m : ProtectedMemory) (c : Condition) (offset rs2 rs1 : ℕ)
    → FitsSigned (2 ^ 12) offset
    → offset % 2 ≡ 0
    → rs2 < 32
    → rs1 < 32
    → (funct3 : ℕ) × (find_form (name c) ≡ some (branch_op funct3))
      × (execute h m (encode_b offset rs2 rs1 funct3 Opcode.branch)
          ≡ retire h m (if holds c (reg h rs1) (reg h rs2) then add32 h.pc offset else next_pc h))
unfolding execute execute_branch
execute-encode_b h m c offset rs2 rs1 fits even b2 b1 =
    let (op, f3, s1, s2, imm) =
      decode-encode_b offset rs2 rs1 (condition_funct3 c) Opcode.branch fits even b2 b1
        (condition_bound c) (omega arith) in
    (
      condition_funct3 c,
      find_form-name c,
      simp (op, f3, s1, s2, imm, branch_taken-holds c (reg h rs1) (reg h rs2)),
    )

even_part : (a : ℕ) → a < 2 ^ 32 → bit_and a (not32 1) ≡ a - a % 2
even_part a h = omega (arith, bit_and_shifted 1 a (2 ^ 31 - 1), bit_and_mask 31 (a / 2))

-- JALR links and goes to the sum of the register and the low 12 bits of the constant with their sign, made
-- even.
pub execute-jalr :
    (h : Hart) (m : ProtectedMemory) (i rs1 rd : ℕ)
    → rs1 < 32
    → rd < 32
    → let target = add32 (reg h rs1) (low_12 i) in
      (find_form (bytes "jalr") ≡ some jump_register)
      × (execute h m (encode_i i rs1 Opcode.f3_jalr rd Opcode.jalr)
          ≡ retire (set_reg h rd (add32 h.pc 4)) m (target - target % 2))
unfolding execute execute_jalr find_form mnemonics
execute-jalr h m i rs1 rd b1 b =
    let (op, d, f3, s1, imm, f7, top) =
      decode-encode_i_cut i rs1 Opcode.f3_jalr rd Opcode.jalr b1 (omega arith) b (omega arith) in
    (refl, simp (op, d, s1, imm, even_part (add32 (reg h rs1) (low_12 i)) (omega arith)))

pub data CsrOperation : Type 0 where
  csrrw csrrs csrrc csrrwi csrrsi csrrci : CsrOperation

abbrev pub csr_funct3 : CsrOperation → ℕ
csr_funct3 csrrw = 1
csr_funct3 csrrs = 2
csr_funct3 csrrc = 3
csr_funct3 csrrwi = 5
csr_funct3 csrrsi = 6
csr_funct3 csrrci = 7

-- What is written: the operand, the old value with the operand's bits set, or with them cleared. The operand
-- is a register's value, or for the last three the number of the register itself.
abbrev pub written : CsrOperation → (old value number : ℕ) → ℕ
written csrrw old value number = value
written csrrs old value number = bit_or old value
written csrrc old value number = bit_and old (2 ^ 32 - 1 - value)
written csrrwi old value number = number
written csrrsi old value number = bit_or old number
written csrrci old value number = bit_and old (2 ^ 32 - 1 - number)
