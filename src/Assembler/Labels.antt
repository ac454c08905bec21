-- ===== src/Assembler/Labels.antt =====
-- assembler.h, encode.h and cpu.h: a placeholder that is patched with a label's address goes there.
use mocker.Prelude.{
  ℕ, ◌%◌, ◌^◌, ◌<◌, ◌≡◌, ◌≢◌, inl, refl, Bool, some, List, [], ◌∷◌, if◌then◌else◌, add32, sub32,
  arith,
}
use mocker.Memory.{ProtectedMemory}
use mocker.Encode.{encode_u, encode_j, encode_b}
use mocker.Encode.Opcode
use mocker.Encode.RoundTrip.{FitsSigned, decode-encode_j, decode-encode_b, decode-encode_u}
use mocker.Cpu.State.{Hart, retire, reg, set_reg, next_pc}
use mocker.Cpu.Control.{branch_taken, execute_jal, execute_branch}
use mocker.Cpu.{execute}
use mocker.Assembler.{lui_addi, patched}
use mocker.Assembler.LoadConstant.{Leaves, lui_addi-Leaves}

there : (pc target : ℕ) → pc < 2 ^ 32 → target < 2 ^ 32 → add32 pc (sub32 target pc) ≡ target
there pc target a b = omega arith

zero_fits : (half : ℕ) → 0 < half → FitsSigned half 0
zero_fits half p = inl p

module _ (h : Hart) (m : ProtectedMemory) (target : ℕ) (pc_ok : h.pc < 2 ^ 32)
    (word : target < 2 ^ 32) (even : sub32 target h.pc % 2 ≡ 0) where
  -- The placeholder of j, call or jal for a label in the range of a signed 21-bit offset: the patched word
  -- jumps from its address to the label and keeps the address behind it in rd.
  pub patched-jal :
      (rd : ℕ)
      → rd < 32
      → FitsSigned (2 ^ 20) (sub32 target h.pc)
      → (w : ℕ) × (patched (encode_j 0 rd Opcode.jal) target h.pc ≡ some (w ∷ []))
        × (execute h m w ≡ retire (set_reg h rd (next_pc h)) m target)
  unfolding patched execute execute_jal
  patched-jal rd b fits =
      let (op, d, _) =
        decode-encode_j 0 rd Opcode.jal (zero_fits (2 ^ 20) (omega arith)) refl b (omega arith) in
      let (op', d', i) =
        decode-encode_j (sub32 target h.pc) rd Opcode.jal fits even b (omega arith) in
      (
        encode_j (sub32 target h.pc) rd Opcode.jal,
        simp (op, d),
        simp (op', d', i, there h.pc target pc_ok word),
      )

  -- The placeholder of a branch on two registers, for a label in the range of a signed 13-bit offset: where
  -- the condition holds the patched word goes to the label, and else to the next instruction.
  pub patched-branch :
      (rs2 rs1 funct3 : ℕ) (taken : Bool)
      → rs2 < 32
      → rs1 < 32
      → funct3 < 8
      → FitsSigned (2 ^ 12) (sub32 target h.pc)
      → branch_taken funct3 (reg h rs1) (reg h rs2) ≡ some taken
      → (w : ℕ) × (patched (encode_b 0 rs2 rs1 funct3 Opcode.branch) target h.pc ≡ some (w ∷ []))
        × (execute h m w ≡ retire h m (if taken then target else next_pc h))
  unfolding patched execute execute_branch
  patched-branch rs2 rs1 funct3 taken b2 b1 b3 fits t =
      let (op, f3, s1, s2, _) =
        decode-encode_b 0 rs2 rs1 funct3 Opcode.branch (zero_fits (2 ^ 12) (omega arith)) refl b2 b1
          b3 (omega arith) in
      let offset = sub32 target h.pc in
      let (op', f3', s1', s2', i) =
        decode-encode_b offset rs2 rs1 funct3 Opcode.branch fits even b2 b1 b3 (omega arith) in
      (
        encode_b offset rs2 rs1 funct3 Opcode.branch,
        simp (op, f3, s1, s2),
        simp (op', f3', s1', s2', t, i, there h.pc target pc_ok word),
      )

-- The placeholder of la: it is patched with two words that leave the label's address in the register.
pub patched-la :
    (h : Hart) (m : ProtectedMemory) (rd target instr_pc : ℕ)
    → rd ≢ 0
    → rd < 32
    → target < 2 ^ 32
    → (words : List ℕ) × (patched (encode_u 0 rd Opcode.lui) target instr_pc ≡ some words)
      × Leaves h m rd target words
unfolding patched
patched-la h m rd target instr_pc n b word =
    let (op, d, _) = decode-encode_u 0 rd Opcode.lui (omega arith) refl b (omega arith) in
    (lui_addi rd target, simp (op, d), lui_addi-Leaves h m rd target n b word)
