-- ===== src/Assembler.antt =====
-- assembler.h: the words that the pseudo-instructions li and la stand for. `li` is expanded by
-- `assembleLine`, and the placeholder of `la` is filled in by `resolveLabels`.
pub mod Text
pub mod Immediate
pub mod Registers
pub mod State
pub mod Mnemonic
pub mod Line
pub mod Resolve
pub mod Items
pub mod Represents
pub mod Widths
pub mod Operands
pub mod Readers
pub mod Refines
pub mod Settled
pub mod Resolved
pub mod Linked
pub mod Positions
pub mod Transfers
pub mod Misses
pub mod Source
pub mod Tokens
pub mod Numerals
pub mod RegisterNames
pub mod Operations
pub mod Immediates
pub mod LoadConstant
pub mod Labels
use mocker.Prelude.{
  ℕ, ◌+◌, ◌-◌, ◌^◌, Bool, true, false, not, ◌&&◌, ◌==◌, Option, none, some, List, [], ◌∷◌,
  if◌then◌else◌, add32, sub32, sar32, lt_signed, ◌<<◌,
}
use mocker.Encode.{
  encode_i, encode_u, encode_j, encode_b, decode_opcode, decode_rd, decode_rs1, decode_rs2,
  decode_funct3,
}
use mocker.Encode.Opcode

-- lui and addi for a 32-bit pattern: the upper part is rounded, since addi sign-extends. The sum wraps, where
-- the overflow of an int32_t is undefined in C++.
unfoldable pub lui_addi : ℕ → ℕ → List ℕ
lui_addi rd v =
    let hi = sar32 (add32 v 0x800) 12 in
    let lo = sub32 v (hi << 12) in
    encode_u (hi << 12) rd Opcode.lui ∷ encode_i lo rd Opcode.f3_add_sub rd Opcode.i_arith ∷ []

-- One addi from x0 if the constant fits in its immediate.
unfoldable pub li_words : ℕ → ℕ → List ℕ
li_words rd v =
    if not (lt_signed v (2 ^ 32 - 2048)) && not (lt_signed 2047 v)
    then encode_i v 0 Opcode.f3_add_sub rd Opcode.i_arith ∷ []
    else lui_addi rd v

-- The words that `resolveLabels` writes in place of the word `old`, placed at `instr_pc`, once it has
-- found the label's address; `none` is the internal patch error.
unfoldable pub patched : ℕ → ℕ → ℕ → Option (List ℕ)
patched old target instr_pc =
    let op = decode_opcode old in
    if op == Opcode.jal
    then some (encode_j (sub32 target instr_pc) (decode_rd old) Opcode.jal ∷ [])
    else if op == Opcode.branch
    then some (
        encode_b (sub32 target instr_pc) (decode_rs2 old) (decode_rs1 old) (decode_funct3 old)
          Opcode.branch
        ∷ [])
    else if op == Opcode.lui
    then some (lui_addi (decode_rd old) target)
    else none
