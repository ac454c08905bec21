-- ===== src/Assembler/Widths.antt =====
-- assembler.h: constants and the words of li are 32-bit patterns.
use mocker.Prelude.{
  ℕ, ◌-◌, ◌^◌, ◌==◌, ◌&&◌, not, IsWord, AllWords, Option, none, some, List, [], ◌∷◌, if_both, ltb,
  leb, lt_signed, arith,
}
use mocker.Encode.{encode_i}
use mocker.Encode.Opcode
use mocker.Encode.Bounds.{encode_i-IsWord, encode_u-IsWord}
use mocker.Assembler.{lui_addi, li_words}
use mocker.Assembler.Immediate.{magnitude, positive, negative, with_sign, skip_space, parse_imm}

positive-IsWord : (o : Option ℕ) → IsWord (positive o)
positive-IsWord none = omega arith
positive-IsWord (some n) = if_both IsWord (ltb n (2 ^ 63)) (omega arith) (omega arith)

negative-IsWord : (o : Option ℕ) → IsWord (negative o)
negative-IsWord none = omega arith
negative-IsWord (some n) = if_both IsWord (leb n (2 ^ 63)) (omega arith) (omega arith)

with_sign-IsWord : (s : List ℕ) → IsWord (with_sign s)
with_sign-IsWord [] = omega arith
with_sign-IsWord (c ∷ s) = if_both IsWord (c == b'-') (negative-IsWord (magnitude s)) (
    if_both IsWord (c == b'+') (positive-IsWord (magnitude s))
      (positive-IsWord (magnitude (c ∷ s))))

pub parse_imm-IsWord : (tok : List ℕ) → IsWord (parse_imm tok)
unfolding parse_imm
parse_imm-IsWord tok = with_sign-IsWord (skip_space tok)

pub lui_addi-AllWords : (rd v : ℕ) → AllWords (lui_addi rd v)
unfolding lui_addi
lui_addi-AllWords rd v = (
  encode_u-IsWord _ rd Opcode.lui (omega arith),
  (encode_i-IsWord _ rd Opcode.f3_add_sub rd Opcode.i_arith (omega arith), tt),
)

pub li_words-AllWords : (rd v : ℕ) → AllWords (li_words rd v)
unfolding li_words
li_words-AllWords rd v =
    let small = not (lt_signed v (2 ^ 32 - 2048)) && not (lt_signed 2047 v) in
    let short : AllWords (encode_i v 0 Opcode.f3_add_sub rd Opcode.i_arith ∷ []) =
      (encode_i-IsWord v 0 Opcode.f3_add_sub rd Opcode.i_arith (omega arith), tt) in
    if_both AllWords small short (lui_addi-AllWords rd v)
