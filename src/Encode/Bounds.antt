-- ===== src/Encode/Bounds.antt =====
-- encode.h: every encoder returns a 32-bit pattern, whatever its arguments are, if the opcode is one.
use mocker.Prelude.{ℕ, bit_and, bit_or, IsWord, ◌<<◌, arith}
use mocker.Prelude.Bits.Bounds.{bit_or_lt, bit_and_lt}
use mocker.Encode.{encode_r, encode_i, encode_s, encode_b, encode_u, encode_j}

or-IsWord : (a b : ℕ) → IsWord a → IsWord b → IsWord (bit_or a b)
or-IsWord a b p q = bit_or_lt 32 a b p q

-- A field moved to its place, in front of the others.
or_shifted-IsWord : (a v k : ℕ) → IsWord a → IsWord (bit_or a (v << k))
or_shifted-IsWord a v k p = or-IsWord a (v << k) p (omega arith)

shifted-IsWord : (v k : ℕ) → IsWord (v << k)
shifted-IsWord v k = omega arith

pub encode_r-IsWord :
    (funct7 rs2 rs1 funct3 rd opcode : ℕ)
    → IsWord opcode
    → IsWord (encode_r funct7 rs2 rs1 funct3 rd opcode)
unfolding encode_r
encode_r-IsWord funct7 rs2 rs1 funct3 rd opcode p =
    or-IsWord _ opcode
      (or_shifted-IsWord _ rd 7 (
        or_shifted-IsWord _ funct3 12
          (or_shifted-IsWord _ rs1 15 (or_shifted-IsWord _ rs2 20 (shifted-IsWord funct7 25)))))
      p

pub encode_i-IsWord :
    (imm rs1 funct3 rd opcode : ℕ) → IsWord opcode → IsWord (encode_i imm rs1 funct3 rd opcode)
unfolding encode_i
encode_i-IsWord imm rs1 funct3 rd opcode p =
    or-IsWord _ opcode
      (or_shifted-IsWord _ rd 7 (
        or_shifted-IsWord _ funct3 12
          (or_shifted-IsWord _ rs1 15 (shifted-IsWord (bit_and imm 0xFFF) 20))))
      p

pub encode_s-IsWord :
    (imm rs2 rs1 funct3 opcode : ℕ) → IsWord opcode → IsWord (encode_s imm rs2 rs1 funct3 opcode)
unfolding encode_s
encode_s-IsWord imm rs2 rs1 funct3 opcode p =
    or-IsWord _ opcode
      (or_shifted-IsWord _ _ 7 (
        or_shifted-IsWord _ funct3 12
          (or_shifted-IsWord _ rs1 15 (or_shifted-IsWord _ rs2 20 (shifted-IsWord _ 25)))))
      p

pub encode_b-IsWord :
    (imm rs2 rs1 funct3 opcode : ℕ) → IsWord opcode → IsWord (encode_b imm rs2 rs1 funct3 opcode)
unfolding encode_b
encode_b-IsWord imm rs2 rs1 funct3 opcode p =
    or-IsWord _ opcode
      (or_shifted-IsWord _ _ 7 (
        or_shifted-IsWord _ _ 8 (
          or_shifted-IsWord _ funct3 12 (
            or_shifted-IsWord _ rs1 15
              (or_shifted-IsWord _ rs2 20 (or_shifted-IsWord _ _ 25 (shifted-IsWord _ 31)))))))
      p

pub encode_u-IsWord : (imm rd opcode : ℕ) → IsWord opcode → IsWord (encode_u imm rd opcode)
unfolding encode_u
encode_u-IsWord imm rd opcode p =
    or-IsWord _ opcode (or_shifted-IsWord _ rd 7 (bit_and_lt 32 imm 0xFFFFF000 (omega arith))) p

pub encode_j-IsWord : (imm rd opcode : ℕ) → IsWord opcode → IsWord (encode_j imm rd opcode)
unfolding encode_j
encode_j-IsWord imm rd opcode p =
    or-IsWord _ opcode
      (or_shifted-IsWord _ rd 7 (
        or_shifted-IsWord _ _ 12
          (or_shifted-IsWord _ _ 20 (or_shifted-IsWord _ _ 21 (shifted-IsWord _ 31)))))
      p
