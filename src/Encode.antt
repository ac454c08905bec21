-- ===== src/Encode.antt =====
-- encode.h: the fields of an RV32I instruction word, put together by the `encode` functions and taken
-- apart by the `decode` functions. Every value is a 32-bit pattern.
pub mod Opcode
pub mod Fields
pub mod RoundTrip
pub mod Bounds
pub mod Cut
use mocker.Prelude.{ℕ, ◌-◌, ◌^◌, bit_and, bit_or, bit_xor, ◌<<◌, ◌>>◌, sub32}

-- funct7 | rs2 | rs1 | funct3 | rd | opcode
unfoldable pub encode_r : ℕ → ℕ → ℕ → ℕ → ℕ → ℕ → ℕ
encode_r funct7 rs2 rs1 funct3 rd opcode =
    bit_or
      (bit_or (bit_or (bit_or (bit_or (funct7 << 25) (rs2 << 20)) (rs1 << 15)) (funct3 << 12))
        (rd << 7))
      opcode

-- imm[11:0] | rs1 | funct3 | rd | opcode
unfoldable pub encode_i : ℕ → ℕ → ℕ → ℕ → ℕ → ℕ
encode_i imm rs1 funct3 rd opcode =
    let i = bit_and imm 0xFFF in
    bit_or (bit_or (bit_or (bit_or (i << 20) (rs1 << 15)) (funct3 << 12)) (rd << 7)) opcode

-- imm[11:5] | rs2 | rs1 | funct3 | imm[4:0] | opcode
unfoldable pub encode_s : ℕ → ℕ → ℕ → ℕ → ℕ → ℕ
encode_s imm rs2 rs1 funct3 opcode =
    let i = bit_and imm 0xFFF in
    let lo = bit_and i 0x1F in
    let hi = bit_and (i >> 5) 0x7F in
    bit_or
      (bit_or (bit_or (bit_or (bit_or (hi << 25) (rs2 << 20)) (rs1 << 15)) (funct3 << 12))
        (lo << 7))
      opcode

-- imm[12|10:5] | rs2 | rs1 | funct3 | imm[4:1|11] | opcode
unfoldable pub encode_b : ℕ → ℕ → ℕ → ℕ → ℕ → ℕ
encode_b imm rs2 rs1 funct3 opcode =
    let i = bit_and imm 0x1FFF in
    let b12 = bit_and (i >> 12) 1 in
    let b11 = bit_and (i >> 11) 1 in
    let b10_5 = bit_and (i >> 5) 0x3F in
    let b4_1 = bit_and (i >> 1) 0xF in
    bit_or
      (bit_or
        (bit_or
          (bit_or (bit_or (bit_or (bit_or (b12 << 31) (b10_5 << 25)) (rs2 << 20)) (rs1 << 15))
            (funct3 << 12))
          (b4_1 << 8))
        (b11 << 7))
      opcode

-- imm[31:12] | rd | opcode
unfoldable pub encode_u : ℕ → ℕ → ℕ → ℕ
encode_u imm rd opcode = bit_or (bit_or (bit_and imm 0xFFFFF000) (rd << 7)) opcode

-- imm[20|10:1|11|19:12] | rd | opcode
unfoldable pub encode_j : ℕ → ℕ → ℕ → ℕ
encode_j imm rd opcode =
    let i = bit_and imm 0x1FFFFF in
    let b20 = bit_and (i >> 20) 1 in
    let b19_12 = bit_and (i >> 12) 0xFF in
    let b11 = bit_and (i >> 11) 1 in
    let b10_1 = bit_and (i >> 1) 0x3FF in
    bit_or
      (bit_or (bit_or (bit_or (bit_or (b20 << 31) (b10_1 << 21)) (b11 << 20)) (b19_12 << 12))
        (rd << 7))
      opcode

unfoldable pub decode_opcode : ℕ → ℕ
decode_opcode w = bit_and w 0x7F

unfoldable pub decode_rd : ℕ → ℕ
decode_rd w = bit_and (w >> 7) 0x1F

unfoldable pub decode_funct3 : ℕ → ℕ
decode_funct3 w = bit_and (w >> 12) 0x7

unfoldable pub decode_rs1 : ℕ → ℕ
decode_rs1 w = bit_and (w >> 15) 0x1F

unfoldable pub decode_rs2 : ℕ → ℕ
decode_rs2 w = bit_and (w >> 20) 0x1F

unfoldable pub decode_funct7 : ℕ → ℕ
decode_funct7 w = bit_and (w >> 25) 0x7F

-- A value of `bits` bits extended with its sign to 32 bits.
unfoldable pub sign_ext : ℕ → ℕ → ℕ
sign_ext val bits = let mask = 1 << (bits - 1) in sub32 (bit_xor val mask) mask

unfoldable pub decode_imm_i : ℕ → ℕ
decode_imm_i w = sign_ext (w >> 20) 12

unfoldable pub decode_imm_s : ℕ → ℕ
decode_imm_s w =
    let lo = bit_and (w >> 7) 0x1F in
    let hi = bit_and (w >> 25) 0x7F in sign_ext (bit_or (hi << 5) lo) 12

unfoldable pub decode_imm_b : ℕ → ℕ
decode_imm_b w =
    let b12 = bit_and (w >> 31) 1 in
    let b11 = bit_and (w >> 7) 1 in
    let b10_5 = bit_and (w >> 25) 0x3F in
    let b4_1 = bit_and (w >> 8) 0xF in
    let raw = bit_or (bit_or (bit_or (b12 << 12) (b11 << 11)) (b10_5 << 5)) (b4_1 << 1) in
    sign_ext raw 13

unfoldable pub decode_imm_u : ℕ → ℕ
decode_imm_u w = bit_and w 0xFFFFF000

unfoldable pub decode_imm_j : ℕ → ℕ
decode_imm_j w =
    let b20 = bit_and (w >> 31) 1 in
    let b19_12 = bit_and (w >> 12) 0xFF in
    let b11 = bit_and (w >> 20) 1 in
    let b10_1 = bit_and (w >> 21) 0x3FF in
    let raw = bit_or (bit_or (bit_or (b20 << 20) (b19_12 << 12)) (b11 << 11)) (b10_1 << 1) in
    sign_ext raw 21
