-- ===== src/Encode/RoundTrip.antt =====
-- encode.h: decoding an encoded instruction gives its fields back.
use mocker.Prelude.{
  ℕ, ◌+◌, ◌-◌, ◌*◌, ◌/◌, ◌%◌, ◌^◌, ◌≤◌, ◌<◌, ◌≡◌, ◌⊎◌, ◌∙◌, ap, ◌<<◌, ◌>>◌, arith, bit_and, bit_or,
}
use mocker.Prelude.Bits.{bit_and_mask, bit_and_shifted, bit_or_sum}
use mocker.Encode
use mocker.Encode.Fields.{
  encode_r_lem, encode_i_lem, encode_s_lem, encode_b_lem, encode_u_lem, encode_j_lem,
  decode_opcode_lem, decode_rd_lem, decode_funct3_lem, decode_rs1_lem, decode_rs2_lem,
  decode_funct7_lem, extended, sign_ext_12, sign_ext_13, sign_ext_21,
}

-- The 32-bit patterns of the integers from -half up to half - 1.
abbrev pub FitsSigned : ℕ → ℕ → Type 0
FitsSigned half imm = (imm < half) ⊎ ((2 ^ 32 ≤ imm + half) × (imm < 2 ^ 32))

pub decode_imm_i_lem : (w : ℕ) → w < 2 ^ 32 → Encode.decode_imm_i w ≡ extended (w / 2 ^ 20) (2 ^ 11)
unfolding Encode.decode_imm_i
decode_imm_i_lem w h = sign_ext_12 (w / 2 ^ 20) (omega arith)

decode_imm_s_lem :
    (w : ℕ)
    → w < 2 ^ 32
    → Encode.decode_imm_s w ≡ extended (w / 2 ^ 25 * 2 ^ 5 + w / 2 ^ 7 % 2 ^ 5) (2 ^ 11)
unfolding Encode.decode_imm_s
decode_imm_s_lem w h = ap (λ (v : ℕ). Encode.sign_ext v 12) raw ∙ sign_ext_12 _ (omega arith)
  where
    raw :
        bit_or (bit_and (w >> 25) 0x7F << 5) (bit_and (w >> 7) 0x1F)
        ≡ w / 2 ^ 25 * 2 ^ 5 + w / 2 ^ 7 % 2 ^ 5
    raw =
        bit_or_sum 5 (omega (arith, bit_and_mask 7 (w / 2 ^ 25))) (bit_and_mask 5 (w / 2 ^ 7))
          (omega arith) (omega arith)

decode_imm_b_lem :
    (w : ℕ)
    → w < 2 ^ 32
    → Encode.decode_imm_b w
      ≡ extended
          (w / 2 ^ 31 * 2 ^ 12
            + w / 2 ^ 7 % 2 * 2 ^ 11
            + w / 2 ^ 25 % 2 ^ 6 * 2 ^ 5
            + w / 2 ^ 8 % 2 ^ 4 * 2)
          (2 ^ 12)
unfolding Encode.decode_imm_b
decode_imm_b_lem w h = ap (λ (v : ℕ). Encode.sign_ext v 13) raw ∙ sign_ext_13 _ (omega arith)
  where
    raw :
        bit_or
          (bit_or
            (bit_or (bit_and (w >> 31) 1 << 12) (bit_and (w >> 7) 1 << 11))
            (bit_and (w >> 25) 0x3F << 5))
          (bit_and (w >> 8) 0xF << 1)
        ≡ w / 2 ^ 31 * 2 ^ 12
          + w / 2 ^ 7 % 2 * 2 ^ 11
          + w / 2 ^ 25 % 2 ^ 6 * 2 ^ 5
          + w / 2 ^ 8 % 2 ^ 4 * 2
    raw =
        bit_or_sum 5
          (bit_or_sum 11
            (bit_or_sum 12 (omega (arith, bit_and_mask 1 (w / 2 ^ 31)))
              (omega (arith, bit_and_mask 1 (w / 2 ^ 7))) (omega arith) (omega arith))
            (omega (arith, bit_and_mask 6 (w / 2 ^ 25))) (omega arith) (omega arith))
          (omega (arith, bit_and_mask 4 (w / 2 ^ 8))) (omega arith) (omega arith)

decode_imm_u_lem : (w : ℕ) → w < 2 ^ 32 → Encode.decode_imm_u w ≡ w / 2 ^ 12 * 2 ^ 12
unfolding Encode.decode_imm_u
decode_imm_u_lem w h =
    omega (arith, bit_and_shifted 12 w (2 ^ 20 - 1), bit_and_mask 20 (w / 2 ^ 12))

decode_imm_j_lem :
    (w : ℕ)
    → w < 2 ^ 32
    → Encode.decode_imm_j w
      ≡ extended
          (w / 2 ^ 31 * 2 ^ 20
            + w / 2 ^ 12 % 2 ^ 8 * 2 ^ 12
            + w / 2 ^ 20 % 2 * 2 ^ 11
            + w / 2 ^ 21 % 2 ^ 10 * 2)
          (2 ^ 20)
unfolding Encode.decode_imm_j
decode_imm_j_lem w h = ap (λ (v : ℕ). Encode.sign_ext v 21) raw ∙ sign_ext_21 _ (omega arith)
  where
    raw :
        bit_or
          (bit_or
            (bit_or (bit_and (w >> 31) 1 << 20) (bit_and (w >> 12) 0xFF << 12))
            (bit_and (w >> 20) 1 << 11))
          (bit_and (w >> 21) 0x3FF << 1)
        ≡ w / 2 ^ 31 * 2 ^ 20
          + w / 2 ^ 12 % 2 ^ 8 * 2 ^ 12
          + w / 2 ^ 20 % 2 * 2 ^ 11
          + w / 2 ^ 21 % 2 ^ 10 * 2
    raw =
        bit_or_sum 11
          (bit_or_sum 12
            (bit_or_sum 20 (omega (arith, bit_and_mask 1 (w / 2 ^ 31)))
              (omega (arith, bit_and_mask 8 (w / 2 ^ 12))) (omega arith) (omega arith))
            (omega (arith, bit_and_mask 1 (w / 2 ^ 20))) (omega arith) (omega arith))
          (omega (arith, bit_and_mask 10 (w / 2 ^ 21))) (omega arith) (omega arith)

pub ruleset fields = (
  arith, decode_opcode_lem, decode_rd_lem, decode_funct3_lem, decode_rs1_lem, decode_rs2_lem,
  decode_funct7_lem,
)

-- Decoding a word of encode_r with fields of their widths gives all six fields back.
pub decode-encode_r :
    (funct7 rs2 rs1 funct3 rd opcode : ℕ)
    → funct7 < 128
    → rs2 < 32
    → rs1 < 32
    → funct3 < 8
    → rd < 32
    → opcode < 128
    → let w = Encode.encode_r funct7 rs2 rs1 funct3 rd opcode in
      (Encode.decode_opcode w ≡ opcode)
      × (Encode.decode_rd w ≡ rd)
      × (Encode.decode_funct3 w ≡ funct3)
      × (Encode.decode_rs1 w ≡ rs1)
      × (Encode.decode_rs2 w ≡ rs2)
      × (Encode.decode_funct7 w ≡ funct7)
decode-encode_r funct7 rs2 rs1 funct3 rd opcode h0 h1 h2 h3 h4 h5 =
    let word = encode_r_lem funct7 rs2 rs1 funct3 rd opcode (omega arith) in omega (fields, word)

-- Decoding a word of encode_i with fields of their widths and a signed 12-bit immediate gives the
-- fields and the sign-extended immediate back.
pub decode-encode_i :
    (imm rs1 funct3 rd opcode : ℕ)
    → FitsSigned (2 ^ 11) imm
    → rs1 < 32
    → funct3 < 8
    → rd < 32
    → opcode < 128
    → let w = Encode.encode_i imm rs1 funct3 rd opcode in
      (Encode.decode_opcode w ≡ opcode)
      × (Encode.decode_rd w ≡ rd)
      × (Encode.decode_funct3 w ≡ funct3)
      × (Encode.decode_rs1 w ≡ rs1)
      × (Encode.decode_imm_i w ≡ imm)
decode-encode_i imm rs1 funct3 rd opcode hi h0 h1 h2 h3 =
    let word = encode_i_lem 0 0 rs1 funct3 rd opcode (omega arith) imm in
    (
      omega (fields, word),
      omega (fields, word),
      omega (fields, word),
      omega (fields, word),
      ground (arith, word, decode_imm_i_lem (Encode.encode_i imm rs1 funct3 rd opcode)),
    )

-- Decoding a word of encode_s with fields of their widths and a signed 12-bit immediate gives the
-- fields and the sign-extended immediate back.
pub decode-encode_s :
    (imm rs2 rs1 funct3 opcode : ℕ)
    → FitsSigned (2 ^ 11) imm
    → rs2 < 32
    → rs1 < 32
    → funct3 < 8
    → opcode < 128
    → let w = Encode.encode_s imm rs2 rs1 funct3 opcode in
      (Encode.decode_opcode w ≡ opcode)
      × (Encode.decode_funct3 w ≡ funct3)
      × (Encode.decode_rs1 w ≡ rs1)
      × (Encode.decode_rs2 w ≡ rs2)
      × (Encode.decode_imm_s w ≡ imm)
decode-encode_s imm rs2 rs1 funct3 opcode hi h0 h1 h2 h3 =
    let word = encode_s_lem 0 rs2 rs1 funct3 0 opcode (omega arith) imm in
    (
      omega (fields, word),
      omega (fields, word),
      omega (fields, word),
      omega (fields, word),
      ground (arith, word, decode_imm_s_lem (Encode.encode_s imm rs2 rs1 funct3 opcode)),
    )

-- Decoding a word of encode_b with fields of their widths and an even signed 13-bit offset gives the
-- fields and the sign-extended offset back.
pub decode-encode_b :
    (imm rs2 rs1 funct3 opcode : ℕ)
    → FitsSigned (2 ^ 12) imm
    → imm % 2 ≡ 0
    → rs2 < 32
    → rs1 < 32
    → funct3 < 8
    → opcode < 128
    → let w = Encode.encode_b imm rs2 rs1 funct3 opcode in
      (Encode.decode_opcode w ≡ opcode)
      × (Encode.decode_funct3 w ≡ funct3)
      × (Encode.decode_rs1 w ≡ rs1)
      × (Encode.decode_rs2 w ≡ rs2)
      × (Encode.decode_imm_b w ≡ imm)
decode-encode_b imm rs2 rs1 funct3 opcode hi even h0 h1 h2 h3 =
    let word = encode_b_lem 0 rs2 rs1 funct3 0 opcode (omega arith) imm in
    (
      omega (fields, word),
      omega (fields, word),
      omega (fields, word),
      omega (fields, word),
      ground (arith, word, decode_imm_b_lem (Encode.encode_b imm rs2 rs1 funct3 opcode)),
    )

-- Decoding a word of encode_u with fields of their widths and a 32-bit immediate whose low 12 bits
-- are clear gives the fields and the immediate back.
pub decode-encode_u :
    (imm rd opcode : ℕ)
    → imm < 2 ^ 32
    → imm % 2 ^ 12 ≡ 0
    → rd < 32
    → opcode < 128
    → let w = Encode.encode_u imm rd opcode in
      (Encode.decode_opcode w ≡ opcode) × (Encode.decode_rd w ≡ rd) × (Encode.decode_imm_u w ≡ imm)
decode-encode_u imm rd opcode hi even h0 h1 =
    let word = encode_u_lem 0 0 0 0 rd opcode (omega arith) imm in
    (
      omega (fields, word),
      omega (fields, word),
      ground (arith, word, decode_imm_u_lem (Encode.encode_u imm rd opcode)),
    )

-- Decoding a word of encode_j with fields of their widths and an even signed 21-bit offset gives the
-- fields and the sign-extended offset back.
pub decode-encode_j :
    (imm rd opcode : ℕ)
    → FitsSigned (2 ^ 20) imm
    → imm % 2 ≡ 0
    → rd < 32
    → opcode < 128
    → let w = Encode.encode_j imm rd opcode in
      (Encode.decode_opcode w ≡ opcode) × (Encode.decode_rd w ≡ rd) × (Encode.decode_imm_j w ≡ imm)
decode-encode_j imm rd opcode hi even h0 h1 =
    let word = encode_j_lem 0 0 0 0 rd opcode (omega arith) imm in
    (
      omega (fields, word),
      omega (fields, word),
      ground (arith, word, decode_imm_j_lem (Encode.encode_j imm rd opcode)),
    )
