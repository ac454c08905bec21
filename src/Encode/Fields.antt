-- ===== src/Encode/Fields.antt =====
-- encode.h: the words that the encoders build, and the decoded fields, as sums, quotients and
-- remainders.
use mocker.Prelude.{
  ℕ, ◌+◌, ◌-◌, ◌*◌, ◌/◌, ◌%◌, ◌^◌, ◌<◌, ◌≡◌, arith, bit_and, refl, ltb, if◌then◌else◌,
}
use mocker.Prelude.Bits.{
  bit_or_sum, bit_and_mask, bit_and_shifted, bit_xor_top_clear, bit_xor_top_set,
}
use mocker.Encode

module _ (w : ℕ) where
  pub decode_opcode_lem : Encode.decode_opcode w ≡ w % 128
  unfolding Encode.decode_opcode
  decode_opcode_lem = bit_and_mask 7 w

  pub decode_rd_lem : Encode.decode_rd w ≡ w / 2 ^ 7 % 32
  unfolding Encode.decode_rd
  decode_rd_lem = bit_and_mask 5 (w / 2 ^ 7)

  pub decode_funct3_lem : Encode.decode_funct3 w ≡ w / 2 ^ 12 % 8
  unfolding Encode.decode_funct3
  decode_funct3_lem = bit_and_mask 3 (w / 2 ^ 12)

  pub decode_rs1_lem : Encode.decode_rs1 w ≡ w / 2 ^ 15 % 32
  unfolding Encode.decode_rs1
  decode_rs1_lem = bit_and_mask 5 (w / 2 ^ 15)

  pub decode_rs2_lem : Encode.decode_rs2 w ≡ w / 2 ^ 20 % 32
  unfolding Encode.decode_rs2
  decode_rs2_lem = bit_and_mask 5 (w / 2 ^ 20)

  pub decode_funct7_lem : Encode.decode_funct7 w ≡ w / 2 ^ 25 % 128
  unfolding Encode.decode_funct7
  decode_funct7_lem = bit_and_mask 7 (w / 2 ^ 25)

-- The value that a pattern of `k + 1` bits stands for in two's complement, as a 32-bit pattern.
abbrev pub extended : ℕ → ℕ → ℕ
extended v half = if ltb v half then v else v + 2 ^ 32 - 2 * half

pub sign_ext_12 : (v : ℕ) → v < 2 ^ 12 → Encode.sign_ext v 12 ≡ extended v (2 ^ 11)
unfolding Encode.sign_ext
sign_ext_12 v h = ground (arith, bit_xor_top_clear 11 v, bit_xor_top_set 11 (v - 2 ^ 11))

pub sign_ext_8 : (v : ℕ) → v < 2 ^ 8 → Encode.sign_ext v 8 ≡ extended v (2 ^ 7)
unfolding Encode.sign_ext
sign_ext_8 v h = ground (arith, bit_xor_top_clear 7 v, bit_xor_top_set 7 (v - 2 ^ 7))

pub sign_ext_16 : (v : ℕ) → v < 2 ^ 16 → Encode.sign_ext v 16 ≡ extended v (2 ^ 15)
unfolding Encode.sign_ext
sign_ext_16 v h = ground (arith, bit_xor_top_clear 15 v, bit_xor_top_set 15 (v - 2 ^ 15))

pub sign_ext_13 : (v : ℕ) → v < 2 ^ 13 → Encode.sign_ext v 13 ≡ extended v (2 ^ 12)
unfolding Encode.sign_ext
sign_ext_13 v h = ground (arith, bit_xor_top_clear 12 v, bit_xor_top_set 12 (v - 2 ^ 12))

pub sign_ext_21 : (v : ℕ) → v < 2 ^ 21 → Encode.sign_ext v 21 ≡ extended v (2 ^ 20)
unfolding Encode.sign_ext
sign_ext_21 v h = ground (arith, bit_xor_top_clear 20 v, bit_xor_top_set 20 (v - 2 ^ 20))

-- The register and function fields that an encoder is given fit their bits.
pub record Fit (funct7 rs2 rs1 funct3 rd opcode : ℕ) : Type 0 where
  pub funct7_fits : funct7 < 2 ^ 7
  pub rs2_fits : rs2 < 2 ^ 5
  pub rs1_fits : rs1 < 2 ^ 5
  pub funct3_fits : funct3 < 2 ^ 3
  pub rd_fits : rd < 2 ^ 5
  pub opcode_fits : opcode < 2 ^ 7

module _ (funct7 rs2 rs1 funct3 rd opcode : ℕ) (fit : Fit funct7 rs2 rs1 funct3 rd opcode) where
  pub encode_r_lem :
      Encode.encode_r funct7 rs2 rs1 funct3 rd opcode
      ≡ funct7 * 2 ^ 25 + rs2 * 2 ^ 20 + rs1 * 2 ^ 15 + funct3 * 2 ^ 12 + rd * 2 ^ 7 + opcode
  unfolding Encode.encode_r
  encode_r_lem =
      bit_or_sum 7
        (bit_or_sum 12
          (bit_or_sum 15
            (bit_or_sum 20 (bit_or_sum 25 (omega arith) (omega arith) (omega arith) (omega arith))
              (omega arith) (omega arith) (omega arith))
            (omega arith) (omega arith) (omega arith))
          (omega arith) (omega arith) (omega arith))
        refl (omega arith) (omega arith)

  pub encode_i_lem :
      (imm : ℕ)
      → Encode.encode_i imm rs1 funct3 rd opcode
        ≡ imm % 2 ^ 12 * 2 ^ 20 + rs1 * 2 ^ 15 + funct3 * 2 ^ 12 + rd * 2 ^ 7 + opcode
  unfolding Encode.encode_i
  encode_i_lem imm =
      bit_or_sum 7
        (bit_or_sum 12
          (bit_or_sum 15
            (bit_or_sum 20 (omega (arith, bit_and_mask 12 imm)) (omega arith) (omega arith)
              (omega arith))
            (omega arith) (omega arith) (omega arith))
          (omega arith) (omega arith) (omega arith))
        refl (omega arith) (omega arith)

  pub encode_s_lem :
      (imm : ℕ)
      → Encode.encode_s imm rs2 rs1 funct3 opcode
        ≡ imm / 2 ^ 5 % 2 ^ 7 * 2 ^ 25
          + rs2 * 2 ^ 20
          + rs1 * 2 ^ 15
          + funct3 * 2 ^ 12
          + imm % 2 ^ 5 * 2 ^ 7
          + opcode
  unfolding Encode.encode_s
  encode_s_lem imm =
      bit_or_sum 7
        (bit_or_sum 12
          (bit_or_sum 15
            (bit_or_sum 20
              (bit_or_sum 25
                (omega (arith, bit_and_mask 12 imm, bit_and_mask 7 (bit_and imm 0xFFF / 2 ^ 5)))
                (omega arith) (omega arith) (omega arith))
              (omega arith) (omega arith) (omega arith))
            (omega arith) (omega arith) (omega arith))
          (omega (arith, bit_and_mask 12 imm, bit_and_mask 5 (bit_and imm 0xFFF))) (omega arith)
          (omega arith))
        refl (omega arith) (omega arith)

  pub encode_b_lem :
      (imm : ℕ)
      → Encode.encode_b imm rs2 rs1 funct3 opcode
        ≡ imm / 2 ^ 12 % 2 * 2 ^ 31
          + imm / 2 ^ 5 % 2 ^ 6 * 2 ^ 25
          + rs2 * 2 ^ 20
          + rs1 * 2 ^ 15
          + funct3 * 2 ^ 12
          + imm / 2 % 2 ^ 4 * 2 ^ 8
          + imm / 2 ^ 11 % 2 * 2 ^ 7
          + opcode
  unfolding Encode.encode_b
  encode_b_lem imm =
      bit_or_sum 7
        (bit_or_sum 8
          (bit_or_sum 12
            (bit_or_sum 15
              (bit_or_sum 20
                (bit_or_sum 25
                  (bit_or_sum 31
                    (omega
                      (arith, bit_and_mask 13 imm, bit_and_mask 1 (bit_and imm 0x1FFF / 2 ^ 12)))
                    (omega
                      (arith, bit_and_mask 13 imm, bit_and_mask 6 (bit_and imm 0x1FFF / 2 ^ 5)))
                    (omega arith) (omega arith))
                  (omega arith) (omega arith) (omega arith))
                (omega arith) (omega arith) (omega arith))
              (omega arith) (omega arith) (omega arith))
            (omega (arith, bit_and_mask 13 imm, bit_and_mask 4 (bit_and imm 0x1FFF / 2 ^ 1)))
            (omega arith) (omega arith))
          (omega (arith, bit_and_mask 13 imm, bit_and_mask 1 (bit_and imm 0x1FFF / 2 ^ 11)))
          (omega arith) (omega arith))
        refl (omega arith) (omega arith)

  pub encode_u_lem :
      (imm : ℕ)
      → Encode.encode_u imm rd opcode ≡ imm / 2 ^ 12 % 2 ^ 20 * 2 ^ 12 + rd * 2 ^ 7 + opcode
  unfolding Encode.encode_u
  encode_u_lem imm =
      bit_or_sum 7
        (bit_or_sum 12
          (omega (arith, bit_and_shifted 12 imm (2 ^ 20 - 1), bit_and_mask 20 (imm / 2 ^ 12)))
          (omega arith) (omega arith) (omega arith))
        refl (omega arith) (omega arith)

  pub encode_j_lem :
      (imm : ℕ)
      → Encode.encode_j imm rd opcode
        ≡ imm / 2 ^ 20 % 2 * 2 ^ 31
          + imm / 2 % 2 ^ 10 * 2 ^ 21
          + imm / 2 ^ 11 % 2 * 2 ^ 20
          + imm / 2 ^ 12 % 2 ^ 8 * 2 ^ 12
          + rd * 2 ^ 7
          + opcode
  unfolding Encode.encode_j
  encode_j_lem imm =
      bit_or_sum 7
        (bit_or_sum 12
          (bit_or_sum 20
            (bit_or_sum 21
              (bit_or_sum 31
                (omega (arith, bit_and_mask 21 imm, bit_and_mask 1 (bit_and imm 0x1FFFFF / 2 ^ 20)))
                (omega (arith, bit_and_mask 21 imm, bit_and_mask 10 (bit_and imm 0x1FFFFF / 2 ^ 1)))
                (omega arith) (omega arith))
              (omega (arith, bit_and_mask 21 imm, bit_and_mask 1 (bit_and imm 0x1FFFFF / 2 ^ 11)))
              (omega arith) (omega arith))
            (omega (arith, bit_and_mask 21 imm, bit_and_mask 8 (bit_and imm 0x1FFFFF / 2 ^ 12)))
            (omega arith) (omega arith))
          (omega arith) (omega arith) (omega arith))
        refl (omega arith) (omega arith)
