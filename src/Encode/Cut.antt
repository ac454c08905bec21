-- ===== src/Encode/Cut.antt =====
-- encode.h: what encodeI makes of a constant that does not fit its 12 bits: the low 12 bits are kept.
use mocker.Prelude.{ℕ, ◌+◌, ◌-◌, ◌/◌, ◌%◌, ◌^◌, ◌<◌, ◌≡◌, ◌>>◌, arith, ltb, if◌then◌else◌}
use mocker.Encode
use mocker.Encode.Fields.{encode_i_lem, decode_funct7_lem}
use mocker.Encode.RoundTrip.{fields, decode_imm_i_lem}

-- The low 12 bits as a signed number, in 32 bits.
abbrev pub low_12 : ℕ → ℕ
low_12 imm = let v = imm % 2 ^ 12 in if ltb v (2 ^ 11) then v else v + 2 ^ 32 - 2 ^ 12

pub decode-encode_i_cut :
    (imm rs1 funct3 rd opcode : ℕ)
    → rs1 < 32
    → funct3 < 8
    → rd < 32
    → opcode < 128
    → let w = Encode.encode_i imm rs1 funct3 rd opcode in
      (Encode.decode_opcode w ≡ opcode)
      × (Encode.decode_rd w ≡ rd)
      × (Encode.decode_funct3 w ≡ funct3)
      × (Encode.decode_rs1 w ≡ rs1)
      × (Encode.decode_imm_i w ≡ low_12 imm)
      × (Encode.decode_funct7 w ≡ imm % 2 ^ 12 / 2 ^ 5)
      × (w >> 20 ≡ imm % 2 ^ 12)
decode-encode_i_cut imm rs1 funct3 rd opcode h0 h1 h2 h3 =
    let word = encode_i_lem 0 0 rs1 funct3 rd opcode (omega arith) imm in
    (
      omega (fields, word),
      omega (fields, word),
      omega (fields, word),
      omega (fields, word),
      ground (arith, word, decode_imm_i_lem (Encode.encode_i imm rs1 funct3 rd opcode)),
      omega (arith, word, decode_funct7_lem (Encode.encode_i imm rs1 funct3 rd opcode)),
      omega (arith, word),
    )
