-- ===== src/Examples/Codec.antt =====
-- Examples for encode.h.
use mocker.Prelude.{◌-◌, ◌^◌, ◌≡◌, inl, inr, refl, arith}
use mocker.Encode
use mocker.Encode.RoundTrip.{
  decode-encode_i, decode-encode_s, decode-encode_b, decode-encode_u, decode-encode_j,
}

-- sub x5, x6, x7
-- addi x5, x6, -3
decode-encode_i_example :
    let w = Encode.encode_i (2 ^ 32 - 3) 6 0 5 0x13 in
    (Encode.decode_opcode w ≡ 0x13)
    × (Encode.decode_rd w ≡ 5)
    × (Encode.decode_funct3 w ≡ 0)
    × (Encode.decode_rs1 w ≡ 6)
    × (Encode.decode_imm_i w ≡ 2 ^ 32 - 3)
decode-encode_i_example =
    decode-encode_i (2 ^ 32 - 3) 6 0 5 0x13 (inr (omega arith, omega arith)) (omega arith)
      (omega arith) (omega arith) (omega arith)

-- sw x7, -4(x6)
decode-encode_s_example :
    let w = Encode.encode_s (2 ^ 32 - 4) 7 6 2 0x23 in
    (Encode.decode_opcode w ≡ 0x23)
    × (Encode.decode_funct3 w ≡ 2)
    × (Encode.decode_rs1 w ≡ 6)
    × (Encode.decode_rs2 w ≡ 7)
    × (Encode.decode_imm_s w ≡ 2 ^ 32 - 4)
decode-encode_s_example =
    decode-encode_s (2 ^ 32 - 4) 7 6 2 0x23 (inr (omega arith, omega arith)) (omega arith)
      (omega arith) (omega arith) (omega arith)

-- blt x6, x7, -8
decode-encode_b_example :
    let w = Encode.encode_b (2 ^ 32 - 8) 7 6 4 0x63 in
    (Encode.decode_opcode w ≡ 0x63)
    × (Encode.decode_funct3 w ≡ 4)
    × (Encode.decode_rs1 w ≡ 6)
    × (Encode.decode_rs2 w ≡ 7)
    × (Encode.decode_imm_b w ≡ 2 ^ 32 - 8)
decode-encode_b_example =
    decode-encode_b (2 ^ 32 - 8) 7 6 4 0x63 (inr (omega arith, omega arith)) refl (omega arith)
      (omega arith) (omega arith) (omega arith)

-- lui x5, 0x12345
decode-encode_u_example :
    let w = Encode.encode_u 0x12345000 5 0x37 in
    (Encode.decode_opcode w ≡ 0x37)
    × (Encode.decode_rd w ≡ 5)
    × (Encode.decode_imm_u w ≡ 0x12345000)
decode-encode_u_example =
    decode-encode_u 0x12345000 5 0x37 (omega arith) refl (omega arith) (omega arith)

-- jal x1, 2050
decode-encode_j_example :
    let w = Encode.encode_j 2050 1 0x6F in
    (Encode.decode_opcode w ≡ 0x6F) × (Encode.decode_rd w ≡ 1) × (Encode.decode_imm_j w ≡ 2050)
decode-encode_j_example =
    decode-encode_j 2050 1 0x6F (inl (omega arith)) refl (omega arith) (omega arith)
