-- ===== src/Examples/Sources.antt =====
-- Examples for assembler.h: lines of source text.
use mocker.Encode.Cut.{low_12}
use mocker.Prelude.{
  bit_xor, arith, ℕ, ◌≡◌, ◌↔◌, refl, true, some, [], ◌∷◌, map, bytes, arith, sub32,
}
use mocker.Encode.Opcode
use mocker.Cpu.State.{retire, reg, set_reg, next_pc}
use mocker.Cpu.{execute}
use mocker.Assembler.Text.{to_lower}
use mocker.Assembler.Immediate.{parse_imm, read_digits, digit_value}
use mocker.Assembler.Registers.{register, reg_token, lower_register, abi_register, abi_map}
use mocker.Assembler.State.{Assembler, initial, emit}
use mocker.Assembler.Mnemonic.{immediate_op, find_form, mnemonics}
use mocker.Assembler.Line.{assemble_form, assemble_line}
use mocker.Assembler.Source.{AllPlain-all}
use mocker.Assembler.Tokens.{finished, assemble_line-instruction}
use mocker.Assembler.Numerals.{hexadecimal, parse_imm-text}
use mocker.Assembler.RegisterNames.{Names, reg_token_iff}
use mocker.Assembler.Operations
use mocker.Assembler.Immediates
use mocker.Assembler.Immediates.{assemble_line-immediate}
use mocker.Assembler.Operations.{meaning, assemble_line-operation}
use mocker.Examples.{two_ecalls, hart0}

abbrev fresh : Assembler
fresh = initial 0x10000

-- 0xdead, in the letters that the digits are printed with.
parse_imm-text_example :
    (parse_imm (bytes "0xdead") ≡ 0xDEAD) × (parse_imm (bytes "-0xdead") ≡ sub32 0 0xDEAD)
parse_imm-text_example = parse_imm-text (hexadecimal 13 (14 ∷ 10 ∷ 13 ∷ [])) (omega arith)

reg_token_iff_example :
    (reg_token (bytes "A0") ≡ register 10) ↔ Names (map to_lower (bytes "A0")) 10
reg_token_iff_example = reg_token_iff (bytes "A0") 10

assemble_line-instruction_example :
    assemble_line fresh (bytes "ADDI t0, t0, -1")
    ≡ finished (
        assemble_form
          (immediate_op Opcode.f3_add_sub Opcode.f7_normal)
          fresh
          (bytes "t0" ∷ bytes "t0" ∷ bytes "-1" ∷ []))
unfolding find_form mnemonics to_lower
assemble_line-instruction_example =
    assemble_line-instruction fresh (bytes "ADDI") (bytes "t0") (bytes "t0" ∷ bytes "-1" ∷ [])
      (immediate_op Opcode.f3_add_sub Opcode.f7_normal) (AllPlain-all (bytes "ADDI") refl)
      (
        AllPlain-all (bytes "t0") refl,
        (AllPlain-all (bytes "t0") refl, (AllPlain-all (bytes "-1") refl, tt)),
      )
      refl

sub_token : reg_token (bytes "x12") ≡ register 12
unfolding reg_token lower_register to_lower read_digits digit_value
sub_token = refl

a0_token : reg_token (bytes "a0") ≡ register 10
unfolding reg_token lower_register to_lower abi_register abi_map
a0_token = refl

a1_token : reg_token (bytes "a1") ≡ register 11
unfolding reg_token lower_register to_lower abi_register abi_map
a1_token = refl

assemble_line-operation_example :
    (w : ℕ) × (assemble_line fresh (bytes "SUB a0, a1, x12") ≡ some (true, emit fresh w))
    × (execute hart0 two_ecalls w
        ≡ retire
            (set_reg hart0 10 (sub32 (reg hart0 11) (reg hart0 12)))
            two_ecalls
            (next_pc hart0))
unfolding to_lower
assemble_line-operation_example =
    assemble_line-operation fresh hart0 two_ecalls Operations.sub (bytes "SUB") (bytes "a0")
      (bytes "a1") (bytes "x12") 10 11 12 (AllPlain-all (bytes "SUB") refl) refl
      (AllPlain-all (bytes "a0") refl) (AllPlain-all (bytes "a1") refl)
      (AllPlain-all (bytes "x12") refl) a0_token a1_token sub_token

t0_token : reg_token (bytes "t0") ≡ register 5
unfolding reg_token lower_register to_lower abi_register abi_map
t0_token = refl

assemble_line-immediate_example :
    (w : ℕ) × (assemble_line fresh (bytes "xori t0, a1, -0x10") ≡ some (true, emit fresh w))
    × (execute hart0 two_ecalls w
        ≡ retire
            (set_reg hart0 5 (bit_xor (reg hart0 11) (low_12 (parse_imm (bytes "-0x10")))))
            two_ecalls
            (next_pc hart0))
unfolding to_lower
assemble_line-immediate_example =
    assemble_line-immediate fresh hart0 two_ecalls Immediates.xori (bytes "xori") (bytes "t0")
      (bytes "a1") (bytes "-0x10") 5 11 (AllPlain-all (bytes "xori") refl) refl
      (AllPlain-all (bytes "t0") refl) (AllPlain-all (bytes "a1") refl)
      (AllPlain-all (bytes "-0x10") refl) t0_token a1_token tt
