-- ===== src/Encode/Opcode.antt =====
-- encode.h, the constants of the namespaces OP, F3 and F7. Names that two uses of one value share in
-- the source stay apart here.
use mocker.Prelude.{ℕ}

abbrev pub r_type : ℕ
r_type = 0b0110011

abbrev pub i_arith : ℕ
i_arith = 0b0010011

abbrev pub load : ℕ
load = 0b0000011

abbrev pub store : ℕ
store = 0b0100011

abbrev pub branch : ℕ
branch = 0b1100011

abbrev pub jal : ℕ
jal = 0b1101111

abbrev pub jalr : ℕ
jalr = 0b1100111

abbrev pub lui : ℕ
lui = 0b0110111

abbrev pub auipc : ℕ
auipc = 0b0010111

abbrev pub system : ℕ
system = 0b1110011

abbrev pub f3_add_sub : ℕ
f3_add_sub = 0b000

abbrev pub f3_sll : ℕ
f3_sll = 0b001

abbrev pub f3_slt : ℕ
f3_slt = 0b010

abbrev pub f3_sltu : ℕ
f3_sltu = 0b011

abbrev pub f3_xor : ℕ
f3_xor = 0b100

abbrev pub f3_srl_sra : ℕ
f3_srl_sra = 0b101

abbrev pub f3_or : ℕ
f3_or = 0b110

abbrev pub f3_and : ℕ
f3_and = 0b111

abbrev pub f3_byte : ℕ
f3_byte = 0b000

abbrev pub f3_half : ℕ
f3_half = 0b001

abbrev pub f3_word : ℕ
f3_word = 0b010

abbrev pub f3_jalr : ℕ
f3_jalr = 0b000

abbrev pub f3_beq : ℕ
f3_beq = 0b000

abbrev pub f3_bne : ℕ
f3_bne = 0b001

abbrev pub f3_blt : ℕ
f3_blt = 0b100

abbrev pub f3_bge : ℕ
f3_bge = 0b101

abbrev pub f7_normal : ℕ
f7_normal = 0b0000000

abbrev pub f7_alt : ℕ
f7_alt = 0b0100000
