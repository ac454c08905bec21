-- ===== src/Assembler/Immediate.antt =====
-- assembler.h, `parseImm`: what `stol` with base 0 makes of a token, on a machine whose `long` has 64
-- bits, cut to 32 bits. A failed conversion counts as 0.
use mocker.Prelude.{
  ℕ, ◌+◌, ◌-◌, ◌*◌, ◌%◌, ◌^◌, ◌==◌, ◌&&◌, ◌||◌, Option, none, some, List, [], ◌∷◌, if◌then◌else◌,
  ltb, leb, sub32,
}
use mocker.Assembler.Text.{is_digit, is_upper, is_lower}

-- The value of a digit; 36 for a byte that is none.
unfoldable pub digit_value : ℕ → ℕ
digit_value c =
    if is_digit c then c - 48 else if is_lower c then c - 87 else if is_upper c then c - 55 else 36

-- The longest run of digits, after `acc`.
unfoldable pub read_digits : ℕ → ℕ → List ℕ → ℕ
read_digits base acc [] = acc
read_digits base acc (c ∷ s) =
    let rest = read_digits base (acc * base + digit_value c) s in
    if ltb (digit_value c) base then rest else acc

-- Behind a leading 0: hexadecimal if an x and a hexadecimal digit follow, and else octal.
unfoldable pub after_zero : List ℕ → ℕ
after_zero [] = 0
after_zero (x ∷ []) = read_digits 8 0 (x ∷ [])
after_zero (x ∷ d ∷ s) =
    if ((x == b'x') || (x == b'X')) && ltb (digit_value d) 16
    then read_digits 16 0 (d ∷ s)
    else read_digits 8 0 (x ∷ d ∷ s)

-- `none` where there is no number.
unfoldable pub magnitude : List ℕ → Option ℕ
magnitude [] = none
magnitude (c ∷ s) =
    if is_digit c then some (if c == b'0' then after_zero s else read_digits 10 0 (c ∷ s)) else none

abbrev pub positive : Option ℕ → ℕ
positive none = 0
positive (some n) = if ltb n (2 ^ 63) then n % 2 ^ 32 else 0

abbrev pub negative : Option ℕ → ℕ
negative none = 0
negative (some n) = if leb n (2 ^ 63) then sub32 0 (n % 2 ^ 32) else 0

abbrev pub with_sign : List ℕ → ℕ
with_sign [] = 0
with_sign (c ∷ s) =
    if c == b'-'
    then negative (magnitude s)
    else if c == b'+'
    then positive (magnitude s)
    else positive (magnitude (c ∷ s))

-- The white space of `isspace`, which `stol` skips.
abbrev pub skip_space : List ℕ → List ℕ
skip_space [] = []
skip_space (c ∷ s) = if (c == b' ') || (leb 9 c && leb c 13) then skip_space s else c ∷ s

unfoldable pub parse_imm : List ℕ → ℕ
parse_imm tok = with_sign (skip_space tok)
