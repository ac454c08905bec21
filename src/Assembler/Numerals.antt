-- ===== src/Assembler/Numerals.antt =====
-- assembler.h and the standard library: decimal and hexadecimal numerals, as `parseImm` reads them.
use mocker.Prelude.{
  ℕ, ◌+◌, ◌*◌, ◌%◌, ◌^◌, ◌<◌, ◌≤◌, ◌≡◌, ◌≢◌, refl, ap, ◌∙◌, true, false, some, List, [], ◌∷◌, arith,
  if◌then◌else◌, length, map, ltb, leb, ◌==◌, ◌||◌, ◌&&◌, sub32,
}
use native.Mathlib.Nat.{pow-zero, pow-suc}
use mocker.Assembler.Text.{is_digit}
use mocker.Assembler.Immediate.{
  digit_value, read_digits, after_zero, magnitude, positive, with_sign, skip_space, parse_imm,
}

-- A digit below 16, with lower-case letters.
abbrev pub digit : ℕ → ℕ
digit d = if ltb d 10 then 48 + d else 87 + d

abbrev pub AllBelow : ℕ → List ℕ → Type 0
AllBelow base [] = Unit
AllBelow base (d ∷ ds) = (d < base) × AllBelow base ds

-- The number that the digits stand for, the last one counting once.
abbrev pub value : ℕ → List ℕ → ℕ
value base [] = 0
value base (d ∷ ds) = d * base ^ length ds + value base ds

digit_value-digit : (d : ℕ) → d < 16 → digit_value (digit d) ≡ d
unfolding digit_value
digit_value-digit d h = ground arith

pub read_digits-digits :
    (base acc : ℕ) (ds : List ℕ)
    → base ≤ 16
    → AllBelow base ds
    → read_digits base acc (map digit ds) ≡ acc * base ^ length ds + value base ds
unfolding read_digits
read_digits-digits base acc [] b p =
    let e : base ^ length {A = ℕ} [] ≡ 1 = pow-zero base in rw e (omega arith)
read_digits-digits base acc (d ∷ ds) b (h, p) =
    let same = digit_value-digit d (omega arith) in
    let ih = read_digits-digits base (acc * base + d) ds b p in
    let below : ltb d base ≡ true = ground arith in
    rw (same, below) (ih ∙ grind (arith, pow-suc base (length ds)))

-- A numeral without its sign: a decimal one begins with another digit than 0.
pub data Numeral : Type 0 where
  decimal : (first : ℕ) (rest : List ℕ) → Numeral
  octal : (rest : List ℕ) → Numeral
  hexadecimal : (first : ℕ) (rest : List ℕ) → Numeral

abbrev pub IsNumeral : Numeral → Type 0
IsNumeral (decimal first rest) = (first ≢ 0) × AllBelow 10 (first ∷ rest)
IsNumeral (octal rest) = AllBelow 8 rest
IsNumeral (hexadecimal first rest) = AllBelow 16 (first ∷ rest)

abbrev pub text : Numeral → List ℕ
text (decimal first rest) = map digit (first ∷ rest)
text (octal rest) = b'0' ∷ map digit rest
text (hexadecimal first rest) = b'0' ∷ b'x' ∷ map digit (first ∷ rest)

abbrev pub number : Numeral → ℕ
number (decimal first rest) = value 10 (first ∷ rest)
number (octal rest) = value 8 rest
number (hexadecimal first rest) = value 16 (first ∷ rest)

pub read_digits-value :
    (base : ℕ) (ds : List ℕ)
    → base ≤ 16
    → AllBelow base ds
    → read_digits base 0 (map digit ds) ≡ value base ds
read_digits-value base ds b p = omega (arith, read_digits-digits base 0 ds b p)

after_zero-octal : (ds : List ℕ) → AllBelow 8 ds → after_zero (map digit ds) ≡ value 8 ds
unfolding after_zero
after_zero-octal [] p = refl
after_zero-octal (d ∷ []) p = read_digits-value 8 (d ∷ []) (omega arith) p
after_zero-octal (d ∷ e ∷ ds) (h, p) =
    let no_x : ((digit d == b'x') || (digit d == b'X')) ≡ false = ground arith in
    rw no_x (read_digits-value 8 (d ∷ e ∷ ds) (omega arith) (h, p))

magnitude-text : (n : Numeral) → IsNumeral n → magnitude (text n) ≡ some (number n)
unfolding magnitude after_zero
magnitude-text (decimal first rest) (nonzero, (h, p)) =
    let is : is_digit (digit first) ≡ true = ground arith in
    let not_zero : (digit first == b'0') ≡ false = ground arith in
    rw (is, not_zero) (ap some (read_digits-value 10 (first ∷ rest) (omega arith) (h, p)))
magnitude-text (octal rest) p = ap some (after_zero-octal rest p)
magnitude-text (hexadecimal first rest) (h, p) =
    let same = digit_value-digit first h in
    let below : ltb first 16 ≡ true = ground arith in
    rw (same, below) (ap some (read_digits-value 16 (first ∷ rest) (omega arith) (h, p)))

no_sign :
    (c : ℕ) (s : List ℕ)
    → is_digit c ≡ true
    → with_sign (skip_space (c ∷ s)) ≡ positive (magnitude (c ∷ s))
no_sign c s h =
    let no_space : ((c == b' ') || (leb 9 c && leb c 13)) ≡ false = ground (arith, h) in
    let no_minus : (c == b'-') ≡ false = ground (arith, h) in
    let no_plus : (c == b'+') ≡ false = ground (arith, h) in rw (no_space, no_minus, no_plus) refl

with_sign-text :
    (n : Numeral) → IsNumeral n → with_sign (skip_space (text n)) ≡ positive (magnitude (text n))
with_sign-text (decimal first rest) (nonzero, (h, p)) =
    no_sign (digit first) (map digit rest) (ground arith)
with_sign-text (octal rest) p = no_sign b'0' (map digit rest) refl
with_sign-text (hexadecimal first rest) p = no_sign b'0' (b'x' ∷ map digit (first ∷ rest)) refl

-- A decimal, octal or lower-case hexadecimal numeral in `stol`'s range is read as its number cut to 32 bits, with a
-- minus sign as the negated number in two's complement; one that does not fit a 64-bit signed integer
-- is read as 0.
pub parse_imm-text :
    (n : Numeral)
    → IsNumeral n
    → (parse_imm (text n) ≡ (if ltb (number n) (2 ^ 63) then number n % 2 ^ 32 else 0))
      × (parse_imm (b'-' ∷ text n)
          ≡ (if leb (number n) (2 ^ 63) then sub32 0 (number n % 2 ^ 32) else 0))
unfolding parse_imm
parse_imm-text n p =
    (with_sign-text n p ∙ rw (magnitude-text n p) refl, rw (magnitude-text n p) refl)
