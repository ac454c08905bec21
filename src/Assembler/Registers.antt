-- ===== src/Assembler/Registers.antt =====
-- assembler.h, `abiMap` and `parseReg` up to its effect on `hasError`.
use mocker.Prelude.{
  ℕ, ◌^◌, ◌==◌, ◌&&◌, Bool, false, none, some, List, [], ◌∷◌, map, if◌then◌else◌, leb, bytes,
  lookup,
}
use mocker.Assembler.Text.{is_digit, to_lower, all}
use mocker.Assembler.Immediate.{read_digits}

unfoldable pub abi_map : List (List ℕ × ℕ)
abi_map =
    (bytes "zero", 0)
    ∷ (bytes "ra", 1)
    ∷ (bytes "sp", 2)
    ∷ (bytes "gp", 3)
    ∷ (bytes "tp", 4)
    ∷ (bytes "t0", 5)
    ∷ (bytes "t1", 6)
    ∷ (bytes "t2", 7)
    ∷ (bytes "s0", 8)
    ∷ (bytes "fp", 8)
    ∷ (bytes "s1", 9)
    ∷ (bytes "a0", 10)
    ∷ (bytes "a1", 11)
    ∷ (bytes "a2", 12)
    ∷ (bytes "a3", 13)
    ∷ (bytes "a4", 14)
    ∷ (bytes "a5", 15)
    ∷ (bytes "a6", 16)
    ∷ (bytes "a7", 17)
    ∷ (bytes "s2", 18)
    ∷ (bytes "s3", 19)
    ∷ (bytes "s4", 20)
    ∷ (bytes "s5", 21)
    ∷ (bytes "s6", 22)
    ∷ (bytes "s7", 23)
    ∷ (bytes "s8", 24)
    ∷ (bytes "s9", 25)
    ∷ (bytes "s10", 26)
    ∷ (bytes "s11", 27)
    ∷ (bytes "t3", 28)
    ∷ (bytes "t4", 29)
    ∷ (bytes "t5", 30)
    ∷ (bytes "t6", 31)
    ∷ []

-- What a token is, as a register: `out_of_range` is the exception of `stoi`, which nothing catches.
pub data RegToken : Type 0 where
  register : ℕ → RegToken
  bad out_of_range : RegToken

unfoldable pub abi_register : List ℕ → RegToken
abi_register s = elim (lookup s abi_map) [ none ↦ bad | some n ↦ register n ]

-- An x and at least one digit, and digits only.
abbrev pub is_numbered : List ℕ → Bool
is_numbered [] = false
is_numbered (c ∷ []) = false
is_numbered (c ∷ d ∷ s) = (c == b'x') && all is_digit (d ∷ s)

abbrev pub tail : List ℕ → List ℕ
tail [] = []
tail (c ∷ s) = s

-- On the token in lower case.
unfoldable pub lower_register : List ℕ → RegToken
lower_register s =
    if is_numbered s
    then (let n = read_digits 10 0 (tail s) in
        if leb (2 ^ 31) n then out_of_range else if leb n 31 then register n else abi_register s)
    else abi_register s

unfoldable pub reg_token : List ℕ → RegToken
reg_token tok = lower_register (map to_lower tok)
