-- ===== src/Assembler/Operands.antt =====
-- assembler.h: what `parseReg`, `tokenize` and the table of mnemonics promise to the arms of
-- `assembleLine`: a register number below 32, operands that are not empty, and constants that fit.
use mocker.Prelude.{
  leb, IsWord, ℕ, zero, suc, ◌<◌, ◌≡◌, ◌≢◌, ◌^◌, ◌⊎◌, if◌then◌else◌, inl, inr, true, false,
  Bool-cases, if_both, Option, none, some, List, [], ◌∷◌, ◌++◌, map, length, leb, Ensures,
  AllEntries, Ensures-lookup, lookup, arith,
}
use mocker.Assembler.Text.{clean, push, is_separator, tokens, tokenize, to_lower}
use mocker.Encode.{encode_i}
use mocker.Assembler.Immediate.{read_digits}
use mocker.Assembler.Registers.{
  RegToken, register, bad, out_of_range, abi_map, abi_register, is_numbered, tail, lower_register,
  reg_token,
}
use mocker.Assembler.Mnemonic
use mocker.Assembler.Mnemonic.{Form, mnemonics, find_form}
use mocker.Assembler.Line.{operand}

abbrev pub IsRegister : RegToken → Type 0
IsRegister (register n) = n < 32
IsRegister bad = Unit
IsRegister out_of_range = Unit

abi_map-AllEntries : AllEntries (λ _ n. n < 32) abi_map
unfolding abi_map
abi_map-AllEntries = omega arith

abi_register-IsRegister : (s : List ℕ) → IsRegister (abi_register s)
unfolding abi_register
abi_register-IsRegister s =
    of_entry (lookup s abi_map) (Ensures-lookup (λ _ n. n < 32) abi_map s abi_map-AllEntries)
  where
    of_entry :
        (o : Option ℕ)
        → Ensures (λ n. n < 32) o
        → IsRegister (elim o [ none ↦ bad | some n ↦ register n ])
    of_entry none p = p
    of_entry (some n) p = p

lower_register-IsRegister : (s : List ℕ) → IsRegister (lower_register s)
unfolding lower_register
lower_register-IsRegister s =
    let n = read_digits 10 0 (tail s) in
    if_both IsRegister (is_numbered s)
      (if_both IsRegister (leb (2 ^ 31) n) tt (small n (Bool-cases (leb n 31))))
      (abi_register-IsRegister s)
  where
    small :
        (n : ℕ)
        → (leb n 31 ≡ true) ⊎ (leb n 31 ≡ false)
        → IsRegister (if leb n 31 then register n else abi_register s)
    small n (inl e) = let h : n < 32 = ground (arith, e) in rw e h
    small n (inr e) = rw e (abi_register-IsRegister s)

pub reg_token-IsRegister : (tok : List ℕ) → IsRegister (reg_token tok)
unfolding reg_token
reg_token-IsRegister tok = lower_register-IsRegister (map to_lower tok)

abbrev pub AllNonEmpty : List (List ℕ) → Type 0
AllNonEmpty [] = Unit
AllNonEmpty (tok ∷ ops) = (tok ≢ []) × AllNonEmpty ops

push-AllNonEmpty :
    (tok : List ℕ) (ops : List (List ℕ)) → AllNonEmpty ops → AllNonEmpty (push tok ops)
push-AllNonEmpty [] ops p = p
push-AllNonEmpty (c ∷ tok) ops p = ((λ e. cc), p)

tokens-AllNonEmpty : (cur s : List ℕ) → AllNonEmpty (tokens cur s)
unfolding tokens
tokens-AllNonEmpty cur [] = push-AllNonEmpty (clean cur) [] tt
tokens-AllNonEmpty cur (c ∷ s) =
    let rest = tokens-AllNonEmpty (if is_separator c then [] else cur ++ c ∷ []) s in
    if_both AllNonEmpty (is_separator c) (push-AllNonEmpty (clean cur) _ rest) rest

pub operand-NonEmpty :
    (ops : List (List ℕ)) (i : ℕ) → AllNonEmpty ops → i < length ops → operand ops i ≢ []
operand-NonEmpty [] i p h = absurd (omega arith)
operand-NonEmpty (tok ∷ ops) zero (n, p) h = n
operand-NonEmpty (tok ∷ ops) (suc i) (n, p) h = operand-NonEmpty ops i p (omega arith)

pub tokenize-AllNonEmpty : (s : List ℕ) → AllNonEmpty (tokenize s)
unfolding tokenize
tokenize-AllNonEmpty s = tokens-AllNonEmpty [] s

-- The constants of a form are a register number or fit in three bits.
abbrev pub IsForm : Form → Type 0
IsForm (Mnemonic.jump rd) = rd < 32
IsForm (Mnemonic.compare_zero funct3) = funct3 < 8
IsForm (Mnemonic.zero_compare funct3) = funct3 < 8
IsForm (Mnemonic.branch_op funct3) = funct3 < 8
IsForm (Mnemonic.fixed word) = IsWord word
IsForm (Mnemonic.upper opcode) = IsWord opcode
IsForm _ = Unit

pub find_form-IsForm : (mnem : List ℕ) → Ensures IsForm (find_form mnem)
unfolding find_form mnemonics encode_i
find_form-IsForm mnem = Ensures-lookup (λ _ form. IsForm form) mnemonics mnem (omega arith)
