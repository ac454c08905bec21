-- ===== src/Assembler/Tokens.antt =====
-- assembler.h: `tokenize` gives back the operands that a comma and a blank separate, and `assembleLine`
-- the mnemonic and operands of an instruction.
use mocker.Prelude.{
  ℕ, ◌≡◌, refl, sym, ap, ◌∙◌, Bool, false, not, List, [], ◌∷◌, ◌++◌, arith, map, Option, some,
  ◌>>=◌,
}
use mathlib.Core.List.{append_assoc, append-nil}
use mocker.Assembler.Text.{is_separator, to_lower, before, from, clean, push, tokens, tokenize}
use mocker.Assembler.State.{Assembler}
use mocker.Assembler.Mnemonic.{Form, find_form}
use mocker.Assembler.Line.{is_space_or_tab, assemble_form, assemble_instruction, assemble_line}
use mocker.Assembler.Source.{
  AllPlain, AllCalm, IsToken, AreTokens, join, instruction, token-plain, plain-calm, AllCalm-append,
  join-AllCalm, has_byte-colon, ends_in_colon_lem, Solid, Solid-append, Solid-cons, token-Solid,
  join-Solid, clean-token, clean-blank,
}

clean-plain : (tok : List ℕ) → IsToken tok → clean tok ≡ tok
clean-plain [] p = absurd p
clean-plain (c ∷ s) (h, p) =
    clean-token c s (ground (arith, h)) (plain-calm (c ∷ s) (h, p)) (token-Solid (c ∷ s) (h, p))

-- The text from a token on, if the token starts it.
clean-join :
    (tok : List ℕ) (ops : List (List ℕ))
    → AreTokens (tok ∷ ops)
    → clean (join (tok ∷ ops)) ≡ join (tok ∷ ops)
clean-join [] ops (h, p) = absurd h
clean-join (c ∷ s) [] (h, p) = clean-plain (c ∷ s) h
clean-join (c ∷ s) (next ∷ ops) ((h, q), p) =
    clean-token c _ (ground (arith, h)) (join-AllCalm ((c ∷ s) ∷ next ∷ ops) ((h, q), p))
      (join-Solid (c ∷ s) (next ∷ ops) ((h, q), p))

tokens-plain :
    (cur tok rest : List ℕ) → AllPlain tok → tokens cur (tok ++ rest) ≡ tokens (cur ++ tok) rest
unfolding tokens
tokens-plain cur [] rest p = rw (append-nil cur) refl
tokens-plain cur (c ∷ tok) rest (h, p) =
    let e : is_separator c ≡ false = ground (arith, h) in
    rw (e, ← append_assoc cur (c ∷ []) tok) (tokens-plain (cur ++ c ∷ []) tok rest p)

push-token : (tok : List ℕ) (ops : List (List ℕ)) → IsToken tok → push tok ops ≡ tok ∷ ops
push-token [] ops p = absurd p
push-token (c ∷ tok) ops p = refl

-- `pad` is what stands in front of the first operand.
tokens-join :
    (pad tok : List ℕ) (ops : List (List ℕ))
    → ((t : List ℕ) → IsToken t → clean (pad ++ t) ≡ t)
    → AreTokens (tok ∷ ops)
    → tokens pad (join (tok ∷ ops)) ≡ tok ∷ ops
unfolding tokens
tokens-join pad tok [] trims (h, p) =
    ap (tokens pad) (sym (append-nil tok))
    ∙ tokens-plain pad tok [] (token-plain tok h)
    ∙ rw (trims tok h) (push-token tok [] h)
tokens-join pad tok (next ∷ ops) trims (h, p) =
    let later = tokens-join (b' ' ∷ []) next ops (λ t k. clean-blank t ∙ clean-plain t k) p in
    tokens-plain pad tok _ (token-plain tok h) ∙ rw (trims tok h, later) (push-token tok _ h)

tokenize-join :
    (tok : List ℕ) (ops : List (List ℕ))
    → AreTokens (tok ∷ ops)
    → tokenize (join (tok ∷ ops)) ≡ tok ∷ ops
unfolding tokenize
tokenize-join tok ops p = tokens-join [] tok ops clean-plain p

-- The mnemonic and what follows it.

before-mnemonic :
    (mnem rest : List ℕ) → AllPlain mnem → before is_space_or_tab (mnem ++ b' ' ∷ rest) ≡ mnem
before-mnemonic [] rest p = refl
before-mnemonic (c ∷ mnem) rest (h, p) =
    let e : is_space_or_tab c ≡ false = ground (arith, h) in
    rw e (ap (λ (t : List ℕ). c ∷ t) (before-mnemonic mnem rest p))

from-mnemonic :
    (mnem rest : List ℕ) → AllPlain mnem → from is_space_or_tab (mnem ++ b' ' ∷ rest) ≡ b' ' ∷ rest
from-mnemonic [] rest p = refl
from-mnemonic (c ∷ mnem) rest (h, p) =
    let e : is_space_or_tab c ≡ false = ground (arith, h) in rw e (from-mnemonic mnem rest p)

-- What `assembleLine` returns after an arm.
abbrev pub finished : Option Assembler → Option (Bool × Assembler)
finished arm = arm >>= λ b. some (not b.has_error, b)

assemble_instruction_lem :
    (a : Assembler) (mnem tok : List ℕ) (ops : List (List ℕ)) (form : Form)
    → AllPlain mnem
    → AreTokens (tok ∷ ops)
    → find_form (map to_lower mnem) ≡ some form
    → assemble_instruction a (instruction mnem (tok ∷ ops))
      ≡ finished (assemble_form form a (tok ∷ ops))
unfolding assemble_instruction
assemble_instruction_lem a mnem tok ops form m p e =
    rw
      (
        before-mnemonic mnem (join (tok ∷ ops)) m,
        from-mnemonic mnem (join (tok ∷ ops)) m,
        clean-blank (join (tok ∷ ops)),
        clean-join tok ops p,
        tokenize-join tok ops p,
        e,
      )
      refl

-- A line with the mnemonic of an instruction, in upper or lower case, and operands with a comma and a
-- blank between them, where no mnemonic or operand holds a blank, comma, colon or comment sign:
-- assembleLine takes the arm of the mnemonic with these operands.
pub assemble_line-instruction :
    (a : Assembler) (mnem tok : List ℕ) (ops : List (List ℕ)) (form : Form)
    → IsToken mnem
    → AreTokens (tok ∷ ops)
    → find_form (map to_lower mnem) ≡ some form
    → assemble_line a (instruction mnem (tok ∷ ops)) ≡ finished (assemble_form form a (tok ∷ ops))
unfolding assemble_line
assemble_line-instruction a [] tok ops form m p e = absurd m
assemble_line-instruction a (c ∷ mnem) tok ops form (h, m) p e =
    let line = instruction (c ∷ mnem) (tok ∷ ops) in
    let calm : AllCalm line =
      AllCalm-append (c ∷ mnem) _ (plain-calm (c ∷ mnem) (h, m))
        (refl, join-AllCalm (tok ∷ ops) p) in
    let solid : Solid line = Solid-append (c ∷ mnem) _ (Solid-cons b' ' _ (join-Solid tok ops p)) in
    rw
      (
        clean-token c (mnem ++ b' ' ∷ join (tok ∷ ops)) (ground (arith, h)) calm solid,
        ends_in_colon_lem line calm,
        has_byte-colon line calm,
      )
      (assemble_instruction_lem a (c ∷ mnem) tok ops form (h, m) p e)
