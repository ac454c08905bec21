-- ===== src/Assembler/Source.antt =====
-- assembler.h: the text of an instruction, and that `clean` and `tokenize` take it apart again.
use mocker.Prelude.{
  ℕ, ◌≡◌, ◌≢◌, refl, ap, inl, inr, Bool-cases, Bool, true, false, not, ◌&&◌, ◌==◌, List, [], ◌∷◌,
  ◌++◌, arith,
}
use mocker.Assembler.Text.{
  all, is_blank, is_comment, is_separator, before, trim_end, clean, ends_in_colon,
}
use mocker.Assembler.State.{has_byte}

-- A byte of an operand or a mnemonic, and a byte of a line.
abbrev pub is_calm : ℕ → Bool
is_calm c = not (is_comment c) && not (c == b':')

abbrev pub is_plain : ℕ → Bool
is_plain c = is_calm c && not (is_blank c) && not (is_separator c)

abbrev pub AllCalm : List ℕ → Type 0
AllCalm [] = Unit
AllCalm (c ∷ s) = (is_calm c ≡ true) × AllCalm s

abbrev pub AllPlain : List ℕ → Type 0
AllPlain [] = Unit
AllPlain (c ∷ s) = (is_plain c ≡ true) × AllPlain s

pub AllPlain-all : (s : List ℕ) → all is_plain s ≡ true → AllPlain s
AllPlain-all [] e = tt
AllPlain-all (c ∷ s) e = elim (Bool-cases (is_plain c)) [
  | inl h ↦ (h, AllPlain-all s (rw h at e))
  | inr h ↦ let f : false ≡ true = rw h at e in absurd (cc f)
]

abbrev pub IsToken : List ℕ → Type 0
IsToken [] = ⊥
IsToken (c ∷ s) = AllPlain (c ∷ s)

abbrev pub AreTokens : List (List ℕ) → Type 0
AreTokens [] = Unit
AreTokens (tok ∷ ops) = IsToken tok × AreTokens ops

-- Operands with a comma and a blank between them.
abbrev pub join : List (List ℕ) → List ℕ
join [] = []
join (tok ∷ []) = tok
join (tok ∷ next ∷ ops) = tok ++ b',' ∷ b' ' ∷ join (next ∷ ops)

abbrev pub instruction : List ℕ → List (List ℕ) → List ℕ
instruction mnem [] = mnem
instruction mnem (tok ∷ ops) = mnem ++ b' ' ∷ join (tok ∷ ops)

pub plain-calm : (s : List ℕ) → AllPlain s → AllCalm s
plain-calm [] p = tt
plain-calm (c ∷ s) (h, p) = (ground (arith, h), plain-calm s p)

pub token-plain : (s : List ℕ) → IsToken s → AllPlain s
token-plain [] p = absurd p
token-plain (c ∷ s) p = p

pub AllCalm-append : (s t : List ℕ) → AllCalm s → AllCalm t → AllCalm (s ++ t)
AllCalm-append [] t p q = q
AllCalm-append (c ∷ s) t (h, p) q = (h, AllCalm-append s t p q)

pub join-AllCalm : (ops : List (List ℕ)) → AreTokens ops → AllCalm (join ops)
join-AllCalm [] p = tt
join-AllCalm (tok ∷ []) (h, p) = plain-calm tok (token-plain tok h)
join-AllCalm (tok ∷ next ∷ ops) (h, p) =
    AllCalm-append tok _ (plain-calm tok (token-plain tok h))
      (refl, (refl, join-AllCalm (next ∷ ops) p))

-- What the scans find in a text of calm bytes: no comment and no colon.

pub before-comment : (s : List ℕ) → AllCalm s → before is_comment s ≡ s
before-comment [] p = refl
before-comment (c ∷ s) (h, p) =
    let e : is_comment c ≡ false = ground (arith, h) in
    rw e (ap (λ (t : List ℕ). c ∷ t) (before-comment s p))

pub has_byte-colon : (s : List ℕ) → AllCalm s → has_byte b':' s ≡ false
has_byte-colon [] p = refl
has_byte-colon (c ∷ s) (h, p) =
    let e : (c == b':') ≡ false = ground (arith, h) in rw e (has_byte-colon s p)

pub ends_in_colon_lem : (s : List ℕ) → AllCalm s → ends_in_colon s ≡ false
ends_in_colon_lem [] p = refl
ends_in_colon_lem (c ∷ []) (h, p) = ground (arith, h)
ends_in_colon_lem (c ∷ d ∷ s) (h, p) = ends_in_colon_lem (d ∷ s) p

-- A text is solid if its last byte is not blank.
abbrev pub Solid : List ℕ → Type 0
Solid s = (trim_end s ≡ s) × (s ≢ [])

pub Solid-cons : (c : ℕ) (s : List ℕ) → Solid s → Solid (c ∷ s)
Solid-cons c [] (e, n) = absurd (n refl)
Solid-cons c (d ∷ s) (e, n) = (rw e refl, λ t. cc)

pub Solid-append : (s t : List ℕ) → Solid t → Solid (s ++ t)
Solid-append [] t p = p
Solid-append (c ∷ s) t p = Solid-cons c (s ++ t) (Solid-append s t p)

pub token-Solid : (s : List ℕ) → IsToken s → Solid s
token-Solid [] p = absurd p
token-Solid (c ∷ []) (h, p) = let e : is_blank c ≡ false = ground (arith, h) in (rw e refl, λ t. cc)
token-Solid (c ∷ d ∷ s) (h, p) = Solid-cons c (d ∷ s) (token-Solid (d ∷ s) p)

pub join-Solid :
    (tok : List ℕ) (ops : List (List ℕ)) → AreTokens (tok ∷ ops) → Solid (join (tok ∷ ops))
join-Solid tok [] (h, p) = token-Solid tok h
join-Solid tok (next ∷ ops) (h, p) =
    Solid-append tok _ (Solid-cons b',' _ (Solid-cons b' ' _ (join-Solid next ops p)))

-- `clean` keeps a calm, solid text, and takes blanks off its front.
pub clean-token :
    (c : ℕ) (s : List ℕ)
    → is_blank c ≡ false
    → AllCalm (c ∷ s)
    → Solid (c ∷ s)
    → clean (c ∷ s) ≡ c ∷ s
unfolding clean
clean-token c s e p (t, n) = rw (before-comment (c ∷ s) p, e) t

pub clean-blank : (s : List ℕ) → clean (b' ' ∷ s) ≡ clean s
unfolding clean
clean-blank s = refl
