-- ===== src/Prelude/Text.antt =====
-- Text as the list of its bytes: literals, the test for equality, and maps whose keys are texts.
use Prim.Native.Char.{code}
use Prim.Native.String.{String}
use Prim.Native.Nat.{ℕ}
use mathlib.Core.Path.{◌≡◌, refl, sym, subst}
use mathlib.Core.Bool.{Bool, true, false, ◌&&◌}
use mathlib.Core.Logic.{inl, inr}
use mathlib.Core.Option.{Option, none, some}
use mathlib.Core.List.{List, [], ◌∷◌}
use native.Mathlib.Omega.{arith}
use mocker.Prelude.Tests.{◌==◌, ==_self, if◌then◌else◌, Bool-cases}
use mocker.Prelude.Lists.{Ensures}

-- The bytes of a literal, which is ASCII.
abbrev pub bytes : String → List ℕ
bytes String.[] = []
bytes (String.◌∷◌ character text) = code character ∷ bytes text

abbrev pub equal : List ℕ → List ℕ → Bool
equal [] [] = true
equal [] (d ∷ t) = false
equal (c ∷ s) [] = false
equal (c ∷ s) (d ∷ t) = (c == d) && equal s t

pub equal_self : (s : List ℕ) → equal s s ≡ true
equal_self [] = refl
equal_self (c ∷ s) = ground (arith, ==_self c, equal_self s)

pub eq-of_equal : (s t : List ℕ) → equal s t ≡ true → s ≡ t
eq-of_equal [] [] e = refl
eq-of_equal [] (d ∷ t) e = cc
eq-of_equal (c ∷ s) [] e = cc
eq-of_equal (c ∷ s) (d ∷ t) e = ground (arith, eq-of_equal s t)

module _ {ℓ} {A : Type ℓ} where
  -- The value of the first entry with the key.
  abbrev pub lookup : List ℕ → List (List ℕ × A) → Option A
  lookup key [] = none
  lookup key ((name, a) ∷ rest) = if equal key name then some a else lookup key rest

  -- The value at the key replaced, or a new entry behind the others.
  abbrev pub insert : List ℕ → A → List (List ℕ × A) → List (List ℕ × A)
  insert key a [] = (key, a) ∷ []
  insert key a ((name, old) ∷ rest) =
      if equal key name then (name, a) ∷ rest else (name, old) ∷ insert key a rest

  -- What holds of all entries.
  abbrev pub AllEntries {κ} : (List ℕ → A → Type κ) → List (List ℕ × A) → Type κ
  AllEntries P [] = Unit
  AllEntries P ((name, a) ∷ rest) = P name a × AllEntries P rest

  pub Ensures-lookup {κ} :
      (P : List ℕ → A → Type κ) (m : List (List ℕ × A)) (key : List ℕ)
      → AllEntries P m
      → Ensures (P key) (lookup key m)
  Ensures-lookup P [] key all = tt
  Ensures-lookup P ((name, a) ∷ rest) key (first, all) = elim (Bool-cases (equal key name)) [
    | inl e ↦ rw e (subst (λ k. P k a) (sym (eq-of_equal key name e)) first)
    | inr e ↦ rw e (Ensures-lookup P rest key all)
  ]
