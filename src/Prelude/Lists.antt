-- ===== src/Prelude/Lists.antt =====
-- Lists measured and indexed by native numbers, the update of a map at a key, and the sequencing
-- of partial computations.
use Prim.Native.Nat.{ℕ, zero, suc, ◌+◌, ◌<◌}
use mathlib.Core.Path.{◌≡◌, refl, ap, subst}
use mathlib.Core.Logic.{◌≢◌, ◌⊎◌, inl, inr}
use mathlib.Core.List.{List, [], ◌∷◌, ◌++◌, map}
use mathlib.Core.Option.{Option, none, some}
use native.Mathlib.Omega.{arith}
use mocker.Prelude.Tests.{◌==◌, if◌then◌else◌}

module _ {ℓ} {A : Type ℓ} where
  abbrev pub length : List A → ℕ
  length [] = 0
  length (x ∷ xs) = suc (length xs)

  abbrev pub get_elem? : List A → ℕ → Option A
  get_elem? [] i = none
  get_elem? (x ∷ xs) zero = some x
  get_elem? (x ∷ xs) (suc i) = get_elem? xs i

  -- The element at an index changed by a function; out of range nothing changes.
  abbrev pub modify : List A → ℕ → (A → A) → List A
  modify [] i f = []
  modify (x ∷ xs) zero f = f x ∷ xs
  modify (x ∷ xs) (suc i) f = x ∷ modify xs i f

  pub length-append : (xs ys : List A) → length (xs ++ ys) ≡ length xs + length ys
  length-append [] ys = omega arith
  length-append (x ∷ xs) ys = omega (arith, length-append xs ys)

  pub length-modify : (xs : List A) (i : ℕ) (f : A → A) → length (modify xs i f) ≡ length xs
  length-modify [] i f = refl
  length-modify (x ∷ xs) zero f = refl
  length-modify (x ∷ xs) (suc i) f = ap suc (length-modify xs i f)

  pub get_elem?-modify_self :
      (xs : List A) (i : ℕ) (f : A → A) {a : A}
      → get_elem? xs i ≡ some a
      → get_elem? (modify xs i f) i ≡ some (f a)
  get_elem?-modify_self [] i f e = cc
  get_elem?-modify_self (x ∷ xs) zero f e = cc
  get_elem?-modify_self (x ∷ xs) (suc i) f e = get_elem?-modify_self xs i f e

  pub get_elem?-modify_ne :
      (xs : List A) (i j : ℕ) (f : A → A) → i ≢ j → get_elem? (modify xs i f) j ≡ get_elem? xs j
  get_elem?-modify_ne [] i j f h = refl
  get_elem?-modify_ne (x ∷ xs) zero zero f h = absurd (h refl)
  get_elem?-modify_ne (x ∷ xs) zero (suc j) f h = refl
  get_elem?-modify_ne (x ∷ xs) (suc i) zero f h = refl
  get_elem?-modify_ne (x ∷ xs) (suc i) (suc j) f h =
      get_elem?-modify_ne xs i j f (λ e. h (ap suc e))

  pub get_elem?-some : (xs : List A) (i : ℕ) → i < length xs → (a : A) × (get_elem? xs i ≡ some a)
  get_elem?-some [] i h = absurd (omega arith)
  get_elem?-some (x ∷ xs) zero h = (x, refl)
  get_elem?-some (x ∷ xs) (suc i) h = get_elem?-some xs i (omega arith)

  pub lt-of-get_elem? : (xs : List A) (i : ℕ) {a : A} → get_elem? xs i ≡ some a → i < length xs
  lt-of-get_elem? [] i e = cc
  lt-of-get_elem? (x ∷ xs) zero e = omega arith
  lt-of-get_elem? (x ∷ xs) (suc i) e = omega (arith, lt-of-get_elem? xs i e)

module _ {ℓ} {A : Type ℓ} where
  -- Where an element of a modified list comes from.
  pub get_elem?-modify_inv :
      (xs : List A) (k j : ℕ) (f : A → A) {b : A}
      → get_elem? (modify xs k f) j ≡ some b
      → (a : A) × (get_elem? xs j ≡ some a) × (((j ≡ k) × (b ≡ f a)) ⊎ ((j ≢ k) × (b ≡ a)))
  get_elem?-modify_inv [] k j f e = cc
  get_elem?-modify_inv (x ∷ xs) zero zero f e = (x, refl, inl (refl, cc))
  get_elem?-modify_inv (x ∷ xs) zero (suc j) f {b = b} e = (b, e, inr ((λ p. omega arith), refl))
  get_elem?-modify_inv (x ∷ xs) (suc k) zero f {b = b} e = (b, e, inr ((λ p. omega arith), refl))
  get_elem?-modify_inv (x ∷ xs) (suc k) (suc j) f e =
      let (a, p, cases) = get_elem?-modify_inv xs k j f e in
      elim cases [
        | inl (q, r) ↦ (a, p, inl (ap suc q, r))
        | inr (q, r) ↦ (a, p, inr ((λ (t : suc j ≡ suc k). q (omega arith)), r))
      ]

  pub get_elem?-map_inv :
      (xs : List A) (j : ℕ) (f : A → A) {b : A}
      → get_elem? (map f xs) j ≡ some b
      → (a : A) × (get_elem? xs j ≡ some a) × (b ≡ f a)
  get_elem?-map_inv [] j f e = cc
  get_elem?-map_inv (x ∷ xs) zero f e = (x, refl, cc)
  get_elem?-map_inv (x ∷ xs) (suc j) f e = get_elem?-map_inv xs j f e

  pub get_elem?-map :
      (xs : List A) (j : ℕ) (f : A → A) {a : A}
      → get_elem? xs j ≡ some a
      → get_elem? (map f xs) j ≡ some (f a)
  get_elem?-map [] j f e = cc
  get_elem?-map (x ∷ xs) zero f e = cc
  get_elem?-map (x ∷ xs) (suc j) f e = get_elem?-map xs j f e

  pub length-map : (xs : List A) (f : A → A) → length (map f xs) ≡ length xs
  length-map [] f = refl
  length-map (x ∷ xs) f = ap suc (length-map xs f)

module _ {ℓ} {A : Type ℓ} where
  pub get_elem?-append_inv :
      (xs : List A) (a : A) (i : ℕ) {b : A}
      → get_elem? (xs ++ a ∷ []) i ≡ some b
      → (get_elem? xs i ≡ some b) ⊎ ((i ≡ length xs) × (b ≡ a))
  get_elem?-append_inv [] a zero e = inr (refl, cc)
  get_elem?-append_inv [] a (suc i) e = cc
  get_elem?-append_inv (x ∷ xs) a zero e = inl e
  get_elem?-append_inv (x ∷ xs) a (suc i) e = elim (get_elem?-append_inv xs a i e) [
    | inl p ↦ inl p
    | inr (p, q) ↦ inr (ap suc p, q)
  ]

-- A map with the value at one key replaced.
abbrev pub update {ℓ} : {A : Type ℓ} → (ℕ → A) → ℕ → A → ℕ → A
update f i v j = if j == i then v else f j

infixl 5 ◌>>=◌
abbrev pub ◌>>=◌ {ℓ κ} : {A : Type ℓ} {B : Type κ} → Option A → (A → Option B) → Option B
none >>= f = none
some a >>= f = f a

-- What holds of the result of a partial computation, if there is one.
abbrev pub Ensures {ℓ κ} : {A : Type ℓ} → (A → Type κ) → Option A → Type κ
Ensures P none = Unit
Ensures P (some a) = P a

pub Ensures->>= {ℓ κ μ} :
    {A : Type ℓ} {B : Type κ} (P : A → Type μ) (Q : B → Type μ) (o : Option A) (f : A → Option B)
    → Ensures P o
    → ((a : A) → P a → Ensures Q (f a))
    → Ensures Q (o >>= f)
Ensures->>= P Q none f p q = tt
Ensures->>= P Q (some a) f p q = q a p

pub Ensures-some {ℓ κ} :
    {A : Type ℓ} (P : A → Type κ) {o : Option A} {a : A} → Ensures P o → o ≡ some a → P a
Ensures-some P p e = subst (Ensures P) e p

pub Ensures-always {ℓ} : {A : Type ℓ} (o : Option A) → Ensures {ℓ, 0} (λ (a : A). Unit) o
Ensures-always none = tt
Ensures-always (some a) = tt

pub Ensures-of {ℓ κ} :
    {A : Type ℓ} (P : A → Type κ) (o : Option A) → ((a : A) → o ≡ some a → P a) → Ensures P o
Ensures-of P none f = tt
Ensures-of P (some a) f = f a refl
