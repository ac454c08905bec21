-- ===== src/Assembler/RegisterNames.antt =====
-- assembler.h and cpu.h: the tokens that `parseReg` takes for a register.
use mocker.Prelude.{
  ℕ, zero, suc, ◌+◌, ◌-◌, ◌^◌, ◌<◌, ◌≡◌, ◌↔◌, inl, inr, refl, sym, ap, subst, ◌∙◌, Bool, true,
  false, ◌&&◌, ◌||◌, equal, eq-of_equal, ◌==◌, Bool-cases, Option, none, some, List, [], ◌∷◌, map,
  get_elem?, leb, Ensures, AllEntries, Ensures-lookup, lookup, bytes, if◌then◌else◌, arith,
}
use mathlib.Core.Option.{some-injective}
use mocker.Cpu.Names.{abi_names}
use mocker.Assembler.Text.{all, is_digit, to_lower}
use mocker.Assembler.Immediate.{read_digits}
use mocker.Assembler.Registers.{
  RegToken, register, bad, out_of_range, abi_map, abi_register, lower_register, reg_token,
}
use mocker.Assembler.Numerals.{digit, AllBelow, value, read_digits-value}

-- The names of a register in lower case: that of ABI_NAMES, fp for s0, or an x and its number, which
-- may begin with zeros.
pub data Names (s : List ℕ) (n : ℕ) : Type 0 where
  abi_name : get_elem? abi_names n ≡ some s → Names s n
  frame_pointer : s ≡ bytes "fp" → n ≡ 8 → Names s n
  numbered :
      (first : ℕ) (rest : List ℕ)
      → AllBelow 10 (first ∷ rest)
      → s ≡ b'x' ∷ map digit (first ∷ rest)
      → value 10 (first ∷ rest) ≡ n
      → n < 32
      → Names s n

and-both : (p q : Bool) → (p && q) ≡ true → (p ≡ true) × (q ≡ true)
and-both true q e = (refl, e)
and-both false q e = cc

-- The table of the assembler against the names of the output, entry by entry.
abbrev is_entry : ℕ → List ℕ → Option (List ℕ) → Bool
is_entry n name none = false
is_entry n name (some other) = equal name other || (equal name (bytes "fp") && (n == 8))

abbrev are_entries : List (List ℕ × ℕ) → Bool
are_entries [] = true
are_entries ((name, n) ∷ rest) = is_entry n name (get_elem? abi_names n) && are_entries rest

is_entry-Names :
    (n : ℕ) (name : List ℕ) (o : Option (List ℕ))
    → get_elem? abi_names n ≡ o
    → is_entry n name o ≡ true
    → Names name n
is_entry-Names n name none at e = cc
is_entry-Names n name (some other) at e = elim (Bool-cases (equal name other)) [
  | inl same ↦ abi_name (at ∙ ap some (sym (eq-of_equal name other same)))
  | inr different ↦
      let (fp, eight) = and-both (equal name (bytes "fp")) (n == 8) (rw different at e) in
      frame_pointer (eq-of_equal name (bytes "fp") fp) (ground (arith, eight))
]

are_entries-Names : (m : List (List ℕ × ℕ)) → are_entries m ≡ true → AllEntries Names m
are_entries-Names [] e = tt
are_entries-Names ((name, n) ∷ rest) e =
    let (first, others) = and-both (is_entry n name (get_elem? abi_names n)) (are_entries rest) e in
    (is_entry-Names n name (get_elem? abi_names n) refl first, are_entries-Names rest others)

abi_map-Names : AllEntries Names abi_map
unfolding abi_map abi_names
abi_map-Names = are_entries-Names abi_map refl

-- The entries of ABI_NAMES from an index on are read as their indices.
abbrev is_token : ℕ → RegToken → Bool
is_token n (register k) = k == n
is_token n bad = false
is_token n out_of_range = false

abbrev read_from : ℕ → List (List ℕ) → Bool
read_from n [] = true
read_from n (name ∷ names) = is_token n (lower_register name) && read_from (n + 1) names

abi_names-read_from : read_from 0 abi_names ≡ true
unfolding abi_names lower_register abi_register abi_map read_digits
abi_names-read_from = refl

is_token_lem : (n : ℕ) (t : RegToken) → is_token n t ≡ true → t ≡ register n
is_token_lem n (register k) e = let same : k ≡ n = ground (arith, e) in ap register same
is_token_lem n bad e = cc
is_token_lem n out_of_range e = cc

read_from-get_elem? :
    (start i : ℕ) (names : List (List ℕ)) {s : List ℕ}
    → read_from start names ≡ true
    → get_elem? names i ≡ some s
    → lower_register s ≡ register (start + i)
read_from-get_elem? start i [] p e = cc
read_from-get_elem? start zero (name ∷ names) p e =
    let (first, others) =
      and-both (is_token start (lower_register name)) (read_from (start + 1) names) p in
    rw (← some-injective _ _ e) (is_token_lem start _ first ∙ ap register (omega arith))
read_from-get_elem? start (suc i) (name ∷ names) p e =
    let (first, others) =
      and-both (is_token start (lower_register name)) (read_from (start + 1) names) p in
    read_from-get_elem? (start + 1) i names others e ∙ ap register (omega arith)

-- Texts of digits.

all-is_digit : (ds : List ℕ) → AllBelow 10 ds → all is_digit (map digit ds) ≡ true
all-is_digit [] p = refl
all-is_digit (d ∷ ds) (h, p) =
    let e : is_digit (digit d) ≡ true = ground arith in rw e (all-is_digit ds p)

abbrev digits_of : List ℕ → List ℕ
digits_of s = map (λ c. c - 48) s

digits_of_lem :
    (s : List ℕ) → all is_digit s ≡ true → (s ≡ map digit (digits_of s)) × AllBelow 10 (digits_of s)
digits_of_lem [] e = (refl, tt)
digits_of_lem (c ∷ s) e =
    let (first, others) = and-both (is_digit c) (all is_digit s) e in
    let (same, below) = digits_of_lem s others in
    let back : c ≡ digit (c - 48) = ground (arith, first) in
    let small : c - 48 < 10 = ground (arith, first) in (cc (back, same), (small, below))

lower_register-numbered :
    (first : ℕ) (rest : List ℕ) (n : ℕ)
    → AllBelow 10 (first ∷ rest)
    → value 10 (first ∷ rest) ≡ n
    → n < 32
    → lower_register (b'x' ∷ map digit (first ∷ rest)) ≡ register n
unfolding lower_register
lower_register-numbered first rest n p v small =
    let int : leb (2 ^ 31) n ≡ false = ground arith in
    let fits : leb n 31 ≡ true = ground arith in
    rw
      (
        all-is_digit (first ∷ rest) p,
        read_digits-value 10 (first ∷ rest) (omega arith) p,
        v,
        int,
        fits,
      )
      refl

lower_register-Names : (s : List ℕ) (n : ℕ) → Names s n → lower_register s ≡ register n
lower_register-Names s n (abi_name e) =
    read_from-get_elem? 0 n abi_names abi_names-read_from e ∙ ap register (omega arith)
lower_register-Names s n (frame_pointer e f) = rw (e, f) fp
  where
    fp : lower_register (bytes "fp") ≡ register 8
    fp = unfold lower_register in unfold abi_register in unfold abi_map in refl
lower_register-Names s n (numbered first rest p e v small) =
    rw e (lower_register-numbered first rest n p v small)

entry-Names :
    (s : List ℕ) (n : ℕ) (o : Option ℕ)
    → Ensures (Names s) o
    → elim o [ none ↦ bad | some k ↦ register k ] ≡ register n
    → Names s n
entry-Names s n none p e = cc
entry-Names s n (some k) p e = let same : k ≡ n = cc e in subst (Names s) same p

abi_register-Names : (s : List ℕ) (n : ℕ) → abi_register s ≡ register n → Names s n
unfolding abi_register
abi_register-Names s n e =
    entry-Names s n (lookup s abi_map) (Ensures-lookup Names abi_map s abi_map-Names) e

of_number :
    (c d : ℕ) (t : List ℕ) (n k : ℕ)
    → ((c == b'x') && all is_digit (d ∷ t)) ≡ true
    → read_digits 10 0 (d ∷ t) ≡ k
    → (if leb (2 ^ 31) k
        then out_of_range
        else if leb k 31
        then register k
        else abi_register (c ∷ d ∷ t))
      ≡ register n
    → Names (c ∷ d ∷ t) n
of_number c d t n k h r e =
    let (x, ds) = and-both (c == b'x') (all is_digit (d ∷ t)) h in
    let (same, below) = digits_of_lem (d ∷ t) ds in
    let is_x : c ≡ b'x' = ground (arith, x) in
    let v : value 10 (digits_of (d ∷ t)) ≡ k =
      sym (read_digits-value 10 (digits_of (d ∷ t)) (omega arith) below)
      ∙ ap (read_digits 10 0) (sym same)
      ∙ r in
    elim (Bool-cases (leb (2 ^ 31) k)) [
      | inl big ↦ (let f : out_of_range ≡ register n = rw big at e in absurd (cc f))
      | inr int ↦ elim (Bool-cases (leb k 31)) [
        | inl small ↦
            (let f : register k ≡ register n = rw small at (rw int at e) in
              let is_n : k ≡ n = cc f in
              let bound : n < 32 = ground (arith, small, is_n) in
              numbered (d - 48) (digits_of t) below (cc (is_x, same)) (v ∙ is_n) bound)
        | inr large ↦ abi_register-Names (c ∷ d ∷ t) n (rw int at (rw large at e))
      ]
    ]

Names-lower_register : (s : List ℕ) (n : ℕ) → lower_register s ≡ register n → Names s n
unfolding lower_register
Names-lower_register [] n e = abi_register-Names [] n e
Names-lower_register (c ∷ []) n e = abi_register-Names (c ∷ []) n e
Names-lower_register (c ∷ d ∷ t) n e = elim (Bool-cases ((c == b'x') && all is_digit (d ∷ t))) [
  | inl h ↦ of_number c d t n (read_digits 10 0 (d ∷ t)) h refl (rw h at e)
  | inr h ↦ abi_register-Names (c ∷ d ∷ t) n (rw h at e)
]

-- A token is taken for the register `n` exactly if in lower case it is the name that ABI_NAMES gives the register,
-- is fp with 8 for `n`, or is an x and a decimal numeral of `n`, with leading zeros or without, below 32.
pub reg_token_iff :
    (tok : List ℕ) (n : ℕ) → (reg_token tok ≡ register n) ↔ Names (map to_lower tok) n
unfolding reg_token
reg_token_iff tok n =
    (Names-lower_register (map to_lower tok) n, lower_register-Names (map to_lower tok) n)
