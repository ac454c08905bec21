-- ===== src/Assembler/Resolved.antt =====
-- assembler.h: `resolveLabels` on the state that a list of items stands for.
use mocker.Prelude.{
  ℕ, ◌+◌, ◌^◌, ◌<◌, ◌≡◌, refl, inl, Bool, true, false, ◌&&◌, Option, none, some, List, [], ◌∷◌,
  ◌++◌, length, length-append, if_both, lookup, ◌>>=◌, sub32, arith, bytes,
}
use mathlib.Core.List.{append_assoc}
use mocker.Encode.{encode_i, encode_u, encode_b, encode_j}
use mocker.Encode.Opcode
use mocker.Encode.RoundTrip.{FitsSigned, decode-encode_j, decode-encode_b, decode-encode_u}
use mocker.Assembler.{lui_addi, patched}
use mocker.Assembler.State.{Patch}
use mocker.Assembler.Resolve.{is_low_label, resolve_patch, resolve_patches}
use mocker.Assembler.Items.{
  Item, word, label, jump, branch, address, IsItem, AreItems, placeholder, words_of, address_of,
  patch_at, item_patches, patches_of,
}
use mocker.Assembler.Settled.{
  Defs, aimed, named_defined, settle_named, settled, item_defined, settled_words, all_defined,
  settle, resolve_patch_lem, is_low_label-append,
}

zero_fits : (half : ℕ) → 0 < half → FitsSigned half 0
zero_fits half p = inl p

pub patched-encode_j :
    (rd target pc : ℕ)
    → rd < 32
    → patched (encode_j 0 rd Opcode.jal) target pc
      ≡ some (encode_j (sub32 target pc) rd Opcode.jal ∷ [])
unfolding patched
patched-encode_j rd target pc b =
    let (op, d, _) =
      decode-encode_j 0 rd Opcode.jal (zero_fits (2 ^ 20) (omega arith)) refl b (omega arith) in
    simp (op, d)

pub patched-encode_b :
    (rs2 rs1 funct3 target pc : ℕ)
    → rs2 < 32
    → rs1 < 32
    → funct3 < 8
    → patched (encode_b 0 rs2 rs1 funct3 Opcode.branch) target pc
      ≡ some (encode_b (sub32 target pc) rs2 rs1 funct3 Opcode.branch ∷ [])
unfolding patched
patched-encode_b rs2 rs1 funct3 target pc b2 b1 b3 =
    let (op, f3, s1, s2, _) =
      decode-encode_b 0 rs2 rs1 funct3 Opcode.branch (zero_fits (2 ^ 12) (omega arith)) refl b2 b1
        b3 (omega arith) in
    simp (op, f3, s1, s2)

pub patched-encode_u :
    (rd target pc : ℕ)
    → rd < 32
    → patched (encode_u 0 rd Opcode.lui) target pc ≡ some (lui_addi rd target)
unfolding patched
patched-encode_u rd target pc b =
    let (op, d, _) = decode-encode_u 0 rd Opcode.lui (omega arith) refl b (omega arith) in
    simp (op, d)

length-lui_addi : (rd target : ℕ) → length (lui_addi rd target) ≡ 2
unfolding lui_addi
length-lui_addi rd target = refl

and-true : (ok : Bool) → (ok && true) ≡ ok
and-true true = refl
and-true false = refl

and_assoc : (p q r : Bool) → ((p && q) && r) ≡ (p && (q && r))
and_assoc true q r = refl
and_assoc false q r = refl

-- The loop over the patches of one part of the program and then of the next.
abbrev then_patches : Defs → List Patch → Bool × List ℕ → Option (Bool × List ℕ)
then_patches defs patches (ok, q) = resolve_patches defs patches ok q

resolve_patches-append :
    (defs : Defs) (ps qs : List Patch) (ok : Bool) (program : List ℕ)
    → resolve_patches defs (ps ++ qs) ok program
      ≡ (resolve_patches defs ps ok program >>= then_patches defs qs)
unfolding resolve_patches
resolve_patches-append defs [] qs ok program = refl
resolve_patches-append defs (p ∷ ps) qs ok program =
    after_first (resolve_patch defs program p)
      (λ fine q. resolve_patches-append defs ps qs (ok && fine) q)
  where
    after_first :
        (o : Option (Bool × List ℕ))
        → ((fine : Bool) (q : List ℕ)
            → resolve_patches defs (ps ++ qs) (ok && fine) q
              ≡ (resolve_patches defs ps (ok && fine) q >>= then_patches defs qs))
        → (o >>= λ (fine, q). resolve_patches defs (ps ++ qs) (ok && fine) q)
          ≡ ((o >>= λ (fine, q). resolve_patches defs ps (ok && fine) q) >>= then_patches defs qs)
    after_first none later = refl
    after_first (some (fine, q)) later = later fine q

skip_low :
    (defs : Defs) (program : List ℕ) (p : Patch)
    → is_low_label (p.label) ≡ true
    → resolve_patch defs program p ≡ some (true, program)
unfolding resolve_patch
skip_low defs program p e = rw e refl

resolve_item :
    (defs : Defs) (base : ℕ) (item : Item) (ok : Bool) (before after : List ℕ)
    → IsItem item
    → resolve_patches defs
        (item_patches base (length before) item)
        ok
        (before ++ (placeholder item ++ after))
      ≡ some (
        ok && item_defined defs item,
        before ++ (settled defs base (length before) item ++ after),
      )
unfolding resolve_patches
resolve_item defs base (word w) ok before after i = rw (and-true ok) refl
resolve_item defs base (label name) ok before after i = rw (and-true ok) refl
resolve_item defs base (jump name rd) ok before after b =
    rw
      (resolve_patch_lem defs before after (encode_j 0 rd Opcode.jal) [] name
        (address_of base (length before)) (aimed base (length before) (jump name rd)) (λ t. refl)
        (λ t. patched-encode_j rd t _ b))
      refl
resolve_item defs base (branch name rs2 rs1 funct3) ok before after (b2, b1, b3) =
    rw
      (resolve_patch_lem defs before after (encode_b 0 rs2 rs1 funct3 Opcode.branch) [] name
        (address_of base (length before)) (aimed base (length before) (branch name rs2 rs1 funct3))
        (λ t. refl) (λ t. patched-encode_b rs2 rs1 funct3 t _ b2 b1 b3))
      refl
resolve_item defs base (address name rd) ok before after (n, b) =
    let first =
      resolve_patch_lem defs before after (encode_u 0 rd Opcode.lui)
        (encode_i 0 rd Opcode.f3_add_sub rd Opcode.i_arith ∷ []) name
        (address_of base (length before)) (lui_addi rd) (λ t. length-lui_addi rd t)
        (λ t. patched-encode_u rd t _ b) in
    rw
      (
        first,
        skip_low defs _ (patch_at base (length before + 1) (name ++ bytes "__lo"))
            (is_low_label-append name n),
        and-true (ok && named_defined defs name),
      )
      refl

-- The labels change no length.
length-settle_named :
    (defs : Defs) (name old : List ℕ) (new : ℕ → List ℕ)
    → ((target : ℕ) → length (new target) ≡ length old)
    → length (settle_named defs name old new) ≡ length old
length-settle_named defs name old new e =
    if_both (λ words. length words ≡ length old) (is_low_label name) refl
      (of_found (lookup name defs))
  where
    of_found : (found : Option ℕ) → length (settle found old new) ≡ length old
    of_found none = refl
    of_found (some target) = e target

pub length-settled :
    (defs : Defs) (base idx : ℕ) (item : Item)
    → length (settled defs base idx item) ≡ length (placeholder item)
length-settled defs base idx (word w) = refl
length-settled defs base idx (label name) = refl
length-settled defs base idx (jump name rd) = length-settle_named defs name _ _ (λ t. refl)
length-settled defs base idx (branch name rs2 rs1 funct3) =
    length-settle_named defs name _ _ (λ t. refl)
length-settled defs base idx (address name rd) =
    length-settle_named defs name _ _ (λ t. length-lui_addi rd t)

-- All placeholders, from the ones behind `before` on.
pub resolve_items :
    (defs : Defs) (base : ℕ) (items : List Item) (ok : Bool) (before : List ℕ)
    → AreItems items
    → resolve_patches defs (patches_of base (length before) items) ok (before ++ words_of items)
      ≡ some (ok && all_defined defs items, before ++ settled_words defs base (length before) items)
unfolding resolve_patches
resolve_items defs base [] ok before p = rw (and-true ok) refl
resolve_items defs base (item ∷ items) ok before (i, p) =
    let now = settled defs base (length before) item in
    let n = length (placeholder item) in
    let idx : length (before ++ now) ≡ length before + n =
      omega (arith, length-append before now, length-settled defs base (length before) item) in
    let later = resolve_items defs base items (ok && item_defined defs item) (before ++ now) p in
    rw
      (
        resolve_patches-append defs (item_patches base (length before) item)
            (patches_of base (length before + n) items) ok,
        resolve_item defs base item ok before (words_of items) i,
        ← idx,
        ← append_assoc before now (words_of items),
        ← append_assoc before now (settled_words defs base (length (before ++ now)) items),
        ← and_assoc ok (item_defined defs item) (all_defined defs items),
      )
      later
