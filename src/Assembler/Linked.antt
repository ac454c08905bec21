-- ===== src/Assembler/Linked.antt =====
-- assembler.h: what resolveLabels, finalise and loadFile make of the state that the lines of a file lead to.
use mocker.Prelude.{
  ℕ, ◌≡◌, ◌≢◌, refl, ap, Bool, true, false, not, ◌&&◌, Option, none, some, List, [], ◌∷◌, ◌++◌,
  Ensures-some, if◌then◌else◌, if_both,
}
use mocker.Assembler.State.{Assembler, initial}
use mocker.Assembler.Line.{assemble_lines}
use mocker.Assembler.Resolve.{
  resolve_labels, finalise, Assembled, accepted, rejected, bad_index, after_lines, after_finalise,
  assemble_file,
}
use mocker.Assembler.Items.{Item}
use mocker.Assembler.Represents.{Represents, initial-Represents}
use mocker.Assembler.Readers.{Grows}
use mocker.Assembler.Refines.{assemble_lines-Grows}
use mocker.Assembler.Settled.{Defs, settled_words, item_defined, all_defined}
use mocker.Assembler.Resolved.{resolve_items}

-- The state with the placeholders of its items replaced.
abbrev pub resolved : ℕ → List Item → Assembler → Assembler
resolved base items a = record a { program = settled_words a.label_defs base 0 items }

pub resolve_labels-Represents :
    (base : ℕ) (items : List Item) (a : Assembler)
    → Represents base items a
    → resolve_labels a ≡ some (all_defined a.label_defs items, resolved base items a)
unfolding resolve_labels
resolve_labels-Represents base items a r =
    let done = resolve_items a.label_defs base items true [] r.are_items in
    rw (r.same_program, r.same_patches, done) refl

pub finalise-Represents :
    (base : ℕ) (items : List Item) (a : Assembler)
    → Represents base items a
    → finalise a ≡ some (all_defined a.label_defs items && not a.has_error, resolved base items a)
unfolding finalise
finalise-Represents base items a r = rw (resolve_labels-Represents base items a r) refl

-- An item that is defined does not count.
pub all_defined-middle :
    (defs : Defs) (front back : List Item) (item : Item)
    → item_defined defs item ≡ true
    → all_defined defs (front ++ item ∷ back) ≡ all_defined defs (front ++ back)
all_defined-middle defs [] back item e = rw e refl
all_defined-middle defs (first ∷ front) back item e =
    ap (λ (b : Bool). item_defined defs first && b) (all_defined-middle defs front back item e)

-- The state that the lines of a file lead to, unless the number of a register overflows an int:
-- it represents a list of items, and resolveLabels meets no index out of range and no
-- placeholder it does not know. It returns true exactly where every label that is patched is defined, and it
-- replaces the placeholder of each such item by its words, and nothing else.
pub resolve_labels-assemble_lines :
    (base : ℕ) (lines : List (List ℕ)) (a : Assembler)
    → assemble_lines (initial base) lines ≡ some a
    → (items : List Item) × Represents base items a
      × (resolve_labels a
          ≡ some (
            all_defined a.label_defs items,
            record a { program = settled_words a.label_defs base 0 items },
          ))
resolve_labels-assemble_lines base lines a e =
    let (items, r) =
      Ensures-some (Grows base [])
        (assemble_lines-Grows base lines [] (initial base) (initial-Represents base)) e in
    (items, r, resolve_labels-Represents base items a r)

and_false : (b : Bool) → (b && false) ≡ false
and_false true = refl
and_false false = refl

finished :
    (a b : Assembler) (ok : Bool)
    → finalise a ≡ some (ok && not a.has_error, b)
    → after_lines (some a) ≡ (if ok && not a.has_error then accepted b.program else rejected)
finished a b ok e = by_error a.has_error e
  where
    by_error :
        (error : Bool)
        → finalise a ≡ some (ok && not error, b)
        → (if error then rejected else after_finalise (finalise a))
          ≡ (if ok && not error then accepted b.program else rejected)
    by_error true f = rw (and_false ok) refl
    by_error false f = rw f refl

-- A file whose lines do not throw: the state that they lead to represents a list of items. The file is
-- accepted exactly if no line had an error and every label that a jump, a branch or la names is defined, those
-- that are longer than four bytes and end in "__lo" not asked for. The program is then the words of the
-- items, with each label that is asked for replaced by its address; the placeholders of the others stay.
pub assemble_file-assemble_lines :
    (base : ℕ) (lines : List (List ℕ)) (a : Assembler)
    → assemble_lines (initial base) lines ≡ some a
    → (items : List Item) × Represents base items a
      × (assemble_file base (some lines) ≡ (
          if all_defined a.label_defs items && not a.has_error
          then accepted (settled_words a.label_defs base 0 items)
          else rejected))
unfolding assemble_file
assemble_file-assemble_lines base lines a e =
    let (items, r, done) = resolve_labels-assemble_lines base lines a e in
    (
      items,
      r,
      rw e (
          finished a (resolved base items a) (all_defined a.label_defs items)
            (finalise-Represents base items a r)),
    )

-- No index is out of range, whatever the file holds.
pub assemble_file_in_range :
    (base : ℕ) (file : Option (List (List ℕ))) → assemble_file base file ≢ bad_index
assemble_file_in_range base none = unfold assemble_file in (λ e. cc)
assemble_file_in_range base (some lines) = of_lines (assemble_lines (initial base) lines) refl
  where
    of_lines :
        (o : Option Assembler)
        → assemble_lines (initial base) lines ≡ o
        → assemble_file base (some lines) ≢ bad_index
    of_lines none e = unfold assemble_file in rw e (λ f. cc)
    of_lines (some a) e =
        let (items, r, done) = assemble_file-assemble_lines base lines a e in
        rw done (
          if_both (λ (x : Assembled). x ≢ bad_index)
            (all_defined a.label_defs items && not a.has_error) (λ f. cc) (λ f. cc))
