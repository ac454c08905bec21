-- ===== src/Assembler/Resolve.antt =====
-- assembler.h, `resolveLabels` and `finalise`, and `loadFile` with the file given by its lines.
use mocker.Prelude.{
  ℕ, ◌+◌, ◌-◌, ◌&&◌, not, Bool, true, false, Option, none, some, List, [], ◌∷◌, if◌then◌else◌, ltb,
  length, get_elem?, modify, ◌>>=◌, bytes, equal, lookup,
}
use mocker.Assembler.{patched}
use mocker.Assembler.Text.{drop}
use mocker.Assembler.State.{Assembler, Patch, initial}
use mocker.Assembler.Line.{assemble_lines}

-- Longer than 4, and "__lo" at the end.
abbrev pub is_low_label : List ℕ → Bool
is_low_label label = ltb 4 (length label) && equal (drop (length label - 4) label) (bytes "__lo")

-- The words written from an index on; `none` is a write behind the end of the program.
abbrev pub write_words : List ℕ → ℕ → List ℕ → Option (List ℕ)
write_words program i [] = some program
write_words program i (w ∷ words) =
    let rest = write_words (modify program i (λ _. w)) (i + 1) words in
    if ltb i (length program) then rest else none

abbrev pub write_patched : List ℕ → ℕ → Option (List ℕ) → Option (Bool × List ℕ)
write_patched program i none = some (false, program)
write_patched program i (some words) = write_words program i words >>= λ q. some (true, q)

abbrev pub resolve_found : List ℕ → Patch → Option ℕ → Option (Bool × List ℕ)
resolve_found program p none = some (false, program)
resolve_found program p (some target) =
    get_elem? program p.idx >>= λ old. write_patched program p.idx (patched old target p.instr_pc)

-- The body of the loop: whether `ok` is kept, and the program.
unfoldable pub resolve_patch : List (List ℕ × ℕ) → List ℕ → Patch → Option (Bool × List ℕ)
resolve_patch label_defs program p =
    if is_low_label p.label
    then some (true, program)
    else resolve_found program p (lookup p.label label_defs)

unfoldable pub resolve_patches :
    List (List ℕ × ℕ) → List Patch → Bool → List ℕ → Option (Bool × List ℕ)
resolve_patches label_defs [] ok program = some (ok, program)
resolve_patches label_defs (p ∷ patches) ok program =
    resolve_patch label_defs program p >>= λ (fine, q).
    resolve_patches label_defs patches (ok && fine) q

unfoldable pub resolve_labels : Assembler → Option (Bool × Assembler)
unfolding resolve_patches
resolve_labels a = resolve_patches a.label_defs a.patches true a.program >>= λ (ok, q).
    some (ok, record a { program = q })

unfoldable pub finalise : Assembler → Option (Bool × Assembler)
unfolding resolve_labels
finalise a = resolve_labels a >>= λ (ok, b). some (ok && not b.has_error, b)

-- What comes of a file: the program if `loadFile` and `finalise` return true, or the exception of `stoi` in
-- `parseReg`, or an index behind the end of the program in `resolveLabels`.
pub data Assembled : Type 0 where
  accepted : List ℕ → Assembled
  rejected : Assembled
  thrown : Assembled
  bad_index : Assembled

abbrev pub after_finalise : Option (Bool × Assembler) → Assembled
after_finalise none = bad_index
after_finalise (some (fine, b)) = if fine then accepted b.program else rejected

abbrev pub after_lines : Option Assembler → Assembled
after_lines none = thrown
after_lines (some a) = if a.has_error then rejected else after_finalise (finalise a)

-- `loadFile` and `finalise` on the lines of a file, or `none` in their place for a file that cannot be
-- opened.
unfoldable pub assemble_file : ℕ → Option (List (List ℕ)) → Assembled
assemble_file base none = rejected
assemble_file base (some lines) = after_lines (assemble_lines (initial base) lines)
