-- ===== src/Assembler/State.antt =====
-- assembler.h: the fields of `Assembler`, and the members that read an operand or append a word.
-- A member that may throw is partial, with `none` for the exception of `stoi`.
use mocker.Prelude.{
  ℕ, suc, ◌*◌, ◌==◌, ◌||◌, Bool, true, false, Option, none, some, List, [], ◌∷◌, ◌++◌,
  if◌then◌else◌, ltb, length, u32, add32, ◌>>=◌,
}
use mocker.Assembler.Text.{before, drop}
use mocker.Assembler.Immediate.{parse_imm}
use mocker.Assembler.Registers.{RegToken, register, bad, out_of_range, reg_token}

pub record Patch : Type 0 where
  pub idx : ℕ
  pub label : List ℕ
  pub instr_pc : ℕ

pub record Assembler : Type 0 where
  pub program : List ℕ
  pub label_defs : List (List ℕ × ℕ)
  pub patches : List Patch
  pub has_error : Bool
  pub base_addr : ℕ

-- A new assembler, with the base address that `loadFile` sets.
abbrev pub initial : ℕ → Assembler
initial base = record {
  program = [];
  label_defs = [];
  patches = [];
  has_error = false;
  base_addr = base;
}

abbrev pub fail : Assembler → Assembler
fail a = record a { has_error = true }

unfoldable pub current_pc : Assembler → ℕ
current_pc a = add32 a.base_addr (u32 (length a.program * 4))

unfoldable pub emit : Assembler → ℕ → Assembler
emit a w = record a { program = a.program ++ w ∷ [] }

unfoldable pub add_patch : Assembler → ℕ → List ℕ → ℕ → Assembler
add_patch a idx label pc = record a {
  patches = a.patches ++ record { idx = idx; label = label; instr_pc = pc } ∷ [];
}

unfoldable pub emit_branch_patch : Assembler → List ℕ → ℕ → Assembler
unfolding add_patch emit
emit_branch_patch a label partial =
    emit (add_patch a (length a.program) label (current_pc a)) partial

abbrev pub register_of : Assembler → RegToken → Option (ℕ × Assembler)
register_of a (register n) = some (n, a)
register_of a bad = some (0, fail a)
register_of a out_of_range = none

unfoldable pub parse_reg : Assembler → List ℕ → Option (ℕ × Assembler)
parse_reg a tok = register_of a (reg_token tok)

-- What `parseMemOperand` leaves in its reference parameters, if it returns true.
pub record MemOperand : Type 0 where
  pub base : ℕ
  pub offset : ℕ

abbrev pub has_byte : ℕ → List ℕ → Bool
has_byte b [] = false
has_byte b (c ∷ s) = (c == b) || has_byte b s

-- The token is cut at the first "(" and the first ")". Where the ")" stands in front, the length
-- `rp-lp-1` wraps around, and `substr` takes all that follows the "(".
abbrev pub inside_parens : List ℕ → List ℕ
inside_parens tok =
    let lp = length (before (λ c. c == b'(') tok) in
    let rp = length (before (λ c. c == b')') tok) in
    let inner = drop (suc lp) tok in if ltb rp lp then inner else before (λ c. c == b')') inner

unfoldable pub parse_mem_operand : Assembler → List ℕ → Option (Option MemOperand × Assembler)
parse_mem_operand a tok =
    if has_byte b'(' tok
    then (if has_byte b')' tok
        then (parse_reg a (inside_parens tok) >>= λ (n, b).
            some (some (record { base = n; offset = parse_imm (before (λ c. c == b'(') tok) }), b))
        else some (none, fail a))
    else some (none, fail a)
