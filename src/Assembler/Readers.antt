-- ===== src/Assembler/Readers.antt =====
-- assembler.h: reading an operand keeps what the state represents, and an arm that keeps or appends items
-- after its operands are read does so from their text.
use mocker.Prelude.{
  IsWord, ℕ, ◌<◌, ◌≤◌, sym, subst, inl, inr, Bool, Bool-cases, if_both, Option, none, List, [], ◌∷◌,
  ◌++◌, length, ltb, Ensures, Ensures->>=, arith,
}
use mathlib.Core.List.{append_assoc, append-nil}
use mocker.Assembler.Registers.{RegToken, register, bad, out_of_range, reg_token}
use mocker.Assembler.State.{
  Assembler, MemOperand, fail, emit, register_of, parse_reg, parse_mem_operand, has_byte,
  inside_parens,
}
use mocker.Assembler.Line.{with_operands, read_one, read_two}
use mocker.Assembler.Items
use mocker.Assembler.Items.{Item}
use mocker.Assembler.Represents.{Represents, fail-Represents, emit-Represents}
use mocker.Assembler.Operands.{IsRegister, reg_token-IsRegister}

-- Items appended to those that a state represents.
abbrev pub Grows : ℕ → List Item → Assembler → Type 0
Grows base items b = (more : List Item) × Represents base (items ++ more) b

abbrev pub ReadReg : ℕ → List Item → ℕ × Assembler → Type 0
ReadReg base items (n, b) = (n < 32) × Represents base items b

abbrev pub ReadMem : ℕ → List Item → Option MemOperand × Assembler → Type 0
ReadMem base items (m, b) = Represents base items b

-- What an arm does, result included.
abbrev pub LineGrows : ℕ → List Item → Bool × Assembler → Type 0
LineGrows base items (ok, b) = Grows base items b

module _ {base : ℕ} {items : List Item} where
  pub same : (a : Assembler) → Represents base items a → Grows base items a
  same a r = ([], subst (λ l. Represents base l a) (sym (append-nil items)) r)

  pub parse_reg-ReadReg :
      (a : Assembler) (tok : List ℕ)
      → Represents base items a
      → Ensures (ReadReg base items) (parse_reg a tok)
  unfolding parse_reg
  parse_reg-ReadReg a tok r = of_token (reg_token tok) (reg_token-IsRegister tok)
    where
      of_token : (t : RegToken) → IsRegister t → Ensures (ReadReg base items) (register_of a t)
      of_token (register n) h = (h, r)
      of_token bad h = (omega arith, fail-Represents r)
      of_token out_of_range h = tt

  module _ (a : Assembler) (tok : List ℕ) (r : Represents base items a) where
    pub read_one-Grows :
        (arm : ℕ → Assembler → Assembler)
        → ((n : ℕ) (b : Assembler) → n < 32 → Represents base items b → Grows base items (arm n b))
        → Ensures (Grows base items) (read_one a tok arm)
    read_one-Grows arm grows =
        Ensures->>= (ReadReg base items) (Grows base items) (parse_reg a tok) _
          (parse_reg-ReadReg a tok r) (λ (n, b) (h, s). grows n b h s)

    pub read_two-Grows :
        (other : List ℕ) (arm : ℕ → ℕ → Assembler → Assembler)
        → ((m n : ℕ) (b : Assembler)
            → m < 32
            → n < 32
            → Represents base items b
            → Grows base items (arm m n b))
        → Ensures (Grows base items) (read_two a tok other arm)
    read_two-Grows other arm grows =
        Ensures->>= (ReadReg base items) (Grows base items) (parse_reg a tok) _
          (parse_reg-ReadReg a tok r)
          (λ (m, b) (h, s).
            Ensures->>= (ReadReg base items) (Grows base items) (parse_reg b other) _
              (parse_reg-ReadReg b other s) (λ (n, c) (i, t). grows m n c h i t))

    pub parse_mem_operand-ReadMem : Ensures (ReadMem base items) (parse_mem_operand a tok)
    unfolding parse_mem_operand
    parse_mem_operand-ReadMem =
        let missing : ReadMem base items (none, fail a) = fail-Represents r in
        if_both (Ensures (ReadMem base items)) (has_byte b'(' tok)
          (if_both (Ensures (ReadMem base items)) (has_byte b')' tok)
            (Ensures->>= (ReadReg base items) (ReadMem base items) (parse_reg a (inside_parens tok))
              _ (parse_reg-ReadReg a (inside_parens tok) r) (λ (n, b) (h, s). s))
            missing)
          missing

  pub emits :
      (w : ℕ) (b : Assembler) → IsWord w → Represents base items b → Grows base items (emit b w)
  emits w b p r = (Items.word w ∷ [], emit-Represents r w p)

  pub with_operands-Grows :
      (n : ℕ) (a : Assembler) (ops : List (List ℕ)) (arm : Option Assembler)
      → Represents base items a
      → (n ≤ length ops → Ensures (Grows base items) arm)
      → Ensures (Grows base items) (with_operands n a ops arm)
  with_operands-Grows n a ops arm r grows = elim (Bool-cases (ltb (length ops) n)) [
    | inl e ↦ rw e (same (fail a) (fail-Represents r))
    | inr e ↦ let enough : n ≤ length ops = ground (arith, e) in rw e (grows enough)
  ]

pub behind :
    (base : ℕ) (items more : List Item) (b : Assembler)
    → Grows base (items ++ more) b
    → Grows base items b
behind base items more b (rest, r) =
    (more ++ rest, subst (λ l. Represents base l b) (append_assoc items more rest) r)
