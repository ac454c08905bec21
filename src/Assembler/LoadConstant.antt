-- ===== src/Assembler/LoadConstant.antt =====
-- assembler.h, encode.h and cpu.h: running the words of li leaves the constant in the register.
use mocker.Prelude.{
  ℕ, ◌+◌, ◌-◌, ◌*◌, ◌/◌, ◌%◌, ◌^◌, ◌<◌, ◌≡◌, ◌≢◌, inl, inr, refl, ap, ◌∙◌, true, not, ◌&&◌,
  Bool-cases, Option, some, List, [], ◌∷◌, length, ◌>>=◌, add32, sub32, sar32, lt_signed, ◌<<◌,
  arith, update, u64,
}
use native.Mathlib.Decide.{dec_lt}
use mocker.Memory.{ProtectedMemory}
use mocker.Encode.{encode_i, encode_u}
use mocker.Encode.Opcode
use mocker.Encode.RoundTrip.{FitsSigned, decode-encode_i, decode-encode_u}
use mocker.Cpu.State.{Hart, Stepped, retire, reg, set_reg, next_pc}
use mocker.Cpu.Alu.{alu_i, execute_i}
use mocker.Cpu.Control.{execute_lui}
use mocker.Cpu.{execute}
use mocker.Assembler.{lui_addi, li_words}

-- The words are executed one after the other.
abbrev pub execute_words : Hart → ProtectedMemory → List ℕ → Option Stepped
execute_words h m [] = some (record { ok = true; hart = h; mem = m })
execute_words h m (w ∷ words) = execute h m w >>= λ s. execute_words s.hart s.mem words

execute-addi :
    (h : Hart) (m : ProtectedMemory) (imm rs1 rd : ℕ)
    → FitsSigned (2 ^ 11) imm
    → rs1 < 32
    → rd < 32
    → execute h m (encode_i imm rs1 Opcode.f3_add_sub rd Opcode.i_arith)
      ≡ retire (set_reg h rd (add32 (reg h rs1) imm)) m (next_pc h)
unfolding execute execute_i alu_i
execute-addi h m imm rs1 rd fits a b =
    let (op, d, f3, s1, i) =
      decode-encode_i imm rs1 Opcode.f3_add_sub rd Opcode.i_arith fits a (omega arith) b
        (omega arith) in
    simp (op, d, f3, s1, i)

execute-lui :
    (h : Hart) (m : ProtectedMemory) (imm rd : ℕ)
    → imm < 2 ^ 32
    → imm % 2 ^ 12 ≡ 0
    → rd < 32
    → execute h m (encode_u imm rd Opcode.lui) ≡ retire (set_reg h rd imm) m (next_pc h)
unfolding execute execute_lui
execute-lui h m imm rd fits low b =
    let (op, d, i) = decode-encode_u imm rd Opcode.lui fits low b (omega arith) in simp (op, d, i)

-- `n` instructions later the register holds the value, and no other but x0 has changed.
pub record Loaded (h : Hart) (m : ProtectedMemory) (rd v n : ℕ) (s : Stepped) : Type 0 where
  pub same_mem : s.mem ≡ m
  pub value : s.hart.x rd ≡ v
  pub others : (r : ℕ) → r ≢ rd → r ≢ 0 → s.hart.x r ≡ h.x r
  pub pc : s.hart.pc ≡ (h.pc + 4 * n) % 2 ^ 32

abbrev pub Leaves : Hart → ProtectedMemory → ℕ → ℕ → List ℕ → Type 0
Leaves h m rd v words =
    (s : Stepped) × (execute_words h m words ≡ some s) × Loaded h m rd v (length words) s

-- The hart after an instruction that writes `v` to `rd`.
abbrev written : Hart → ℕ → ℕ → Hart
written h rd v = record (set_reg h rd v) {
  x = update (set_reg h rd v).x 0 0;
  pc = next_pc h;
  steps = u64 ((set_reg h rd v).steps + 1);
  csr = record ((set_reg h rd v).csr) { cycle = u64 ((set_reg h rd v).csr.cycle + 1) };
}

module _ (h : Hart) (rd v : ℕ) (n : rd ≢ 0) where
  written_value : (written h rd v).x rd ≡ v
  written_value = ground arith

  written_others : (r : ℕ) → r ≢ rd → r ≢ 0 → (written h rd v).x r ≡ h.x r
  written_others r a b = ground arith

  written_pc : (written h rd v).pc ≡ (h.pc + 4) % 2 ^ 32
  written_pc = refl

  reg-written : reg (written h rd v) rd ≡ v
  reg-written = ground arith

two_steps : (pc : ℕ) → add32 (add32 pc 4) 4 ≡ (pc + 4 * 2) % 2 ^ 32
two_steps pc = omega arith

reg_zero : (h : Hart) (v : ℕ) → v < 2 ^ 32 → add32 (reg h 0) v ≡ v
reg_zero h v b = omega arith

module _ (h : Hart) (m : ProtectedMemory) (rd v : ℕ) (n : rd ≢ 0) (rd_ok : rd < 32) where
  one_word-Leaves :
      (w : ℕ) → execute h m w ≡ retire (set_reg h rd v) m (next_pc h) → Leaves h m rd v (w ∷ [])
  one_word-Leaves w e = (
    record { ok = true; hart = written h rd v; mem = m },
    simp e,
    record {
      same_mem = refl;
      value = written_value h rd v n;
      others = written_others h rd v n;
      pc = refl;
    },
  )

  -- The upper part, and then a signed 12-bit immediate.
  two_words-Leaves :
      (upper low : ℕ)
      → upper < 2 ^ 32
      → upper % 2 ^ 12 ≡ 0
      → FitsSigned (2 ^ 11) low
      → add32 upper low ≡ v
      → Leaves h m rd v
          (encode_u upper rd Opcode.lui ∷ encode_i low rd Opcode.f3_add_sub rd Opcode.i_arith ∷ [])
  two_words-Leaves upper low a b c sum =
      let mid = written h rd upper in
      (
        record { ok = true; hart = written mid rd v; mem = m },
        simp (
          execute-lui h m upper rd a b rd_ok,
          execute-addi mid m low rd rd c rd_ok rd_ok,
          reg-written h rd upper n,
          sum,
        ),
        record {
          same_mem = refl;
          value = written_value mid rd v n;
          others = λ r p q. written_others mid rd v n r p q ∙ written_others h rd upper n r p q;
          pc = two_steps h.pc;
        },
      )

-- The upper part is the constant rounded to a multiple of 4096.
upper_part : (u : ℕ) → u < 2 ^ 32 → sar32 u 12 << 12 ≡ u / 2 ^ 12 * 2 ^ 12
upper_part u b = ground arith

low_part :
    (v : ℕ)
    → v < 2 ^ 32
    → let upper = add32 v 0x800 / 2 ^ 12 * 2 ^ 12 in
      FitsSigned (2 ^ 11) (sub32 v upper) × (add32 upper (sub32 v upper) ≡ v)
low_part v b =
    let low = sub32 v (add32 v 0x800 / 2 ^ 12 * 2 ^ 12) in
    (
      elim (dec_lt low (2 ^ 11)) [ yes p ↦ inl p | no p ↦ inr (omega arith, omega arith) ],
      omega arith,
    )

-- The test of `li` is the range of a signed 12-bit number.
short-FitsSigned :
    (v : ℕ)
    → v < 2 ^ 32
    → (not (lt_signed v (2 ^ 32 - 2048)) && not (lt_signed 2047 v)) ≡ true
    → FitsSigned (2 ^ 11) v
short-FitsSigned v b short = elim (dec_lt v (2 ^ 11)) [
  | yes p ↦ inl p
  | no p ↦ inr (ground arith, b)
]

module _ (h : Hart) (m : ProtectedMemory) (rd v : ℕ) (n : rd ≢ 0) (rd_ok : rd < 32)
    (fits : v < 2 ^ 32) where
  -- The same for the pair of words that `resolveLabels` writes for la.
  pub lui_addi-Leaves : Leaves h m rd v (lui_addi rd v)
  unfolding lui_addi
  lui_addi-Leaves =
      let (a, b) = low_part v fits in
      let e = upper_part (add32 v 0x800) (omega arith) in
      rw e (two_words-Leaves h m rd v n rd_ok _ _ (omega arith) (omega arith) a b)

  -- Running the words of li on a hart leaves the constant in the register, for any 32-bit constant and any
  -- register but x0. No other register but x0 changes, nor does memory, and the pc is behind the words.
  pub li_words-Leaves : Leaves h m rd v (li_words rd v)
  unfolding li_words
  li_words-Leaves =
      elim (Bool-cases (not (lt_signed v (2 ^ 32 - 2048)) && not (lt_signed 2047 v))) [
        | inl short ↦ rw short (
            one_word-Leaves h m rd v n rd_ok _ (
              execute-addi h m v 0 rd (short-FitsSigned v fits short) (omega arith) rd_ok
              ∙ ap (λ (x : ℕ). retire (set_reg h rd x) m (next_pc h)) (reg_zero h v fits)))
        | inr long ↦ rw long lui_addi-Leaves
      ]
