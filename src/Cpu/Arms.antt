-- ===== src/Cpu/Arms.antt =====
-- cpu.h, the cases of `executeOne` on a hart in U-mode: each retires an instruction or traps.
use mocker.Prelude.{
  ℕ, ◌+◌, ◌%◌, ◌^◌, ◌<◌, ◌≡◌, refl, ◌⊎◌, inl, inr, Bool, true, false, Option, none, some,
  if◌then◌else◌, ◌==◌, update, u64, arith, if_both, add32, ap,
}
use mocker.Csr.{user}
use mocker.Csr.Cause
use mocker.Memory.{ProtectedMemory, MemFault}
use mocker.Memory.Layout.{max_harts}
use mocker.Memory.Raw.{
  IsBytes, with_word, with_half, with_byte, with_word-IsBytes, with_half-IsBytes, with_byte-IsBytes,
}
use mocker.Memory.Protection.{
  InSlot, Confined, Stores, Loads, store_word-Stores, store_half-Stores, store_byte-Stores,
  load_word-Loads, load_half-Loads, load_byte-Loads,
}
use mocker.Cpu.State.{Hart, Stepped, deliver_trap, trap, retire, reg, set_reg, next_pc, is_user}
use mocker.Cpu.Alu.{finish, execute_r, execute_i}
use mocker.Cpu.Access.{execute_load, execute_store, finish_load, finish_store}
use mocker.Cpu.Control.{
  finish_branch, execute_branch, execute_jal, execute_jalr, execute_lui, execute_auipc,
}
use mocker.Cpu.System.{execute_system}
use mocker.Encode.{
  decode_rd, decode_funct3, decode_rs1, decode_rs2, decode_imm_i, decode_imm_s, sign_ext,
  decode_opcode,
}
use mocker.Encode.Opcode
use mocker.Cpu.{execute}

-- An instruction is retired: the hart stays itself, x0 is 0, the step is counted, and memory changes in the
-- hart's own slot and the three bytes behind it at most.
pub record Retires (h : Hart) (m : ProtectedMemory) (s : Stepped) : Type 0 where
  pub goes_on : s.ok ≡ true
  pub same_id : s.hart.id ≡ h.id
  pub same_state : s.hart.state ≡ h.state
  pub same_mode : s.hart.mode ≡ h.mode
  pub same_mstatus : s.hart.csr.mstatus ≡ h.csr.mstatus
  pub same_timer : s.hart.timer_pending ≡ h.timer_pending
  pub zero_reg : s.hart.x 0 ≡ 0
  pub counted : s.hart.steps ≡ u64 (h.steps + 1)
  pub confined : Confined h.id 3 m s.mem
  pub bytes : IsBytes s.mem

-- A trap is delivered, and memory is as it was.
pub record Traps (h : Hart) (m : ProtectedMemory) (s : Stepped) : Type 0 where
  pub pauses : s.ok ≡ false
  pub cause : ℕ
  pub tval : ℕ
  pub exception : cause < 12
  pub delivered : s.hart ≡ deliver_trap h cause tval
  pub same_mem : s.mem ≡ m

abbrev pub Executes : Hart → ProtectedMemory → Option Stepped → Type 0
Executes h m r = (s : Stepped) × (r ≡ some s) × (Retires h m s ⊎ Traps h m s)

module _ (h : Hart) (m : ProtectedMemory) where
  pub trap-Executes : (cause tval : ℕ) → cause < 12 → Executes h m (trap h m cause tval)
  trap-Executes cause tval e = (
    record { ok = false; hart = deliver_trap h cause tval; mem = m },
    refl,
    inr (record {
      pauses = refl;
      cause = cause;
      tval = tval;
      exception = e;
      delivered = refl;
      same_mem = refl;
    }),
  )

  retire-Executes :
      (rd v pc : ℕ) (m' : ProtectedMemory)
      → Confined h.id 3 m m'
      → IsBytes m'
      → Executes h m (retire (set_reg h rd v) m' pc)
  retire-Executes rd v pc m' c b = (
    record {
      ok = true;
      hart = record (set_reg h rd v) {
        x = update (set_reg h rd v).x 0 0;
        pc = pc;
        steps = u64 ((set_reg h rd v).steps + 1);
        csr = record ((set_reg h rd v).csr) { cycle = u64 ((set_reg h rd v).csr.cycle + 1) };
      };
      mem = m';
    },
    refl,
    inl (record {
      goes_on = refl;
      same_id = ground arith;
      same_state = ground arith;
      same_mode = ground arith;
      same_mstatus = ground arith;
      same_timer = ground arith;
      zero_reg = ground arith;
      counted = ground arith;
      confined = c;
      bytes = b;
    }),
  )

  still : Confined h.id 3 m m
  still j o = refl

  finish_load-Executes :
      (rd addr a value : ℕ) (extend : ℕ → ℕ) (r : Option (MemFault × ℕ))
      → IsBytes m
      → Loads h.id a value r
      → Executes h m (finish_load h m rd addr extend r)
  finish_load-Executes rd addr a value extend r b l =
      let (f, cases) = l in
      elim cases [
        | inl (e, out, p) ↦ rw (p, e) (trap-Executes Cause.load_fault addr (omega arith))
        | inr (e, s, p) ↦ rw (p, e) (retire-Executes rd (extend value) (next_pc h) m still b)
      ]

  finish_store-Executes :
      (addr a : ℕ) (done : ProtectedMemory) (r : Option (MemFault × ProtectedMemory))
      → (InSlot h.id a → Confined h.id 3 m done)
      → IsBytes done
      → Stores h.id a m done r
      → Executes h m (finish_store h m addr r)
  finish_store-Executes addr a done r c b st =
      let (f, cases) = st in
      elim cases [
        | inl (e, out, p) ↦ rw (p, e) (trap-Executes Cause.store_fault addr (omega arith))
        | inr (e, s, p) ↦ rw (p, e) (retire-Executes 0 0 (next_pc h) done (c s) b)
      ]

  finish-Executes : (instr : ℕ) (r : Option ℕ) → IsBytes m → Executes h m (finish h m instr r)
  finish-Executes instr none b = trap-Executes Cause.illegal_insn instr (omega arith)
  finish-Executes instr (some v) b = retire-Executes _ v _ m still b

  finish_branch-Executes :
      (instr : ℕ) (r : Option Bool) → IsBytes m → Executes h m (finish_branch h m instr r)
  finish_branch-Executes instr none b = trap-Executes Cause.illegal_insn instr (omega arith)
  finish_branch-Executes instr (some taken) b = retire-Executes 0 0 _ m still b

  either :
      (t : Bool) {x y : Option Stepped}
      → Executes h m x
      → Executes h m y
      → Executes h m (if t then x else y)
  either t = if_both (Executes h m) t

  module _ (user_id : h.id < max_harts) (in_user : h.mode ≡ user) (b : IsBytes m) (instr : ℕ) where
    user_test : is_user h.mode ≡ true
    user_test = ap is_user in_user

    f3_is : ℕ → Bool
    f3_is k = decode_funct3 instr == k

    load-Executes : Executes h m (execute_load h m instr)
    unfolding execute_load
    load-Executes =
        let a = add32 (reg h (decode_rs1 instr)) (decode_imm_i instr) in
        let word = λ (v : ℕ). v in
        let by_byte = load_byte-Loads m a h.id user_id b in
        let by_half = load_half-Loads m a h.id user_id b in
        let by_word = load_word-Loads m a h.id user_id b in
        let f3 = decode_funct3 instr in
        let finish = finish_load-Executes (decode_rd instr) a a in
        rw user_test (
          either (f3 == 0) (finish _ (λ v. sign_ext v 8) _ b by_byte) (
            either (f3 == 1) (finish _ (λ v. sign_ext v 16) _ b by_half) (
              either (f3 == 2) (finish _ word _ b by_word) (
                either (f3 == 4) (finish _ word _ b by_byte) (
                  either (f3 == 5) (finish _ word _ b by_half)
                    (trap-Executes Cause.illegal_insn instr (omega arith)))))))

    store-Executes : Executes h m (execute_store h m instr)
    unfolding execute_store
    store-Executes =
        let a = add32 (reg h (decode_rs1 instr)) (decode_imm_s instr) in
        let v = reg h (decode_rs2 instr) in
        let f3 = decode_funct3 instr in
        rw user_test (
          either (f3 == 0)
            (finish_store-Executes a a (with_byte m a (v % 2 ^ 8)) _ (λ s j o. ground arith)
              (with_byte-IsBytes m a (v % 2 ^ 8) (omega arith) b)
              (store_byte-Stores m a h.id user_id (v % 2 ^ 8)))
            (either (f3 == 1)
              (finish_store-Executes a a (with_half m a (v % 2 ^ 16)) _ (λ s j o. ground arith)
                (with_half-IsBytes m a (v % 2 ^ 16) b)
                (store_half-Stores m a h.id user_id (v % 2 ^ 16)))
              (either (f3 == 2)
                (finish_store-Executes a a (with_word m a v) _ (λ s j o. ground arith)
                  (with_word-IsBytes m a v b) (store_word-Stores m a h.id user_id v))
                (trap-Executes Cause.illegal_insn instr (omega arith)))))

    system-Executes : Executes h m (execute_system h m instr)
    unfolding execute_system
    system-Executes = rw user_test (
        either (instr == 0x00000073) (trap-Executes Cause.ecall_u 0 (omega arith)) (
          either (instr == 0x00100073) (trap-Executes Cause.breakpoint h.pc (omega arith)) (
            either (instr == 0x30200073) (trap-Executes Cause.illegal_insn instr (omega arith))
              (trap-Executes Cause.illegal_insn instr (omega arith)))))

    pub execute-Executes : Executes h m (execute h m instr)
    unfolding execute execute_r execute_i execute_branch execute_jal execute_jalr execute_lui
        execute_auipc
    execute-Executes =
        let op = decode_opcode instr in
        let rd = decode_rd instr in
        either (op == Opcode.r_type) (finish-Executes instr _ b) (
          either (op == Opcode.i_arith) (finish-Executes instr _ b) (
            either (op == Opcode.load) load-Executes (
              either (op == Opcode.store) store-Executes (
                either (op == Opcode.branch) (finish_branch-Executes instr _ b) (
                  either (op == Opcode.jal) (retire-Executes rd _ _ m still b) (
                    either (op == Opcode.jalr) (retire-Executes rd _ _ m still b) (
                      either (op == Opcode.lui) (retire-Executes rd _ _ m still b) (
                        either (op == Opcode.auipc) (retire-Executes rd _ _ m still b) (
                          either (op == Opcode.system) system-Executes
                            (trap-Executes Cause.illegal_insn instr (omega arith)))))))))))
