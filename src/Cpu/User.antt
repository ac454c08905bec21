-- ===== src/Cpu/User.antt =====
-- cpu.h, `executeOne` as a whole on a hart in U-mode.
use mocker.Prelude.{
  ℕ, ◌<◌, ◌≡◌, refl, inl, inr, true, false, ◌&&◌, ◌||◌, Bool-cases, Option, some, if◌then◌else◌,
  ◌==◌, arith, if_both, ap, ◌>>=◌,
}
use mocker.Csr.{user, interrupts_enabled}
use mocker.Csr.Cause
use mocker.Memory.{ProtectedMemory, MemFault, load_word}
use mocker.Memory.Layout.{max_harts}
use mocker.Memory.Raw.{word_at}
use mocker.Memory.Raw.{IsBytes}
use mocker.Memory.Protection.{Loads, load_word-Loads}
use mocker.Cpu.State.{Hart, Stepped, halted, deliver_trap, trap, is_user}
use mocker.Cpu.{execute, execute_one}
use mocker.Cpu.Arms.{Retires, Traps, Executes, trap-Executes, execute-Executes}

-- How a call of execute_one on a U-mode hart may end.
pub data Outcome (h : Hart) (m : ProtectedMemory) (s : Stepped) : Type 0 where
  retired : Retires h m s → Outcome h m s
  trapped : Traps h m s → Outcome h m s
  preempted :
      h.timer_pending ≡ true
      → interrupts_enabled h.csr ≡ true
      → s ≡ record {
        ok = false;
        hart = deliver_trap (record h { timer_pending = false }) Cause.timer_int 0;
        mem = m;
      }
      → Outcome h m s
  stopped : s ≡ record { ok = false; hart = record h { state = halted }; mem = m } → Outcome h m s

of_Executes :
    (h : Hart) (m : ProtectedMemory) (r : Option Stepped)
    → Executes h m r
    → (s : Stepped) × (r ≡ some s) × Outcome h m s
of_Executes h m r (s, e, inl p) = (s, e, retired p)
of_Executes h m r (s, e, inr p) = (s, e, trapped p)

-- What the fetched word leads to.
module _ (h : Hart) (m : ProtectedMemory) (user_id : h.id < max_harts) (in_user : h.mode ≡ user)
    (b : IsBytes m) where
  fetched-Outcome :
      (r : Option (MemFault × ℕ))
      → Loads h.id h.pc (word_at m h.pc) r
      → (s : Stepped) × ((r >>= λ (fault, instr).
            if fault.occurred
            then trap h m Cause.insn_fault h.pc
            else if instr == 0 || instr == 0xFFFFFFFF
            then some (record { ok = false; hart = record h { state = halted }; mem = m })
            else execute h m instr)
          ≡ some s)
        × Outcome h m s
  fetched-Outcome r l =
      let (f, cases) = l in
      let instr = word_at m h.pc in
      elim cases [
        | inl (e, out, p) ↦
            rw (p, e) (of_Executes h m _ (trap-Executes h m Cause.insn_fault h.pc (omega arith)))
        | inr (e, s, p) ↦
            rw (p, e)
              (if_both (λ (q : Option Stepped). (s : Stepped) × (q ≡ some s) × Outcome h m s)
                (instr == 0 || instr == 0xFFFFFFFF)
                (
                  record { ok = false; hart = record h { state = halted }; mem = m },
                  refl,
                  stopped refl,
                )
                (of_Executes h m _ (execute-Executes h m user_id in_user b instr)))
      ]

  -- On a U-mode hart with one of the eight ids, over an array of bytes, execute_one returns (no access is
  -- out of the array): an instruction is retired, a trap is delivered with memory unchanged, a pending timer
  -- interrupt is delivered while interrupts are enabled, or the hart halts with nothing else changed.
  pub execute_one_user : (s : Stepped) × (execute_one h m ≡ some s) × Outcome h m s
  unfolding execute_one
  execute_one_user =
      rw (ap is_user in_user)
        (elim (Bool-cases (h.timer_pending && interrupts_enabled h.csr && true)) [
          | inl e ↦ rw e (_, refl, preempted (ground arith) (ground arith) refl)
          | inr e ↦ rw e (
              fetched-Outcome (load_word m h.pc (some h.id))
                (load_word-Loads m h.pc h.id user_id b))
        ])
