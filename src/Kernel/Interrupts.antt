-- ===== src/Kernel/Interrupts.antt =====
-- kernel.h and cpu.h: what the system call RECV does to the interrupt enable bit of a hart that blocks,
-- and that the bit stays as it is from then on.
use mocker.Prelude.{
  ℕ, ◌<◌, ◌≡◌, ◌≢◌, refl, sym, ap, ◌∙◌, Bool, true, false, some, [], get_elem?, arith,
  get_elem?-modify_self,
}
use mocker.Csr.{user, interrupts_enabled, trap_enter, CsrFile, has}
use mocker.Csr.Cause
use mocker.Csr.MStatus
use mocker.Csr.Traps.{trap_enter_lem, trap_return-trap_enter}
use mocker.Memory.{ProtectedMemory}
use mocker.Memory.Layout.{max_harts}
use mocker.Memory.Raw.{IsBytes}
use mocker.Cpu.State.{Hart, waiting, halted, Stepped, deliver_trap}
use mocker.Cpu.User.{Outcome, retired, trapped, preempted, stopped, execute_one_user}
use mocker.Cpu.{execute_one}
use mocker.Kernel.Syscall
use mocker.Kernel.{System, Handled, edit, block, handle_trap, dispatch, handle_syscall, do_mret}

delivered_off :
    (h : Hart) (cause tval : ℕ) → interrupts_enabled (deliver_trap h cause tval).csr ≡ false
unfolding deliver_trap
delivered_off h cause tval = (trap_enter_lem h.csr h.pc cause tval h.mode).0

resumed_same :
    (h : Hart) (cause tval : ℕ) (advance : Bool)
    → interrupts_enabled (do_mret advance (deliver_trap h cause tval)).csr
      ≡ interrupts_enabled h.csr
unfolding deliver_trap do_mret
resumed_same h cause tval advance = (trap_return-trap_enter h.csr h.pc cause tval h.mode).1

-- A hart whose ecall RECV finds an empty queue waits in U-mode at that ecall with its interrupts disabled,
-- also if they were enabled: the kernel blocks it without the return from the trap.
pub handle_trap-recv_blocks :
    (s : System) (i : ℕ) (h : Hart)
    → get_elem? s.harts i ≡ some (deliver_trap h Cause.ecall_u 0)
    → h.x 17 ≡ Syscall.recv
    → s.queues h.id ≡ []
    → (q : Handled) × (g : Hart) × (handle_trap s i ≡ some q)
      × (get_elem? q.sys.harts i ≡ some g)
      × (g.state ≡ waiting)
      × (g.mode ≡ user)
      × (g.pc ≡ h.pc)
      × (interrupts_enabled g.csr ≡ false)
handle_trap-recv_blocks s i h here call queue = (
  record { resume = false; sys = edit s i block },
  block (deliver_trap h Cause.ecall_u 0),
  (unfold handle_trap dispatch handle_syscall deliver_trap trap_enter in simp (here, call, queue)),
  get_elem?-modify_self s.harts i block here,
  refl,
  refl,
  (unfold deliver_trap trap_enter in refl),
  delivered_off h Cause.ecall_u 0,
)

delivered_cause : (h : Hart) (cause tval : ℕ) → (deliver_trap h cause tval).csr.mcause ≡ cause
unfolding deliver_trap trap_enter
delivered_cause h cause tval = refl

same_enabled : (c d : CsrFile) → c.mstatus ≡ d.mstatus → interrupts_enabled c ≡ interrupts_enabled d
unfolding interrupts_enabled
same_enabled c d e = ap (λ (x : ℕ). has x MStatus.mie) e

-- A step that goes on leaves interrupts off. One that pauses halts the hart, or it is a trap that is no
-- timer interrupt and whose return leaves interrupts off.
pub data StaysOff (s : Stepped) : Type 0 where
  goes_on : s.ok ≡ true → interrupts_enabled s.hart.csr ≡ false → StaysOff s
  halts : s.ok ≡ false → s.hart.state ≡ halted → StaysOff s
  traps :
      s.ok ≡ false
      → s.hart.csr.mcause ≢ Cause.timer_int
      → ((advance : Bool) → interrupts_enabled (do_mret advance s.hart).csr ≡ false)
      → StaysOff s

Outcome-StaysOff :
    (h : Hart) (m : ProtectedMemory) (s : Stepped)
    → interrupts_enabled h.csr ≡ false
    → Outcome h m s
    → StaysOff s
Outcome-StaysOff h m s off (retired r) =
    goes_on r.goes_on (same_enabled s.hart.csr h.csr r.same_mstatus ∙ off)
Outcome-StaysOff h m s off (trapped t) =
    traps t.pauses (λ p. omega (arith, t.exception, clash t.cause t.tval t.delivered p))
      (λ advance. rw t.delivered (resumed_same h t.cause t.tval advance ∙ off))
  where
    clash :
        (cause tval : ℕ)
        → s.hart ≡ deliver_trap h cause tval
        → s.hart.csr.mcause ≡ Cause.timer_int
        → cause ≡ Cause.timer_int
    clash cause tval e p =
        sym (delivered_cause h cause tval) ∙ sym (ap (λ (g : Hart). g.csr.mcause) e) ∙ p
Outcome-StaysOff h m s off (preempted pending enabled e) = cc
Outcome-StaysOff h m s off (stopped e) =
    halts (ap (λ (r : Stepped). r.ok) e) (ap (λ (r : Stepped). r.hart.state) e)

-- A step of a U-mode hart whose interrupts are disabled returns and keeps them disabled: it delivers no
-- timer interrupt, and if it traps, the kernel's return from that trap leaves them disabled too.
pub execute_one-StaysOff :
    (h : Hart) (m : ProtectedMemory)
    → h.id < max_harts
    → h.mode ≡ user
    → IsBytes m
    → interrupts_enabled h.csr ≡ false
    → (s : Stepped) × (execute_one h m ≡ some s) × StaysOff s
execute_one-StaysOff h m small in_user b off =
    let (s, e, o) = execute_one_user h m small in_user b in (s, e, Outcome-StaysOff h m s off o)
