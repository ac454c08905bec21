-- ===== src/Kernel/Handler.antt =====
-- kernel.h: the trap handler returns on every trap from U-mode and keeps the system sound.
use mocker.Prelude.{
  ℕ, zero, suc, ◌<◌, ◌≡◌, ◌≢◌, refl, ◌∙◌, inl, inr, true, false, Bool-cases, ◌||◌, ◌==◌, Option,
  some, List, [], ◌∷◌, length, lt-of-get_elem?, length-modify, if_both, arith, is_negative, leb,
  update, ◌++◌, add32,
}
use mocker.Csr.Cause
use mocker.Memory.{ProtectedMemory}
use mocker.Memory.Layout.{max_harts}
use mocker.Memory.Raw.{IsBytes}
use mocker.Memory.Protection.{load_byte-Loads}
use mocker.Cpu.State.{Hart, HartState, running, halted, waiting, faulted}
use mocker.Kernel.Syscall
use mocker.Kernel.Sound.{with_log}
use mocker.Kernel.Sound.{
  IsSound, IsTrapped, Handles, edit-IsSound, edit-IsTrapped, resumed-Handles, stopped-Handles,
  with_log-IsTrapped, set_x-IsTrapped, wake-IsTrapped,
}
use mocker.Kernel.{
  System, Handled, Message, Output, edit, say, set_x, do_mret, read_string, print_string, wake,
  send, block, deliver, receive, handle_syscall, dispatch, handle_trap, print_str, stopped,
}

-- PRINT_STR reads through the protection, so it stops at the end of the slot at the latest.
read_string_total :
    (m : ProtectedMemory) (id addr left : ℕ)
    → id < max_harts
    → IsBytes m
    → (str : List ℕ) × (read_string m id addr left ≡ some str)
unfolding read_string
read_string_total m id addr zero h b = ([], refl)
read_string_total m id addr (suc left) h b =
    let (f, cases) = load_byte-Loads m addr id h b in
    let (rest, e) = read_string_total m id (add32 addr 1) left h b in
    elim cases [
      | inl (denied, out, p) ↦ rw (p, denied) ([], refl)
      | inr (fine, s, p) ↦
          rw (p, fine, e)
            (elim (Bool-cases (m.bytes addr == 0)) [
              | inl z ↦ rw z ([], refl)
              | inr n ↦ rw n (m.bytes addr ∷ rest, refl)
            ])
    ]

module _ (s : System) (i : ℕ) (h : Hart) (t : IsTrapped s i h) where
  -- A handler that ran on a changed system with as many harts.
  recount :
      (s' : System) {r : Option Handled}
      → length s'.harts ≡ length s.harts
      → Handles s' r
      → Handles s r
  recount s' e (q, p, good, n) = (q, p, good, n ∙ e)

  said :
      (o : Output)
      → Handles s (some (record { resume = true; sys = edit (say s o) i (do_mret true) }))
  said o =
      recount (say s o) refl
        (resumed-Handles (say s o) i h true (with_log-IsTrapped s i h s.queues _ t))

  blamed :
      (o : Output) (st : HartState)
      → st ≢ running
      → st ≢ waiting
      → Handles s (stopped (say s o) i st)
  blamed o st nr nw =
      recount (say s o) refl
        (stopped-Handles (say s o) i h st (with_log-IsTrapped s i h s.queues _ t) nr nw)

  print_string-Handles : Handles s (print_string s i h)
  unfolding print_string
  print_string-Handles =
      let small : h.id < max_harts =
        omega (arith, t.own_id, t.few, lt-of-get_elem? s.harts i t.here) in
      let (str, e) = read_string_total s.mem h.id (h.x 10) 256 small t.bytes in
      rw e (said (print_str h.id str))

  -- A register of the trapped hart is set, in a system with another log.
  answered :
      (r v : ℕ) (queues : ℕ → List Message) (output : List Output)
      → IsTrapped (edit (with_log s queues output) i (set_x r v)) i (set_x r v h)
  answered r v queues output =
      set_x-IsTrapped (with_log s queues output) i r v h (with_log-IsTrapped s i h queues output t)

  replied :
      (r v : ℕ) (queues : ℕ → List Message) (output : List Output)
      → let s' = edit (with_log s queues output) i (set_x r v) in
        Handles s (some (record { resume = true; sys = edit s' i (do_mret true) }))
  replied r v queues output =
      let s' = edit (with_log s queues output) i (set_x r v) in
      recount s' (length-modify s.harts i (set_x r v))
        (resumed-Handles s' i (set_x r v h) true (answered r v queues output))

  send-Handles : Handles s (send s i h)
  unfolding send
  send-Handles =
      let target = h.x 10 in
      let queues =
        update s.queues target (s.queues target ++ record { from = h.id; value = h.x 11 } ∷ []) in
      let answer = edit (with_log s queues s.output) i (set_x 10 0) in
      let (h', woken) = wake-IsTrapped answer i target _ (answered 10 0 queues s.output) in
      if_both (Handles s) (is_negative target || leb (length s.harts) target)
        (replied 10 _ s.queues _)
        (recount (edit answer target wake)
          (length-modify answer.harts target wake ∙ length-modify s.harts i (set_x 10 0))
          (resumed-Handles (edit answer target wake) i h' true woken))

  receive-Handles : (queue : List Message) → Handles s (receive s i h.id queue)
  receive-Handles [] = (
    _,
    refl,
    edit-IsSound s i h block t
        (record { own_id = t.own_id; running_user = λ r. refl; waiting_user = λ w. refl }),
    length-modify s.harts i block,
  )
  receive-Handles (msg ∷ rest) =
      let queues = update s.queues h.id rest in
      let logged = with_log s queues s.output in
      recount (edit logged i (deliver msg)) (length-modify s.harts i (deliver msg)) (
        resumed-Handles _ i _ true (
          edit-IsTrapped logged i h (deliver msg) (with_log-IsTrapped s i h queues s.output t) refl
            refl))

  handle_syscall-Handles : (sc : ℕ) → Handles s (handle_syscall s i h sc)
  unfolding handle_syscall
  handle_syscall-Handles sc = if_both (Handles s) (sc == Syscall.print_int) (said _) (
      if_both (Handles s) (sc == Syscall.print_str) print_string-Handles (
        if_both (Handles s) (sc == Syscall.exit)
          (stopped-Handles s i h halted t (λ e. cc) (λ e. cc))
          (if_both (Handles s) (sc == Syscall.yield) (resumed-Handles s i h true t) (
            if_both (Handles s) (sc == Syscall.get_hartid) (replied 10 h.id s.queues s.output) (
              if_both (Handles s) (sc == Syscall.send) send-Handles (
                if_both (Handles s) (sc == Syscall.recv) (receive-Handles (s.queues h.id))
                  (said _)))))))

  dispatch-Handles : Handles s (dispatch s i h)
  unfolding dispatch
  dispatch-Handles =
      let cause = h.csr.mcause in
      if_both (Handles s) (cause == Cause.timer_int) (resumed-Handles s i h false t) (
        if_both (Handles s) (cause == Cause.ecall_u) (handle_syscall-Handles (h.x 17)) (
          if_both (Handles s) (cause == Cause.ecall_m)
            (stopped-Handles s i h halted t (λ e. cc) (λ e. cc))
            (if_both (Handles s)
              (cause == Cause.load_fault || cause == Cause.store_fault || cause == Cause.insn_fault)
              (blamed _ faulted (λ e. cc) (λ e. cc))
              (if_both (Handles s) (cause == Cause.illegal_insn)
                (blamed _ faulted (λ e. cc) (λ e. cc)) (blamed _ faulted (λ e. cc) (λ e. cc))))))

-- For a hart that trapped from U-mode in a system whose other harts are sound, the handler returns, on
-- every cause and every syscall number, and leaves a sound system with as many harts: each at its own id,
-- and in U-mode if it can still run.
pub handle_trap-IsSound :
    (s : System) (i : ℕ) (h : Hart)
    → IsTrapped s i h
    → (q : Handled) × (handle_trap s i ≡ some q)
      × IsSound q.sys
      × (length q.sys.harts ≡ length s.harts)
unfolding handle_trap
handle_trap-IsSound s i h t = rw t.here (dispatch-Handles s i h t)
