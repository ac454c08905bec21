-- ===== src/Kernel/Frame.antt =====
-- kernel.h: the handler writes no memory.
use mocker.Prelude.{
  ℕ, ◌≡◌, refl, Bool, true, false, ◌||◌, ◌==◌, Option, none, some, List, [], ◌∷◌, length, get_elem?,
  if_both, ◌>>=◌, is_negative, leb,
}
use mocker.Csr.Cause
use mocker.Cpu.State.{Hart}
use mocker.Kernel.Syscall
use mocker.Kernel.{
  System, Handled, Message, edit, say, do_mret, print_string, print_str, send, receive,
  handle_syscall, dispatch, handle_trap,
}

abbrev KeepsMem : System → Option Handled → Type 0
KeepsMem s r = (q : Handled) → r ≡ some q → q.sys.mem ≡ s.mem

kept :
    (s t : System) (resume : Bool)
    → t.mem ≡ s.mem
    → KeepsMem s (some (record { resume = resume; sys = t }))
kept s t resume same q e = cc

printed-KeepsMem :
    (s : System) (t : List ℕ → System) (str : Option (List ℕ))
    → ((l : List ℕ) → (t l).mem ≡ s.mem)
    → KeepsMem s (str >>= λ l. some (record { resume = true; sys = t l }))
printed-KeepsMem s t none same q e = cc
printed-KeepsMem s t (some l) same q e = kept s (t l) true (same l) q e

module _ (s : System) (i : ℕ) (h : Hart) where
  print_string-KeepsMem : KeepsMem s (print_string s i h)
  unfolding print_string
  print_string-KeepsMem =
      printed-KeepsMem s (λ l. edit (say s (print_str h.id l)) i (do_mret true)) _ (λ l. refl)

  send-KeepsMem : KeepsMem s (send s i h)
  unfolding send
  send-KeepsMem =
      if_both (KeepsMem s) (is_negative (h.x 10) || leb (length s.harts) (h.x 10))
        (kept s _ true refl) (kept s _ true refl)

  receive-KeepsMem : (queue : List Message) → KeepsMem s (receive s i h.id queue)
  receive-KeepsMem [] = kept s _ false refl
  receive-KeepsMem (msg ∷ rest) = kept s _ true refl

  handle_syscall-KeepsMem : (sc : ℕ) → KeepsMem s (handle_syscall s i h sc)
  unfolding handle_syscall
  handle_syscall-KeepsMem sc = if_both (KeepsMem s) (sc == Syscall.print_int) (kept s _ true refl) (
      if_both (KeepsMem s) (sc == Syscall.print_str) print_string-KeepsMem (
        if_both (KeepsMem s) (sc == Syscall.exit) (kept s _ false refl) (
          if_both (KeepsMem s) (sc == Syscall.yield) (kept s _ true refl) (
            if_both (KeepsMem s) (sc == Syscall.get_hartid) (kept s _ true refl) (
              if_both (KeepsMem s) (sc == Syscall.send) send-KeepsMem (
                if_both (KeepsMem s) (sc == Syscall.recv) (receive-KeepsMem (s.queues h.id))
                  (kept s _ true refl)))))))

  dispatch-KeepsMem : KeepsMem s (dispatch s i h)
  unfolding dispatch
  dispatch-KeepsMem =
      let cause = h.csr.mcause in
      if_both (KeepsMem s) (cause == Cause.timer_int) (kept s _ true refl) (
        if_both (KeepsMem s) (cause == Cause.ecall_u) (handle_syscall-KeepsMem (h.x 17)) (
          if_both (KeepsMem s) (cause == Cause.ecall_m) (kept s _ false refl) (
            if_both (KeepsMem s)
              (cause == Cause.load_fault || cause == Cause.store_fault || cause == Cause.insn_fault)
              (kept s _ false refl)
              (if_both (KeepsMem s) (cause == Cause.illegal_insn) (kept s _ false refl)
                (kept s _ false refl)))))

pub handle_trap_same_mem :
    (s : System) (i : ℕ) (q : Handled) → handle_trap s i ≡ some q → q.sys.mem ≡ s.mem
unfolding handle_trap
handle_trap_same_mem s i = of_hart (get_elem? s.harts i)
  where
    of_hart :
        (found : Option Hart) (q : Handled) → (found >>= dispatch s i) ≡ some q → q.sys.mem ≡ s.mem
    of_hart none q e = cc
    of_hart (some h) q e = dispatch-KeepsMem s i h q e
