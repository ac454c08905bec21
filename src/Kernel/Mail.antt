-- ===== src/Kernel/Mail.antt =====
-- kernel.h: the message queues over one trap. What was sent to a hart and what it received is read off
-- the registers that the two sides see.
use mocker.Prelude.{
  ℕ, ◌-◌, ◌^◌, ◌≤◌, ◌≡◌, refl, sym, ap, ◌∙◌, inl, inr, Bool, true, false, Bool-cases, ==_iff, ◌||◌,
  ◌==◌, some, List, [], ◌∷◌, ◌++◌, length, get_elem?, if◌then◌else◌, is_negative, leb, update,
}
use mocker.Csr.Cause
use mocker.Memory.Layout.{max_harts}
use mocker.Cpu.State.{Hart}
use mocker.Kernel.Syscall
use mocker.Kernel.Sound.{IsTrapped}
use mocker.Kernel.{
  System, Handled, Message, edit, say, set_x, do_mret, bad_target, wake, send, block, deliver,
  receive, handle_syscall, dispatch, handle_trap,
}
use mocker.Kernel.Queues.{
  dispatch-KeepsQueues, handle_syscall-KeepsQueues, dispatch-ecall, push_balance, pop_balance,
  append_nil, refused_answer, sent_answer, received_answer,
}

-- What a call of the kernel means to the mail.
pub data Event : Type 0 where
  sent : ℕ → Message → Event
  received : ℕ → Message → Event
  quiet : Event

-- The event as the trapped hart sees it, `before` and `after` the call: a SEND that answers 0 has sent a1
-- to a0, and a RECV that resumes has received a0 from a1.
abbrev pub event : Hart → Bool → Hart → Event
event before resume after =
    if before.csr.mcause == Cause.ecall_u
    then (if before.x 17 == Syscall.send
        then (if after.x 10 == 0
            then sent (before.x 10) (record { from = before.id; value = before.x 11 })
            else quiet)
        else if before.x 17 == Syscall.recv
        then (if resume
            then received before.id (record { from = after.x 11; value = after.x 10 })
            else quiet)
        else quiet)
    else quiet

abbrev pub sent_to : ℕ → Event → List Message
sent_to k (sent j msg) = if k == j then msg ∷ [] else []
sent_to k (received j msg) = []
sent_to k quiet = []

abbrev pub received_by : ℕ → Event → List Message
received_by k (received j msg) = if k == j then msg ∷ [] else []
received_by k (sent j msg) = []
received_by k quiet = []

-- The queues before with what is sent are what is received with the queues after.
abbrev pub Balanced : System → Event → System → Type 0
Balanced s e t = (k : ℕ) → s.queues k ++ sent_to k e ≡ received_by k e ++ t.queues k

quiet_balance : (s : System) (q : Handled) → q.sys.queues ≡ s.queues → Balanced s quiet q.sys
quiet_balance s q e k = append_nil (s.queues k) ∙ ap (λ (f : ℕ → List Message). f k) (sym e)

module _ (s : System) (i : ℕ) (h g : Hart) (q : Handled)
    (call : (h.csr.mcause == Cause.ecall_u) ≡ true) where
  send-Balanced :
      length s.harts ≤ max_harts
      → (h.x 17 == Syscall.send) ≡ true
      → send s i h ≡ some q
      → get_elem? q.sys.harts i ≡ some g
      → Balanced s (event h q.resume g) q.sys
  unfolding send
  send-Balanced few is_send done after =
      let target = h.x 10 in
      let msg : Message = record { from = h.id; value = h.x 11 } in
      let pushed = update s.queues target (s.queues target ++ msg ∷ []) in
      elim (Bool-cases (is_negative target || leb (length s.harts) target)) [
        | inl bad ↦
            let t =
              edit (edit (say s (bad_target target)) i (set_x 10 (2 ^ 32 - 1))) i (do_mret true) in
            let ran : send s i h ≡ some (record { resume = true; sys = t }) = simp bad in
            let same : q ≡ record { resume = true; sys = t } = cc (done, ran) in
            let answer = refused_answer s.harts i (2 ^ 32 - 1) g (cc (same, after)) in
            let is_quiet : event h q.resume g ≡ quiet = simp (call, is_send, answer) in
            rw is_quiet (quiet_balance s q (ap (λ (r : Handled). r.sys.queues) same))
        | inr fine ↦
            let t =
              edit (edit (edit (record s { queues = pushed }) i (set_x 10 0)) target wake) i
                (do_mret true) in
            let ran : send s i h ≡ some (record { resume = true; sys = t }) = simp fine in
            let same : q ≡ record { resume = true; sys = t } = cc (done, ran) in
            let answer = sent_answer s.harts i target 0 g (cc (same, after)) in
            let is_sent : event h q.resume g ≡ sent target msg = simp (call, is_send, answer) in
            rw (is_sent, same) (λ k. push_balance s.queues target msg k)
      ]

  receive-Balanced :
      (h.x 17 == Syscall.send) ≡ false
      → (h.x 17 == Syscall.recv) ≡ true
      → receive s i h.id (s.queues h.id) ≡ some q
      → get_elem? q.sys.harts i ≡ some g
      → Balanced s (event h q.resume g) q.sys
  receive-Balanced no_send is_recv done after = from_queue (s.queues h.id) refl done
    where
      from_queue :
          (queue : List Message)
          → s.queues h.id ≡ queue
          → receive s i h.id queue ≡ some q
          → Balanced s (event h q.resume g) q.sys
      from_queue [] e ran =
          let same : q ≡ record { resume = false; sys = edit s i block } = cc ran in
          let is_quiet : event h q.resume g ≡ quiet = simp (call, no_send, is_recv, same) in
          rw is_quiet (quiet_balance s q (ap (λ (r : Handled). r.sys.queues) same))
      from_queue (msg ∷ rest) e ran =
          let t =
            edit (edit (record s { queues = update s.queues h.id rest }) i (deliver msg)) i
              (do_mret true) in
          let same : q ≡ record { resume = true; sys = t } = cc ran in
          let (value, from) = received_answer s.harts i msg g (cc (same, after)) in
          let taken : event h q.resume g ≡ received h.id msg =
            simp (call, no_send, is_recv, same, value, from) in
          rw (taken, same) (λ k. pop_balance s.queues h.id msg rest k e)

as_send : (s : System) (i : ℕ) (h : Hart) → handle_syscall s i h Syscall.send ≡ send s i h
unfolding handle_syscall
as_send s i h = refl

as_receive :
    (s : System) (i : ℕ) (h : Hart)
    → handle_syscall s i h Syscall.recv ≡ receive s i h.id (s.queues h.id)
unfolding handle_syscall
as_receive s i h = refl

dispatch-Balanced :
    (s : System) (i : ℕ) (h g : Hart) (q : Handled)
    → length s.harts ≤ max_harts
    → dispatch s i h ≡ some q
    → get_elem? q.sys.harts i ≡ some g
    → Balanced s (event h q.resume g) q.sys
dispatch-Balanced s i h g q few done after = elim (Bool-cases (h.csr.mcause == Cause.ecall_u)) [
  | inr other ↦
      let is_quiet : event h q.resume g ≡ quiet = simp other in
      rw is_quiet (quiet_balance s q (dispatch-KeepsQueues s i h other q done))
  | inl call ↦ called call (sym (dispatch-ecall s i h call) ∙ done)
]
  where
    called :
        (h.csr.mcause == Cause.ecall_u) ≡ true
        → handle_syscall s i h (h.x 17) ≡ some q
        → Balanced s (event h q.resume g) q.sys
    called call ran = elim (Bool-cases (h.x 17 == Syscall.send)) [
      | inl is_send ↦
          send-Balanced s i h g q call few is_send
            (sym (as_send s i h)
              ∙ sym (ap (handle_syscall s i h) ((==_iff (h.x 17) Syscall.send).0 is_send))
              ∙ ran)
            after
      | inr no_send ↦ elim (Bool-cases (h.x 17 == Syscall.recv)) [
        | inl is_recv ↦
            receive-Balanced s i h g q call no_send is_recv
              (sym (as_receive s i h)
                ∙ sym (ap (handle_syscall s i h) ((==_iff (h.x 17) Syscall.recv).0 is_recv))
                ∙ ran)
              after
        | inr no_recv ↦
            let is_quiet : event h q.resume g ≡ quiet = simp (call, no_send, no_recv) in
            rw is_quiet
              (quiet_balance s q (handle_syscall-KeepsQueues s i h (h.x 17) no_send no_recv q ran))
      ]
    ]

pub trapped-Balanced :
    (s : System) (i : ℕ) (h g : Hart) (q : Handled)
    → IsTrapped s i h
    → handle_trap s i ≡ some q
    → get_elem? q.sys.harts i ≡ some g
    → Balanced s (event h q.resume g) q.sys
unfolding handle_trap
trapped-Balanced s i h g q t done after =
    let ran : dispatch s i h ≡ some q = cc (done, t.here) in
    dispatch-Balanced s i h g q t.few ran after
