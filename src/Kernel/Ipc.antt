-- ===== src/Kernel/Ipc.antt =====
-- kernel.h, the system calls SEND and RECV: what they do to the queues and to the two harts.
use mocker.Prelude.{
  ℕ, ◌≤◌, ◌≡◌, ◌≢◌, refl, sym, ap, ◌∙◌, true, false, ◌||◌, some, List, [], ◌∷◌, ◌++◌, length,
  get_elem?, get_elem?-modify_self, get_elem?-modify_ne, lt-of-get_elem?, ==_self, arith, leb,
  is_negative, update,
}
use mocker.Memory.Layout.{max_harts}
use mocker.Cpu.State.{Hart}
use mocker.Kernel.Syscall
use mocker.Kernel.{
  System, Handled, Message, edit, set_x, do_mret, send, wake, deliver, handle_syscall,
}

-- SEND to another hart: the message goes to the end of the target's queue and no other queue changes, a
-- waiting target is woken, and the sender resumes behind its ecall with 0 in a0.
pub send_lem :
    (s : System) (i : ℕ) (h g : Hart)
    → get_elem? s.harts i ≡ some h
    → get_elem? s.harts (h.x 10) ≡ some g
    → h.x 10 ≢ i
    → length s.harts ≤ max_harts
    → (q : Handled) × (handle_syscall s i h Syscall.send ≡ some q)
      × (q.resume ≡ true)
      × (q.sys.queues (h.x 10) ≡ s.queues (h.x 10) ++ record { from = h.id; value = h.x 11 } ∷ [])
      × ((k : ℕ) → k ≢ h.x 10 → q.sys.queues k ≡ s.queues k)
      × (get_elem? q.sys.harts (h.x 10) ≡ some (wake g))
      × (get_elem? q.sys.harts i ≡ some (do_mret true (set_x 10 0 h)))
unfolding handle_syscall send
send_lem s i h g here there other few =
    let target = h.x 10 in
    let lt = lt-of-get_elem? s.harts target there in
    let in_range : (is_negative target || leb (length s.harts) target) ≡ false = ground arith in
    let queue = s.queues target ++ record { from = h.id; value = h.x 11 } ∷ [] in
    let pushed = record s { queues = update s.queues target queue } in
    let answered = edit pushed i (set_x 10 0) in
    let woken = edit answered target wake in
    let not_self : i ≢ target = λ e. other (sym e) in
    (
      record { resume = true; sys = edit woken i (do_mret true) },
      simp in_range,
      refl,
      simp (==_self target),
      λ k n. ground arith,
      get_elem?-modify_ne woken.harts i target (do_mret true) not_self
          ∙ get_elem?-modify_self answered.harts target wake
              (get_elem?-modify_ne s.harts i target (set_x 10 0) not_self ∙ there),
      get_elem?-modify_self woken.harts i (do_mret true) (
          get_elem?-modify_ne answered.harts target i wake other
          ∙ get_elem?-modify_self s.harts i (set_x 10 0) here),
    )

-- RECV on a queue with a message: the oldest one is taken, its value goes to a0 and its sender to a1, and
-- the hart resumes behind its ecall. The other queues and harts stay.
recv_lem :
    (s : System) (i : ℕ) (h : Hart) (msg : Message) (rest : List Message)
    → get_elem? s.harts i ≡ some h
    → s.queues h.id ≡ msg ∷ rest
    → (q : Handled) × (handle_syscall s i h Syscall.recv ≡ some q)
      × (q.resume ≡ true)
      × (q.sys.queues h.id ≡ rest)
      × ((k : ℕ) → k ≢ h.id → q.sys.queues k ≡ s.queues k)
      × (get_elem? q.sys.harts i ≡ some (do_mret true (set_x 11 msg.from (set_x 10 msg.value h))))
      × ((j : ℕ) → j ≢ i → get_elem? q.sys.harts j ≡ get_elem? s.harts j)
unfolding handle_syscall
recv_lem s i h msg rest here queue =
    let taken = edit (record s { queues = update s.queues h.id rest }) i (deliver msg) in
    (
      record { resume = true; sys = edit taken i (do_mret true) },
      simp queue,
      refl,
      simp (==_self h.id),
      λ k n. ground arith,
      get_elem?-modify_self taken.harts i (do_mret true)
          (get_elem?-modify_self s.harts i (deliver msg) here),
      λ j n.
          get_elem?-modify_ne taken.harts i j (do_mret true) (λ e. n (sym e))
          ∙ get_elem?-modify_ne s.harts i j (deliver msg) (λ e. n (sym e)),
    )

-- After a SEND to another hart with an empty queue, in any system with the queues that it left, a RECV of that
-- hart takes the message: it gets the value in a0 and the sender's id in a1, and its queue is empty again.
pub recv-send :
    (s : System) (i : ℕ) (h g : Hart)
    → get_elem? s.harts i ≡ some h
    → get_elem? s.harts (h.x 10) ≡ some g
    → h.x 10 ≢ i
    → length s.harts ≤ max_harts
    → s.queues (h.x 10) ≡ []
    → (q : Handled) → handle_syscall s i h Syscall.send ≡ some q
    → (t : System) (g' : Hart) → t.queues ≡ q.sys.queues
    → get_elem? t.harts (h.x 10) ≡ some g'
    → g'.id ≡ h.x 10
    → (r : Handled) × (handle_syscall t (h.x 10) g' Syscall.recv ≡ some r)
      × (r.sys.queues (h.x 10) ≡ [])
      × (get_elem? r.sys.harts (h.x 10)
          ≡ some (do_mret true (set_x 11 h.id (set_x 10 (h.x 11) g'))))
recv-send s i h g here there other few empty q did t g' same at own =
    let msg : Message = record { from = h.id; value = h.x 11 } in
    let (q', e, _, sent, _, _, _) = send_lem s i h g here there other few in
    let same_q : q ≡ q' = cc (did, e) in
    let queue : t.queues g'.id ≡ msg ∷ [] =
      ap t.queues own
      ∙ ap (λ (f : ℕ → List Message). f (h.x 10)) same
      ∙ ap (λ (p : Handled). p.sys.queues (h.x 10)) same_q
      ∙ sent
      ∙ ap (λ (l : List Message). l ++ msg ∷ []) empty in
    let (r, f, _, left, _, got, _) = recv_lem t (h.x 10) g' msg [] at queue in
    (r, f, sym (ap r.sys.queues own) ∙ left, got)
