-- ===== src/Kernel/Queues.antt =====
-- kernel.h: the calls that leave the queues alone, and what SEND and RECV leave in the registers of the
-- hart that calls.
use mocker.Prelude.{
  ℕ, ◌≡◌, refl, ap, ◌∙◌, inl, inr, Bool, true, false, Bool-cases, ==_iff, ==_self, ◌||◌, ◌==◌,
  Option, none, some, List, [], ◌∷◌, ◌++◌, get_elem?, get_elem?-modify_inv, modify, if◌then◌else◌,
  if_both, arith, ◌>>=◌, update,
}
use mocker.Csr.Cause
use mocker.Cpu.State.{Hart}
use mocker.Kernel.Syscall
use mocker.Kernel.{
  System, Handled, Message, edit, say, set_x, do_mret, print_string, print_str, wake, deliver,
  handle_syscall, dispatch,
}

abbrev pub KeepsQueues : System → Option Handled → Type 0
KeepsQueues s r = (q : Handled) → r ≡ some q → q.sys.queues ≡ s.queues

kept :
    (s t : System) (b : Bool)
    → t.queues ≡ s.queues
    → KeepsQueues s (some (record { resume = b; sys = t }))
kept s t b e q p = cc

printed-KeepsQueues :
    (s : System) (t : List ℕ → System) (str : Option (List ℕ))
    → ((l : List ℕ) → (t l).queues ≡ s.queues)
    → KeepsQueues s (str >>= λ l. some (record { resume = true; sys = t l }))
printed-KeepsQueues s t none same q p = cc
printed-KeepsQueues s t (some l) same q p = kept s (t l) true (same l) q p

print_string-KeepsQueues : (s : System) (i : ℕ) (h : Hart) → KeepsQueues s (print_string s i h)
unfolding print_string
print_string-KeepsQueues s i h =
    printed-KeepsQueues s (λ l. edit (say s (print_str h.id l)) i (do_mret true)) _ (λ l. refl)

-- Every system call but SEND and RECV.
pub handle_syscall-KeepsQueues :
    (s : System) (i : ℕ) (h : Hart) (sc : ℕ)
    → (sc == Syscall.send) ≡ false
    → (sc == Syscall.recv) ≡ false
    → KeepsQueues s (handle_syscall s i h sc)
unfolding handle_syscall
handle_syscall-KeepsQueues s i h sc no_send no_recv =
    simp (no_send, no_recv)
      (if_both (KeepsQueues s) (sc == Syscall.print_int) (kept s _ true refl) (
        if_both (KeepsQueues s) (sc == Syscall.print_str) (print_string-KeepsQueues s i h) (
          if_both (KeepsQueues s) (sc == Syscall.exit) (kept s _ false refl) (
            if_both (KeepsQueues s) (sc == Syscall.yield) (kept s _ true refl) (
              if_both (KeepsQueues s) (sc == Syscall.get_hartid) (kept s _ true refl)
                (kept s _ true refl))))))

pub dispatch-KeepsQueues :
    (s : System) (i : ℕ) (h : Hart)
    → (h.csr.mcause == Cause.ecall_u) ≡ false
    → KeepsQueues s (dispatch s i h)
unfolding dispatch
dispatch-KeepsQueues s i h no_call = simp no_call (
    if_both (KeepsQueues s) (h.csr.mcause == Cause.timer_int) (kept s _ true refl) (
      if_both (KeepsQueues s) (h.csr.mcause == Cause.ecall_m) (kept s _ false refl) (
        if_both (KeepsQueues s)
          (h.csr.mcause == Cause.load_fault
            || h.csr.mcause == Cause.store_fault
            || h.csr.mcause == Cause.insn_fault)
          (kept s _ false refl)
          (if_both (KeepsQueues s) (h.csr.mcause == Cause.illegal_insn) (kept s _ false refl)
            (kept s _ false refl)))))

pub dispatch-ecall :
    (s : System) (i : ℕ) (h : Hart)
    → (h.csr.mcause == Cause.ecall_u) ≡ true
    → dispatch s i h ≡ handle_syscall s i h (h.x 17)
unfolding dispatch
dispatch-ecall s i h call = ground arith

-- A change of the harts that keeps register `r`.
modify_keeps :
    (hs : List Hart) (k i r : ℕ) (f : Hart → Hart) (g : Hart)
    → ((h : Hart) → (f h).x r ≡ h.x r)
    → get_elem? (modify hs k f) i ≡ some g
    → (h : Hart) × (get_elem? hs i ≡ some h) × (g.x r ≡ h.x r)
modify_keeps hs k i r f g keeps e =
    let (h, p, cases) = get_elem?-modify_inv hs k i f e in
    (
      h,
      p,
      elim cases [
        | inl (_, q) ↦ ap (λ (c : Hart). c.x r) q ∙ keeps h
        | inr (_, q) ↦ ap (λ (c : Hart). c.x r) q
      ],
    )

pub append_nil : (l : List Message) → l ++ [] ≡ l
append_nil [] = refl
append_nil (x ∷ l) = ap (λ (t : List Message). x ∷ t) (append_nil l)

pub push_balance :
    (queues : ℕ → List Message) (target : ℕ) (msg : Message) (k : ℕ)
    → queues k ++ (if k == target then msg ∷ [] else [])
      ≡ update queues target (queues target ++ msg ∷ []) k
push_balance queues target msg k = elim (Bool-cases (k == target)) [
  | inl e ↦ simp e (ap (λ (j : ℕ). queues j ++ msg ∷ []) ((==_iff k target).0 e))
  | inr n ↦ simp n (append_nil (queues k))
]

pub pop_balance :
    (queues : ℕ → List Message) (id : ℕ) (msg : Message) (rest : List Message) (k : ℕ)
    → queues id ≡ msg ∷ rest
    → queues k ++ [] ≡ (if k == id then msg ∷ [] else []) ++ update queues id rest k
pop_balance queues id msg rest k first = elim (Bool-cases (k == id)) [
  | inl e ↦ simp e (append_nil (queues k) ∙ ap queues ((==_iff k id).0 e) ∙ first)
  | inr n ↦ simp n (append_nil (queues k))
]

-- An element at the place of a change is a changed one.
modify_self_inv :
    (hs : List Hart) (i : ℕ) (f : Hart → Hart) (g : Hart)
    → get_elem? (modify hs i f) i ≡ some g
    → (h : Hart) × (get_elem? hs i ≡ some h) × (g ≡ f h)
modify_self_inv hs i f g e =
    let (h, p, cases) = get_elem?-modify_inv hs i i f e in
    elim cases [ inl (_, q) ↦ (h, p, q) | inr (n, q) ↦ absurd (n refl) ]

do_mret_keeps : (r : ℕ) (h : Hart) → (do_mret true h).x r ≡ h.x r
unfolding do_mret
do_mret_keeps r h = refl

wake_keeps : (r : ℕ) (h : Hart) → (wake h).x r ≡ h.x r
wake_keeps r h = ground arith

set_x_self :
    (hs : List Hart) (i r v : ℕ) (g : Hart)
    → get_elem? (modify hs i (set_x r v)) i ≡ some g
    → g.x r ≡ v
set_x_self hs i r v g e =
    let (h, p, q) = modify_self_inv hs i (set_x r v) g e in
    ap (λ (c : Hart). c.x r) q ∙ simp (==_self r)

pub refused_answer :
    (hs : List Hart) (i v : ℕ) (g : Hart)
    → get_elem? (modify (modify hs i (set_x 10 v)) i (do_mret true)) i ≡ some g
    → g.x 10 ≡ v
refused_answer hs i v g e =
    let (h, p, same) = modify_keeps _ i i 10 (do_mret true) g (do_mret_keeps 10) e in
    same ∙ set_x_self hs i 10 v h p

pub sent_answer :
    (hs : List Hart) (i target v : ℕ) (g : Hart)
    → get_elem? (modify (modify (modify hs i (set_x 10 v)) target wake) i (do_mret true)) i ≡ some g
    → g.x 10 ≡ v
sent_answer hs i target v g e =
    let (h, p, same) = modify_keeps _ i i 10 (do_mret true) g (do_mret_keeps 10) e in
    let (h', p', same') = modify_keeps _ target i 10 wake h (wake_keeps 10) p in
    same ∙ same' ∙ set_x_self hs i 10 v h' p'

pub received_answer :
    (hs : List Hart) (i : ℕ) (msg : Message) (g : Hart)
    → get_elem? (modify (modify hs i (deliver msg)) i (do_mret true)) i ≡ some g
    → (g.x 10 ≡ msg.value) × (g.x 11 ≡ msg.from)
received_answer hs i msg g e =
    let (h, p, q) = modify_self_inv _ i (do_mret true) g e in
    let (h', p', q') = modify_self_inv hs i (deliver msg) h p in
    (
      ap (λ (c : Hart). c.x 10) q ∙ do_mret_keeps 10 h ∙ ap (λ (c : Hart). c.x 10) q',
      ap (λ (c : Hart). c.x 11) q ∙ do_mret_keeps 11 h ∙ ap (λ (c : Hart). c.x 11) q',
    )
