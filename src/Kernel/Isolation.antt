-- ===== src/Kernel/Isolation.antt =====
-- kernel.h: what the trap handler does to the harts that have not trapped.
use mocker.Prelude.{
  ℕ, ◌≡◌, ◌≢◌, refl, sym, ◌∙◌, ◌⊎◌, inl, inr, true, false, Option, some, List, get_elem?, modify,
  get_elem?-modify_self, get_elem?-modify_ne, length, if_both, Ensures, Ensures->>=, Ensures-always,
  arith, [], ◌∷◌, is_negative, leb, ◌==◌, ◌||◌, ◌^◌, ◌-◌,
}
use native.Mathlib.Decide.{ℕ_discrete}
use mocker.Csr.Cause
use mocker.Cpu.State.{Hart, HartState, running, waiting, halted, faulted}
use mocker.Kernel.Syscall
use mocker.Kernel.{
  System, Handled, Message, set_state, set_x, block, deliver, read_string, do_mret, wake,
  print_string, send, receive, handle_syscall, dispatch, handle_trap,
}

-- A hart as it was, but perhaps woken from its wait, and perhaps with a timer interrupt to come.
pub record LeftAlone (g g' : Hart) : Type 0 where
  pub same_id : g'.id ≡ g.id
  pub same_mode : g'.mode ≡ g.mode
  pub same_x : g'.x ≡ g.x
  pub same_pc : g'.pc ≡ g.pc
  pub same_steps : g'.steps ≡ g.steps
  pub same_csr : g'.csr ≡ g.csr
  pub woken : (g'.state ≡ g.state) ⊎ ((g.state ≡ waiting) × (g'.state ≡ running))
  pub still_pending : g.timer_pending ≡ true → g'.timer_pending ≡ true

pub same-LeftAlone : (g : Hart) → LeftAlone g g
same-LeftAlone g = record {
  same_id = refl;
  same_mode = refl;
  same_x = refl;
  same_pc = refl;
  same_steps = refl;
  same_csr = refl;
  woken = inl refl;
  still_pending = λ e. e;
}

then_woken :
    (a b c : HartState)
    → (b ≡ a) ⊎ ((a ≡ waiting) × (b ≡ running))
    → (c ≡ b) ⊎ ((b ≡ waiting) × (c ≡ running))
    → (c ≡ a) ⊎ ((a ≡ waiting) × (c ≡ running))
then_woken a b c (inl p) (inl q) = inl (q ∙ p)
then_woken a b c (inl p) (inr (q, r)) = inr (sym p ∙ q, r)
then_woken a b c (inr (p, q)) (inl r) = inr (p, r ∙ q)
then_woken a b c (inr (p, q)) (inr (r, t)) = inr (p, t)

pub then-LeftAlone : (f g h : Hart) → LeftAlone f g → LeftAlone g h → LeftAlone f h
then-LeftAlone f g h a b = record {
  same_id = b.same_id ∙ a.same_id;
  same_mode = b.same_mode ∙ a.same_mode;
  same_x = b.same_x ∙ a.same_x;
  same_pc = b.same_pc ∙ a.same_pc;
  same_steps = b.same_steps ∙ a.same_steps;
  same_csr = b.same_csr ∙ a.same_csr;
  woken = then_woken f.state g.state h.state a.woken b.woken;
  still_pending = λ e. b.still_pending (a.still_pending e);
}

-- The hart at `j` is there in the second list too, and was left alone.
abbrev pub Spares : ℕ → List Hart → List Hart → Type 0
Spares j hs ks =
    (g : Hart) → get_elem? hs j ≡ some g → (g' : Hart) × (get_elem? ks j ≡ some g') × LeftAlone g g'

pub same-Spares : (j : ℕ) (hs : List Hart) → Spares j hs hs
same-Spares j hs g e = (g, e, same-LeftAlone g)

pub then-Spares : (j : ℕ) (hs ks ls : List Hart) → Spares j hs ks → Spares j ks ls → Spares j hs ls
then-Spares j hs ks ls first second g e =
    let (g', e', a) = first g e in
    let (g'', e'', b) = second g' e' in (g'', e'', then-LeftAlone g g' g'' a b)

pub modify-Spares :
    (j i : ℕ) (hs : List Hart) (f : Hart → Hart) → j ≢ i → Spares j hs (modify hs i f)
modify-Spares j i hs f n g e =
    (g, get_elem?-modify_ne hs i j f (λ p. n (sym p)) ∙ e, same-LeftAlone g)

wake-LeftAlone : (g : Hart) → LeftAlone g (wake g)
wake-LeftAlone g = record {
  same_id = ground arith;
  same_mode = ground arith;
  same_x = ground arith;
  same_pc = ground arith;
  same_steps = ground arith;
  same_csr = ground arith;
  woken = ground arith;
  still_pending = ground arith;
}

wake-Spares : (j target : ℕ) (hs : List Hart) → Spares j hs (modify hs target wake)
wake-Spares j target hs g e = elim (ℕ_discrete j target) [
  | yes p ↦ rw (← p) (wake g, get_elem?-modify_self hs j wake e, wake-LeftAlone g)
  | no n ↦ modify-Spares j target hs wake n g e
]

-- The handler's result, if there is one, leaves the hart at `j` alone.
abbrev pub HandledSpares : ℕ → System → Option Handled → Type 0
HandledSpares j s = Ensures (λ (r : Handled). Spares j s.harts r.sys.harts)

module _ (j i : ℕ) (s : System) (h : Hart) (n : j ≢ i) where
  -- The trapped hart changes once, or twice with what it is answered.
  once : (f : Hart → Hart) → Spares j s.harts (modify s.harts i f)
  once f = modify-Spares j i s.harts f n

  twice : (f g : Hart → Hart) → Spares j s.harts (modify (modify s.harts i f) i g)
  twice f g =
      then-Spares j s.harts (modify s.harts i f) _ (once f)
        (modify-Spares j i (modify s.harts i f) g n)

  print_string-Spares : HandledSpares j s (print_string s i h)
  unfolding print_string
  print_string-Spares =
      Ensures->>= (λ (str : List ℕ). Unit) _ (read_string s.mem h.id (h.x 10) 256) _
        (Ensures-always (read_string s.mem h.id (h.x 10) 256)) (λ str any. once (do_mret true))

  send-Spares : HandledSpares j s (send s i h)
  unfolding send
  send-Spares =
      let target = h.x 10 in
      let answered = modify s.harts i (set_x 10 0) in
      let woken = modify answered target wake in
      if_both (HandledSpares j s) (is_negative target || leb (length s.harts) target)
        (twice (set_x 10 (2 ^ 32 - 1)) (do_mret true))
        (then-Spares j s.harts answered _ (once (set_x 10 0)) (
          then-Spares j answered woken _ (wake-Spares j target answered)
            (modify-Spares j i woken (do_mret true) n)))

  receive-Spares : (queue : List Message) → HandledSpares j s (receive s i h.id queue)
  receive-Spares [] = once block
  receive-Spares (msg ∷ rest) = twice (deliver msg) (do_mret true)

  handle_syscall-Spares : (sc : ℕ) → HandledSpares j s (handle_syscall s i h sc)
  unfolding handle_syscall
  handle_syscall-Spares sc =
      let resumes = once (do_mret true) in
      let P = HandledSpares j s in
      if_both P (sc == Syscall.print_int) resumes (
        if_both P (sc == Syscall.print_str) print_string-Spares (
          if_both P (sc == Syscall.exit) (once (set_state halted)) (
            if_both P (sc == Syscall.yield) resumes (
              if_both P (sc == Syscall.get_hartid) (twice (set_x 10 h.id) (do_mret true)) (
                if_both P (sc == Syscall.send) send-Spares
                  (if_both P (sc == Syscall.recv) (receive-Spares (s.queues h.id)) resumes))))))

  dispatch-Spares : HandledSpares j s (dispatch s i h)
  unfolding dispatch
  dispatch-Spares =
      let cause = h.csr.mcause in
      let dies = once (set_state faulted) in
      let P = HandledSpares j s in
      if_both P (cause == Cause.timer_int) (once (do_mret false)) (
        if_both P (cause == Cause.ecall_u) (handle_syscall-Spares (h.x 17)) (
          if_both P (cause == Cause.ecall_m) (once (set_state halted)) (
            if_both P
              (cause == Cause.load_fault || cause == Cause.store_fault || cause == Cause.insn_fault)
              dies (if_both P (cause == Cause.illegal_insn) dies dies))))

-- Whatever hart `i` traps for, the handler leaves every other hart alone.
pub handle_trap-Spares : (j i : ℕ) (s : System) → j ≢ i → HandledSpares j s (handle_trap s i)
unfolding handle_trap
handle_trap-Spares j i s n =
    Ensures->>= (λ (h : Hart). Unit) _ (get_elem? s.harts i) (dispatch s i)
      (Ensures-always (get_elem? s.harts i)) (λ h any. dispatch-Spares j i s h n)
