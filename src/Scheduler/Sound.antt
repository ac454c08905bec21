-- ===== src/Scheduler/Sound.antt =====
-- scheduler.h: a sound system stays sound through the loops of `run`, and no loop meets undefined
-- behaviour.
use mocker.Prelude.{
  ℕ, ◌+◌, ◌*◌, ◌<◌, ◌≤◌, ◌⊎◌, lt-of-get_elem?, get_elem?-some, ◌≡◌, refl, sym, ◌∙◌, inl, inr, some,
  map, length, get_elem?, get_elem?-modify_inv, get_elem?-modify_self, get_elem?-map_inv,
  get_elem?-map, length-map, length-modify, if_both, arith, leb,
}
use mocker.Csr.{user, trap_return}
use mocker.Csr.Traps.{trap_return-trap_enter}
use mocker.Memory.{ProtectedMemory}
use mocker.Memory.Raw.{IsBytes}
use mocker.Memory.Protection.{Confined}
use mocker.Kernel.Frame.{handle_trap_same_mem}
use mocker.Cpu.State.{Hart, running, Stepped, deliver_trap}
use mocker.Kernel.{System, edit}
use mocker.Kernel.Sound.{HartSound, IsSound, IsTrapped}
use mocker.Kernel.Handler.{handle_trap-IsSound}
use mocker.Cpu.{execute_one}
use mocker.Scheduler.Trace.{Leads, hart_ran, trap_handled, no_step, then-Leads, fire_timer-Leads}
use mocker.Scheduler.{SchedulerConfig, Progress, mark_pending, fire_timer, after_pause}

mark_same :
    (h : Hart)
    → ((mark_pending h).id ≡ h.id)
      × ((mark_pending h).csr ≡ h.csr)
      × ((mark_pending h).mode ≡ h.mode)
      × ((mark_pending h).state ≡ h.state)
mark_same h = ground arith

mark-HartSound : (j : ℕ) (h : Hart) → HartSound j h → HartSound j (mark_pending h)
mark-HartSound j h s =
    let (a, b, c, d) = mark_same h in
    record {
      own_id = a ∙ s.own_id;
      running_user = λ r. c ∙ s.running_user (sym d ∙ r);
      waiting_user = λ w. c ∙ s.waiting_user (sym d ∙ w);
    }

marked : System → System
marked s = record s { harts = map mark_pending s.harts }

marked-IsSound : (s : System) → IsSound s → IsSound (marked s)
unfolding marked
marked-IsSound s v = record {
  few = rw (length-map s.harts mark_pending) v.few;
  bytes = v.bytes;
  all_sound = λ j g e.
      let (h, p, q) = get_elem?-map_inv s.harts j mark_pending e in
      rw q (mark-HartSound j h (v.all_sound j h p));
}

marked-IsTrapped :
    (s : System) (i : ℕ) (h : Hart) → IsTrapped s i h → IsTrapped (marked s) i (mark_pending h)
unfolding marked
marked-IsTrapped s i h t =
    let (a, b, c, d) = mark_same h in
    record {
      few = rw (length-map s.harts mark_pending) t.few;
      bytes = t.bytes;
      here = get_elem?-map s.harts i mark_pending t.here;
      own_id = a ∙ t.own_id;
      returns_to_user = rw b t.returns_to_user;
      others = λ j g n e.
          let (h', p, q) = get_elem?-map_inv s.harts j mark_pending e in
          rw q (mark-HartSound j h' (t.others j h' n p));
    }

-- The timer keeps all that the invariants speak of.
module _ (cfg : SchedulerConfig) (p : Progress) where
  pub fire_timer-IsSound : IsSound p.sys → IsSound (fire_timer cfg p).sys
  unfolding fire_timer marked
  fire_timer-IsSound v =
      if_both (λ (q : Progress). IsSound q.sys) (leb cfg.timer_interval p.timer_tick)
        (marked-IsSound p.sys v) v

  fire_timer-IsTrapped :
      (i : ℕ) (h : Hart) → IsTrapped p.sys i h → (h' : Hart) × IsTrapped (fire_timer cfg p).sys i h'
  unfolding fire_timer marked
  fire_timer-IsTrapped i h t =
      if_both (λ (q : Progress). (h' : Hart) × IsTrapped q.sys i h')
        (leb cfg.timer_interval p.timer_tick) (mark_pending h, marked-IsTrapped p.sys i h t) (h, t)

  fire_timer_same :
      (length (fire_timer cfg p).sys.harts ≡ length p.sys.harts)
      × ((fire_timer cfg p).total_steps ≡ p.total_steps)
      × ((fire_timer cfg p).sys.mem ≡ p.sys.mem)
      × ((fire_timer cfg p).timer_tick ≤ p.timer_tick)
  unfolding fire_timer
  fire_timer_same =
      if_both
        (λ (q : Progress).
          (length q.sys.harts ≡ length p.sys.harts)
          × (q.total_steps ≡ p.total_steps)
          × (q.sys.mem ≡ p.sys.mem)
          × (q.timer_tick ≤ p.timer_tick))
        (leb cfg.timer_interval p.timer_tick)
        (length-map p.sys.harts mark_pending, refl, refl, omega arith)
        (refl, refl, refl, omega arith)

pub deliver_same :
    (h : Hart) (cause tval : ℕ)
    → ((deliver_trap h cause tval).id ≡ h.id) × ((deliver_trap h cause tval).state ≡ h.state)
unfolding deliver_trap
deliver_same h cause tval = (refl, refl)

pub trapped-returns :
    (h : Hart) (cause tval : ℕ)
    → h.mode ≡ user
    → (trap_return (deliver_trap h cause tval).csr).1 ≡ user
unfolding deliver_trap
trapped-returns h cause tval u = (trap_return-trap_enter h.csr h.pc cause tval h.mode).0 ∙ u

-- The progress after hart `i` has run `execute_one`, before the timer.
abbrev pub stepped : ℕ → Progress → Stepped → Progress
stepped i p s = record p {
  sys = record (edit p.sys i (λ _. s.hart)) { mem = s.mem };
  total_steps = p.total_steps + 1;
  timer_tick = p.timer_tick + 1;
}

-- Below the slots of `n` harts, or behind them and the three bytes that an access may run over.
abbrev pub Outside : ℕ → ℕ → Type 0
Outside n j = (j < 0x10000) ⊎ (0x10000 * (n + 1) + 3 ≤ j)

abbrev pub SameOutside : ℕ → ProtectedMemory → ProtectedMemory → Type 0
SameOutside n m m' = (j : ℕ) → Outside n j → m'.bytes j ≡ m.bytes j

-- What a step leaves: a sound system with as many harts, more steps counted, the memory outside the slots
-- as it was, and mail that the kernel's calls account for.
pub record Goes (p : Progress) (more : ℕ) (q : Progress) : Type 0 where
  pub sound : IsSound q.sys
  pub as_many : length q.sys.harts ≡ length p.sys.harts
  pub steps : q.total_steps ≡ p.total_steps + more
  pub outside : SameOutside (length p.sys.harts) p.sys.mem q.sys.mem
  pub ticks : p.timer_tick ≤ p.total_steps → q.timer_tick ≤ q.total_steps
  pub leads : Leads p.sys q.sys

module _ (cfg : SchedulerConfig) (i : ℕ) (p : Progress) (h : Hart) (v : IsSound p.sys)
    (here : get_elem? p.sys.harts i ≡ some h) (runs : h.state ≡ running) where
  pub stepped-IsSound :
      (s : Stepped) → HartSound i s.hart → IsBytes s.mem → IsSound (stepped i p s).sys
  stepped-IsSound s good b = record {
    few = rw (length-modify p.sys.harts i (λ _. s.hart)) v.few;
    bytes = b;
    all_sound = λ j g e.
        let (g₀, q, cases) = get_elem?-modify_inv p.sys.harts i j (λ _. s.hart) e in
        elim cases [
          | inl (same, r) ↦ rw (same, r) good
          | inr (other, r) ↦ rw r (v.all_sound j g₀ q)
        ];
  }

  stepped-IsTrapped :
      (s : Stepped)
      → s.hart.id ≡ i
      → (trap_return s.hart.csr).1 ≡ user
      → IsBytes s.mem
      → IsTrapped (stepped i p s).sys i s.hart
  stepped-IsTrapped s e u b = record {
    few = rw (length-modify p.sys.harts i (λ _. s.hart)) v.few;
    bytes = b;
    here = get_elem?-modify_self p.sys.harts i (λ _. s.hart) here;
    own_id = e;
    returns_to_user = u;
    others = λ j g n q.
        let (g₀, r, cases) = get_elem?-modify_inv p.sys.harts i j (λ _. s.hart) q in
        elim cases [ inl (same, w) ↦ absurd (n same) | inr (other, w) ↦ rw w (v.all_sound j g₀ r) ];
  }

  Confined-outside :
      (m : ProtectedMemory)
      → Confined i 3 p.sys.mem m
      → SameOutside (length p.sys.harts) p.sys.mem m
  Confined-outside m c j (inl low) = c j (inl (omega arith))
  Confined-outside m c j (inr high) =
      c j (inr (omega (arith, high, lt-of-get_elem? p.sys.harts i here)))

  ticked-Leads :
      (s : Stepped)
      → execute_one h p.sys.mem ≡ some s
      → Leads p.sys (fire_timer cfg (stepped i p s)).sys
  ticked-Leads s ran =
      let (es, t) = fire_timer-Leads cfg (stepped i p s) in (es, hart_ran i h s here runs ran t)

  pub ticked-Goes :
      (s : Stepped)
      → execute_one h p.sys.mem ≡ some s
      → Confined i 3 p.sys.mem s.mem
      → IsSound (fire_timer cfg (stepped i p s)).sys
      → Goes p 1 (fire_timer cfg (stepped i p s))
  ticked-Goes s ran c good =
      let (n, t, m, k) = fire_timer_same cfg (stepped i p s) in
      record {
        sound = good;
        as_many = n ∙ length-modify p.sys.harts i (λ _. s.hart);
        steps = t;
        outside = rw m (Confined-outside s.mem c);
        ticks = λ le. omega (arith, t, k);
        leads = ticked-Leads s ran;
      }

  -- The kernel's part, for a hart that paused without stopping.
  pub paused-Goes :
      (s : Stepped)
      → execute_one h p.sys.mem ≡ some s
      → s.hart.id ≡ i
      → (trap_return s.hart.csr).1 ≡ user
      → s.mem ≡ p.sys.mem
      → (q : Progress) × (after_pause (fire_timer cfg (stepped i p s)) i running ≡ some q)
        × Goes p 1 q
  paused-Goes s ran e u same =
      let ticked = fire_timer cfg (stepped i p s) in
      let b : IsBytes s.mem = rw same v.bytes in
      let (h', t) = fire_timer-IsTrapped cfg (stepped i p s) i s.hart (stepped-IsTrapped s e u b) in
      let (r, f, good, n) = handle_trap-IsSound ticked.sys i h' t in
      let (g, after) =
        get_elem?-some r.sys.harts i
          (omega (arith, n, lt-of-get_elem? ticked.sys.harts i t.here)) in
      let (n', k, m, w) = fire_timer_same cfg (stepped i p s) in
      (
        record ticked { sys = r.sys },
        rw f,
        record {
          sound = good;
          as_many = n ∙ n' ∙ length-modify p.sys.harts i (λ _. s.hart);
          steps = k;
          outside = λ j o. rw (handle_trap_same_mem ticked.sys i r f ∙ m ∙ same) refl;
          ticks = λ le. omega (arith, k, w);
          leads =
              then-Leads p.sys ticked.sys r.sys (ticked-Leads s ran)
                (_, trap_handled i h' g r t f after no_step);
        },
      )
