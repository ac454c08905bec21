-- ===== src/Scheduler/Quantum.antt =====
-- scheduler.h: the inner loop of a quantum, on a sound system.
use mocker.Prelude.{
  ℕ, zero, suc, ◌+◌, ◌<◌, ◌≤◌, ◌≡◌, refl, ap, [], ◌∙◌, inl, inr, Bool, true, false, Bool-cases,
  Option, some, length, get_elem?, get_elem?-some, lt-of-get_elem?, if◌then◌else◌, arith, ◌>>=◌,
}
use mocker.Csr.Cause
use mocker.Memory.Layout.{max_harts}
use mocker.Cpu.State.{Hart, HartState, running, halted, waiting, faulted, Stepped, deliver_trap}
use mocker.Cpu.User.{Outcome, retired, trapped, preempted, stopped, execute_one_user}
use mocker.Cpu.{execute_one}
use mocker.Scheduler.Trace.{Leads, no_step, then-Leads}
use mocker.Kernel.Sound.{HartSound, IsSound}
use mocker.Scheduler.Sound.{
  Goes, SameOutside, stepped, ticked-Goes, paused-Goes, stepped-IsSound, fire_timer-IsSound,
  trapped-returns, deliver_same,
}
use mocker.Scheduler.{
  SchedulerConfig, Progress, is_running, fire_timer, after_pause, quantum_step, run_quantum,
}

-- A step goes on, or it ends the quantum; either way it is one step more.
abbrev pub StepGoes : Progress → Option (Bool × Progress) → Type 0
StepGoes p r = (b : Bool) × (q : Progress) × (r ≡ some (b, q)) × Goes p 1 q

pub is_running-eq : (st : HartState) → is_running st ≡ true → st ≡ running
is_running-eq running e = refl
is_running-eq halted e = cc
is_running-eq waiting e = cc
is_running-eq faulted e = cc

module _ (cfg : SchedulerConfig) (i : ℕ) (p : Progress) (h : Hart) (v : IsSound p.sys)
    (here : get_elem? p.sys.harts i ≡ some h) (runs : h.state ≡ running) where
  sound : HartSound i h
  sound = v.all_sound i h here

  abbrev halting : Stepped
  halting = record { ok = false; hart = record h { state = halted }; mem = p.sys.mem }

  abbrev ending : Stepped → Option (Bool × Progress)
  ending s =
      let ticked = fire_timer cfg (stepped i p s) in
      if s.ok
      then some (true, ticked)
      else (after_pause ticked i s.hart.state >>= λ q. some (false, q))

  paused :
      (s : Stepped)
      → s.ok ≡ false
      → s.hart.state ≡ running
      → (q : Progress) × (after_pause (fire_timer cfg (stepped i p s)) i running ≡ some q)
        × Goes p 1 q
      → StepGoes p (ending s)
  paused s e r (q, f, g) = (false, q, simp (e, r, f), g)

  ending-StepGoes :
      (s : Stepped)
      → execute_one h p.sys.mem ≡ some s
      → Outcome h p.sys.mem s
      → StepGoes p (ending s)
  ending-StepGoes s ran (retired r) = (
    true,
    fire_timer cfg (stepped i p s),
    simp r.goes_on,
    ticked-Goes cfg i p h v here runs s ran (rw (← sound.own_id) r.confined) (
        fire_timer-IsSound cfg (stepped i p s) (
          stepped-IsSound cfg i p h v here runs s
            (record {
              own_id = r.same_id ∙ sound.own_id;
              running_user = λ q. r.same_mode ∙ sound.running_user runs;
              waiting_user = λ q. r.same_mode ∙ sound.running_user runs;
            })
            r.bytes)),
  )
  ending-StepGoes s ran (trapped t) =
      let (a, b) = deliver_same h t.cause t.tval in
      paused s t.pauses (rw t.delivered (b ∙ runs)) (
        paused-Goes cfg i p h v here runs s ran (rw t.delivered (a ∙ sound.own_id))
          (rw t.delivered (trapped-returns h t.cause t.tval (sound.running_user runs))) t.same_mem)
  ending-StepGoes s ran (preempted pending enabled e) =
      let h' : Hart = record h { timer_pending = false } in
      let (a, b) = deliver_same h' Cause.timer_int 0 in
      let timed : Stepped = record {
        ok = false;
        hart = deliver_trap h' Cause.timer_int 0;
        mem = p.sys.mem;
      } in
      rw e (
        paused _ refl (b ∙ runs) (
          paused-Goes cfg i p h v here runs timed (ran ∙ ap some e) (a ∙ sound.own_id)
            (trapped-returns h' Cause.timer_int 0 (sound.running_user runs)) refl))
  ending-StepGoes s ran (stopped e) = rw e (
    false,
    fire_timer cfg (stepped i p halting),
    refl,
    ticked-Goes cfg i p h v here runs halting (ran ∙ ap some e) (λ j o. refl)
        (fire_timer-IsSound cfg (stepped i p halting) (
          stepped-IsSound cfg i p h v here runs halting
            (record {
              own_id = sound.own_id;
              running_user = λ q. sound.running_user runs;
              waiting_user = λ q. sound.running_user runs;
            })
            v.bytes)),
  )

  pub quantum_step-StepGoes : StepGoes p (quantum_step cfg i p h)
  unfolding quantum_step
  quantum_step-StepGoes =
      let small : h.id < max_harts =
        omega (arith, sound.own_id, v.few, lt-of-get_elem? p.sys.harts i here) in
      let (s, e, o) = execute_one_user h p.sys.mem small (sound.running_user runs) v.bytes in
      rw e (ending-StepGoes s e o)

-- The quantum takes at least one step if it lets a running hart take any, and at most `left`.
pub record Advances (p : Progress) (least most : ℕ) (q : Progress) : Type 0 where
  pub sound : IsSound q.sys
  pub as_many : length q.sys.harts ≡ length p.sys.harts
  pub at_least : p.total_steps + least ≤ q.total_steps
  pub at_most : q.total_steps ≤ p.total_steps + most
  pub outside : SameOutside (length p.sys.harts) p.sys.mem q.sys.mem
  pub ticks : p.timer_tick ≤ p.total_steps → q.timer_tick ≤ q.total_steps
  pub leads : Leads p.sys q.sys

pub still-Advances : (p : Progress) (most : ℕ) → IsSound p.sys → Advances p 0 most p
still-Advances p most v = record {
  sound = v;
  as_many = refl;
  at_least = omega arith;
  at_most = omega arith;
  outside = λ j o. refl;
  ticks = λ le. le;
  leads = ([], no_step);
}

-- One thing after another.
pub then_outside :
    (p q r : Progress)
    → length q.sys.harts ≡ length p.sys.harts
    → SameOutside (length p.sys.harts) p.sys.mem q.sys.mem
    → SameOutside (length q.sys.harts) q.sys.mem r.sys.mem
    → SameOutside (length p.sys.harts) p.sys.mem r.sys.mem
then_outside p q r n first second j o = second j (rw n o) ∙ first j o

abbrev pub QuantumRuns : SchedulerConfig → ℕ → ℕ → Progress → Type 0
QuantumRuns cfg i left p =
    (q : Progress) × (run_quantum cfg i left p ≡ some q) × Advances p 0 left q

-- After one step the rest of the quantum runs, or it is over.
after_step :
    (cfg : SchedulerConfig) (i left : ℕ) (p q : Progress) (go_on : Bool)
    → Goes p 1 q
    → QuantumRuns cfg i left q
    → (r : Progress) × ((if go_on then run_quantum cfg i left q else some q) ≡ some r)
      × Advances p 1 (suc left) r
after_step cfg i left p q true g (r, e, a) = (
  r,
  e,
  record {
    sound = a.sound;
    as_many = a.as_many ∙ g.as_many;
    at_least = omega (arith, g.steps, a.at_least);
    at_most = omega (arith, g.steps, a.at_most);
    outside = then_outside p q r g.as_many g.outside a.outside;
    ticks = λ le. a.ticks (g.ticks le);
    leads = then-Leads p.sys q.sys r.sys g.leads a.leads;
  },
)
after_step cfg i left p q false g (r, e, a) = (
  q,
  refl,
  record {
    sound = g.sound;
    as_many = g.as_many;
    at_least = omega (arith, g.steps);
    at_most = omega (arith, g.steps);
    outside = g.outside;
    ticks = g.ticks;
    leads = g.leads;
  },
)

-- A running hart takes at least one step of a quantum that is not empty.
pub running-Advances :
    (cfg : SchedulerConfig) (i left : ℕ) (p : Progress) (h : Hart)
    → IsSound p.sys
    → get_elem? p.sys.harts i ≡ some h
    → is_running h.state ≡ true
    → ((q : Progress) → IsSound q.sys → i < length q.sys.harts → QuantumRuns cfg i left q)
    → (q : Progress) × (run_quantum cfg i (suc left) p ≡ some q) × Advances p 1 (suc left) q
unfolding run_quantum
running-Advances cfg i left p h v here runs next =
    let (b, q, f, g) = quantum_step-StepGoes cfg i p h v here (is_running-eq h.state runs) in
    let lt : i < length q.sys.harts =
      omega (arith, g.as_many, lt-of-get_elem? p.sys.harts i here) in
    simp (here, runs, f) (after_step cfg i left p q b g (next q g.sound lt))

weaken : (p q : Progress) (most : ℕ) → Advances p 1 most q → Advances p 0 most q
weaken p q most a = record {
  sound = a.sound;
  as_many = a.as_many;
  at_least = omega (arith, a.at_least);
  at_most = a.at_most;
  outside = a.outside;
  ticks = a.ticks;
  leads = a.leads;
}

pub run_quantum-Advances :
    (cfg : SchedulerConfig) (i left : ℕ) (p : Progress)
    → IsSound p.sys
    → i < length p.sys.harts
    → QuantumRuns cfg i left p
run_quantum-Advances cfg i zero p v lt = (p, unfold run_quantum in refl, still-Advances p 0 v)
run_quantum-Advances cfg i (suc left) p v lt =
    let (h, here) = get_elem?-some p.sys.harts i lt in
    elim (Bool-cases (is_running h.state)) [
      | inl runs ↦
          let (q, e, a) =
            running-Advances cfg i left p h v here runs (λ q. run_quantum-Advances cfg i left q) in
          (q, e, weaken p q (suc left) a)
      | inr idle ↦ (p, unfold run_quantum in simp (here, idle), still-Advances p (suc left) v)
    ]
