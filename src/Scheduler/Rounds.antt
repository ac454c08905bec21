-- ===== src/Scheduler/Rounds.antt =====
-- scheduler.h: the outer loop of `run`. It ends within maxCycles + 1 rounds, or it never ends.
use mocker.Prelude.{
  ℕ, zero, suc, ◌+◌, ◌*◌, ◌<◌, ◌≤◌, ◌≡◌, refl, ap, ◌∙◌, ◌⊎◌, inl, inr, true, false, Bool-cases,
  ◌==◌, some, List, [], ◌∷◌, ◌++◌, ◌^◌, length, arith, ltb,
}
use native.Mathlib.Decide.{dec_lt}
use mocker.Memory.Layout.{max_harts}
use mocker.Cpu.State.{Hart}
use mocker.Kernel.{System}
use mocker.Kernel.Mail.{Event}
use mocker.Kernel.Fifo.{all_sent_to, all_received_by, Calls-Fifo}
use mocker.Kernel.Sound.{IsSound}
use mocker.Scheduler.Sound.{SameOutside}
use mocker.Scheduler.Trace.{Trace, Leads, no_step, then-Leads, Trace-Calls}
use mocker.Scheduler.Loops.{run_harts_progress}
use mocker.Scheduler.{
  SchedulerConfig, Progress, RunResult, finished, out_of_fuel, any_active, run_harts, rounds, run,
}
use mocker.Scheduler.Deadlock.{IsDeadlocked, running_cases, rounds_deadlock}

-- The step counter and the timer tick stay in the range of an int: the steps pass the limit by a quantum for
-- each of the eight harts at most.
abbrev pub CountersFit : SchedulerConfig → Type 0
CountersFit cfg = cfg.max_cycles + max_harts * cfg.quantum < 2 ^ 31

-- A regular end: the limit is reached or no hart is left to run, the system is sound, the counters are
-- those of an int, outside the slots memory is as in the first system, and the steps of harts, the timer and
-- the handled traps lead from the first system to the last, with the queues as FIFO channels.
pub record IsEnd (cfg : SchedulerConfig) (first : System) (q : Progress) : Type 0 where
  pub sound : IsSound q.sys
  pub as_many : length q.sys.harts ≡ length first.harts
  pub over : (cfg.max_cycles ≤ q.total_steps) ⊎ (any_active q.sys.harts ≡ false)
  pub bounded : q.total_steps ≤ cfg.max_cycles + length first.harts * cfg.quantum
  pub outside : SameOutside (length first.harts) first.mem q.sys.mem
  pub counted : q.total_steps < 2 ^ 31
  pub ticked : q.timer_tick ≤ q.total_steps
  pub events : List Event
  pub trace : Trace first events q.sys
  pub mail :
      (k : ℕ) → first.queues k ++ all_sent_to k events ≡ all_received_by k events ++ q.sys.queues k

abbrev pub Ends : SchedulerConfig → System → RunResult → Type 0
Ends cfg first r = (n : ℕ) × (q : Progress) × (r ≡ finished n q) × IsEnd cfg first q

-- Some rounds lead to a system where harts wait and none runs, and then the loop never ends.
pub record Deadlocks (cfg : SchedulerConfig) (round : ℕ) (p : Progress) : Type 0 where
  pub before : ℕ
  pub stuck : Progress
  pub deadlocked : IsDeadlocked cfg stuck
  pub leads : Leads p.sys stuck.sys
  pub reached :
      (fuel : ℕ) → rounds cfg (fuel + before) round p ≡ rounds cfg fuel (round + before) stuck
  pub never_ends : (fuel : ℕ) → rounds cfg fuel round p ≡ out_of_fuel

abbrev EndsOrLoops : SchedulerConfig → System → ℕ → ℕ → Progress → Type 0
EndsOrLoops cfg first fuel round p =
    Ends cfg first (rounds cfg fuel round p) ⊎ Deadlocks cfg round p

at_deadlock :
    (cfg : SchedulerConfig) (round : ℕ) (p : Progress) → IsDeadlocked cfg p → Deadlocks cfg round p
at_deadlock cfg round p d = record {
  before = 0;
  stuck = p;
  deadlocked = d;
  leads = ([], no_step);
  reached = λ fuel.
      let a : fuel + 0 ≡ fuel = omega arith in
      let b : round + 0 ≡ round = omega arith in rw (a, b) refl;
  never_ends = λ fuel. rounds_deadlock cfg fuel round p d;
}

mul_mono : (a b q : ℕ) → a ≤ b → a * q ≤ b * q
mul_mono a b q le = grind arith

module _ (cfg : SchedulerConfig) (first : System) (fit : CountersFit cfg)
    (few : length first.harts ≤ max_harts) where
  -- A round that leads from `p` to `q`.
  one_round :
      (fuel round : ℕ) (p q : Progress)
      → p.total_steps < cfg.max_cycles
      → any_active p.sys.harts ≡ true
      → run_harts cfg (length p.sys.harts) 0 p ≡ some q
      → Leads p.sys q.sys
      → EndsOrLoops cfg first fuel (round + 1) q
      → EndsOrLoops cfg first (suc fuel) round p
  unfolding rounds
  one_round fuel round p q below active e led (inl (n, r, f, end)) =
      inl (n, r, simp (limit_open, active, e) f, end)
    where
      limit_open : ltb p.total_steps cfg.max_cycles ≡ true
      limit_open = ground (arith, below)
  one_round fuel round p q below active e led (inr later) = inr (record {
    before = suc later.before;
    stuck = later.stuck;
    deadlocked = later.deadlocked;
    leads = then-Leads p.sys q.sys later.stuck.sys led later.leads;
    reached = λ fuel'.
        let a : fuel' + suc later.before ≡ suc (fuel' + later.before) = omega arith in
        let b : round + suc later.before ≡ round + 1 + later.before = omega arith in
        rw (a, b) (simp (limit_open, active, e) (later.reached fuel'));
    never_ends = go;
  })
    where
      limit_open : ltb p.total_steps cfg.max_cycles ≡ true
      limit_open = ground (arith, below)

      go : (fuel' : ℕ) → rounds cfg fuel' round p ≡ out_of_fuel
      go zero = refl
      go (suc fuel') = simp (limit_open, active, e) (later.never_ends fuel')

  at_end :
      (fuel round : ℕ) (p : Progress)
      → IsSound p.sys
      → length p.sys.harts ≡ length first.harts
      → p.total_steps ≤ cfg.max_cycles + length first.harts * cfg.quantum
      → (cfg.max_cycles ≤ p.total_steps) ⊎ (any_active p.sys.harts ≡ false)
      → SameOutside (length first.harts) first.mem p.sys.mem
      → p.timer_tick ≤ p.total_steps
      → Leads first p.sys
      → Ends cfg first (rounds cfg (suc fuel) round p)
  unfolding rounds
  at_end fuel round p v n b over w ticks (es, t) = (
    round,
    p,
    ground arith,
    record {
      sound = v;
      as_many = n;
      over = over;
      bounded = b;
      outside = w;
      counted = omega (arith, mul_mono (length first.harts) max_harts cfg.quantum few);
      ticked = ticks;
      events = es;
      trace = t;
      mail = λ k. Calls-Fifo first p.sys es k (Trace-Calls first p.sys es t);
    },
  )

  rounds_dichotomy :
      (m round : ℕ) (p : Progress)
      → 0 < cfg.quantum
      → IsSound p.sys
      → length p.sys.harts ≡ length first.harts
      → p.total_steps ≤ cfg.max_cycles + length first.harts * cfg.quantum
      → cfg.max_cycles ≤ p.total_steps + m
      → SameOutside (length first.harts) first.mem p.sys.mem
      → p.timer_tick ≤ p.total_steps
      → Leads first p.sys
      → EndsOrLoops cfg first (suc m) round p
  rounds_dichotomy zero round p pos v n b enough w ticks k =
      inl (at_end zero round p v n b (inl (omega arith)) w ticks k)
  rounds_dichotomy (suc m) round p pos v n b enough w ticks k =
      elim (dec_lt p.total_steps cfg.max_cycles) [
        | no over ↦ inl (at_end (suc m) round p v n b (inl (omega arith)) w ticks k)
        | yes below ↦ elim (Bool-cases (any_active p.sys.harts)) [
          | inr done ↦ inl (at_end (suc m) round p v n b (inr done) w ticks k)
          | inl active ↦ elim (running_cases p.sys.harts) [
            | inr none_runs ↦ inr (
                at_deadlock cfg round p
                  (record { below_limit = below; active = active; none_running = none_runs }))
            | inl (j, g, there, runs) ↦
                let (q, e, a) =
                  run_harts_progress cfg (length p.sys.harts) 0 j p g pos v (omega arith)
                    (omega arith) there runs in
                one_round (suc m) round p q below active e a.leads (
                  rounds_dichotomy m (round + 1) q pos a.sound (a.as_many ∙ n)
                    (omega (arith, below, a.at_most, ap (λ (t : ℕ). t * cfg.quantum) n))
                    (omega (arith, a.at_least)) (λ j o. a.outside j (rw n o) ∙ w j o)
                    (a.ticks ticks) (then-Leads first p.sys q.sys k a.leads))
          ]
        ]
      ]

abbrev pub start : System → Progress
start s = record { sys = s; total_steps = 0; timer_tick = 0 }

-- On a sound system, with a quantum of at least one and counters that fit an int, `run` never looks
-- outside the memory's array or the list of harts, and one of two things holds. With maxCycles + 1 units of
-- fuel it ends: the system is sound, the step limit is reached or no hart is running or waiting, the steps
-- are at most maxCycles and a quantum for each hart, below 2 ^ 31, no byte below the slots, or behind the last
-- hart's slot and the three bytes after it, has changed, and calls of execute_one on running harts, timer
-- interrupts and handled traps lead from the first system to the last, each hart's queue a FIFO channel.
-- Or such steps, some rounds of them, lead to a system where harts wait and none runs, and no amount of fuel
-- is enough: it loops forever.
pub run_dichotomy :
    (cfg : SchedulerConfig) (s : System)
    → 0 < cfg.quantum
    → CountersFit cfg
    → IsSound s
    → Ends cfg s (run cfg (suc cfg.max_cycles) s)
      ⊎ (Deadlocks cfg 0 (start s) × ((fuel : ℕ) → run cfg fuel s ≡ out_of_fuel))
unfolding run any_active
run_dichotomy cfg s pos fit v = elim (Bool-cases (length s.harts == 0)) [
  | inl empty ↦ inl (
    0,
    start s,
    simp empty,
    record {
      sound = v;
      as_many = refl;
      over = inr (none_active s.harts empty);
      bounded = omega arith;
      outside = λ j o. refl;
      counted = omega arith;
      ticked = omega arith;
      events = [];
      trace = no_step;
      mail = λ k. Calls-Fifo s s [] k (Trace-Calls s s [] no_step);
    },
  )
  | inr some_harts ↦ started some_harts (
      rounds_dichotomy cfg s fit v.few cfg.max_cycles 0 (start s) pos v refl (omega arith)
        (omega arith) (λ j o. refl) (omega arith) ([], no_step))
]
  where
    none_active : (hs : List Hart) → (length hs == 0) ≡ true → any_active hs ≡ false
    none_active [] e = refl
    none_active (h ∷ hs) e = ground arith

    started :
        (length s.harts == 0) ≡ false
        → EndsOrLoops cfg s (suc cfg.max_cycles) 0 (start s)
        → Ends cfg s (run cfg (suc cfg.max_cycles) s)
          ⊎ (Deadlocks cfg 0 (start s) × ((fuel : ℕ) → run cfg fuel s ≡ out_of_fuel))
    started e (inl (n, q, f, end)) = inl (n, q, simp e f, end)
    started e (inr later) = inr (later, λ fuel. simp e (later.never_ends fuel))
