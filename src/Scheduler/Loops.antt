-- ===== src/Scheduler/Loops.antt =====
-- scheduler.h: the loop over the harts, on a sound system.
use mocker.Prelude.{
  List, ℕ, zero, suc, ◌+◌, ◌*◌, ◌-◌, subst, ◌<◌, ◌≤◌, ◌≡◌, refl, sym, ap, ◌∙◌, inl, inr, true,
  false, Bool-cases, Option, some, length, get_elem?, get_elem?-some, lt-of-get_elem?,
  if◌then◌else◌, arith,
}
use mathlib.Core.Option.{some-injective}
use native.Mathlib.Decide.{ℕ_discrete}
use mocker.Cpu.State.{Hart}
use mocker.Scheduler.Trace.{then-Leads}
use mocker.Kernel.Sound.{IsSound}
use mocker.Scheduler.{SchedulerConfig, Progress, is_running, run_quantum, run_harts}
use mocker.Scheduler.Quantum.{
  Advances, then_outside, still-Advances, running-Advances, run_quantum-Advances,
}

-- One hart's turn in the loop over the harts.
abbrev pub turn : SchedulerConfig → ℕ → Progress → Hart → Option Progress
turn cfg i p h = if is_running h.state then run_quantum cfg i cfg.quantum p else some p

pub turn-Advances :
    (cfg : SchedulerConfig) (i : ℕ) (p : Progress) (h : Hart)
    → IsSound p.sys
    → get_elem? p.sys.harts i ≡ some h
    → (q : Progress) × (turn cfg i p h ≡ some q) × Advances p 0 cfg.quantum q
turn-Advances cfg i p h v here = elim (Bool-cases (is_running h.state)) [
  | inl runs ↦
      simp runs (run_quantum-Advances cfg i cfg.quantum p v (lt-of-get_elem? p.sys.harts i here))
  | inr idle ↦ (p, simp idle, still-Advances p cfg.quantum v)
]

-- The loop over the harts returns, keeps the system sound, and takes at most a quantum for each hart.
pub run_harts-Advances :
    (cfg : SchedulerConfig) (left i : ℕ) (p : Progress)
    → IsSound p.sys
    → i + left ≡ length p.sys.harts
    → (q : Progress) × (run_harts cfg left i p ≡ some q) × Advances p 0 (left * cfg.quantum) q
unfolding run_harts
run_harts-Advances cfg zero i p v e = (p, refl, still-Advances p _ v)
run_harts-Advances cfg (suc left) i p v e =
    let (h, here) = get_elem?-some p.sys.harts i (omega arith) in
    let (q, f, a) = turn-Advances cfg i p h v here in
    let (r, g, b) = run_harts-Advances cfg left (i + 1) q a.sound (omega (arith, a.as_many)) in
    (
      r,
      simp (here, f) g,
      record {
        sound = b.sound;
        as_many = b.as_many ∙ a.as_many;
        at_least = omega (arith, a.at_least, b.at_least);
        at_most = omega (arith, a.at_most, b.at_most);
        outside = then_outside p q r a.as_many a.outside b.outside;
        ticks = λ le. b.ticks (a.ticks le);
        leads = then-Leads p.sys q.sys r.sys a.leads b.leads;
      },
    )

pub first_turn :
    (cfg : SchedulerConfig) (i : ℕ) (p : Progress) (h : Hart)
    → 0 < cfg.quantum
    → IsSound p.sys
    → get_elem? p.sys.harts i ≡ some h
    → is_running h.state ≡ true
    → (q : Progress) × (run_quantum cfg i cfg.quantum p ≡ some q) × Advances p 1 cfg.quantum q
first_turn cfg i p h pos v here now =
    let e : cfg.quantum ≡ suc (cfg.quantum - 1) = omega arith in
    subst (λ (k : ℕ). (q : Progress) × (run_quantum cfg i k p ≡ some q) × Advances p 1 k q) (sym e)
      (running-Advances cfg i (cfg.quantum - 1) p h v here now
        λ q. run_quantum-Advances cfg i (cfg.quantum - 1) q)

-- A running hart stands behind one that is not.
later_index :
    (hs : List Hart) (i j : ℕ) (h g : Hart)
    → i ≤ j
    → get_elem? hs i ≡ some h
    → get_elem? hs j ≡ some g
    → is_running h.state ≡ false
    → is_running g.state ≡ true
    → i + 1 ≤ j
later_index hs i j h g le here there idle runs = elim (ℕ_discrete i j) [
  | yes e ↦ absurd (clash e)
  | no n ↦ omega arith
]
  where
    clash : i ≡ j → ⊥
    clash e = ground (arith, some-injective (sym here ∙ ap (get_elem? hs) e ∙ there))

abbrev pub NoneRunning : List Hart → Type 0
NoneRunning hs = (j : ℕ) (g : Hart) → get_elem? hs j ≡ some g → is_running g.state ≡ false

-- If some hart from index `i` on is running and the quantum is not empty, the loop takes a step.
pub run_harts_progress :
    (cfg : SchedulerConfig) (left i j : ℕ) (p : Progress) (g : Hart)
    → 0 < cfg.quantum
    → IsSound p.sys
    → i + left ≡ length p.sys.harts
    → i ≤ j
    → get_elem? p.sys.harts j ≡ some g
    → is_running g.state ≡ true
    → (q : Progress) × (run_harts cfg left i p ≡ some q) × Advances p 1 (left * cfg.quantum) q
unfolding run_harts
run_harts_progress cfg zero i j p g pos v e le there runs =
    absurd (omega (arith, lt-of-get_elem? p.sys.harts j there))
run_harts_progress cfg (suc left) i j p g pos v e le there runs =
    let (h, here) = get_elem?-some p.sys.harts i (omega arith) in
    elim (Bool-cases (is_running h.state)) [
      | inl now ↦
          let (q, f, a) = first_turn cfg i p h pos v here now in
          let (r, k, b) =
            run_harts-Advances cfg left (i + 1) q a.sound (omega (arith, a.as_many)) in
          (
            r,
            simp (here, now, f) k,
            record {
              sound = b.sound;
              as_many = b.as_many ∙ a.as_many;
              at_least = omega (arith, a.at_least, b.at_least);
              at_most = omega (arith, a.at_most, b.at_most);
              outside = then_outside p q r a.as_many a.outside b.outside;
              ticks = λ le. b.ticks (a.ticks le);
              leads = then-Leads p.sys q.sys r.sys a.leads b.leads;
            },
          )
      | inr idle ↦
          let (r, k, b) =
            run_harts_progress cfg left (i + 1) j p g pos v (omega arith) (later h here idle) there
              runs in
          (
            r,
            simp (here, idle) k,
            record {
              sound = b.sound;
              as_many = b.as_many;
              at_least = b.at_least;
              at_most = omega (arith, b.at_most);
              outside = b.outside;
              ticks = b.ticks;
              leads = b.leads;
            },
          )
    ]
  where
    later : (h : Hart) → get_elem? p.sys.harts i ≡ some h → is_running h.state ≡ false → i + 1 ≤ j
    later h here idle = later_index p.sys.harts i j h g le here there idle runs

-- With no hart running the loop changes nothing.
pub run_harts_idle :
    (cfg : SchedulerConfig) (left i : ℕ) (p : Progress)
    → i + left ≡ length p.sys.harts
    → NoneRunning p.sys.harts
    → run_harts cfg left i p ≡ some p
unfolding run_harts
run_harts_idle cfg zero i p e none_runs = refl
run_harts_idle cfg (suc left) i p e none_runs =
    let (h, here) = get_elem?-some p.sys.harts i (omega arith) in
    simp (here, none_runs i h here) (run_harts_idle cfg left (i + 1) p (omega arith) none_runs)
