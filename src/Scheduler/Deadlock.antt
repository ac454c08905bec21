-- ===== src/Scheduler/Deadlock.antt =====
-- scheduler.h: the outer loop of `run` once no hart runs and some wait.
use mocker.Prelude.{
  ℕ, zero, suc, ◌+◌, ◌<◌, ◌≡◌, refl, ◌⊎◌, inl, inr, true, false, Bool-cases, some, List, [], ◌∷◌,
  length, get_elem?, arith, ltb,
}
use mocker.Cpu.State.{Hart}
use mocker.Scheduler.Loops.{NoneRunning, run_harts_idle}
use mocker.Scheduler.{SchedulerConfig, Progress, out_of_fuel, is_running, any_active, rounds}

abbrev pub SomeRunning : List Hart → Type 0
SomeRunning hs = (j : ℕ) × (g : Hart) × (get_elem? hs j ≡ some g) × (is_running g.state ≡ true)

pub running_cases : (hs : List Hart) → SomeRunning hs ⊎ NoneRunning hs
running_cases [] = inr λ j g e. cc
running_cases (h ∷ hs) = elim (Bool-cases (is_running h.state)) [
  | inl runs ↦ inl (0, h, refl, runs)
  | inr idle ↦ with_head h hs idle (running_cases hs)
]
  where
    with_head :
        (h : Hart) (hs : List Hart)
        → is_running h.state ≡ false
        → SomeRunning hs ⊎ NoneRunning hs
        → SomeRunning (h ∷ hs) ⊎ NoneRunning (h ∷ hs)
    with_head h hs idle (inl (j, g, e, r)) = inl (suc j, g, e, r)
    with_head h hs idle (inr none_runs) = inr (pick idle none_runs)
      where
        pick : is_running h.state ≡ false → NoneRunning hs → NoneRunning (h ∷ hs)
        pick idle n zero g e = ground arith
        pick idle n (suc j) g e = n j g e

-- Harts wait, none runs, and the step limit is not reached.
pub record IsDeadlocked (cfg : SchedulerConfig) (p : Progress) : Type 0 where
  pub below_limit : p.total_steps < cfg.max_cycles
  pub active : any_active p.sys.harts ≡ true
  pub none_running : NoneRunning p.sys.harts

-- The outer loop never ends once every hart that is left waits: whatever the fuel, it runs out.
pub rounds_deadlock :
    (cfg : SchedulerConfig) (fuel round : ℕ) (p : Progress)
    → IsDeadlocked cfg p
    → rounds cfg fuel round p ≡ out_of_fuel
unfolding rounds
rounds_deadlock cfg zero round p d = refl
rounds_deadlock cfg (suc fuel) round p d =
    let idle = run_harts_idle cfg (length p.sys.harts) 0 p (omega arith) d.none_running in
    let below : ltb p.total_steps cfg.max_cycles ≡ true = ground (arith, d.below_limit) in
    simp (below, d.active, idle) (rounds_deadlock cfg fuel (round + 1) p d)
