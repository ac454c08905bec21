-- ===== src/Scheduler/Fairness.antt =====
-- scheduler.h: the turn of a running hart in a round.
use mocker.Prelude.{
  ℕ, zero, suc, ◌+◌, ◌<◌, ◌≤◌, ◌≡◌, refl, ◌∙◌, inl, inr, true, Bool-cases, some, get_elem?,
  get_elem?-some, lt-of-get_elem?, length, arith,
}
use native.Mathlib.Decide.{ℕ_discrete}
use mocker.Cpu.State.{Hart, running}
use mocker.Kernel.Isolation.{LeftAlone, same-LeftAlone, then-LeftAlone}
use mocker.Kernel.Sound.{IsSound}
use mocker.Scheduler.Isolation.{SamePrivate, run_quantum-LeftAlone}
use mocker.Scheduler.Loops.{turn, turn-Advances, first_turn}
use mocker.Scheduler.{SchedulerConfig, Progress, is_running, run_quantum, run_harts}

-- The hart `g` at `j` gets its turn in the round that the loop from index `i` on is the rest of: the
-- loop reaches `before` with the hart still running and left alone, runs a quantum of it with a step at least,
-- and goes on behind it.
pub record TakesTurn (cfg : SchedulerConfig) (left i j : ℕ) (p : Progress) (g : Hart) : Type 0 where
  pub before : Progress
  pub after : Progress
  pub hart : Hart
  pub rest : ℕ
  pub there : get_elem? before.sys.harts j ≡ some hart
  pub left_alone : LeftAlone g hart
  pub still_running : hart.state ≡ running
  pub same_memory : SamePrivate j p.sys.mem before.sys.mem
  pub runs : run_quantum cfg j cfg.quantum before ≡ some after
  pub steps : before.total_steps + 1 ≤ after.total_steps
  pub last : j + 1 + rest ≡ length p.sys.harts
  pub goes_on : run_harts cfg left i p ≡ run_harts cfg rest (j + 1) after

still_running-LeftAlone : (g g' : Hart) → LeftAlone g g' → g.state ≡ running → g'.state ≡ running
still_running-LeftAlone g g' a e = elim a.woken [ inl p ↦ p ∙ e | inr (p, q) ↦ q ]

-- Another hart's turn leaves hart `j` alone.
other_turn :
    (cfg : SchedulerConfig) (i j : ℕ) (p q : Progress) (h g : Hart)
    → i < j
    → IsSound p.sys
    → get_elem? p.sys.harts i ≡ some h
    → get_elem? p.sys.harts j ≡ some g
    → turn cfg i p h ≡ some q
    → (g' : Hart) × (get_elem? q.sys.harts j ≡ some g')
      × LeftAlone g g'
      × SamePrivate j p.sys.mem q.sys.mem
other_turn cfg i j p q h g lt v here there e = elim (Bool-cases (is_running h.state)) [
  | inl now ↦
      let (r, g', f, k, alone, m) =
        run_quantum-LeftAlone cfg i j (λ e. omega arith) cfg.quantum p g v
          (lt-of-get_elem? p.sys.harts i here) there in
      let ran : turn cfg i p h ≡ run_quantum cfg i cfg.quantum p = rw now refl in
      let same : r ≡ q = cc in rw (← same) (g', k, alone, m)
  | inr idle ↦
      let passed : turn cfg i p h ≡ some p = rw idle refl in
      let same : p ≡ q = cc in rw (← same) (g, there, same-LeftAlone g, λ a r. refl)
]

-- In a sound system with a quantum that is not zero, a hart that is running when the loop over the harts
-- stands at it or before it gets its turn in that round: the turns of the harts before it return and leave
-- its registers and its slot of memory alone, the first three bytes of the slot excepted, and it is still
-- running and then takes one step at least.
pub run_harts-TakesTurn :
    (cfg : SchedulerConfig) (left i j : ℕ) (p : Progress) (g : Hart)
    → 0 < cfg.quantum
    → IsSound p.sys
    → i + left ≡ length p.sys.harts
    → i ≤ j
    → get_elem? p.sys.harts j ≡ some g
    → g.state ≡ running
    → TakesTurn cfg left i j p g
run_harts-TakesTurn cfg zero i j p g pos v e le there runs =
    absurd (omega (arith, lt-of-get_elem? p.sys.harts j there))
run_harts-TakesTurn cfg (suc left) i j p g pos v e le there runs = elim (ℕ_discrete i j) [
  | yes same ↦
      let now : is_running g.state ≡ true = rw runs refl in
      let (q, f, a) = first_turn cfg j p g pos v there now in
      record {
        before = p;
        after = q;
        hart = g;
        rest = left;
        there = there;
        left_alone = same-LeftAlone g;
        still_running = runs;
        same_memory = λ a r. refl;
        runs = f;
        steps = a.at_least;
        last = omega arith;
        goes_on = rw same (unfold run_harts in simp (there, now, f));
      }
  | no other ↦
      let (h, here) = get_elem?-some p.sys.harts i (omega arith) in
      let (q, f, a) = turn-Advances cfg i p h v here in
      let (g', there', alone, m) = other_turn cfg i j p q h g (omega arith) v here there f in
      let t =
        run_harts-TakesTurn cfg left (i + 1) j q g' pos a.sound (omega (arith, a.as_many))
          (omega arith) there' (still_running-LeftAlone g g' alone runs) in
      let first : run_harts cfg (suc left) i p ≡ run_harts cfg left (i + 1) q =
        unfold run_harts in simp (here, f) in
      record {
        before = t.before;
        after = t.after;
        hart = t.hart;
        rest = t.rest;
        there = t.there;
        left_alone = then-LeftAlone g g' t.hart alone t.left_alone;
        still_running = t.still_running;
        same_memory = λ b r. t.same_memory b r ∙ m b r;
        runs = t.runs;
        steps = t.steps;
        last = t.last ∙ a.as_many;
        goes_on = first ∙ t.goes_on;
      }
]
