-- ===== src/Scheduler/Isolation.antt =====
-- scheduler.h: what the turn of one hart does to another one: to its registers and to its slot of memory.
use mocker.Prelude.{
  ℕ, zero, suc, ◌+◌, ◌*◌, ◌<◌, ◌≤◌, ◌≡◌, ◌≢◌, refl, ◌∙◌, ap, inl, inr, Bool, true, false,
  Bool-cases, Option, some, get_elem?, get_elem?-map, get_elem?-some, lt-of-get_elem?, length,
  if_both, if◌then◌else◌, leb, arith, ◌>>=◌, Ensures, Ensures->>=, Ensures-some, Ensures-of,
}
use mocker.Memory.{ProtectedMemory}
use mocker.Memory.Layout.{max_harts}
use mocker.Memory.Protection.{Confined}
use mocker.Cpu.State.{Hart, HartState, running, halted, waiting, faulted, Stepped}
use mocker.Cpu.User.{Outcome, retired, trapped, preempted, stopped, execute_one_user}
use mocker.Kernel.{Handled, handle_trap}
use mocker.Kernel.Sound.{IsSound}
use mocker.Kernel.Frame.{handle_trap_same_mem}
use mocker.Kernel.Isolation.{
  LeftAlone, Spares, same-Spares, then-Spares, modify-Spares, handle_trap-Spares,
}
use mocker.Scheduler.Sound.{stepped}
use mocker.Scheduler.Quantum.{quantum_step-StepGoes, run_quantum-Advances, is_running-eq}
use mocker.Scheduler.{
  SchedulerConfig, Progress, mark_pending, is_running, fire_timer, after_pause, quantum_step,
  run_quantum,
}

-- The slot of hart `j` without the three bytes that an access of the hart below may run over.
abbrev pub Private : ℕ → ℕ → Type 0
Private j a = (0x10000 * (j + 1) + 3 ≤ a) × (a < 0x10000 * (j + 2))

abbrev pub SamePrivate : ℕ → ProtectedMemory → ProtectedMemory → Type 0
SamePrivate j m m' = (a : ℕ) → Private j a → m'.bytes a ≡ m.bytes a

-- Hart `j` was left alone, and so was its memory.
abbrev pub Isolates : ℕ → Progress → Progress → Type 0
Isolates j p q = Spares j p.sys.harts q.sys.harts × SamePrivate j p.sys.mem q.sys.mem

pub same-Isolates : (j : ℕ) (p : Progress) → Isolates j p p
same-Isolates j p = (same-Spares j p.sys.harts, λ a r. refl)

pub then-Isolates : (j : ℕ) (p q r : Progress) → Isolates j p q → Isolates j q r → Isolates j p r
then-Isolates j p q r (s, m) (t, n) =
    (then-Spares j p.sys.harts q.sys.harts r.sys.harts s t, λ a h. n a h ∙ m a h)

Confined-SamePrivate :
    (i j : ℕ) (m m' : ProtectedMemory) → j ≢ i → Confined i 3 m m' → SamePrivate j m m'
Confined-SamePrivate i j m m' n c a (low, high) = c a (ground (arith, low, high, n))

mark-LeftAlone : (g : Hart) → LeftAlone g (mark_pending g)
mark-LeftAlone g = record {
  same_id = ground arith;
  same_mode = ground arith;
  same_x = ground arith;
  same_pc = ground arith;
  same_steps = ground arith;
  same_csr = ground arith;
  woken = ground arith;
  still_pending = ground arith;
}

-- The timer marks every running hart.
fire_timer-Isolates :
    (cfg : SchedulerConfig) (j : ℕ) (p : Progress) → Isolates j p (fire_timer cfg p)
unfolding fire_timer
fire_timer-Isolates cfg j p =
    if_both (Isolates j p) (leb cfg.timer_interval p.timer_tick)
      (
        (λ g e. (mark_pending g, get_elem?-map p.sys.harts j mark_pending e, mark-LeftAlone g)),
        λ a r. refl,
      )
      (same-Isolates j p)

kernel-Isolates :
    (j i : ℕ) (p : Progress)
    → j ≢ i
    → Ensures
        (λ (q : Progress). Isolates j p q)
        (handle_trap p.sys i >>= λ r. some (record p { sys = r.sys }))
kernel-Isolates j i p n =
    let P : Handled → Type 0 = λ r. Isolates j p (record p { sys = r.sys }) in
    Ensures->>= P (Isolates j p) (handle_trap p.sys i) (λ r. some (record p { sys = r.sys }))
      (Ensures-of P (handle_trap p.sys i) λ r e. (
        Ensures-some (λ (r : Handled). Spares j p.sys.harts r.sys.harts)
            (handle_trap-Spares j i p.sys n) e,
        λ a h. ap (λ (m : ProtectedMemory). m.bytes a) (handle_trap_same_mem p.sys i r e),
      ))
      (λ r h. h)

after_pause-Isolates :
    (j i : ℕ) (p : Progress) (st : HartState) → j ≢ i → Ensures (Isolates j p) (after_pause p i st)
after_pause-Isolates j i p halted n = same-Isolates j p
after_pause-Isolates j i p faulted n = same-Isolates j p
after_pause-Isolates j i p running n = kernel-Isolates j i p n
after_pause-Isolates j i p waiting n = kernel-Isolates j i p n

-- A step of hart `i` stays in its slot and the three bytes behind it.
Outcome-Confined :
    (i : ℕ) (h : Hart) (m : ProtectedMemory) (s : Stepped)
    → h.id ≡ i
    → Outcome h m s
    → Confined i 3 m s.mem
Outcome-Confined i h m s e (retired r) = rw (← e) r.confined
Outcome-Confined i h m s e (trapped t) = λ j o. rw t.same_mem refl
Outcome-Confined i h m s e (preempted pending enabled q) = λ j o. rw q refl
Outcome-Confined i h m s e (stopped q) = λ j o. rw q refl

module _ (cfg : SchedulerConfig) (i j : ℕ) (n : j ≢ i) where
  -- The rest of a step: the timer, and the kernel for a hart that has paused.
  abbrev ending : Progress → Stepped → Option (Bool × Progress)
  ending p s =
      let ticked = fire_timer cfg (stepped i p s) in
      if s.ok
      then some (true, ticked)
      else (after_pause ticked i s.hart.state >>= λ q. some (false, q))

  abbrev StepIsolates : Progress → Option (Bool × Progress) → Type 0
  StepIsolates p = Ensures (λ ((b, q) : Bool × Progress). Isolates j p q)

  ticked-Isolates :
      (p : Progress) (s : Stepped)
      → Confined i 3 p.sys.mem s.mem
      → Isolates j p (fire_timer cfg (stepped i p s))
  ticked-Isolates p s c =
      then-Isolates j p (stepped i p s) (fire_timer cfg (stepped i p s))
        (
          modify-Spares j i p.sys.harts (λ _. s.hart) n,
          Confined-SamePrivate i j p.sys.mem s.mem n c,
        )
        (fire_timer-Isolates cfg j (stepped i p s))

  ending-Isolates :
      (p : Progress) (s : Stepped) → Confined i 3 p.sys.mem s.mem → StepIsolates p (ending p s)
  ending-Isolates p s c =
      let ticked = fire_timer cfg (stepped i p s) in
      let there = ticked-Isolates p s c in
      if_both (StepIsolates p) s.ok there (
        Ensures->>= (Isolates j ticked) (λ ((b, q) : Bool × Progress). Isolates j p q)
          (after_pause ticked i s.hart.state) (λ q. some (false, q))
          (after_pause-Isolates j i ticked s.hart.state n) (λ q. then-Isolates j p ticked q there))

  quantum_step-Isolates :
      (p : Progress) (h : Hart)
      → IsSound p.sys
      → get_elem? p.sys.harts i ≡ some h
      → h.state ≡ running
      → StepIsolates p (quantum_step cfg i p h)
  unfolding quantum_step
  quantum_step-Isolates p h v here runs =
      let own = v.all_sound i h here in
      let small : h.id < max_harts =
        omega (arith, own.own_id, v.few, lt-of-get_elem? p.sys.harts i here) in
      let (s, e, o) = execute_one_user h p.sys.mem small (own.running_user runs) v.bytes in
      rw e (ending-Isolates p s (Outcome-Confined i h p.sys.mem s own.own_id o))

  after_step :
      (left : ℕ) (go_on : Bool) (p q : Progress)
      → Isolates j p q
      → Ensures (Isolates j q) (run_quantum cfg i left q)
      → Ensures (Isolates j p) (if go_on then run_quantum cfg i left q else some q)
  after_step left true p q first rest =
      Ensures-of (Isolates j p) (run_quantum cfg i left q)
        λ r e. then-Isolates j p q r first (Ensures-some (Isolates j q) rest e)
  after_step left false p q first rest = first

  quantum-Isolates :
      (left : ℕ) (p : Progress)
      → IsSound p.sys
      → i < length p.sys.harts
      → Ensures (Isolates j p) (run_quantum cfg i left p)
  unfolding run_quantum
  quantum-Isolates zero p v lt = same-Isolates j p
  quantum-Isolates (suc left) p v lt =
      let (h, here) = get_elem?-some p.sys.harts i lt in
      elim (Bool-cases (is_running h.state)) [
        | inl now ↦
            let runs = is_running-eq h.state now in
            let (b, q, f, g) = quantum_step-StepGoes cfg i p h v here runs in
            let step : Isolates j p q =
              Ensures-some (λ ((b, q) : Bool × Progress). Isolates j p q)
                (quantum_step-Isolates p h v here runs) f in
            simp (here, now, f)
              (after_step left b p q step
                (quantum-Isolates left q g.sound (omega (arith, g.as_many))))
        | inr idle ↦ simp (here, idle) (same-Isolates j p)
      ]

  -- The quantum of a hart in a sound system returns, whatever its program does, and leaves every other hart as
  -- it was: the registers, the mode, the pc, the CSRs and the count of steps are the same, a waiting hart may
  -- be woken and a timer interrupt may be pending, and no byte of its slot changes, the first three excepted.
  pub run_quantum-LeftAlone :
      (left : ℕ) (p : Progress) (g : Hart)
      → IsSound p.sys
      → i < length p.sys.harts
      → get_elem? p.sys.harts j ≡ some g
      → (q : Progress) × (g' : Hart) × (run_quantum cfg i left p ≡ some q)
        × (get_elem? q.sys.harts j ≡ some g')
        × LeftAlone g g'
        × SamePrivate j p.sys.mem q.sys.mem
  run_quantum-LeftAlone left p g v lt there =
      let (q, e, a) = run_quantum-Advances cfg i left p v lt in
      let (spares, m) = Ensures-some (Isolates j p) (quantum-Isolates left p v lt) e in
      let (g', f, alone) = spares g there in (q, g', e, f, alone, m)
