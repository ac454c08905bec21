-- ===== src/Scheduler/Trace.antt =====
-- scheduler.h: a run as the sequence of its steps, timer interrupts and handled traps.
use mocker.Prelude.{ℕ, ◌≡◌, refl, some, List, [], ◌∷◌, ◌++◌, get_elem?, map, if_both, leb}
use mocker.Cpu.State.{Hart, Stepped, running}
use mocker.Cpu.{execute_one}
use mocker.Kernel.{System, Handled, handle_trap, edit}
use mocker.Kernel.Sound.{IsTrapped}
use mocker.Kernel.Mail.{Event, event}
use mocker.Kernel.Fifo.{Calls, none_left, harts_run, called}
use mocker.Scheduler.{SchedulerConfig, Progress, mark_pending, fire_timer}

-- Hart `i` has run one instruction.
abbrev pub after_step : System → ℕ → Stepped → System
after_step s i st = record (edit s i (λ _. st.hart)) { mem = st.mem }

-- What leads from one system to another, with the meaning of each handled trap to the mail: a running hart
-- calls execute_one, the timer marks the running harts, or the kernel handles the trap of a hart.
pub data Trace : System → List Event → System → Type 0 where
  no_step : {s : System} → Trace s [] s
  hart_ran :
      {s u : System} {es : List Event} (i : ℕ) (h : Hart) (st : Stepped)
      → get_elem? s.harts i ≡ some h
      → h.state ≡ running
      → execute_one h s.mem ≡ some st
      → Trace (after_step s i st) es u
      → Trace s es u
  timer_fired :
      {s u : System} {es : List Event}
      → Trace (record s { harts = map mark_pending s.harts }) es u
      → Trace s es u
  trap_handled :
      {s u : System} {es : List Event} (i : ℕ) (h g : Hart) (q : Handled)
      → IsTrapped s i h
      → handle_trap s i ≡ some q
      → get_elem? q.sys.harts i ≡ some g
      → Trace q.sys es u
      → Trace s (event h q.resume g ∷ es) u

abbrev pub Leads : System → System → Type 0
Leads s t = (es : List Event) × Trace s es t

append-Trace :
    (s t u : System) (es fs : List Event) → Trace s es t → Trace t fs u → Trace s (es ++ fs) u
append-Trace s t u es fs no_step c = c
append-Trace s t u es fs (hart_ran i h st here runs ran b) c =
    hart_ran i h st here runs ran (append-Trace (after_step s i st) t u es fs b c)
append-Trace s t u es fs (timer_fired b) c =
    timer_fired (append-Trace (record s { harts = map mark_pending s.harts }) t u es fs b c)
append-Trace s t u es fs (trap_handled {es = later} i h g q trapped done after b) c =
    trap_handled i h g q trapped done after (append-Trace q.sys t u later fs b c)

pub then-Leads : (s t u : System) → Leads s t → Leads t u → Leads s u
then-Leads s t u (es, b) (fs, c) = (es ++ fs, append-Trace s t u es fs b c)

pub fire_timer-Leads : (cfg : SchedulerConfig) (p : Progress) → Leads p.sys (fire_timer cfg p).sys
unfolding fire_timer
fire_timer-Leads cfg p =
    if_both (λ (q : Progress). Leads p.sys q.sys) (leb cfg.timer_interval p.timer_tick)
      ([], timer_fired no_step) ([], no_step)

-- To the queues only the handled traps matter.
pub Trace-Calls : (s u : System) (es : List Event) → Trace s es u → Calls s es u
Trace-Calls s u es no_step = none_left
Trace-Calls s u es (hart_ran i h st here runs ran b) =
    harts_run refl (Trace-Calls (after_step s i st) u es b)
Trace-Calls s u es (timer_fired b) =
    harts_run refl (Trace-Calls (record s { harts = map mark_pending s.harts }) u es b)
Trace-Calls s u es (trap_handled {es = later} i h g q trapped done after b) =
    called i h g q trapped done after (Trace-Calls q.sys u later b)
