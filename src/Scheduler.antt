-- ===== src/Scheduler.antt =====
-- scheduler.h: the creation of harts and the round-robin loop over them. `trace` and `schedTrace`
-- govern output only and are left out.
pub mod Sound
pub mod Quantum
pub mod Loops
pub mod Deadlock
pub mod Rounds
pub mod Spawn
pub mod Isolation
pub mod Fairness
pub mod Trace
use mocker.Prelude.{
  ℕ, zero, suc, ◌+◌, ◌-◌, ◌*◌, ◌==◌, ◌||◌, Bool, true, false, Option, none, some, List, [], ◌∷◌,
  ◌++◌, map, length, get_elem?, modify, if◌then◌else◌, ltb, leb, ◌>>=◌,
}
use mocker.Memory.{load_program}
use mocker.Memory.Layout.{hart_slot_base, hart_slot_size, stack_size, max_harts}
use mocker.Cpu.State.{Hart, HartState, running, halted, waiting, faulted, init}
use mocker.Cpu.{execute_one}
use mocker.Kernel.{System, edit, handle_trap}

-- The numbers are `int` in the source, where a negative one works as 0 does here.
pub record SchedulerConfig : Type 0 where
  pub quantum : ℕ
  pub timer_interval : ℕ
  pub max_cycles : ℕ

abbrev pub default_config : SchedulerConfig
default_config = record { quantum = 8; timer_interval = 32; max_cycles = 1000000 }

-- The id of the new hart; `none` in its place is the -1 of a refusal.
unfoldable pub spawn_hart : System → List ℕ → Option (System × Option ℕ)
spawn_hart s program =
    let id = length s.harts in
    let base = hart_slot_base id in
    if leb max_harts id
    then some (s, none)
    else if ltb (hart_slot_size - stack_size) (length program * 4)
    then some (s, none)
    else (load_program s.mem program base >>= λ m.
        some (record s { mem = m; harts = s.harts ++ init id base ∷ [] }, some id))

-- The loop's variables that outlive a round. They are ints in the source, which these numbers are as long as
-- they stay below 2 ^ 31.
pub record Progress : Type 0 where
  pub sys : System
  pub total_steps : ℕ
  pub timer_tick : ℕ

abbrev pub is_running : HartState → Bool
is_running running = true
is_running halted = false
is_running waiting = false
is_running faulted = false

abbrev pub is_waiting : HartState → Bool
is_waiting waiting = true
is_waiting running = false
is_waiting halted = false
is_waiting faulted = false

abbrev pub mark_pending : Hart → Hart
mark_pending h = if is_running h.state then record h { timer_pending = true } else h

-- Every `timer_interval` ticks each running hart gets a pending timer interrupt.
unfoldable pub fire_timer : SchedulerConfig → Progress → Progress
fire_timer cfg p =
    if leb cfg.timer_interval p.timer_tick
    then record p { timer_tick = 0; sys = record (p.sys) { harts = map mark_pending p.sys.harts } }
    else p

-- The kernel is called for a hart that has paused but is neither halted nor faulted.
abbrev pub after_pause : Progress → ℕ → HartState → Option Progress
after_pause p i halted = some p
after_pause p i faulted = some p
after_pause p i running = handle_trap p.sys i >>= λ r. some (record p { sys = r.sys })
after_pause p i waiting = handle_trap p.sys i >>= λ r. some (record p { sys = r.sys })

-- One round of the inner loop for hart `i`, whose state is `h`, with whether the loop goes on.
unfoldable pub quantum_step : SchedulerConfig → ℕ → Progress → Hart → Option (Bool × Progress)
quantum_step cfg i p h = execute_one h p.sys.mem >>= λ s.
    let stepped = record p {
      sys = record (edit p.sys i (λ _. s.hart)) { mem = s.mem };
      total_steps = p.total_steps + 1;
      timer_tick = p.timer_tick + 1;
    } in
    let ticked = fire_timer cfg stepped in
    if s.ok
    then some (true, ticked)
    else (after_pause ticked i s.hart.state >>= λ q. some (false, q))

-- `left` is what remains of the quantum.
unfoldable pub run_quantum : SchedulerConfig → ℕ → ℕ → Progress → Option Progress
run_quantum cfg i zero p = some p
run_quantum cfg i (suc left) p = get_elem? p.sys.harts i >>= λ h.
    let round = quantum_step cfg i p h >>= λ (go_on, q).
    let rest = run_quantum cfg i left q in if go_on then rest else some q in
    if is_running h.state then round else some p

-- `for (auto& h : harts)` from index `i` on, over `left` harts.
unfoldable pub run_harts : SchedulerConfig → ℕ → ℕ → Progress → Option Progress
run_harts cfg zero i p = some p
run_harts cfg (suc left) i p = get_elem? p.sys.harts i >>= λ h.
    (if is_running h.state then run_quantum cfg i cfg.quantum p else some p) >>= λ q.
    run_harts cfg left (i + 1) q

unfoldable pub any_active : List Hart → Bool
any_active [] = false
any_active (h ∷ hs) = is_running h.state || is_waiting h.state || any_active hs

-- `undefined` is an index outside the memory's array or the list of harts.
pub data RunResult : Type 0 where
  finished : ℕ → Progress → RunResult
  undefined out_of_fuel : RunResult

-- The outer loop. Each round takes one unit of fuel.
unfoldable pub rounds : SchedulerConfig → ℕ → ℕ → Progress → RunResult
rounds cfg zero round p = out_of_fuel
rounds cfg (suc fuel) round p =
    let next : RunResult = elim (run_harts cfg (length p.sys.harts) 0 p) [
      | none ↦ undefined
      | some q ↦ rounds cfg fuel (round + 1) q
    ] in
    if ltb p.total_steps cfg.max_cycles
    then (if any_active p.sys.harts then next else finished round p)
    else finished round p

unfoldable pub run : SchedulerConfig → ℕ → System → RunResult
run cfg fuel s =
    let start : Progress = record { sys = s; total_steps = 0; timer_tick = 0 } in
    if length s.harts == 0 then finished 0 start else rounds cfg fuel 0 start
