-- ===== src/Examples/Scheduling.antt =====
-- Examples for scheduler.h.
use mocker.Prelude.{ℕ, zero, suc, ◌≡◌, ◌⊎◌, refl, arith, some, [], ◌∷◌, ◌++◌, get_elem?}
use mocker.Memory.{ProtectedMemory}
use mocker.Memory.Protection.{Confined}
use mocker.Cpu.State.{Hart, init}
use mocker.Kernel.Sound.{IsSound}
use mocker.Scheduler.{
  SchedulerConfig, Progress, out_of_fuel, rounds, run, run_quantum, spawn_hart, any_active,
}
use mocker.Scheduler.Loops.{NoneRunning}
use mocker.Scheduler.Deadlock.{IsDeadlocked, rounds_deadlock}
use mocker.Scheduler.Rounds.{Deadlocks, Ends, start, run_dichotomy}
use mocker.Scheduler.Spawn.{spawn_hart_room}
use mocker.Scheduler.Isolation.{SamePrivate, run_quantum-LeftAlone}
use mocker.Scheduler.Fairness.{TakesTurn, run_harts-TakesTurn}
use mocker.Kernel.Isolation.{LeftAlone}
use mocker.Examples.{two_ecalls, two_harts, two_harts-IsSound, hart1, waiting1}

abbrev small_config : SchedulerConfig
small_config = record { quantum = 2; timer_interval = 3; max_cycles = 10 }

run_dichotomy_example :
    Ends small_config two_harts (run small_config 11 two_harts)
    ⊎ (Deadlocks small_config 0 (start two_harts)
        × ((fuel : ℕ) → run small_config fuel two_harts ≡ out_of_fuel))
run_dichotomy_example =
    run_dichotomy small_config two_harts (omega arith) (omega arith) two_harts-IsSound

-- One hart, which waits, three steps into a run.
abbrev stuck : Progress
stuck = record { sys = record two_harts { harts = waiting1 ∷ [] }; total_steps = 3; timer_tick = 0 }

stuck-IsDeadlocked : IsDeadlocked small_config stuck
stuck-IsDeadlocked = record {
  below_limit = omega arith;
  active = unfold any_active in refl;
  none_running = each;
}
  where
    each : NoneRunning stuck.sys.harts
    each zero g e = let q : waiting1 ≡ g = cc in rw (← q) refl
    each (suc j) g e = cc

rounds_deadlock_example : rounds small_config 5 2 stuck ≡ out_of_fuel
rounds_deadlock_example = rounds_deadlock small_config 5 2 stuck stuck-IsDeadlocked

spawn_hart_room_example :
    (m : ProtectedMemory) × (let s' = record two_harts {
      mem = m;
      harts = two_harts.harts ++ init 2 0x30000 ∷ [];
    } in
      (spawn_hart two_harts (0x13 ∷ 0x73 ∷ []) ≡ some (s', some 2))
      × IsSound s'
      × Confined 2 0 two_ecalls m)
spawn_hart_room_example =
    spawn_hart_room two_harts (0x13 ∷ 0x73 ∷ []) two_harts-IsSound (omega arith, omega arith)

run_quantum-LeftAlone_example :
    (q : Progress) × (g' : Hart) × (run_quantum small_config 0 2 (start two_harts) ≡ some q)
    × (get_elem? q.sys.harts 1 ≡ some g')
    × LeftAlone hart1 g'
    × SamePrivate 1 two_ecalls q.sys.mem
run_quantum-LeftAlone_example =
    run_quantum-LeftAlone small_config 0 1 (λ e. omega arith) 2 (start two_harts) hart1
      two_harts-IsSound (omega arith) refl

run_harts-TakesTurn_example : TakesTurn small_config 2 0 1 (start two_harts) hart1
run_harts-TakesTurn_example =
    run_harts-TakesTurn small_config 2 0 1 (start two_harts) hart1 (omega arith) two_harts-IsSound
      refl (omega arith) refl (unfold init in refl)
