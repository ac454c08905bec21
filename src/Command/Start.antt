-- ===== src/Command/Start.antt =====
-- main.cpp with the scheduler: how the program ends, whatever the arguments and the files are.
use mocker.Prelude.{
  ℕ, suc, ◌<◌, ◌≡◌, refl, ◌⊎◌, inl, inr, Bool-cases, true, List, [], ◌∷◌, length, ◌==◌, arith,
}
use mocker.Kernel.{System}
use mocker.Scheduler.{out_of_fuel, run}
use mocker.Assembler.Resolve.{rejected, thrown}
use mocker.Scheduler.Rounds.{CountersFit, Ends, Deadlocks, start, run_dichotomy}
use mocker.Command.{
  Files, Options, defaults, options, parse_arguments, power_on, Booted, booted, failed, aborted,
  bad_index, boot, Outcome, usage_shown, no_input_files, assembly_failed, uncaught,
  undefined_behaviour, ran, after_boot, main,
}
use mocker.Command.Boot.{Starts, IsBooted, Boots, OneGives, boot-Boots}

power_on-IsBooted : IsBooted [] power_on
power_on-IsBooted = record {
  sound = record {
    few = omega arith;
    bytes = λ a. omega arith;
    all_sound = λ i h e. absurd (cc e);
  };
  as_many = refl;
  small = λ i words e. absurd (cc e);
  harts = λ i h e. absurd (cc e);
  loaded = λ i words e. absurd (cc e);
}

-- How the program may end: not by an index outside an array or a vector.
abbrev pub EndsWell : Files → Options → Outcome → Type 0
EndsWell contents o usage_shown = ⊥
EndsWell contents o no_input_files = o.files ≡ []
EndsWell contents o (assembly_failed path) = OneGives contents o.files path rejected
EndsWell contents o uncaught = (path : List ℕ) × OneGives contents o.files path thrown
EndsWell contents o undefined_behaviour = ⊥
EndsWell contents o (ran r) =
    (programs : List (List ℕ)) × (s : System) × Starts contents [] o.files programs
    × IsBooted programs s
    × (r ≡ run o.cfg (suc o.cfg.max_cycles) s)
    × (Ends o.cfg s r
        ⊎ (Deadlocks o.cfg 0 (start s) × ((fuel : ℕ) → run o.cfg fuel s ≡ out_of_fuel)))

after_boot-EndsWell :
    (contents : Files) (o : Options) (b : Booted)
    → 0 < o.cfg.quantum
    → CountersFit o.cfg
    → Boots contents [] o.files b
    → EndsWell contents o (after_boot o.cfg (suc o.cfg.max_cycles) b)
after_boot-EndsWell contents o (booted s) pos fit (programs, starts, b) =
    (programs, s, starts, b, refl, run_dichotomy o.cfg s pos fit b.sound)
after_boot-EndsWell contents o (failed path) pos fit b = b
after_boot-EndsWell contents o aborted pos fit b = b
after_boot-EndsWell contents o bad_index pos fit b = b

no_files : (files : List (List ℕ)) → (length files == 0) ≡ true → files ≡ []
no_files [] e = refl
no_files (path ∷ paths) e = ground arith

-- If the arguments are accepted, with a quantum of at least one and counters that fit an int, the program
-- never looks outside the assembled program, the memory's array or the list of harts, and it ends in one of
-- four ways: there is no file; a file cannot be assembled; the number of a register in a file overflows
-- an int, which throws; or a system with a hart for each file that found room, its program in the hart's
-- slot, is run, and the run ends within maxCycles + 1 rounds with a sound system or never ends since harts
-- wait and none runs.
pub main-EndsWell :
    (contents : Files) (arguments : List (List ℕ)) (o : Options)
    → parse_arguments defaults arguments ≡ options o
    → 0 < o.cfg.quantum
    → CountersFit o.cfg
    → EndsWell contents o (main contents (suc o.cfg.max_cycles) arguments)
unfolding main
main-EndsWell contents arguments o e pos fit = rw e (elim (Bool-cases (length o.files == 0)) [
  | inl empty ↦ rw empty (no_files o.files empty)
  | inr full ↦ rw full (
      after_boot-EndsWell contents o (boot contents power_on o.files) pos fit
        (boot-Boots contents o.files [] power_on power_on-IsBooted))
])
