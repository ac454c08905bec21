-- ===== src/Command.antt =====
-- main.cpp: the arguments of the command line, and the program: assemble each file, create its hart, run.
-- A text is the list of its bytes, and what a path names is a parameter: the lines of the file,
-- or none if it cannot be opened.
pub mod Boot
pub mod Start
pub mod Settings
use mocker.Prelude.{
  ℕ, suc, ◌+◌, ◌-◌, ◌^◌, Bool, true, false, Option, none, some, List, [], ◌∷◌, ◌++◌, length, equal,
  bytes, leb, ◌==◌, if◌then◌else◌,
}
use mocker.Memory.{ProtectedMemory}
use mocker.Memory.Layout.{hart_slot_base}
use mocker.Kernel.{System, Message}
use mocker.Scheduler.{SchedulerConfig, default_config, spawn_hart, RunResult, run}
use mocker.Assembler.Text.{is_digit}
use mocker.Assembler.Immediate.{read_digits, skip_space}
use mocker.Assembler.Resolve
use mocker.Assembler.Resolve.{assemble_file}

-- The option that an argument is, or a file; --quantum and --timer take the next argument, if there is one.
pub data Argument : Type 0 where
  no_trace no_sched quantum timer help file : Argument

unfoldable pub argument : List ℕ → Argument
argument a =
    if equal a (bytes "--no-trace")
    then no_trace
    else if equal a (bytes "--no-sched")
    then no_sched
    else if equal a (bytes "--quantum")
    then quantum
    else if equal a (bytes "--timer")
    then timer
    else if equal a (bytes "--help")
    then help
    else file

-- `mgr.cfg` and `files`.
pub record Options : Type 0 where
  pub cfg : SchedulerConfig
  pub trace : Bool
  pub sched_trace : Bool
  pub files : List (List ℕ)

abbrev pub defaults : Options
defaults = record { cfg = default_config; trace = true; sched_trace = true; files = [] }

-- `stoi` on the digits behind the sign, with a negative number as 0, which the scheduler cannot tell from it;
-- `none` is an exception.
abbrev after_sign : Bool → List ℕ → Option ℕ
after_sign is_negative [] = none
after_sign is_negative (c ∷ s) =
    let n = read_digits 10 0 (c ∷ s) in
    let bound = if is_negative then 2 ^ 31 else 2 ^ 31 - 1 in
    if is_digit c then (if leb n bound then some (if is_negative then 0 else n) else none) else none

abbrev signed : List ℕ → Option ℕ
signed [] = none
signed (c ∷ s) =
    if c == b'-'
    then after_sign true s
    else if c == b'+'
    then after_sign false s
    else after_sign false (c ∷ s)

unfoldable pub stoi : List ℕ → Option ℕ
stoi s = signed (skip_space s)

pub data Parsed : Type 0 where
  options : Options → Parsed
  -- `usage` is printed.
  helped : Parsed
  -- The exception of `stoi`, which ends the program.
  thrown : Parsed

abbrev with_file : Options → List ℕ → Options
with_file o a = record o { files = o.files ++ a ∷ [] }

abbrev with_quantum : Options → ℕ → Options
with_quantum o n = record o { cfg = record (o.cfg) { quantum = n } }

abbrev with_timer : Options → ℕ → Options
with_timer o n = record o { cfg = record (o.cfg) { timer_interval = n } }

abbrev last_argument : Options → List ℕ → Argument → Parsed
last_argument o a no_trace = options (record o { trace = false })
last_argument o a no_sched = options (record o { sched_trace = false })
last_argument o a quantum = options (with_file o a)
last_argument o a timer = options (with_file o a)
last_argument o a help = helped
last_argument o a file = options (with_file o a)

-- The loop over `argv`.
unfoldable pub parse_arguments : Options → List (List ℕ) → Parsed
unfolding argument stoi
parse_arguments o [] = options o
parse_arguments o (a ∷ []) = last_argument o a (argument a)
parse_arguments o (a ∷ v ∷ rest) = elim (argument a) [
  | no_trace ↦ parse_arguments (record o { trace = false }) (v ∷ rest)
  | no_sched ↦ parse_arguments (record o { sched_trace = false }) (v ∷ rest)
  | quantum ↦ elim (stoi v) [ none ↦ thrown | some n ↦ parse_arguments (with_quantum o n) rest ]
  | timer ↦ elim (stoi v) [ none ↦ thrown | some n ↦ parse_arguments (with_timer o n) rest ]
  | help ↦ helped
  | file ↦ parse_arguments (with_file o a) (v ∷ rest)
]

-- The memory and the kernel of a new HartManager.
abbrev pub power_on : System
power_on = record { harts = []; mem = record { bytes = λ a. 0 }; queues = λ k. []; output = [] }

pub data Booted : Type 0 where
  booted : System → Booted
  -- "Assembly failed", with the path.
  failed : List ℕ → Booted
  -- The exception of `stoi` in the assembler.
  aborted : Booted
  -- An index outside the program in the assembler, or outside the memory in `loadProgram`.
  bad_index : Booted

abbrev pub Files : Type 0
Files = List ℕ → Option (List (List ℕ))

-- The loop over the files. The -1 of a refused hart is not looked at.
unfoldable pub boot : Files → System → List (List ℕ) → Booted
unfolding spawn_hart assemble_file
boot contents s [] = booted s
boot contents s (path ∷ paths) =
    elim (assemble_file (hart_slot_base (length s.harts)) (contents path)) [
      | Resolve.thrown ↦ aborted
      | Resolve.bad_index ↦ bad_index
      | Resolve.rejected ↦ failed path
      | Resolve.accepted words ↦ elim (spawn_hart s words) [
        | none ↦ bad_index
        | some (t, id) ↦ boot contents t paths
      ]
    ]

-- How the program ends, with the exit code 0 or 1 for the first three; `undefined_behaviour` is an index
-- outside an array or a vector.
pub data Outcome : Type 0 where
  usage_shown : Outcome
  no_input_files : Outcome
  assembly_failed : List ℕ → Outcome
  uncaught undefined_behaviour : Outcome
  ran : RunResult → Outcome

abbrev after_boot : SchedulerConfig → ℕ → Booted → Outcome
after_boot cfg fuel (booted s) = ran (run cfg fuel s)
after_boot cfg fuel (failed path) = assembly_failed path
after_boot cfg fuel aborted = uncaught
after_boot cfg fuel bad_index = undefined_behaviour

abbrev start_files : Files → ℕ → Options → Outcome
start_files contents fuel o =
    if length o.files == 0
    then no_input_files
    else after_boot o.cfg fuel (boot contents power_on o.files)

abbrev begin : Files → ℕ → Parsed → Outcome
begin contents fuel (options o) = start_files contents fuel o
begin contents fuel helped = usage_shown
begin contents fuel thrown = uncaught

unfoldable pub main : Files → ℕ → List (List ℕ) → Outcome
unfolding boot parse_arguments run
main contents fuel arguments = begin contents fuel (parse_arguments defaults arguments)
