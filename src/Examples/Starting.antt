-- ===== src/Examples/Starting.antt =====
-- Examples for main.cpp: a command line with one file.
use mocker.Prelude.{
  ℕ, ◌≡◌, refl, true, false, none, some, List, [], ◌∷◌, bytes, equal, if◌then◌else◌, arith,
}
use mocker.Assembler.Immediate.{read_digits, digit_value}
use mocker.Scheduler.{default_config}
use mocker.Command.{Files, Options, options, defaults, argument, stoi, parse_arguments, main}
use mocker.Command.Start.{EndsWell, main-EndsWell}
use mocker.Command.Settings.{Setting, quantum_of, trace_off, input, parse_arguments-command_line}
use mocker.Examples.Linking.{skip_lines}

abbrev one_file : Files
one_file path = if equal path (bytes "skip.asm") then some skip_lines else none

abbrev arguments : List (List ℕ)
arguments = bytes "--quantum" ∷ bytes "4" ∷ bytes "--no-trace" ∷ bytes "skip.asm" ∷ []

abbrev chosen : Options
chosen = record {
  cfg = record default_config { quantum = 4 };
  trace = false;
  sched_trace = true;
  files = bytes "skip.asm" ∷ [];
}

parsed : parse_arguments defaults arguments ≡ options chosen
unfolding parse_arguments argument stoi read_digits digit_value
parsed = refl

main-EndsWell_example : EndsWell one_file chosen (main one_file 1000001 arguments)
main-EndsWell_example = main-EndsWell one_file arguments chosen parsed (omega arith) (omega arith)

-- The arguments above as settings.
abbrev settings : List Setting
settings = quantum_of 4 [] ∷ trace_off ∷ input (bytes "skip.asm") ∷ []

parse_arguments-command_line_example : parse_arguments defaults arguments ≡ options chosen
parse_arguments-command_line_example =
    parse_arguments-command_line defaults settings
      (((omega arith, tt), omega arith), (tt, (unfold argument in refl, tt)))
