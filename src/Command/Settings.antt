-- ===== src/Command/Settings.antt =====
-- main.cpp: the loop over the arguments, as a reader of settings.
use mocker.Prelude.{
  ℕ, ◌-◌, ◌^◌, ◌<◌, ◌≡◌, refl, ◌∙◌, true, false, some, List, [], ◌∷◌, ◌++◌, map, bytes, ◌==◌, ◌||◌,
  ◌&&◌, leb, arith,
}
use mocker.Assembler.Text.{is_digit}
use mocker.Assembler.Numerals.{digit, AllBelow, value, read_digits-value}
use mocker.Command.{file, argument, Options, options, stoi, with_file, parse_arguments}

-- What a part of the command line asks for. A number is given by its decimal digits.
pub data Setting : Type 0 where
  trace_off sched_trace_off : Setting
  quantum_of timer_of : (first : ℕ) (rest : List ℕ) → Setting
  input : (path : List ℕ) → Setting

-- The arguments of a setting.
abbrev pub words : Setting → List (List ℕ)
words trace_off = bytes "--no-trace" ∷ []
words sched_trace_off = bytes "--no-sched" ∷ []
words (quantum_of first rest) = bytes "--quantum" ∷ map digit (first ∷ rest) ∷ []
words (timer_of first rest) = bytes "--timer" ∷ map digit (first ∷ rest) ∷ []
words (input path) = path ∷ []

abbrev pub command_line : List Setting → List (List ℕ)
command_line [] = []
command_line (s ∷ settings) = words s ++ command_line settings

-- Numbers are those of an `int`, and no file has the name of an option.
abbrev pub IsSetting : Setting → Type 0
IsSetting trace_off = Unit
IsSetting sched_trace_off = Unit
IsSetting (quantum_of first rest) = AllBelow 10 (first ∷ rest) × (value 10 (first ∷ rest) < 2 ^ 31)
IsSetting (timer_of first rest) = AllBelow 10 (first ∷ rest) × (value 10 (first ∷ rest) < 2 ^ 31)
IsSetting (input path) = argument path ≡ file

abbrev pub AreSettings : List Setting → Type 0
AreSettings [] = Unit
AreSettings (s ∷ settings) = IsSetting s × AreSettings settings

-- What the setting changes.
abbrev pub set : Options → Setting → Options
set o trace_off = record o { trace = false }
set o sched_trace_off = record o { sched_trace = false }
set o (quantum_of first rest) = record o {
  cfg = record (o.cfg) { quantum = value 10 (first ∷ rest) };
}
set o (timer_of first rest) = record o {
  cfg = record (o.cfg) { timer_interval = value 10 (first ∷ rest) };
}
set o (input path) = record o { files = o.files ++ path ∷ [] }

abbrev pub set_all : Options → List Setting → Options
set_all o [] = o
set_all o (s ∷ settings) = set_all (set o s) settings

stoi-digits :
    (first : ℕ) (rest : List ℕ)
    → AllBelow 10 (first ∷ rest)
    → value 10 (first ∷ rest) < 2 ^ 31
    → stoi (map digit (first ∷ rest)) ≡ some (value 10 (first ∷ rest))
unfolding stoi
stoi-digits first rest (below, all) small =
    let c = digit first in
    let no_space : ((c == b' ') || (leb 9 c && leb c 13)) ≡ false = ground arith in
    let no_minus : (c == b'-') ≡ false = ground arith in
    let no_plus : (c == b'+') ≡ false = ground arith in
    let is : is_digit c ≡ true = ground arith in
    let number = read_digits-value 10 (first ∷ rest) (omega arith) (below, all) in
    let fits : leb (value 10 (first ∷ rest)) (2 ^ 31 - 1) ≡ true = ground arith in
    rw no_space (rw (no_minus, no_plus, is, number, fits) refl)

-- An argument that stands alone, and one with the number behind it.
alone :
    (o o' : Options) (a : List ℕ) (arguments : List (List ℕ))
    → parse_arguments o (a ∷ []) ≡ options o'
    → ((b : List ℕ) (more : List (List ℕ))
        → parse_arguments o (a ∷ b ∷ more) ≡ parse_arguments o' (b ∷ more))
    → parse_arguments o (a ∷ arguments) ≡ parse_arguments o' arguments
alone o o' a [] last other = last ∙ (unfold parse_arguments in refl)
alone o o' a (b ∷ more) last other = other b more

with_input :
    (o : Options) (path : List ℕ) (arguments : List (List ℕ))
    → argument path ≡ file
    → parse_arguments o (path ∷ arguments) ≡ parse_arguments (with_file o path) arguments
unfolding parse_arguments
with_input o path arguments v =
    alone o (with_file o path) path arguments (rw (parse_arguments, v) refl)
      (λ b more. rw (parse_arguments, v) refl)

set-words :
    (o : Options) (s : Setting) (arguments : List (List ℕ))
    → IsSetting s
    → parse_arguments o (words s ++ arguments) ≡ parse_arguments (set o s) arguments
unfolding parse_arguments argument
set-words o trace_off arguments v = alone o _ (bytes "--no-trace") arguments refl (λ b more. refl)
set-words o sched_trace_off arguments v =
    alone o _ (bytes "--no-sched") arguments refl (λ b more. refl)
set-words o (quantum_of first rest) arguments (all, small) =
    let number = stoi-digits first rest all small in rw (parse_arguments, number) refl
set-words o (timer_of first rest) arguments (all, small) =
    let number = stoi-digits first rest all small in rw (parse_arguments, number) refl
set-words o (input path) arguments v = with_input o path arguments v

-- A command line of settings, in any order and with repetitions, whose numbers fit an `int` and whose files
-- are not named like an option: the options are those that the settings make of the given ones, one after
-- the other, and no exception is thrown.
pub parse_arguments-command_line :
    (o : Options) (settings : List Setting)
    → AreSettings settings
    → parse_arguments o (command_line settings) ≡ options (set_all o settings)
parse_arguments-command_line o [] v = unfold parse_arguments in refl
parse_arguments-command_line o (s ∷ settings) (v, vs) =
    set-words o s (command_line settings) v ∙ parse_arguments-command_line (set o s) settings vs
