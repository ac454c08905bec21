-- ===== src/Output.antt =====
-- cpu.h and scheduler.h: printHart and printSummary. What is written to `cout` is a list of bytes;
-- a number is written the way the standard library does it.
use mocker.Prelude.{
  ℕ, zero, suc, ◌-◌, ◌/◌, ◌%◌, ◌^◌, ◌==◌, ◌||◌, not, List, [], ◌∷◌, ◌++◌, map, length, ltb,
  if◌then◌else◌, bytes,
}
use mocker.Assembler.Numerals.{digit}
use mocker.Cpu.State.{Hart}
use mocker.Cpu.Names.{abi_names, state_name, priv_name}

-- The digits of a number in front of others; `fuel` of them are enough for one below base ^ fuel.
abbrev pub digits : ℕ → ℕ → ℕ → List ℕ → List ℕ
digits base zero n behind = behind
digits base (suc fuel) n behind =
    let longer = digits base fuel (n / base) (n % base ∷ behind) in
    if ltb n base then n ∷ behind else longer

-- A number below 2 ^ 64, which has 20 decimal digits at most, and a 32-bit word with `hex`.
unfoldable pub decimal : ℕ → List ℕ
decimal n = map digit (digits 10 20 n [])

unfoldable pub hexadecimal : ℕ → List ℕ
hexadecimal n = map digit (digits 16 8 n [])

-- A 32-bit pattern as an int32_t.
unfoldable pub signed_decimal : ℕ → List ℕ
signed_decimal v = if ltb v (2 ^ 31) then decimal v else b'-' ∷ decimal (2 ^ 32 - v)

abbrev blanks : ℕ → List ℕ
blanks zero = []
blanks (suc n) = b' ' ∷ blanks n

-- `setw(width)` with `right` and with `left`.
abbrev pad_left : ℕ → List ℕ → List ℕ
pad_left width s = blanks (width - length s) ++ s

abbrev pad_right : ℕ → List ℕ → List ℕ
pad_right width s = s ++ blanks (width - length s)

abbrev new_line : List ℕ
new_line = 10 ∷ []

-- A register other than the first three is printed if it is not 0.
abbrev print_register : ℕ → List ℕ → ℕ → List ℕ
print_register i name v =
    if not (v == 0) || ltb i 3
    then bytes "  x"
      ++ pad_left 2 (decimal i)
      ++ bytes " ("
      ++ pad_right 4 name
      ++ bytes ") = "
      ++ signed_decimal v
      ++ new_line
    else []

-- The loop over the registers, from `i` on.
abbrev print_registers : ℕ → List (List ℕ) → (ℕ → ℕ) → List ℕ
print_registers i [] x = []
print_registers i (name ∷ names) x = print_register i name (x i) ++ print_registers (suc i) names x

unfoldable pub print_hart : Hart → List ℕ
unfolding decimal hexadecimal signed_decimal abi_names state_name priv_name
print_hart h =
    bytes "--- Hart "
    ++ decimal h.id
    ++ bytes " ["
    ++ state_name h.state
    ++ bytes "] ["
    ++ priv_name h.mode
    ++ bytes "-mode]  steps="
    ++ decimal h.steps
    ++ bytes "  PC=0x"
    ++ hexadecimal h.pc
    ++ new_line
    ++ print_registers 0 abi_names h.x
    ++ bytes "  mepc=0x"
    ++ hexadecimal h.csr.mepc
    ++ bytes " mcause=0x"
    ++ hexadecimal h.csr.mcause
    ++ bytes " mtvec=0x"
    ++ hexadecimal h.csr.mtvec
    ++ new_line

abbrev print_harts : List Hart → List ℕ
print_harts [] = []
print_harts (h ∷ hs) = print_hart h ++ print_harts hs

unfoldable pub print_summary : ℕ → ℕ → List Hart → List ℕ
unfolding print_hart
print_summary rounds total_steps harts =
    let line = bytes "+----------------------------------------------+" in
    new_line
    ++ line
    ++ new_line
    ++ bytes "|  Scheduler finished                          |"
    ++ new_line
    ++ line
    ++ new_line
    ++ bytes "|  Rounds: "
    ++ pad_left 6 (decimal rounds)
    ++ bytes "   Total steps: "
    ++ pad_left 8 (decimal total_steps)
    ++ bytes "         |"
    ++ new_line
    ++ line
    ++ new_line
    ++ new_line
    ++ print_harts harts
