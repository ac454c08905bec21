-- ===== src/Cpu/Names.antt =====
-- cpu.h and csr.h: the names that the output uses: ABI_NAMES, stateName and privName.
use mocker.Prelude.{ℕ, List, [], ◌∷◌, bytes}
use mocker.Csr.{PrivMode}
use mocker.Csr
use mocker.Cpu.State.{HartState, running, halted, waiting, faulted}

unfoldable pub abi_names : List (List ℕ)
abi_names =
    bytes "zero"
    ∷ bytes "ra"
    ∷ bytes "sp"
    ∷ bytes "gp"
    ∷ bytes "tp"
    ∷ bytes "t0"
    ∷ bytes "t1"
    ∷ bytes "t2"
    ∷ bytes "s0"
    ∷ bytes "s1"
    ∷ bytes "a0"
    ∷ bytes "a1"
    ∷ bytes "a2"
    ∷ bytes "a3"
    ∷ bytes "a4"
    ∷ bytes "a5"
    ∷ bytes "a6"
    ∷ bytes "a7"
    ∷ bytes "s2"
    ∷ bytes "s3"
    ∷ bytes "s4"
    ∷ bytes "s5"
    ∷ bytes "s6"
    ∷ bytes "s7"
    ∷ bytes "s8"
    ∷ bytes "s9"
    ∷ bytes "s10"
    ∷ bytes "s11"
    ∷ bytes "t3"
    ∷ bytes "t4"
    ∷ bytes "t5"
    ∷ bytes "t6"
    ∷ []

unfoldable pub state_name : HartState → List ℕ
state_name running = bytes "RUNNING"
state_name halted = bytes "HALTED"
state_name waiting = bytes "WAITING"
state_name faulted = bytes "FAULTED"

unfoldable pub priv_name : PrivMode → List ℕ
priv_name Csr.machine = bytes "M"
priv_name Csr.user = bytes "U"
