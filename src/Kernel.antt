-- ===== src/Kernel.antt =====
-- kernel.h: the handler that the scheduler calls when a hart has trapped. The `Hart&` argument is a
-- reference into the vector of harts, so it is an index here, and every write goes to that vector. What
-- the kernel prints whatever the trace flag says is kept in `output`; trace messages are left out.
pub mod Syscall
pub mod Sound
pub mod Handler
pub mod Frame
pub mod Ipc
pub mod Queues
pub mod Mail
pub mod Fifo
pub mod Interrupts
pub mod Isolation
use mocker.Prelude.{
  ℕ, zero, suc, ◌+◌, ◌-◌, ◌^◌, ◌==◌, ◌||◌, Bool, true, false, Option, none, some, List, [], ◌∷◌,
  ◌++◌, length, get_elem?, modify, if◌then◌else◌, update, leb, add32, is_negative, ◌>>=◌,
}
use mocker.Csr.{CsrFile, PrivMode, user, trap_return}
use mocker.Csr.Cause
use mocker.Memory.{ProtectedMemory, MemFault, load_byte}
use mocker.Cpu.State.{Hart, HartState, running, halted, waiting, faulted}

pub record Message : Type 0 where
  pub from : ℕ
  pub value : ℕ

pub data Output : Type 0 where
  print_int : ℕ → ℕ → Output
  print_str : ℕ → List ℕ → Output
  fault : ℕ → ℕ → ℕ → Output
  illegal_instruction : ℕ → ℕ → Output
  unknown_trap : ℕ → ℕ → Output
  bad_target : ℕ → Output
  unknown_syscall : ℕ → ℕ → Output

-- The harts with their shared memory, the kernel's queues by hart id (a missing key is an empty queue)
-- and what was printed, oldest first.
pub record System : Type 0 where
  pub harts : List Hart
  pub mem : ProtectedMemory
  pub queues : ℕ → List Message
  pub output : List Output

-- What `handleTrap` returns, and the system that it leaves.
pub record Handled : Type 0 where
  pub resume : Bool
  pub sys : System

abbrev pub edit : System → ℕ → (Hart → Hart) → System
edit s i f = record s { harts = modify s.harts i f }

abbrev pub say : System → Output → System
say s o = record s { output = s.output ++ o ∷ [] }

abbrev pub set_state : HartState → Hart → Hart
set_state st h = record h { state = st }

abbrev pub set_x : ℕ → ℕ → Hart → Hart
set_x r v h = record h { x = update h.x r v }

unfoldable pub do_mret : Bool → Hart → Hart
do_mret advance_pc h =
    let (csr', prev) = trap_return h.csr in
    record h { csr = csr'; mode = prev; pc = if advance_pc then add32 csr'.mepc 4 else csr'.mepc }

abbrev resumed : System → ℕ → Option Handled
resumed s i = some (record { resume = true; sys = edit s i (do_mret true) })

abbrev pub stopped : System → ℕ → HartState → Option Handled
stopped s i st = some (record { resume = false; sys = edit s i (set_state st) })

-- The loop of PRINT_STR from address `addr` on, with `left` rounds left.
unfoldable pub read_string : ProtectedMemory → ℕ → ℕ → ℕ → Option (List ℕ)
read_string m id addr zero = some []
read_string m id addr (suc left) = load_byte m addr (some id) >>= λ (f, c).
    let rest = read_string m id (add32 addr 1) left in
    if f.occurred || c == 0 then some [] else (rest >>= λ s. some (c ∷ s))

unfoldable pub print_string : System → ℕ → Hart → Option Handled
print_string s i h =
    read_string s.mem h.id (h.x 10) 256 >>= λ str. resumed (say s (print_str h.id str)) i

-- A waiting target is woken.
abbrev pub wake : Hart → Hart
wake h = elim h.state [ waiting ↦ set_state running h | _ ↦ h ]

unfoldable pub send : System → ℕ → Hart → Option Handled
send s i h =
    let target = h.x 10 in
    let message : Message = record { from = h.id; value = h.x 11 } in
    if is_negative target || leb (length s.harts) target
    then resumed (edit (say s (bad_target target)) i (set_x 10 (2 ^ 32 - 1))) i
    else (let pushed = record s {
      queues = update s.queues target (s.queues target ++ message ∷ []);
    } in
        resumed (edit (edit pushed i (set_x 10 0)) target wake) i)

-- A hart that finds its queue empty goes back to the ecall, in U-mode, to run it again once woken.
abbrev pub block : Hart → Hart
block h = record h { mode = user; state = waiting; pc = h.csr.mepc }

abbrev pub deliver : Message → Hart → Hart
deliver msg h = set_x 11 msg.from (set_x 10 msg.value h)

abbrev pub receive : System → ℕ → ℕ → List Message → Option Handled
receive s i id [] = some (record { resume = false; sys = edit s i block })
receive s i id (msg ∷ rest) =
    resumed (edit (record s { queues = update s.queues id rest }) i (deliver msg)) i

unfoldable pub handle_syscall : System → ℕ → Hart → ℕ → Option Handled
handle_syscall s i h sc =
    if sc == Syscall.print_int
    then resumed (say s (print_int h.id (h.x 10))) i
    else if sc == Syscall.print_str
    then print_string s i h
    else if sc == Syscall.exit
    then stopped s i halted
    else if sc == Syscall.yield
    then resumed s i
    else if sc == Syscall.get_hartid
    then resumed (edit s i (set_x 10 h.id)) i
    else if sc == Syscall.send
    then send s i h
    else if sc == Syscall.recv
    then receive s i h.id (s.queues h.id)
    else resumed (say s (unknown_syscall sc h.id)) i

unfoldable pub dispatch : System → ℕ → Hart → Option Handled
dispatch s i h =
    let cause = h.csr.mcause in
    if cause == Cause.timer_int
    then some (record { resume = true; sys = edit s i (do_mret false) })
    else if cause == Cause.ecall_u
    then handle_syscall s i h (h.x 17)
    else if cause == Cause.ecall_m
    then stopped s i halted
    else if cause == Cause.load_fault || cause == Cause.store_fault || cause == Cause.insn_fault
    then stopped (say s (fault h.id cause h.csr.mtval)) i faulted
    else if cause == Cause.illegal_insn
    then stopped (say s (illegal_instruction h.id h.csr.mepc)) i faulted
    else stopped (say s (unknown_trap cause h.id)) i faulted

-- `none` is an index that names no hart, or undefined behaviour.
unfoldable pub handle_trap : System → ℕ → Option Handled
handle_trap s i = get_elem? s.harts i >>= dispatch s i
