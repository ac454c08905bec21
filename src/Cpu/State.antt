-- ===== src/Cpu/State.antt =====
-- cpu.h: the state of a hart, its initial state, the delivery of a trap, and the ends of
-- `executeOne`. The pointer to the shared memory is the memory that each function is given.
use mocker.Prelude.{
  ℕ, ◌+◌, ◌==◌, Bool, true, false, Option, none, some, if◌then◌else◌, update, add32, u64, bit_and,
  bit_or, not32, ◌<<◌,
}
use mocker.Csr.{CsrFile, PrivMode, user, machine, trap_enter, reset}
use mocker.Csr.MStatus
use mocker.Csr.Cause
use mocker.Memory.{ProtectedMemory}
use mocker.Memory.Layout.{hart_stack_top}

pub data HartState : Type 0 where
  running halted waiting faulted : HartState

-- The registers are bit patterns of int32_t, the counter `steps` one of uint64_t.
pub record Hart : Type 0 where
  pub id : ℕ
  pub state : HartState
  pub mode : PrivMode
  pub x : ℕ → ℕ
  pub pc : ℕ
  pub steps : ℕ
  pub csr : CsrFile
  pub timer_pending : Bool

unfoldable pub init : ℕ → ℕ → Hart
init hart_id entry_pc = record {
  id = hart_id;
  state = running;
  mode = user;
  x = update (λ r. 0) 2 (hart_stack_top hart_id);
  pc = entry_pc;
  steps = 0;
  csr = record reset {
    hartid = hart_id;
    mie = 1 << 7;
    mstatus = bit_or (bit_or MStatus.mie MStatus.mpie) MStatus.mpp_u;
  };
  timer_pending = false;
}

abbrev pub is_user : PrivMode → Bool
is_user user = true
is_user machine = false

-- The id under which the hart's accesses are checked; `none` is the -1 of M-mode.
abbrev pub mem_id : Hart → Option ℕ
mem_id h = if is_user h.mode then some h.id else none

unfoldable pub deliver_trap : Hart → ℕ → ℕ → Hart
deliver_trap h cause tval =
    let csr' = trap_enter h.csr h.pc cause tval h.mode in
    record h { csr = csr'; mode = machine; pc = bit_and csr'.mtvec (not32 3) }

-- What `executeOne` returns, with the hart and the memory that it leaves.
pub record Stepped : Type 0 where
  pub ok : Bool
  pub hart : Hart
  pub mem : ProtectedMemory

abbrev pub trap : Hart → ProtectedMemory → ℕ → ℕ → Option Stepped
trap h m cause tval = some (record { ok = false; hart = deliver_trap h cause tval; mem = m })

abbrev pub illegal : Hart → ProtectedMemory → ℕ → Option Stepped
illegal h m instr = trap h m Cause.illegal_insn instr

-- The lines below the switch.
abbrev pub retire : Hart → ProtectedMemory → ℕ → Option Stepped
retire h m next_pc = some (record {
  ok = true;
  hart = record h {
    x = update h.x 0 0;
    pc = next_pc;
    steps = u64 (h.steps + 1);
    csr = record (h.csr) { cycle = u64 (h.csr.cycle + 1) };
  };
  mem = m;
})

abbrev pub reg : Hart → ℕ → ℕ
reg h r = if r == 0 then 0 else h.x r

-- `if (rd != 0) h.x[rd] = v;`
abbrev pub set_reg : Hart → ℕ → ℕ → Hart
set_reg h rd v = if rd == 0 then h else record h { x = update h.x rd v }

abbrev pub next_pc : Hart → ℕ
next_pc h = add32 h.pc 4
