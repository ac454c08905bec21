-- ===== src/Examples.antt =====
-- Small systems for the examples: two harts, a program of one ecall, a message on its way.
pub mod Codec
pub mod Assembly
pub mod Sources
pub mod Linking
pub mod Starting
pub mod Machine
pub mod Messages
pub mod Scheduling
use mocker.Prelude.{
  ℕ, zero, suc, ◌+◌, ◌*◌, ◌^◌, ◌<◌, ◌≡◌, ◌≢◌, ◌==◌, refl, some, List, [], ◌∷◌, length, get_elem?,
  if◌then◌else◌, arith, update,
}
use mocker.Csr.{user}
use mocker.Csr.Cause
use mocker.Memory.{ProtectedMemory}
use mocker.Memory.Raw.{IsBytes}
use mocker.Cpu.State.{Hart, init, waiting, running, halted, deliver_trap}
use mocker.Kernel.Syscall
use mocker.Kernel.{System, Message, set_x, set_state}
use mocker.Kernel.Sound.{HartSound, IsSound, IsTrapped}
use mocker.Scheduler.Sound.{trapped-returns}
use mocker.Scheduler.{SchedulerConfig}

-- The word 0x00000073, an ecall, at the start of the slots of harts 0 and 1.
abbrev pub two_ecalls : ProtectedMemory
two_ecalls = record { bytes = λ a. if a == 0x10000 then 0x73 else if a == 0x20000 then 0x73 else 0 }

pub two_ecalls-IsBytes : IsBytes two_ecalls
two_ecalls-IsBytes a = ground arith

abbrev pub hart0 : Hart
hart0 = init 0 0x10000

abbrev pub hart1 : Hart
hart1 = init 1 0x20000

abbrev pub no_queues : ℕ → List Message
no_queues k = []

abbrev pub two_harts : System
two_harts = record { harts = hart0 ∷ hart1 ∷ []; mem = two_ecalls; queues = no_queues; output = [] }

hart0-HartSound : HartSound 0 hart0
unfolding init
hart0-HartSound = record { own_id = refl; running_user = λ e. refl; waiting_user = λ e. refl }

hart1-HartSound : HartSound 1 hart1
unfolding init
hart1-HartSound = record { own_id = refl; running_user = λ e. refl; waiting_user = λ e. refl }

pub two_harts-IsSound : IsSound two_harts
two_harts-IsSound = record { few = omega arith; bytes = two_ecalls-IsBytes; all_sound = each }
  where
    each : (i : ℕ) (h : Hart) → get_elem? two_harts.harts i ≡ some h → HartSound i h
    each zero h e = let q : hart0 ≡ h = cc in rw (← q) hart0-HartSound
    each (suc zero) h e = let q : hart1 ≡ h = cc in rw (← q) hart1-HartSound
    each (suc (suc i)) h e = cc

-- A hart that has trapped at an ecall with the number `sc` in a7, `a` in a0 and `b` in a1.
abbrev pub calling : Hart → ℕ → ℕ → ℕ → Hart
calling h sc a b = set_x 17 sc (set_x 10 a (set_x 11 b h))

abbrev pub trapped : Hart → ℕ → ℕ → ℕ → Hart
trapped h sc a b = deliver_trap (calling h sc a b) Cause.ecall_u 0

-- Hart 0 has trapped, beside hart 1 in the given state.
abbrev pub hart0_calls : ℕ → ℕ → ℕ → Hart → System
hart0_calls sc a b other = record two_harts { harts = trapped hart0 sc a b ∷ other ∷ [] }

abbrev pub waiting1 : Hart
waiting1 = set_state waiting hart1

waiting1-HartSound : HartSound 1 waiting1
unfolding init
waiting1-HartSound = record { own_id = refl; running_user = λ e. refl; waiting_user = λ e. refl }

-- Hart 0 sends 42 to hart 1, which waits.
abbrev pub sending : System
sending = hart0_calls Syscall.send 1 42 waiting1

pub sending-IsTrapped : IsTrapped sending 0 (trapped hart0 Syscall.send 1 42)
sending-IsTrapped = record {
  few = omega arith;
  bytes = two_ecalls-IsBytes;
  here = refl;
  own_id = unfold deliver_trap init in refl;
  returns_to_user =
      trapped-returns (calling hart0 Syscall.send 1 42) Cause.ecall_u 0 (unfold init in refl);
  others = each;
}
  where
    each : (j : ℕ) (g : Hart) → j ≢ 0 → get_elem? sending.harts j ≡ some g → HartSound j g
    each zero g n e = absurd (n refl)
    each (suc zero) g n e = let q : waiting1 ≡ g = cc in rw (← q) waiting1-HartSound
    each (suc (suc j)) g n e = cc
