-- ===== src/Examples/Messages.antt =====
-- Examples for kernel.h.
use mocker.Prelude.{
  ℕ, ◌≡◌, refl, arith, true, false, some, List, [], ◌∷◌, ◌++◌, length, get_elem?, update,
}
use mocker.Csr.{user, trap_enter, interrupts_enabled}
use mocker.Cpu.State.{Hart, init, waiting, deliver_trap}
use mocker.Kernel.Syscall
use mocker.Kernel.{
  System, Handled, Message, set_x, do_mret, wake, send, handle_syscall, handle_trap, dispatch,
}
use mocker.Kernel.Sound.{IsSound}
use mocker.Kernel.Handler.{handle_trap-IsSound}
use mocker.Kernel.Interrupts.{handle_trap-recv_blocks}
use mocker.Kernel.Ipc.{recv-send}
use mocker.Kernel.Mail.{event}
use mocker.Kernel.Fifo.{none_left, called, all_sent_to, all_received_by, Calls-Fifo}
use mocker.Examples.{
  hart0, hart1, waiting1, calling, trapped, hart0_calls, sending, sending-IsTrapped, no_queues,
}

abbrev sender : Hart
sender = trapped hart0 Syscall.send 1 42

handle_trap-IsSound_example :
    (q : Handled) × (handle_trap sending 0 ≡ some q) × IsSound q.sys × (length q.sys.harts ≡ 2)
handle_trap-IsSound_example = handle_trap-IsSound sending 0 sender sending-IsTrapped

-- What the kernel makes of that call.
abbrev queued : ℕ → List Message
queued = update no_queues 1 (record { from = 0; value = 42 } ∷ [])

abbrev answered : Hart
answered = do_mret true (set_x 10 0 sender)

abbrev sent_result : Handled
sent_result = record {
  resume = true;
  sys = record sending { queues = queued; harts = answered ∷ wake waiting1 ∷ [] };
}

sent_result_lem : handle_trap sending 0 ≡ some sent_result
unfolding handle_trap dispatch handle_syscall send deliver_trap trap_enter init
sent_result_lem = refl

Calls-Fifo_example :
    let e = event sender true answered in
    all_sent_to 1 (e ∷ []) ≡ all_received_by 1 (e ∷ []) ++ record { from = 0; value = 42 } ∷ []
Calls-Fifo_example =
    Calls-Fifo sending sent_result.sys (event sender true answered ∷ []) 1
      (called 0 sender answered sent_result sending-IsTrapped sent_result_lem refl none_left)

-- Hart 1 is woken and calls RECV.
abbrev receiving : System
receiving = record sending {
  queues = queued;
  harts = answered ∷ trapped hart1 Syscall.recv 0 0 ∷ [];
}

recv-send_example :
    (r : Handled) × (handle_syscall receiving 1 (trapped hart1 Syscall.recv 0 0) Syscall.recv
      ≡ some r)
    × (r.sys.queues 1 ≡ [])
    × (get_elem? r.sys.harts 1
        ≡ some (do_mret true (set_x 11 sender.id (set_x 10 42 (trapped hart1 Syscall.recv 0 0)))))
unfolding deliver_trap
recv-send_example =
    recv-send sending 0 sender waiting1 refl refl (λ e. omega arith) (omega arith) refl sent_result
      (unfold handle_syscall send init in refl) receiving (trapped hart1 Syscall.recv 0 0) refl refl
      (unfold init in refl)

-- Hart 0 calls RECV before anything was sent.
handle_trap-recv_blocks_example :
    (q : Handled) × (g : Hart) × (handle_trap (hart0_calls Syscall.recv 0 0 hart1) 0 ≡ some q)
    × (get_elem? q.sys.harts 0 ≡ some g)
    × (g.state ≡ waiting)
    × (g.mode ≡ user)
    × (g.pc ≡ (calling hart0 Syscall.recv 0 0).pc)
    × (interrupts_enabled g.csr ≡ false)
handle_trap-recv_blocks_example =
    handle_trap-recv_blocks (hart0_calls Syscall.recv 0 0 hart1) 0 (calling hart0 Syscall.recv 0 0)
      refl refl refl
