-- ===== src/Kernel/Fifo.antt =====
-- kernel.h: the message queues over any sequence of traps.
use mocker.Prelude.{ℕ, ◌≡◌, refl, sym, ap, ◌∙◌, some, List, [], ◌∷◌, ◌++◌, get_elem?}
use mocker.Cpu.State.{Hart}
use mocker.Kernel.Sound.{IsTrapped}
use mocker.Kernel.{System, Handled, Message, handle_trap}
use mocker.Kernel.Queues.{append_nil}
use mocker.Kernel.Mail.{Event, event, sent_to, received_by, trapped-Balanced}

-- The traps that the kernel handles in a row, with what each means to the mail. Between two of them harts
-- run, which leaves the queues alone.
pub data Calls : System → List Event → System → Type 0 where
  none_left : {s : System} → Calls s [] s
  harts_run : {s t u : System} {es : List Event} → t.queues ≡ s.queues → Calls t es u → Calls s es u
  called :
      {s u : System} {es : List Event} (i : ℕ) (h g : Hart) (q : Handled)
      → IsTrapped s i h
      → handle_trap s i ≡ some q
      → get_elem? q.sys.harts i ≡ some g
      → Calls q.sys es u
      → Calls s (event h q.resume g ∷ es) u

abbrev pub all_sent_to : ℕ → List Event → List Message
all_sent_to k [] = []
all_sent_to k (e ∷ es) = sent_to k e ++ all_sent_to k es

abbrev pub all_received_by : ℕ → List Event → List Message
all_received_by k [] = []
all_received_by k (e ∷ es) = received_by k e ++ all_received_by k es

append_assoc : (a b c : List Message) → (a ++ b) ++ c ≡ a ++ (b ++ c)
append_assoc [] b c = refl
append_assoc (x ∷ a) b c = ap (λ (t : List Message). x ∷ t) (append_assoc a b c)

-- Over any sequence of handled traps, what was in a hart's queue before and then what was sent to it is, in
-- this order, what it received and then what is in its queue at the end: no message is lost, doubled,
-- reordered or given to another hart.
pub Calls-Fifo :
    (s t : System) (es : List Event) (k : ℕ)
    → Calls s es t
    → s.queues k ++ all_sent_to k es ≡ all_received_by k es ++ t.queues k
Calls-Fifo s t es k none_left = append_nil (s.queues k)
Calls-Fifo s t es k (harts_run {t = u} same rest) =
    ap (λ (f : ℕ → List Message). f k ++ all_sent_to k es) (sym same) ∙ Calls-Fifo u t es k rest
Calls-Fifo s t es k (called {es = later} i h g q trapped done after rest) =
    let e = event h q.resume g in
    sym (append_assoc (s.queues k) (sent_to k e) (all_sent_to k later))
    ∙ ap (λ (l : List Message). l ++ all_sent_to k later)
        (trapped-Balanced s i h g q trapped done after k)
    ∙ append_assoc (received_by k e) (q.sys.queues k) (all_sent_to k later)
    ∙ ap (λ (l : List Message). received_by k e ++ l) (Calls-Fifo q.sys t later k rest)
    ∙ sym (append_assoc (received_by k e) (all_received_by k later) (t.queues k))
