-- ===== src/Kernel/Sound.antt =====
-- The invariant of the harts, and that the trap handler keeps it: every hart sits at its own id, and a
-- hart that can still run is in U-mode.
use mocker.Prelude.{
  ℕ, ◌≤◌, ◌≡◌, ◌≢◌, refl, sym, ◌∙◌, inl, inr, Bool, true, Option, some, List, length, get_elem?,
  modify, get_elem?-modify_self, get_elem?-modify_ne, length-modify, get_elem?-modify_inv, arith,
}
use native.Mathlib.Decide.{ℕ_discrete}
use mocker.Csr.{user, trap_return}
use mocker.Memory.Layout.{max_harts}
use mocker.Memory.Raw.{IsBytes}
use mocker.Cpu.State.{Hart, HartState, running, waiting}
use mocker.Kernel.{System, Handled, Message, Output, edit, set_state, set_x, do_mret, wake, stopped}

-- A hart that can still run is in U-mode.
pub record HartSound (i : ℕ) (h : Hart) : Type 0 where
  pub own_id : h.id ≡ i
  pub running_user : h.state ≡ running → h.mode ≡ user
  pub waiting_user : h.state ≡ waiting → h.mode ≡ user

abbrev pub HartsSound : List Hart → Type 0
HartsSound hs = (i : ℕ) (h : Hart) → get_elem? hs i ≡ some h → HartSound i h

pub record IsSound (s : System) : Type 0 where
  pub few : length s.harts ≤ max_harts
  pub bytes : IsBytes s.mem
  pub all_sound : HartsSound s.harts

-- The hart at `i` has trapped from U-mode: its mode is M, and a return goes back to U-mode.
pub record IsTrapped (s : System) (i : ℕ) (h : Hart) : Type 0 where
  pub few : length s.harts ≤ max_harts
  pub bytes : IsBytes s.mem
  pub here : get_elem? s.harts i ≡ some h
  pub own_id : h.id ≡ i
  pub returns_to_user : (trap_return h.csr).1 ≡ user
  pub others : (j : ℕ) (g : Hart) → j ≢ i → get_elem? s.harts j ≡ some g → HartSound j g

-- The trapped hart is replaced by a sound one.
pub edit-IsSound :
    (s : System) (i : ℕ) (h : Hart) (f : Hart → Hart)
    → IsTrapped s i h
    → HartSound i (f h)
    → IsSound (edit s i f)
edit-IsSound s i h f t good = record {
  few = rw (length-modify s.harts i f) t.few;
  bytes = t.bytes;
  all_sound = λ j g e. elim (ℕ_discrete j i) [
    | yes p ↦ let q : f h ≡ g = cc (get_elem?-modify_self s.harts i f t.here) in rw (p, ← q) good
    | no n ↦ t.others j g n (sym (get_elem?-modify_ne s.harts i j f (λ q. n (sym q))) ∙ e)
  ];
}

-- A change of the trapped hart that keeps its id and its CSRs.
pub edit-IsTrapped :
    (s : System) (i : ℕ) (h : Hart) (f : Hart → Hart)
    → IsTrapped s i h
    → (f h).id ≡ h.id
    → (f h).csr ≡ h.csr
    → IsTrapped (edit s i f) i (f h)
edit-IsTrapped s i h f t e c = record {
  few = rw (length-modify s.harts i f) t.few;
  bytes = t.bytes;
  here = get_elem?-modify_self s.harts i f t.here;
  own_id = e ∙ t.own_id;
  returns_to_user = rw c t.returns_to_user;
  others = λ j g n p. t.others j g n (sym (get_elem?-modify_ne s.harts i j f (λ q. n (sym q))) ∙ p);
}

do_mret-HartSound :
    (i : ℕ) (h : Hart) (advance : Bool)
    → h.id ≡ i
    → (trap_return h.csr).1 ≡ user
    → HartSound i (do_mret advance h)
unfolding do_mret
do_mret-HartSound i h advance e u = record {
  own_id = e;
  running_user = λ r. u;
  waiting_user = λ r. u;
}

-- The handler returns, and leaves a sound system with as many harts.
abbrev pub Handles : System → Option Handled → Type 0
Handles s r = (q : Handled) × (r ≡ some q) × IsSound q.sys × (length q.sys.harts ≡ length s.harts)

pub resumed-Handles :
    (s : System) (i : ℕ) (h : Hart) (advance : Bool)
    → IsTrapped s i h
    → Handles s (some (record { resume = true; sys = edit s i (do_mret advance) }))
resumed-Handles s i h advance t = (
  _,
  refl,
  edit-IsSound s i h (do_mret advance) t (do_mret-HartSound i h advance t.own_id t.returns_to_user),
  length-modify s.harts i (do_mret advance),
)

dead-HartSound :
    (i : ℕ) (h : Hart) (st : HartState)
    → h.id ≡ i
    → st ≢ running
    → st ≢ waiting
    → HartSound i (set_state st h)
dead-HartSound i h st e nr nw = record {
  own_id = e;
  running_user = λ r. absurd (nr r);
  waiting_user = λ w. absurd (nw w);
}

pub stopped-Handles :
    (s : System) (i : ℕ) (h : Hart) (st : HartState)
    → IsTrapped s i h
    → st ≢ running
    → st ≢ waiting
    → Handles s (stopped s i st)
stopped-Handles s i h st t nr nw = (
  _,
  refl,
  edit-IsSound s i h (set_state st) t (dead-HartSound i h st t.own_id nr nw),
  length-modify s.harts i (set_state st),
)

-- Queues and output do not matter.
abbrev pub with_log : System → (ℕ → List Message) → List Output → System
with_log s queues output = record s { queues = queues; output = output }

pub with_log-IsTrapped :
    (s : System) (i : ℕ) (h : Hart) (queues : ℕ → List Message) (output : List Output)
    → IsTrapped s i h
    → IsTrapped (with_log s queues output) i h
with_log-IsTrapped s i h queues output t = record {
  few = t.few;
  bytes = t.bytes;
  here = t.here;
  own_id = t.own_id;
  returns_to_user = t.returns_to_user;
  others = t.others;
}

pub set_x-IsTrapped :
    (s : System) (i r v : ℕ) (h : Hart)
    → IsTrapped s i h
    → IsTrapped (edit s i (set_x r v)) i (set_x r v h)
set_x-IsTrapped s i r v h t = edit-IsTrapped s i h (set_x r v) t refl refl

wake_same : (h : Hart) → ((wake h).id ≡ h.id) × ((wake h).csr ≡ h.csr) × ((wake h).mode ≡ h.mode)
wake_same h = ground arith

wake-HartSound : (j : ℕ) (g : Hart) → HartSound j g → HartSound j (wake g)
wake-HartSound j g s = record {
  own_id = (wake_same g).0 ∙ s.own_id;
  running_user = ground arith;
  waiting_user = ground arith;
}

-- Waking some hart, the trapped one perhaps.
wake_others :
    (s : System) (i target : ℕ) (h : Hart)
    → IsTrapped s i h
    → (j : ℕ) (g : Hart) → j ≢ i
    → get_elem? (modify s.harts target wake) j ≡ some g
    → HartSound j g
wake_others s i target h t j g n e =
    let (g₀, p, cases) = get_elem?-modify_inv s.harts target j wake e in
    elim cases [
      | inl (q, r) ↦ rw r (wake-HartSound j g₀ (t.others j g₀ n p))
      | inr (q, r) ↦ rw r (t.others j g₀ n p)
    ]

pub wake-IsTrapped :
    (s : System) (i target : ℕ) (h : Hart)
    → IsTrapped s i h
    → (h' : Hart) × IsTrapped (edit s target wake) i h'
wake-IsTrapped s i target h t = elim (ℕ_discrete target i) [
  | yes p ↦ rw p (wake h, edit-IsTrapped s i h wake t (wake_same h).0 (wake_same h).1)
  | no n ↦ (
    h,
    record {
      few = rw (length-modify s.harts target wake) t.few;
      bytes = t.bytes;
      here = get_elem?-modify_ne s.harts target i wake n ∙ t.here;
      own_id = t.own_id;
      returns_to_user = t.returns_to_user;
      others = wake_others s i target h t;
    },
  )
]
