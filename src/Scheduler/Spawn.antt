-- ===== src/Scheduler/Spawn.antt =====
-- scheduler.h, `spawnHart`: the new hart, and that a sound system stays sound.
use mocker.Prelude.{get_elem?-append_inv}
use mocker.Prelude.{
  ℕ, ◌+◌, ◌-◌, ◌*◌, ◌<◌, ◌≤◌, ◌≡◌, refl, ◌∙◌, ◌⊎◌, inl, inr, false, Bool-cases, none, some, List,
  [], ◌∷◌, ◌++◌, length, length-append, arith, ltb, leb, add32, u32,
}
use mocker.Memory.{ProtectedMemory, load_words, load_program}
use mocker.Memory.Layout.{max_harts, mem_size, hart_slot_base, hart_slot_size, stack_size}
use mocker.Memory.Raw.{IsBytes, with_word, with_word-IsBytes, raw_store_word_lem}
use mocker.Memory.Protection.{Confined}
use mocker.Cpu.State.{init}
use mocker.Kernel.{System}
use mocker.Kernel.Sound.{HartSound, IsSound}
use mocker.Scheduler.{spawn_hart}

load_words_lem :
    (m : ProtectedMemory) (words : List ℕ) (base i : ℕ)
    → IsBytes m
    → base + 4 * (i + length words) ≤ mem_size
    → (m' : ProtectedMemory) × (load_words m words base i ≡ some m')
      × IsBytes m'
      × ((j : ℕ) → (j < base) ⊎ (base + 4 * (i + length words) ≤ j) → m'.bytes j ≡ m.bytes j)
unfolding load_words
load_words_lem m [] base i b fits = (m, refl, b, λ j o. refl)
load_words_lem m (w ∷ words) base i b fits =
    let a = add32 base (u32 (i * 4)) in
    let e : a ≡ base + i * 4 = omega arith in
    let m₁ = with_word m a w in
    let (m', f, b', out) =
      load_words_lem m₁ words base (i + 1) (with_word-IsBytes m a w b) (omega arith) in
    (
      m',
      simp (raw_store_word_lem m a w (omega arith)) f,
      b',
      λ j o. out j (omega arith) ∙ ground arith,
    )

init-HartSound : (id pc : ℕ) → HartSound id (init id pc)
unfolding init
init-HartSound id pc = record { own_id = refl; running_user = λ r. refl; waiting_user = λ w. refl }

-- There is room for one more hart, and the program leaves room for the stack.
abbrev pub HasRoom : System → List ℕ → Type 0
HasRoom s program =
    (length s.harts < max_harts) × (length program * 4 ≤ hart_slot_size - stack_size)

pub with_hart-IsSound :
    (s : System) (m : ProtectedMemory) (pc : ℕ)
    → IsSound s
    → IsBytes m
    → length s.harts < max_harts
    → IsSound (record s { mem = m; harts = s.harts ++ init (length s.harts) pc ∷ [] })
with_hart-IsSound s m pc v b room = record {
  few = rw (length-append s.harts (init (length s.harts) pc ∷ [])) (omega arith);
  bytes = b;
  all_sound = λ i h e. elim (get_elem?-append_inv s.harts (init (length s.harts) pc) i e) [
    | inl p ↦ v.all_sound i h p
    | inr (p, q) ↦ rw (p, q) (init-HartSound (length s.harts) pc)
  ];
}

-- With room, `spawn_hart` on a sound system gives the next id and a sound system that has the new hart
-- behind the old ones, and changes no byte outside the new hart's slot.
pub spawn_hart_room :
    (s : System) (program : List ℕ)
    → IsSound s
    → HasRoom s program
    → (m : ProtectedMemory) × (let id = length s.harts in
        let s' = record s { mem = m; harts = s.harts ++ init id (0x10000 * (id + 1)) ∷ [] } in
        (spawn_hart s program ≡ some (s', some id)) × IsSound s' × Confined id 0 s.mem m)
unfolding spawn_hart load_program
spawn_hart_room s program v (few, small) =
    let id = length s.harts in
    let base : hart_slot_base id ≡ 0x10000 * (id + 1) = omega arith in
    let (m, e, b, out) =
      load_words_lem s.mem program (0x10000 * (id + 1)) 0 v.bytes (omega arith) in
    let hart_ok : leb max_harts id ≡ false = ground arith in
    let size_ok : ltb (hart_slot_size - stack_size) (length program * 4) ≡ false = ground arith in
    (
      m,
      (
        simp (hart_ok, size_ok, base, e),
        with_hart-IsSound s m _ v b few,
        λ j o. out j (omega arith),
      ),
    )

-- Without room it refuses and changes nothing.
pub spawn_hart_refused :
    (s : System) (program : List ℕ) → ¬ HasRoom s program → spawn_hart s program ≡ some (s, none)
unfolding spawn_hart
spawn_hart_refused s program full = elim (Bool-cases (leb max_harts (length s.harts))) [
  | inl no_hart ↦ simp no_hart
  | inr hart_ok ↦ elim (Bool-cases (ltb (hart_slot_size - stack_size) (length program * 4))) [
    | inl too_large ↦ simp (hart_ok, too_large)
    | inr fits ↦ absurd (full (ground arith, ground arith))
  ]
]
