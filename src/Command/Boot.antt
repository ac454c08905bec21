-- ===== src/Command/Boot.antt =====
-- main.cpp, memory.h and scheduler.h: the system that the files of a command line lead to, and its run.
use mocker.Prelude.{
  ℕ, suc, ◌+◌, ◌-◌, ◌*◌, ◌<◌, ◌≤◌, ◌≡◌, refl, sym, ap, subst, ◌⊎◌, inl, inr, false, none, some,
  List, [], ◌∷◌, ◌++◌, length, length-append, get_elem?, get_elem?-append_inv, lt-of-get_elem?, leb,
  ltb, arith,
}
use native.Mathlib.Decide.{dec_lt, dec_le}
use mocker.Memory.{ProtectedMemory, load_program}
use mocker.Memory.Layout.{max_harts, hart_slot_base, hart_slot_size, stack_size}
use mocker.Memory.Loader.{StandIn, Filled, load_words-Filled}
use mocker.Cpu.State.{Hart, init}
use mocker.Kernel.{System}
use mocker.Kernel.Sound.{IsSound}
use mocker.Scheduler.{spawn_hart}
use mocker.Scheduler.Spawn.{with_hart-IsSound, spawn_hart_refused}
use mocker.Assembler.Resolve.{Assembled, accepted, rejected, thrown, bad_index, assemble_file}
use mocker.Assembler.Linked.{assemble_file_in_range}
use mocker.Command.{Files, Booted, booted, failed, aborted, boot}
use mocker.Command

abbrev pub slot : ℕ → ℕ
slot id = 0x10000 * (id + 1)

-- One hart for each program, in its first state, and the program at the start of the hart's slot.
pub record IsBooted (programs : List (List ℕ)) (s : System) : Type 0 where
  pub sound : IsSound s
  pub as_many : length s.harts ≡ length programs
  pub small :
      (i : ℕ) (words : List ℕ)
      → get_elem? programs i ≡ some words
      → length words * 4 ≤ hart_slot_size - stack_size
  pub harts : (i : ℕ) (h : Hart) → get_elem? s.harts i ≡ some h → h ≡ init i (slot i)
  pub loaded :
      (i : ℕ) (words : List ℕ) → get_elem? programs i ≡ some words → StandIn s.mem words (slot i)

abbrev pub RoomFor : List (List ℕ) → List ℕ → Type 0
RoomFor programs words =
    (length programs < max_harts) × (length words * 4 ≤ hart_slot_size - stack_size)

-- What stands below an address is not touched.
stand_below :
    (m m' : ProtectedMemory) (words : List ℕ) (base limit : ℕ)
    → base + 4 * length words ≤ limit
    → ((j : ℕ) → j < limit → m'.bytes j ≡ m.bytes j)
    → StandIn m words base
    → StandIn m' words base
stand_below m m' words base limit fits same stand k w e =
    let here = lt-of-get_elem? words k e in
    let a = base + 4 * k in
    rw
      (
        same a (omega arith),
        same (a + 1) (omega arith),
        same (a + 2) (omega arith),
        same (a + 3) (omega arith),
      )
      (stand k w e)

module _ (programs : List (List ℕ)) (s : System) (words : List ℕ) (b : IsBooted programs s) where
  abbrev id : ℕ
  id = length s.harts

  abbrev with_hart : ProtectedMemory → System
  with_hart m = record s { mem = m; harts = s.harts ++ init id (slot id) ∷ [] }

  with_hart-IsBooted :
      (m : ProtectedMemory)
      → RoomFor programs words
      → Filled s.mem words (slot id) m
      → IsBooted (programs ++ words ∷ []) (with_hart m)
  with_hart-IsBooted m (few, fits) f = record {
    sound = with_hart-IsSound s m (slot id) b.sound f.bytes (rw (b.as_many) few);
    as_many = omega (
      arith,
      b.as_many,
      length-append (s.harts) (init id (slot id) ∷ []),
      length-append programs (words ∷ []),
    );
    small = λ i w e. elim (get_elem?-append_inv programs words i e) [
      | inl before ↦ b.small i w before
      | inr (here, same) ↦ rw same fits
    ];
    harts = λ i h e. elim (get_elem?-append_inv s.harts (init id (slot id)) i e) [
      | inl before ↦ b.harts i h before
      | inr (here, same) ↦ rw here same
    ];
    loaded = λ i w e. elim (get_elem?-append_inv programs words i e) [
      | inl before ↦
          stand_below s.mem m w (slot i) (slot id)
            (omega (arith, b.small i w before, lt-of-get_elem? programs i before, b.as_many))
            (λ j below. f.outside j (inl below)) (b.loaded i w before)
      | inr (here, same) ↦ rw (here, same, ← b.as_many) (f.stand)
    ];
  }

  spawn_hart-IsBooted :
      RoomFor programs words
      → (t : System) × (spawn_hart s words ≡ some (t, some id))
        × IsBooted (programs ++ words ∷ []) t
  unfolding spawn_hart load_program
  spawn_hart-IsBooted (few, fits) =
      let base : hart_slot_base id ≡ slot id = omega (arith, b.as_many) in
      let sound = b.sound in
      let (m, e, f) =
        load_words-Filled s.mem words (slot id) 0 sound.bytes (omega (arith, b.as_many)) in
      let f' : Filled s.mem words (slot id) m =
        subst (λ k. Filled s.mem words k m) (omega arith) f in
      let hart_ok : leb max_harts id ≡ false = ground (arith, b.as_many) in
      let size_ok : ltb (hart_slot_size - stack_size) (length words * 4) ≡ false = ground arith in
      (with_hart m, simp (hart_ok, size_ok, base, e), with_hart-IsBooted m (few, fits) f')

-- The programs that the files add to those that have a hart: each is what its file assembles to, placed in
-- the next slot, and one that finds no room is left out.
pub data Starts (contents : Files) : List (List ℕ) → List (List ℕ) → List (List ℕ) → Type 0 where
  no_more : (programs : List (List ℕ)) → Starts contents programs [] programs
  started :
      (programs after : List (List ℕ)) (path : List ℕ) (paths : List (List ℕ)) (words : List ℕ)
      → assemble_file (hart_slot_base (length programs)) (contents path) ≡ accepted words
      → RoomFor programs words
      → Starts contents (programs ++ words ∷ []) paths after
      → Starts contents programs (path ∷ paths) after
  dropped :
      (programs after : List (List ℕ)) (path : List ℕ) (paths : List (List ℕ)) (words : List ℕ)
      → assemble_file (hart_slot_base (length programs)) (contents path) ≡ accepted words
      → ¬ RoomFor programs words
      → Starts contents programs paths after
      → Starts contents programs (path ∷ paths) after

-- One of the files, assembled for some slot, has this result.
abbrev pub OneGives : Files → List (List ℕ) → List ℕ → Assembled → Type 0
OneGives contents paths path r =
    (n : ℕ) × (k : ℕ) × (get_elem? paths n ≡ some path)
    × (assemble_file (hart_slot_base k) (contents path) ≡ r)

-- A system with a hart for each program, or a file that cannot be assembled.
abbrev pub Boots : Files → List (List ℕ) → List (List ℕ) → Booted → Type 0
Boots contents programs paths (booted t) =
    (after : List (List ℕ)) × Starts contents programs paths after × IsBooted after t
Boots contents programs paths (failed path) = OneGives contents paths path rejected
Boots contents programs paths aborted = (path : List ℕ) × OneGives contents paths path thrown
Boots contents programs paths Command.bad_index = ⊥

start_one :
    (contents : Files) (programs : List (List ℕ)) (path : List ℕ) (paths : List (List ℕ))
    (words : List ℕ) (r : Booted)
    → assemble_file (hart_slot_base (length programs)) (contents path) ≡ accepted words
    → RoomFor programs words
    → Boots contents (programs ++ words ∷ []) paths r
    → Boots contents programs (path ∷ paths) r
start_one contents programs path paths words (booted t) e room (after, starts, b) =
    (after, started programs after path paths words e room starts, b)
start_one contents programs path paths words (failed other) e room (n, k, at, r) = (suc n, k, at, r)
start_one contents programs path paths words aborted e room (other, (n, k, at, r)) =
    (other, (suc n, k, at, r))
start_one contents programs path paths words Command.bad_index e room b = b

drop_one :
    (contents : Files) (programs : List (List ℕ)) (path : List ℕ) (paths : List (List ℕ))
    (words : List ℕ) (r : Booted)
    → assemble_file (hart_slot_base (length programs)) (contents path) ≡ accepted words
    → ¬ RoomFor programs words
    → Boots contents programs paths r
    → Boots contents programs (path ∷ paths) r
drop_one contents programs path paths words (booted t) e full (after, starts, b) =
    (after, dropped programs after path paths words e full starts, b)
drop_one contents programs path paths words (failed other) e full (n, k, at, r) = (suc n, k, at, r)
drop_one contents programs path paths words aborted e full (other, (n, k, at, r)) =
    (other, (suc n, k, at, r))
drop_one contents programs path paths words Command.bad_index e full b = b

dec_room :
    (programs : List (List ℕ)) (words : List ℕ)
    → RoomFor programs words ⊎ (¬ RoomFor programs words)
dec_room programs words = elim (dec_lt (length programs) max_harts) [
  | yes few ↦ elim (dec_le (length words * 4) (hart_slot_size - stack_size)) [
    | yes fits ↦ inl (few, fits)
    | no large ↦ inr (λ room. large (room.1))
  ]
  | no many ↦ inr (λ room. many (room.0))
]

-- From a system with a hart for each program: the loop over the files never looks outside an array,
-- and unless a file cannot be assembled it leaves a sound system with a hart in its first state for each file
-- that found room, in this order, the file's words at the start of the hart's slot.
pub boot-Boots :
    (contents : Files) (paths programs : List (List ℕ)) (s : System)
    → IsBooted programs s
    → Boots contents programs paths (boot contents s paths)
unfolding boot
boot-Boots contents [] programs s b = (programs, no_more programs, b)
boot-Boots contents (path ∷ paths) programs s b =
    of_file (assemble_file (hart_slot_base (length s.harts)) (contents path))
      (ap (λ (n : ℕ). assemble_file (hart_slot_base n) (contents path)) (sym b.as_many))
      (λ qs t c. boot-Boots contents paths qs t c)
  where
    of_file :
        (o : Assembled)
        → assemble_file (hart_slot_base (length programs)) (contents path) ≡ o
        → ((qs : List (List ℕ)) (t : System)
            → IsBooted qs t
            → Boots contents qs paths (boot contents t paths))
        → Boots contents programs (path ∷ paths) (elim o [
          | thrown ↦ aborted
          | bad_index ↦ Command.bad_index
          | rejected ↦ failed path
          | accepted words ↦ elim (spawn_hart s words) [
            | none ↦ Command.bad_index
            | some (t, _) ↦ boot contents t paths
          ]
        ])
    of_file thrown e later = (path, (0, length programs, refl, e))
    of_file bad_index e later =
        absurd (assemble_file_in_range (hart_slot_base (length programs)) (contents path) e)
    of_file rejected e later = (0, length programs, refl, e)
    of_file (accepted words) e later = elim (dec_room programs words) [
      | inl room ↦
          let (t, spawned, c) = spawn_hart-IsBooted programs s words b room in
          rw spawned (
            start_one contents programs path paths words (boot contents t paths) e room
              (later (programs ++ words ∷ []) t c))
      | inr full ↦
          rw
            (spawn_hart_refused s words
              (λ room. full (subst (λ n. n < max_harts) b.as_many (room.0), room.1)))
            (drop_one contents programs path paths words (boot contents s paths) e full
              (later programs s b))
    ]
