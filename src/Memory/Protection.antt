-- ===== src/Memory/Protection.antt =====
-- memory.h, the protection check and the protected accessors of a U-mode hart.
use mocker.Prelude.{
  ℕ, ◌+◌, ◌*◌, ◌/◌, ◌%◌, ◌^◌, ◌≤◌, ◌<◌, ◌≡◌, ◌≢◌, ◌⊎◌, ◌↔◌, refl, arith, Option, some, true, false,
  Bool-cases, inl, inr,
}
use mocker.Memory.Layout.{max_harts}
use mocker.Memory.Raw.{
  IsBytes, with_word, with_half, with_byte, raw_store_word_lem, raw_store_half_lem,
  raw_store_byte_lem, raw_load_word_lem, raw_load_half_lem, raw_load_byte_lem, word_at, half_at,
}
use mocker.Memory.{
  ProtectedMemory, MemFault, AccessType, fetch, load, store, check, store_word, store_half,
  store_byte, load_word, load_half, load_byte, guarded_load, guarded_store, raw_store_word,
  raw_store_half, raw_store_byte, raw_load_word, raw_load_half, raw_load_byte,
}

-- The slot of a hart, without the wrap-around of the address arithmetic.
abbrev pub InSlot : ℕ → ℕ → Type 0
InSlot id a = (0x10000 * (id + 1) ≤ a) × (a < 0x10000 * (id + 2))

-- A data access of a U-mode hart is let through exactly when its first byte lies in the hart's slot.
pub check_user_iff :
    (a id : ℕ) (t : AccessType)
    → id < max_harts
    → t ≢ fetch
    → ((check a t (some id)).occurred ≡ false) ↔ InSlot id a
unfolding check
check_user_iff a id fetch h d = absurd (d refl)
check_user_iff a id load h d = ground arith
check_user_iff a id store h d = ground arith

-- Nothing outside the slot of `id` and the `extra` bytes behind it differs.
abbrev pub Confined : ℕ → ℕ → ProtectedMemory → ProtectedMemory → Type 0
Confined id extra m m' =
    (j : ℕ) → (j < 0x10000 * (id + 1)) ⊎ (0x10000 * (id + 2) + extra ≤ j) → m'.bytes j ≡ m.bytes j

-- What a protected store does for a U-mode hart: it faults and changes nothing, or the address lies in
-- the slot and the raw store is done.
abbrev pub Stores :
    ℕ → ℕ → ProtectedMemory → ProtectedMemory → Option (MemFault × ProtectedMemory) → Type 0
Stores id a m done r =
    (f : MemFault) × (((f.occurred ≡ true) × (¬ InSlot id a) × (r ≡ some (f, m)))
      ⊎ ((f.occurred ≡ false) × InSlot id a × (r ≡ some (f, done))))

not-InSlot :
    (a id : ℕ) (t : AccessType)
    → id < max_harts
    → t ≢ fetch
    → (check a t (some id)).occurred ≡ true
    → ¬ InSlot id a
not-InSlot a id t h d e s = cc ((check_user_iff a id t h d).1 s)

-- The same for a protected load: 0 on a fault, and otherwise what the raw load reads.
abbrev pub Loads : ℕ → ℕ → ℕ → Option (MemFault × ℕ) → Type 0
Loads id a value r =
    (f : MemFault) × (((f.occurred ≡ true) × (¬ InSlot id a) × (r ≡ some (f, 0)))
      ⊎ ((f.occurred ≡ false) × InSlot id a × (r ≡ some (f, value))))

module _ (m : ProtectedMemory) (a id : ℕ) (h : id < max_harts) where
  guarded_store-Stores :
      (raw : ProtectedMemory → ℕ → ℕ → Option ProtectedMemory) (v : ℕ) (done : ProtectedMemory)
      → (InSlot id a → raw m a v ≡ some done)
      → Stores id a m done (guarded_store raw m a v (some id))
  guarded_store-Stores raw v done stored = (
    check a store (some id),
    elim (Bool-cases (check a store (some id)).occurred) [
      | inl e ↦ inl (e, not-InSlot a id store h (λ p. cc) e, rw e)
      | inr e ↦ let s = (check_user_iff a id store h (λ p. cc)).0 e in inr (e, s, rw (e, stored s))
    ],
  )

  guarded_load-Loads :
      (raw : ProtectedMemory → ℕ → Option ℕ) (value : ℕ)
      → (InSlot id a → raw m a ≡ some value)
      → Loads id a value (guarded_load raw m a (some id))
  guarded_load-Loads raw value loaded = (
    check a load (some id),
    elim (Bool-cases (check a load (some id)).occurred) [
      | inl e ↦ inl (e, not-InSlot a id load h (λ p. cc) e, rw e)
      | inr e ↦ let s = (check_user_iff a id load h (λ p. cc)).0 e in inr (e, s, rw (e, loaded s))
    ],
  )

  pub store_word-Stores : (v : ℕ) → Stores id a m (with_word m a v) (store_word m a v (some id))
  unfolding store_word
  store_word-Stores v =
      guarded_store-Stores raw_store_word v (with_word m a v)
        λ s. raw_store_word_lem m a v (omega arith)

  pub store_half-Stores : (v : ℕ) → Stores id a m (with_half m a v) (store_half m a v (some id))
  unfolding store_half
  store_half-Stores v =
      guarded_store-Stores raw_store_half v (with_half m a v)
        λ s. raw_store_half_lem m a v (omega arith)

  pub store_byte-Stores : (v : ℕ) → Stores id a m (with_byte m a v) (store_byte m a v (some id))
  unfolding store_byte
  store_byte-Stores v =
      guarded_store-Stores raw_store_byte v (with_byte m a v)
        λ s. raw_store_byte_lem m a v (omega arith)

  module _ (bytes : IsBytes m) where
    pub load_word-Loads : Loads id a (word_at m a) (load_word m a (some id))
    unfolding load_word
    load_word-Loads =
        guarded_load-Loads raw_load_word (word_at m a)
          λ s. raw_load_word_lem m a bytes (omega arith)

    pub load_half-Loads : Loads id a (half_at m a) (load_half m a (some id))
    unfolding load_half
    load_half-Loads =
        guarded_load-Loads raw_load_half (half_at m a)
          λ s. raw_load_half_lem m a bytes (omega arith)

    pub load_byte-Loads : Loads id a (m.bytes a) (load_byte m a (some id))
    unfolding load_byte
    load_byte-Loads =
        guarded_load-Loads raw_load_byte (m.bytes a) λ s. raw_load_byte_lem m a (omega arith)

-- A word store of a U-mode hart always returns, faults exactly when the address is outside the hart's
-- slot, and changes nothing outside the slot and the three bytes behind it.
pub store_word-Confined :
    (m : ProtectedMemory) (a v id : ℕ)
    → id < max_harts
    → (f : MemFault) × (m' : ProtectedMemory) × (store_word m a v (some id) ≡ some (f, m'))
      × ((f.occurred ≡ false) ↔ InSlot id a)
      × Confined id 3 m m'
store_word-Confined m a v id h =
    let (f, cases) = store_word-Stores m a id h v in
    elim cases [
      | inl (e, out, r) ↦ (f, m, r, ((λ p. cc), (λ s. absurd (out s))), λ j o. refl)
      | inr (e, s, r) ↦ (f, with_word m a v, r, ((λ p. s), (λ p. e)), λ j o. ground arith)
    ]

-- The protection looks at the first byte only. A word store of a U-mode hart at one of the last three
-- addresses of its slot is let through, and its fourth byte lands outside the slot.
pub store_word_leaks :
    (m : ProtectedMemory) (a v id : ℕ)
    → id < max_harts
    → InSlot id a
    → 0x10000 * (id + 2) ≤ a + 3
    → (f : MemFault) × (m' : ProtectedMemory) × (store_word m a v (some id) ≡ some (f, m'))
      × (f.occurred ≡ false)
      × (m'.bytes (a + 3) ≡ v / 2 ^ 24 % 256)
      × (¬ InSlot id (a + 3))
store_word_leaks m a v id h s over =
    let (f, cases) = store_word-Stores m a id h v in
    elim cases [
      | inl (e, out, r) ↦ absurd (out s)
      | inr (e, s', r) ↦ (f, with_word m a v, r, e, ground arith, λ t. omega arith)
    ]
