-- ===== src/Memory/Raw.antt =====
-- memory.h, the raw accessors: what a store leaves in the bytes and what a load puts together.
use mocker.Prelude.{
  ℕ, ◌+◌, ◌*◌, ◌/◌, ◌%◌, ◌^◌, ◌≤◌, ◌<◌, ◌≡◌, ◌⊎◌, ◌∙◌, refl, ap, arith, none, some, update, ◌>>◌,
  add32,
}
use mocker.Prelude.Bits.{bit_and_mask, bit_or_sum_low}
use mocker.Memory.Layout.{mem_size}
use mocker.Memory.{
  ProtectedMemory, byte_at, set_byte, raw_load_word, raw_store_word, raw_load_byte, raw_store_byte,
  raw_load_half, raw_store_half,
}

-- The array holds uint8_t.
abbrev pub IsBytes : ProtectedMemory → Type 0
IsBytes m = (a : ℕ) → m.bytes a < 256

abbrev pub word_at : ProtectedMemory → ℕ → ℕ
word_at m a =
    m.bytes a + m.bytes (a + 1) * 2 ^ 8 + m.bytes (a + 2) * 2 ^ 16 + m.bytes (a + 3) * 2 ^ 24

abbrev pub half_at : ProtectedMemory → ℕ → ℕ
half_at m a = m.bytes a + m.bytes (a + 1) * 2 ^ 8

abbrev pub with_word : ProtectedMemory → ℕ → ℕ → ProtectedMemory
with_word m a v = record {
  bytes =
      update
        (update (update (update m.bytes a (v % 256)) (a + 1) (v / 2 ^ 8 % 256)) (a + 2)
          (v / 2 ^ 16 % 256))
        (a + 3) (v / 2 ^ 24 % 256);
}

abbrev pub with_half : ProtectedMemory → ℕ → ℕ → ProtectedMemory
with_half m a v = record { bytes = update (update m.bytes a (v % 256)) (a + 1) (v / 2 ^ 8 % 256) }

abbrev pub with_byte : ProtectedMemory → ℕ → ℕ → ProtectedMemory
with_byte m a v = record { bytes = update m.bytes a v }

wrap_free : (a k : ℕ) → a + k < mem_size → add32 a k ≡ a + k
wrap_free a k h = omega arith

byte_at_lem : (m : ProtectedMemory) (a : ℕ) → a < mem_size → byte_at m a ≡ some (m.bytes a)
unfolding byte_at
byte_at_lem m a h = ground arith

set_byte_lem :
    (m : ProtectedMemory) (a v : ℕ) → a < mem_size → set_byte m a v ≡ some (with_byte m a v)
unfolding set_byte
set_byte_lem m a v h = ground arith

byte_at_next :
    (m : ProtectedMemory) (a k : ℕ)
    → a + k < mem_size
    → byte_at m (add32 a k) ≡ some (m.bytes (a + k))
byte_at_next m a k h = rw (wrap_free a k h) (byte_at_lem m (a + k) h)

set_byte_next :
    (m : ProtectedMemory) (a k v : ℕ)
    → a + k < mem_size
    → set_byte m (add32 a k) v ≡ some (with_byte m (a + k) v)
set_byte_next m a k v h = rw (wrap_free a k h) (set_byte_lem m (a + k) v h)

module _ (m : ProtectedMemory) (a : ℕ) where
  pub raw_load_word_lem : IsBytes m → a + 3 < mem_size → raw_load_word m a ≡ some (word_at m a)
  unfolding raw_load_word
  raw_load_word_lem bytes h =
      rw
        (
          byte_at_lem m a (omega arith),
          byte_at_next m a 1 (omega arith),
          byte_at_next m a 2 (omega arith),
          byte_at_next m a 3 (omega arith),
        )
        (ap some (
          bit_or_sum_low 24
            (bit_or_sum_low 16
              (bit_or_sum_low 8 refl (omega (arith, bytes (a + 1))) (omega arith) (bytes a))
              (omega (arith, bytes (a + 2))) (omega arith) (omega (arith, bytes a, bytes (a + 1))))
            (omega (arith, bytes (a + 3))) (omega arith)
            (omega (arith, bytes a, bytes (a + 1), bytes (a + 2)))))

  pub raw_load_half_lem : IsBytes m → a + 1 < mem_size → raw_load_half m a ≡ some (half_at m a)
  unfolding raw_load_half
  raw_load_half_lem bytes h =
      rw (byte_at_lem m a (omega arith), byte_at_next m a 1 (omega arith))
        (ap some (bit_or_sum_low 8 refl (omega (arith, bytes (a + 1))) (omega arith) (bytes a)))

  pub raw_load_byte_lem : a < mem_size → raw_load_byte m a ≡ some (m.bytes a)
  unfolding raw_load_byte
  raw_load_byte_lem h = byte_at_lem m a h

  pub raw_store_word_lem :
      (v : ℕ) → a + 3 < mem_size → raw_store_word m a v ≡ some (with_word m a v)
  unfolding raw_store_word
  raw_store_word_lem v h = simp (
    set_byte_lem m a _ (omega arith),
    set_byte_next _ a 1 _ (omega arith),
    set_byte_next _ a 2 _ (omega arith),
    set_byte_next _ a 3 _ (omega arith),
    bit_and_mask 8,
  )

  pub raw_store_half_lem :
      (v : ℕ) → a + 1 < mem_size → raw_store_half m a v ≡ some (with_half m a v)
  unfolding raw_store_half
  raw_store_half_lem v h =
      rw (bit_and_mask 8 v, bit_and_mask 8 (v >> 8), set_byte_lem m a (v % 256) (omega arith))
        (set_byte_next (with_byte m a (v % 256)) a 1 _ (omega arith))

  pub raw_store_byte_lem : (v : ℕ) → a < mem_size → raw_store_byte m a v ≡ some (with_byte m a v)
  unfolding raw_store_byte
  raw_store_byte_lem v h = set_byte_lem m a v h

pub with_word-IsBytes : (m : ProtectedMemory) (a v : ℕ) → IsBytes m → IsBytes (with_word m a v)
with_word-IsBytes m a v bytes j = ground (arith, bytes j)

pub with_half-IsBytes : (m : ProtectedMemory) (a v : ℕ) → IsBytes m → IsBytes (with_half m a v)
with_half-IsBytes m a v bytes j = ground (arith, bytes j)

pub with_byte-IsBytes :
    (m : ProtectedMemory) (a v : ℕ) → v < 256 → IsBytes m → IsBytes (with_byte m a v)
with_byte-IsBytes m a v small bytes j = ground (arith, bytes j)

-- A 32-bit word stored inside the array is loaded back from its address, and the four bytes from that
-- address on are the only ones that change.
pub raw_load_word-raw_store_word :
    (m : ProtectedMemory) (a v : ℕ)
    → IsBytes m
    → a + 3 < mem_size
    → v < 2 ^ 32
    → (m' : ProtectedMemory) × (raw_store_word m a v ≡ some m')
      × (raw_load_word m' a ≡ some v)
      × ((j : ℕ) → (j < a) ⊎ (a + 4 ≤ j) → m'.bytes j ≡ m.bytes j)
raw_load_word-raw_store_word m a v bytes h fits = (
  with_word m a v,
  raw_store_word_lem m a v h,
  raw_load_word_lem (with_word m a v) a (with_word-IsBytes m a v bytes) h ∙ ap some (ground arith),
  λ j out. ground arith,
)

-- A word access whose first byte is the array's and whose last is not is undefined: a load and a store.
pub raw_word_overrun :
    (m : ProtectedMemory) (a v : ℕ)
    → a < mem_size
    → mem_size ≤ a + 3
    → (raw_load_word m a ≡ none) × (raw_store_word m a v ≡ none)
unfolding raw_load_word raw_store_word byte_at set_byte
raw_word_overrun m a v h over = (ground arith, ground arith)
