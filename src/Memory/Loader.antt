-- ===== src/Memory/Loader.antt =====
-- memory.h, `loadProgram`: where the words of a program stand in memory.
use mocker.Prelude.{
  ℕ, zero, suc, ◌+◌, ◌*◌, ◌%◌, ◌^◌, ◌<◌, ◌≤◌, ◌≡◌, refl, subst, ap, ◌∙◌, ◌⊎◌, inl, some, List, [],
  ◌∷◌, length, get_elem?, arith, add32, u32,
}
use mocker.Memory.{ProtectedMemory, load_words}
use mocker.Memory.Layout.{mem_size}
use mocker.Memory.Raw.{IsBytes, word_at, with_word, with_word-IsBytes, raw_store_word_lem}

-- The words stand in memory from an address on.
abbrev pub StandIn : ProtectedMemory → List ℕ → ℕ → Type 0
StandIn m words base =
    (k w : ℕ) → get_elem? words k ≡ some w → word_at m (base + 4 * k) ≡ w % 2 ^ 32

-- The memory after words are loaded to an address: bytes outside their place are as before.
pub record Filled (m : ProtectedMemory) (words : List ℕ) (base : ℕ) (m' : ProtectedMemory)
    : Type 0 where
  pub bytes : IsBytes m'
  pub stand : StandIn m' words base
  pub outside : (j : ℕ) → (j < base) ⊎ (base + 4 * length words ≤ j) → m'.bytes j ≡ m.bytes j

with_word-word_at : (m : ProtectedMemory) (a v : ℕ) → word_at (with_word m a v) a ≡ v % 2 ^ 32
with_word-word_at m a v = ground arith

-- One word in front of those that are loaded behind it.
stand-with_word :
    (m m' : ProtectedMemory) (w : ℕ) (words : List ℕ) (a : ℕ)
    → Filled (with_word m a w) words (a + 4) m'
    → StandIn m' (w ∷ words) a
stand-with_word m m' w words a f zero v e =
    let same : w ≡ v = cc e in
    ground (
      arith,
      same,
      f.outside a (inl (omega arith)),
      f.outside (a + 1) (inl (omega arith)),
      f.outside (a + 2) (inl (omega arith)),
      f.outside (a + 3) (inl (omega arith)),
    )
stand-with_word m m' w words a f (suc k) v e =
    let at : a + 4 * suc k ≡ a + 4 + 4 * k = omega arith in ap (word_at m') at ∙ f.stand k v e

Filled-with_word :
    (m m' : ProtectedMemory) (w : ℕ) (words : List ℕ) (a : ℕ)
    → Filled (with_word m a w) words (a + 4) m'
    → Filled m (w ∷ words) a m'
Filled-with_word m m' w words a f = record {
  bytes = f.bytes;
  stand = stand-with_word m m' w words a f;
  outside = λ j o. f.outside j (omega arith) ∙ ground arith;
}

pub load_words-Filled :
    (m : ProtectedMemory) (words : List ℕ) (base i : ℕ)
    → IsBytes m
    → base + 4 * (i + length words) ≤ mem_size
    → (m' : ProtectedMemory) × (load_words m words base i ≡ some m')
      × Filled m words (base + 4 * i) m'
unfolding load_words
load_words-Filled m [] base i b fits =
    (m, refl, record { bytes = b; stand = λ k w e. absurd (cc e); outside = λ j o. refl })
load_words-Filled m (w ∷ words) base i b fits =
    let a = add32 base (u32 (i * 4)) in
    let at : a ≡ base + 4 * i = omega arith in
    let next : base + 4 * (i + 1) ≡ a + 4 = omega arith in
    let (m', e, f) =
      load_words-Filled (with_word m a w) words base (i + 1) (with_word-IsBytes m a w b)
        (omega arith) in
    (
      m',
      simp (raw_store_word_lem m a w (omega arith)) e,
      subst (λ k. Filled m (w ∷ words) k m') at
          (Filled-with_word m m' w words a
            (subst (λ k. Filled (with_word m a w) words k m') next f)),
    )
