-- ===== src/Prelude/Words.antt =====
-- uint32_t and int32_t arithmetic. Both are bit patterns below 2 ^ 32; a signed operation reads the
-- pattern as two's complement, and a signed sum or difference wraps.
use Prim.Native.Nat.{ℕ, ◌+◌, ◌-◌, ◌*◌, ◌/◌, ◌%◌, ◌^◌, ◌<◌}
use mathlib.Core.Bool.{Bool}
use mathlib.Core.List.{List, [], ◌∷◌}
use mocker.Prelude.Tests.{ltb, if◌then◌else◌}

abbrev pub word_mod : ℕ
word_mod = 2 ^ 32

abbrev pub u32 : ℕ → ℕ
u32 n = n % 2 ^ 32

-- The 64-bit counters.
abbrev pub u64 : ℕ → ℕ
u64 n = n % 2 ^ 64

abbrev pub IsWord : ℕ → Type 0
IsWord n = n < 2 ^ 32

abbrev pub AllWords : List ℕ → Type 0
AllWords [] = Unit
AllWords (w ∷ words) = IsWord w × AllWords words

abbrev pub add32 : ℕ → ℕ → ℕ
add32 a b = (a + b) % 2 ^ 32

-- 2 ^ 32 is added first, since `-` stops at 0.
abbrev pub sub32 : ℕ → ℕ → ℕ
sub32 a b = (a + 2 ^ 32 - b) % 2 ^ 32

infixl 75 ◌<<◌ ◌>>◌
abbrev pub ◌<<◌ : ℕ → ℕ → ℕ
a << k = a * 2 ^ k % 2 ^ 32

abbrev pub ◌>>◌ : ℕ → ℕ → ℕ
a >> k = a / 2 ^ k

-- ~a
abbrev pub not32 : ℕ → ℕ
not32 a = 2 ^ 32 - 1 - a

-- An int32_t below zero has its top bit set.
abbrev pub is_negative : ℕ → Bool
is_negative a = ltb (2 ^ 31 - 1) a

-- `a < b` between int32_t: adding 2 ^ 31 turns the signed order into that of the patterns.
abbrev pub lt_signed : ℕ → ℕ → Bool
lt_signed a b = ltb (add32 a (2 ^ 31)) (add32 b (2 ^ 31))

-- `a >> k` of an int32_t, which rounds down and fills with the sign.
abbrev pub sar32 : ℕ → ℕ → ℕ
sar32 a k = if is_negative a then not32 (not32 a / 2 ^ k) else a / 2 ^ k
