-- ===== src/Prelude/Bits.antt =====
-- The bit operations of the native numbers at variables: what the law of the lowest digit gives for
-- shifted fields, masks and single bits.
mod Step
pub mod Bounds
use Prim.Native.Nat.{ℕ, zero, suc, ◌+◌, ◌-◌, ◌*◌, ◌/◌, ◌%◌, ◌^◌, ◌≤◌, ◌<◌, min, max}
use Prim.Native.Nat.{bit_and, bit_or, bit_xor, bit_or-bitwise, bit_and-bitwise}
use mathlib.Core.Bool.{Bool, true, false, ◌&&◌}
use mathlib.Core.Path.{◌≡◌, refl, sym, ap, ◌∙◌}
use native.Mathlib.Omega.{arith}
use native.Mathlib.Nat.{
  pow-suc, one-le-pow, div-add-mod, mul_comm, mod-lt, add-zero, zero-add, zero-mul, one-mul,
  div-div-eq-div-mul,
}
use Step.{bit_or_step, bit_and_step, bit_xor_step}

-- Each goes from `x / 2` to `x`, hence the bound `n` on which it recurs.
zero_right : (n x : ℕ) → x ≤ n → (bit_or x 0 ≡ x) × (bit_and x 0 ≡ 0) × (bit_xor x 0 ≡ x)
zero_right n zero h = (refl, refl, refl)
zero_right zero (suc x) h = absurd (omega arith)
zero_right (suc n) (suc x) h =
    let ih = zero_right n (suc x / 2) (omega arith) in
    (
      omega (arith, bit_or_step (suc x) 0),
      omega (arith, bit_and_step (suc x) 0),
      omega (arith, bit_xor_step (suc x) 0),
    )

pub bit_or-zero : (x : ℕ) → bit_or x 0 ≡ x
bit_or-zero x = (zero_right x x (omega arith)).0

pub bit_and-zero : (x : ℕ) → bit_and x 0 ≡ 0
bit_and-zero x = (zero_right x x (omega arith)).1

pub bit_xor-zero : (x : ℕ) → bit_xor x 0 ≡ x
bit_xor-zero x = (zero_right x x (omega arith)).2

double_pow : (q k : ℕ) → q * 2 ^ suc k ≡ 2 * (q * 2 ^ k)
double_pow q k = omega (arith, ap (λ (t : ℕ). q * t) (pow-suc 2 k))

-- Two numbers cut at bit `k`: an operation works on the upper parts and on the lower parts.

pub bit_or_split :
    (k p q r s : ℕ)
    → r < 2 ^ k
    → s < 2 ^ k
    → bit_or (p * 2 ^ k + r) (q * 2 ^ k + s) ≡ bit_or p q * 2 ^ k + bit_or r s
bit_or_split zero p q r s hr hs = ground arith
bit_or_split (suc k) p q r s hr hs = ground (
  arith,
  bit_or_step (p * 2 ^ suc k + r) (q * 2 ^ suc k + s),
  bit_or_step r s,
  double_pow p k,
  double_pow q k,
  double_pow (bit_or p q) k,
  bit_or_split k p q (r / 2) (s / 2) (omega arith) (omega arith),
)

pub bit_and_split :
    (k p q r s : ℕ)
    → r < 2 ^ k
    → s < 2 ^ k
    → bit_and (p * 2 ^ k + r) (q * 2 ^ k + s) ≡ bit_and p q * 2 ^ k + bit_and r s
bit_and_split zero p q r s hr hs = ground arith
bit_and_split (suc k) p q r s hr hs = ground (
  arith,
  bit_and_step (p * 2 ^ suc k + r) (q * 2 ^ suc k + s),
  bit_and_step r s,
  double_pow p k,
  double_pow q k,
  double_pow (bit_and p q) k,
  bit_and_split k p q (r / 2) (s / 2) (omega arith) (omega arith),
)

pub bit_xor_split :
    (k p q r s : ℕ)
    → r < 2 ^ k
    → s < 2 ^ k
    → bit_xor (p * 2 ^ k + r) (q * 2 ^ k + s) ≡ bit_xor p q * 2 ^ k + bit_xor r s
bit_xor_split zero p q r s hr hs = ground arith
bit_xor_split (suc k) p q r s hr hs = ground (
  arith,
  bit_xor_step (p * 2 ^ suc k + r) (q * 2 ^ suc k + s),
  bit_xor_step r s,
  double_pow p k,
  double_pow q k,
  double_pow (bit_xor p q) k,
  bit_xor_split k p q (r / 2) (s / 2) (omega arith) (omega arith),
)

two_pow_pos : (k : ℕ) → 0 < 2 ^ k
two_pow_pos k = one-le-pow k 2 (omega arith)

zero-bit_or : (x : ℕ) → bit_or 0 x ≡ x
zero-bit_or x = bit_or-bitwise 0 x

zero-bit_and : (x : ℕ) → bit_and 0 x ≡ 0
zero-bit_and x = bit_and-bitwise 0 x

-- `(p << k) | r` is a sum where `r` fits `k` bits.
pub bit_or_fields : (k p r : ℕ) → r < 2 ^ k → bit_or (p * 2 ^ k) r ≡ p * 2 ^ k + r
bit_or_fields k p r h =
    let e : bit_or (p * 2 ^ k + 0) (0 * 2 ^ k + r) ≡ bit_or p 0 * 2 ^ k + bit_or 0 r =
      bit_or_split k p 0 0 r (two_pow_pos k) h in
    let e' : bit_or (p * 2 ^ k) r ≡ bit_or p 0 * 2 ^ k + bit_or 0 r =
      simp (add-zero, zero-mul, zero-add) at e in
    e' ∙ rw (bit_or-zero p, zero-bit_or r)

-- The same for any number with its `k` low bits clear.
pub bit_or_disjoint : (k a r : ℕ) → a % 2 ^ k ≡ 0 → r < 2 ^ k → bit_or a r ≡ a + r
bit_or_disjoint k a r e h =
    let e' : a ≡ a / 2 ^ k * 2 ^ k =
      omega (arith, div-add-mod a (2 ^ k), mul_comm (2 ^ k) (a / 2 ^ k)) in
    ap (λ (t : ℕ). bit_or t r) e' ∙ bit_or_fields k (a / 2 ^ k) r h ∙ ap (λ (t : ℕ). t + r) (sym e')

-- The same through equations of the two sides, so that a chain of fields is one nested term.
pub bit_or_sum :
    (k : ℕ) {a a' r r' : ℕ} → a ≡ a' → r ≡ r' → a' % 2 ^ k ≡ 0 → r' < 2 ^ k → bit_or a r ≡ a' + r'
bit_or_sum k {a' = a'} {r' = r'} ea er e h = rw (ea, er) (bit_or_disjoint k a' r' e h)

-- The low part on the left.
bit_or_low : (k p r : ℕ) → r < 2 ^ k → bit_or r (p * 2 ^ k) ≡ r + p * 2 ^ k
bit_or_low k p r h =
    let e : bit_or (0 * 2 ^ k + r) (p * 2 ^ k + 0) ≡ bit_or 0 p * 2 ^ k + bit_or r 0 =
      bit_or_split k 0 p r 0 h (two_pow_pos k) in
    let e' : bit_or r (p * 2 ^ k) ≡ bit_or 0 p * 2 ^ k + bit_or r 0 =
      simp (add-zero, zero-mul, zero-add) at e in
    e' ∙ rw (bit_or-zero r, zero-bit_or p) (omega arith)

pub bit_or_sum_low :
    (k : ℕ) {a a' r r' : ℕ} → r ≡ r' → a ≡ a' → a' % 2 ^ k ≡ 0 → r' < 2 ^ k → bit_or r a ≡ r' + a'
bit_or_sum_low k {a' = a'} {r' = r'} er ea e h =
    let e' : a' ≡ a' / 2 ^ k * 2 ^ k =
      omega (arith, div-add-mod a' (2 ^ k), mul_comm (2 ^ k) (a' / 2 ^ k)) in
    rw (er, ea)
      (ap (λ (t : ℕ). bit_or r' t) e'
        ∙ bit_or_low k (a' / 2 ^ k) r' h
        ∙ ap (λ (t : ℕ). r' + t) (sym e'))

-- A mask of `k` low bits is the remainder by `2 ^ k`.
bit_and_low : (k p r : ℕ) → r < 2 ^ k → bit_and (p * 2 ^ k + r) (2 ^ k - 1) ≡ r
bit_and_low zero p r h = rw bit_and-zero (omega arith)
bit_and_low (suc k) p r h = ground (
  arith,
  bit_and_step (p * 2 ^ suc k + r) (2 ^ suc k - 1),
  double_pow p k,
  pow-suc 2 k,
  two_pow_pos k,
  bit_and_low k p (r / 2),
)

pub bit_and_mask : (k a : ℕ) → bit_and a (2 ^ k - 1) ≡ a % 2 ^ k
bit_and_mask k a = ground (
  arith,
  two_pow_pos k,
  mod-lt a {m = 2 ^ k},
  bit_and_low k (a / 2 ^ k) (a % 2 ^ k),
  div-add-mod a (2 ^ k),
  mul_comm (2 ^ k) (a / 2 ^ k),
)

-- A mask shifted by `k` looks at the number shifted back.
pub bit_and_shifted : (k a m : ℕ) → bit_and a (m * 2 ^ k) ≡ bit_and (a / 2 ^ k) m * 2 ^ k
bit_and_shifted k a m =
    let e : bit_and (a / 2 ^ k * 2 ^ k + a % 2 ^ k) (m * 2 ^ k + 0)
        ≡ bit_and (a / 2 ^ k) m * 2 ^ k + bit_and (a % 2 ^ k) 0 =
      bit_and_split k (a / 2 ^ k) m (a % 2 ^ k) 0 (mod-lt a (two_pow_pos k)) (two_pow_pos k) in
    let ea : a ≡ a / 2 ^ k * 2 ^ k + a % 2 ^ k =
      omega (arith, div-add-mod a (2 ^ k), mul_comm (2 ^ k) (a / 2 ^ k)) in
    ap (λ (t : ℕ). bit_and t (m * 2 ^ k)) ea ∙ simp (add-zero, bit_and-zero) at e

-- The exclusive or with bit `k` of a number of `k + 1` bits.
pub bit_xor_top_clear : (k r : ℕ) → r < 2 ^ k → bit_xor r (2 ^ k) ≡ 2 ^ k + r
bit_xor_top_clear k r h =
    let e : bit_xor (0 * 2 ^ k + r) (1 * 2 ^ k + 0) ≡ 1 * 2 ^ k + bit_xor r 0 =
      bit_xor_split k 0 1 r 0 h (two_pow_pos k) in
    simp (add-zero, one-mul, zero-mul, zero-add, bit_xor-zero) at e

pub bit_xor_top_set : (k r : ℕ) → r < 2 ^ k → bit_xor (2 ^ k + r) (2 ^ k) ≡ r
bit_xor_top_set k r h =
    let e : bit_xor (1 * 2 ^ k + r) (1 * 2 ^ k + 0) ≡ 0 * 2 ^ k + bit_xor r 0 =
      bit_xor_split k 1 1 r 0 h (two_pow_pos k) in
    simp (add-zero, one-mul, zero-mul, zero-add, bit_xor-zero) at e

-- Bit `k` of a number.
abbrev pub bit : ℕ → ℕ → ℕ
bit k x = x / 2 ^ k % 2

bit-suc : (k x : ℕ) → bit (suc k) x ≡ bit k (x / 2)
bit-suc k x = rw (pow-suc 2 k, mul_comm (2 ^ k) 2, div-div-eq-div-mul x 2 (2 ^ k))

bit-zero : (x : ℕ) → bit 0 x ≡ x % 2
bit-zero x = omega arith

pub bit-bit_or : (k x y : ℕ) → bit k (bit_or x y) ≡ max (bit k x) (bit k y)
bit-bit_or zero x y = simp bit-zero (omega (arith, bit_or_step x y))
bit-bit_or (suc k) x y =
    let half : bit_or x y / 2 ≡ bit_or (x / 2) (y / 2) = omega (arith, bit_or_step x y) in
    simp (bit-suc, half) (bit-bit_or k (x / 2) (y / 2))

pub bit-bit_and : (k x y : ℕ) → bit k (bit_and x y) ≡ min (bit k x) (bit k y)
bit-bit_and zero x y = simp bit-zero (omega (arith, bit_and_step x y))
bit-bit_and (suc k) x y =
    let half : bit_and x y / 2 ≡ bit_and (x / 2) (y / 2) = omega (arith, bit_and_step x y) in
    simp (bit-suc, half) (bit-bit_and k (x / 2) (y / 2))

-- A test that holds of every number below a bound, found by running it.
unfoldable pub all_below : ℕ → (ℕ → Bool) → Bool
all_below zero test = true
all_below (suc n) test = test n && all_below n test

pub all_below_lem :
    (n : ℕ) (test : ℕ → Bool) (x : ℕ) → all_below n test ≡ true → x < n → test x ≡ true
unfolding all_below
all_below_lem zero test x e h = absurd (omega arith)
all_below_lem (suc n) test x e h = ground (arith, all_below_lem n test x)
