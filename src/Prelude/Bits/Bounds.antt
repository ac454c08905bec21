-- ===== src/Prelude/Bits/Bounds.antt =====
-- Bounds on the results of the bit operations.
use Prim.Native.Nat.{ℕ, zero, suc, ◌/◌, ◌^◌, ◌<◌, bit_and, bit_or, bit_xor}
use mathlib.Core.Path.{◌≡◌}
use native.Mathlib.Omega.{arith}
use native.Mathlib.Nat.{pow-suc}
use mocker.Prelude.Bits.{bit_and-zero}
use mocker.Prelude.Bits.Step.{bit_or_step, bit_and_step, bit_xor_step}

-- Operations on numbers of `k` bits stay within `k` bits.
half_lt : (k x : ℕ) → x < 2 ^ suc k → x / 2 < 2 ^ k
half_lt k x h = omega (arith, pow-suc 2 k)

pub bit_or_lt : (k x y : ℕ) → x < 2 ^ k → y < 2 ^ k → bit_or x y < 2 ^ k
bit_or_lt zero x y a b =
    let p : x ≡ 0 = omega arith in let q : y ≡ 0 = omega arith in rw (p, q) (omega arith)
bit_or_lt (suc k) x y a b =
    let ih = bit_or_lt k (x / 2) (y / 2) (half_lt k x a) (half_lt k y b) in
    omega (arith, bit_or_step x y, pow-suc 2 k, ih)

pub bit_xor_lt : (k x y : ℕ) → x < 2 ^ k → y < 2 ^ k → bit_xor x y < 2 ^ k
bit_xor_lt zero x y a b =
    let p : x ≡ 0 = omega arith in let q : y ≡ 0 = omega arith in rw (p, q) (omega arith)
bit_xor_lt (suc k) x y a b =
    let ih = bit_xor_lt k (x / 2) (y / 2) (half_lt k x a) (half_lt k y b) in
    omega (arith, bit_xor_step x y, pow-suc 2 k, ih)

-- A mask bounds what it is applied to.
pub bit_and_lt : (k x y : ℕ) → y < 2 ^ k → bit_and x y < 2 ^ k
bit_and_lt zero x y b = let q : y ≡ 0 = omega arith in rw q (omega (arith, bit_and-zero x))
bit_and_lt (suc k) x y b =
    let ih = bit_and_lt k (x / 2) (y / 2) (half_lt k y b) in
    omega (arith, bit_and_step x y, pow-suc 2 k, ih)
