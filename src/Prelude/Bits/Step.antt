-- ===== src/Prelude/Bits/Step.antt =====
-- The native operations unfold to a recursion on binary digits with fuel. Here the fuel is dropped:
-- one equation for the lowest digit of each operation.
use Prim.Native.Nat.{ℕ, zero, suc, ◌+◌, ◌*◌, ◌/◌, ◌%◌, ◌≤◌, min, max, digits, bitwise, differ}
use Prim.Native.Nat.{bit_and, bit_or, bit_xor, bit_and-bitwise, bit_or-bitwise, bit_xor-bitwise}
use mathlib.Core.Path.{◌≡◌, refl}
use native.Mathlib.Omega.{arith}

-- Any two amounts of fuel that cover the first argument give the same digits.
module _ (z : ℕ → ℕ) (op : ℕ → ℕ → ℕ) where
  enough : (k l x y : ℕ) → x ≤ k → x ≤ l → digits z op k x y ≡ digits z op l x y
  enough zero zero x y h h' = refl
  enough zero (suc l) zero y h h' = refl
  enough zero (suc l) (suc x) y h h' = absurd (omega arith)
  enough (suc k) zero zero y h h' = refl
  enough (suc k) zero (suc x) y h h' = absurd (omega arith)
  enough (suc k) (suc l) zero y h h' = refl
  enough (suc k) (suc l) (suc x) y h h' =
      omega (arith, enough k l (suc x / 2) (y / 2) (omega arith) (omega arith))

  lowest_digit :
      (x y : ℕ)
      → bitwise z op (suc x) y ≡ bitwise z op (suc x / 2) (y / 2) * 2 + op (suc x % 2) (y % 2)
  lowest_digit x y =
      omega (arith, enough x (suc x / 2) (suc x / 2) (y / 2) (omega arith) (omega arith))

pub bit_or_step : (x y : ℕ) → bit_or x y ≡ bit_or (x / 2) (y / 2) * 2 + max (x % 2) (y % 2)
bit_or_step zero y = simp bit_or-bitwise (omega arith)
bit_or_step (suc x) y = simp bit_or-bitwise (lowest_digit (λ b. b) max x y)

pub bit_and_step : (x y : ℕ) → bit_and x y ≡ bit_and (x / 2) (y / 2) * 2 + min (x % 2) (y % 2)
bit_and_step zero y = simp bit_and-bitwise (omega arith)
bit_and_step (suc x) y = simp bit_and-bitwise (lowest_digit (λ b. zero) min x y)

differ_lem : (a b : ℕ) → a ≤ 1 → b ≤ 1 → differ a b ≡ (a + b) % 2
differ_lem zero zero h k = refl
differ_lem zero (suc zero) h k = refl
differ_lem zero (suc (suc b)) h k = absurd (omega arith)
differ_lem (suc zero) zero h k = refl
differ_lem (suc zero) (suc zero) h k = refl
differ_lem (suc zero) (suc (suc b)) h k = absurd (omega arith)
differ_lem (suc (suc a)) b h k = absurd (omega arith)

pub bit_xor_step : (x y : ℕ) → bit_xor x y ≡ bit_xor (x / 2) (y / 2) * 2 + (x % 2 + y % 2) % 2
bit_xor_step zero y = simp bit_xor-bitwise (omega arith)
bit_xor_step (suc x) y = simp bit_xor-bitwise (
    omega (
      arith,
      lowest_digit (λ b. b) differ x y,
      differ_lem (suc x % 2) (y % 2) (omega arith) (omega arith),
    ))
