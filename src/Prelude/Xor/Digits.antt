-- ===== src/Prelude/Xor/Digits.antt =====
-- One equation for the lowest digit of `^` and of `&`.
use mathlib.Core.Path.{◌≡◌, refl, ◌∙◌}
use Prim.Native.Nat.{
  ℕ, zero, suc, ◌+◌, ◌-◌, ◌*◌, ◌/◌, ◌%◌, ◌≤◌, ◌<◌, min, bit_xor, bit_and, differ, digits, bitwise,
  bit_xor-bitwise, bit_and-bitwise, bit_or, bit_or-bitwise, max,
}
use native.Mathlib.Omega.{arith}

-- A round of fuel beyond what the first operand needs changes nothing.
module _ (z : ℕ → ℕ) (f : ℕ → ℕ → ℕ) where
  digits-suc : (n a b : ℕ) → a ≤ n → digits z f (suc n) a b ≡ digits z f n a b
  digits-suc zero zero b h = refl
  digits-suc zero (suc a) b h = absurd (omega arith)
  digits-suc (suc n) zero b h = refl
  digits-suc (suc n) (suc a) b h = rw (digits-suc n (suc a / 2) (b / 2) (omega arith))

  digits_surplus : (k n a b : ℕ) → a ≤ n → digits z f (k + n) a b ≡ digits z f n a b
  digits_surplus zero n a b h = let e : 0 + n ≡ n = omega arith in rw e
  digits_surplus (suc k) n a b h =
      let e : suc k + n ≡ suc (k + n) = omega arith in
      rw e (digits-suc (k + n) a b (omega arith) ∙ digits_surplus k n a b h)

  bitwise_lowest :
      (a b : ℕ)
      → bitwise z f (suc a) b ≡ bitwise z f (suc a / 2) (b / 2) * 2 + f (suc a % 2) (b % 2)
  bitwise_lowest a b =
      let h = suc a / 2 in let e : a ≡ (a - h) + h = omega arith in omega (arith, fuel (a - h) h e)
    where
      fuel : (k h : ℕ) → a ≡ k + h → digits z f a h (b / 2) ≡ digits z f h h (b / 2)
      fuel k h e = rw e (digits_surplus k h h (b / 2) (omega arith))

differ_sum : (a b : ℕ) → a < 2 → b < 2 → differ a b ≡ (a + b) % 2
differ_sum zero b h k = omega arith
differ_sum (suc zero) zero h k = refl
differ_sum (suc zero) (suc zero) h k = refl
differ_sum (suc zero) (suc (suc b)) h k = absurd (omega arith)
differ_sum (suc (suc a)) b h k = absurd (omega arith)

pub zero-bit_xor : (b : ℕ) → bit_xor 0 b ≡ b
zero-bit_xor b = bit_xor-bitwise 0 b

pub zero-bit_and : (y : ℕ) → bit_and 0 y ≡ 0
zero-bit_and y = bit_and-bitwise 0 y

-- The lowest digit of `a ^ b` is the sum of the digits modulo 2.
pub bit_xor_step : (a b : ℕ) → bit_xor a b ≡ bit_xor (a / 2) (b / 2) * 2 + (a % 2 + b % 2) % 2
bit_xor_step zero b = omega (arith, zero-bit_xor b, zero-bit_xor (b / 2))
bit_xor_step (suc a) b = omega (
  arith,
  bit_xor-bitwise (suc a) b,
  bit_xor-bitwise (suc a / 2) (b / 2),
  bitwise_lowest (λ y. y) differ a b,
  differ_sum (suc a % 2) (b % 2) (omega arith) (omega arith),
)

-- The lowest digit of `x & y` is the smaller of the two digits, that of `x | y` the greater.
pub bit_and_step : (x y : ℕ) → bit_and x y ≡ min (x % 2) (y % 2) + bit_and (x / 2) (y / 2) * 2
bit_and_step zero y = omega (arith, zero-bit_and y, zero-bit_and (y / 2))
bit_and_step (suc x) y =
    let lowest = bitwise_lowest (λ _. 0) min x y in
    omega (arith, lowest, bit_and-bitwise (suc x) y, bit_and-bitwise (suc x / 2) (y / 2))

pub bit_or_step : (x y : ℕ) → bit_or x y ≡ max (x % 2) (y % 2) + bit_or (x / 2) (y / 2) * 2
bit_or_step zero y = omega (arith, bit_or-bitwise 0 y, bit_or-bitwise 0 (y / 2))
bit_or_step (suc x) y =
    let lowest = bitwise_lowest (λ t. t) max x y in
    omega (arith, lowest, bit_or-bitwise (suc x) y, bit_or-bitwise (suc x / 2) (y / 2))

pub zero-bit_or : (y : ℕ) → bit_or 0 y ≡ y
zero-bit_or y = bit_or-bitwise 0 y
