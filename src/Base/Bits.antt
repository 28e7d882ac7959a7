-- ===== src/Base/Bits.antt =====
-- The native `bit_or`, at words put together from bytes.
use Prim.Native.Nat.{
  ℕ, zero, suc, ◌+◌, ◌*◌, ◌/◌, ◌%◌, ◌≤◌, ◌<◌, max, bit_or, digits, bit_or-bitwise,
}
use mathlib.Core.Path.{◌≡◌, refl}
use native.Mathlib.Omega.{arith}

abbrev or_digits : ℕ → ℕ → ℕ → ℕ
or_digits fuel x y = digits (λ b. b) max fuel x y

or_digits_enough : (x k l y : ℕ) → x ≤ k → x ≤ l → or_digits k x y ≡ or_digits l x y
or_digits_enough x zero zero y h h' = refl
or_digits_enough zero zero (suc l) y h h' = refl
or_digits_enough zero (suc k) zero y h h' = refl
or_digits_enough zero (suc k) (suc l) y h h' = refl
or_digits_enough (suc x) zero l y h h' = absurd (omega arith)
or_digits_enough (suc x) (suc k) zero y h h' = absurd (omega arith)
or_digits_enough (suc x) (suc k) (suc l) y h h' =
    omega (arith, or_digits_enough (suc x / 2) k l (y / 2) (omega arith) (omega arith))

pub zero-bit_or : (y : ℕ) → bit_or 0 y ≡ y
zero-bit_or y = bit_or-bitwise 0 y

-- The lowest digit, and the others.
bit_or_digit : (x y : ℕ) → bit_or x y ≡ 2 * bit_or (x / 2) (y / 2) + max (x % 2) (y % 2)
bit_or_digit zero y = omega (arith, zero-bit_or y, zero-bit_or (y / 2))
bit_or_digit (suc x) y = omega (
  arith,
  bit_or-bitwise (suc x) y,
  bit_or-bitwise (suc x / 2) (y / 2),
  or_digits_enough (suc x / 2) x (suc x / 2) (y / 2) (omega arith) (omega arith),
)

-- y << k
abbrev pub shifted : ℕ → ℕ → ℕ
shifted y zero = y
shifted y (suc k) = 2 * shifted y k

-- Where the digits of the one end before those of the other begin, it is their sum.
pub bit_or-shifted : (k x y : ℕ) → x < shifted 1 k → bit_or x (shifted y k) ≡ x + shifted y k
bit_or-shifted zero zero y h = omega (arith, zero-bit_or y)
bit_or-shifted zero (suc x) y h = absurd (omega arith)
bit_or-shifted (suc k) x y h = omega (
  arith,
  bit_or_digit x (2 * shifted y k),
  half (shifted y k),
  bit_or-shifted k (x / 2) y (omega arith),
)
  where
    half : (m : ℕ) → bit_or (x / 2) (2 * m / 2) ≡ bit_or (x / 2) m
    half m = rw (arith_half m)
      where
        arith_half : (m : ℕ) → 2 * m / 2 ≡ m
        arith_half m = omega arith
