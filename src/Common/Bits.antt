-- ===== src/Common/Bits.antt =====
-- The bit operations of words, at variables: or with a number below a power of two, and the test
-- and the setting of one bit.
use Prim.Native.Nat.{
  ℕ, zero, suc, ◌+◌, ◌*◌, ◌/◌, ◌%◌, ◌^◌, ◌≤◌, ◌<◌, min, max, bit_and, bit_or, digits,
  bit_and-bitwise, bit_or-bitwise,
}
use mathlib.Core.Path.{◌≡◌, refl, sym, ap, ◌∙◌}
use native.Mathlib.Omega.{arith}
use native.Mathlib.Nat.{mul_assoc, pow-suc, pow-zero}

-- The recursions behind the two operations, from the number of digits to go.
abbrev or_digits : ℕ → ℕ → ℕ → ℕ
or_digits = digits (λ b. b) max

abbrev and_digits : ℕ → ℕ → ℕ → ℕ
and_digits = digits (λ b. zero) min

or_digits-fuel : (n m a b : ℕ) → a ≤ n → a ≤ m → or_digits n a b ≡ or_digits m a b
or_digits-fuel zero zero a b p q = refl
or_digits-fuel zero (suc m) zero b p q = refl
or_digits-fuel (suc n) zero zero b p q = refl
or_digits-fuel (suc n) (suc m) zero b p q = refl
or_digits-fuel (suc n) (suc m) (suc a) b p q =
    omega (arith, or_digits-fuel n m (suc a / 2) (b / 2) (omega arith) (omega arith))
or_digits-fuel n m a b p q = absurd (omega arith)

and_digits-fuel : (n m a b : ℕ) → a ≤ n → a ≤ m → and_digits n a b ≡ and_digits m a b
and_digits-fuel zero zero a b p q = refl
and_digits-fuel zero (suc m) zero b p q = refl
and_digits-fuel (suc n) zero zero b p q = refl
and_digits-fuel (suc n) (suc m) zero b p q = refl
and_digits-fuel (suc n) (suc m) (suc a) b p q =
    omega (arith, and_digits-fuel n m (suc a / 2) (b / 2) (omega arith) (omega arith))
and_digits-fuel n m a b p q = absurd (omega arith)

zero-bit_or : (b : ℕ) → bit_or 0 b ≡ b
zero-bit_or b = bit_or-bitwise 0 b

zero-bit_and : (b : ℕ) → bit_and 0 b ≡ 0
zero-bit_and b = bit_and-bitwise 0 b

-- The lowest digit of an or, and of an and.
pub bit_or_step : (x y : ℕ) → bit_or x y ≡ max (x % 2) (y % 2) + 2 * bit_or (x / 2) (y / 2)
bit_or_step zero y =
    let here = zero-bit_or y in let halved = zero-bit_or (y / 2) in omega (arith, here, halved)
bit_or_step (suc n) y =
    let m = suc n / 2 in
    let tail = or_digits-fuel n m m (y / 2) (omega arith) (omega arith) in
    let here = bit_or-bitwise (suc n) y in
    let halved = bit_or-bitwise m (y / 2) in omega (arith, here, halved, tail)

pub bit_and_step : (x y : ℕ) → bit_and x y ≡ min (x % 2) (y % 2) + 2 * bit_and (x / 2) (y / 2)
bit_and_step zero y =
    let here = zero-bit_and y in let halved = zero-bit_and (y / 2) in omega (arith, here, halved)
bit_and_step (suc n) y =
    let m = suc n / 2 in
    let tail = and_digits-fuel n m m (y / 2) (omega arith) (omega arith) in
    let here = bit_and-bitwise (suc n) y in
    let halved = bit_and-bitwise m (y / 2) in omega (arith, here, halved, tail)

bit_or-zero_below : (n a : ℕ) → a ≤ n → bit_or a 0 ≡ a
bit_or-zero_below n zero h = zero-bit_or 0
bit_or-zero_below zero (suc a) h = absurd (omega arith)
bit_or-zero_below (suc n) (suc a) h =
    omega (arith, bit_or_step (suc a) 0, bit_or-zero_below n (suc a / 2) (omega arith))

pub bit_or-zero : (a : ℕ) → bit_or a 0 ≡ a
bit_or-zero a = bit_or-zero_below a a (omega arith)

bit_and-zero_below : (n a : ℕ) → a ≤ n → bit_and a 0 ≡ 0
bit_and-zero_below n zero h = zero-bit_and 0
bit_and-zero_below zero (suc a) h = absurd (omega arith)
bit_and-zero_below (suc n) (suc a) h =
    omega (arith, bit_and_step (suc a) 0, bit_and-zero_below n (suc a / 2) (omega arith))

pub bit_and-zero : (a : ℕ) → bit_and a 0 ≡ 0
bit_and-zero a = bit_and-zero_below a a (omega arith)

pub bit_and-one : (a : ℕ) → bit_and a 1 ≡ a % 2
bit_and-one a = omega (arith, bit_and_step a 1, bit_and-zero (a / 2))

-- Digits that do not meet are added.
pub bit_or-shifted : (k x l : ℕ) → l < 2 ^ k → bit_or (x * 2 ^ k) l ≡ x * 2 ^ k + l
bit_or-shifted zero x l h =
    let one = pow-zero 2 in
    let l0 : l ≡ 0 = omega (arith, one) in rw (l0, bit_or-zero) (omega arith)
bit_or-shifted (suc k) x l h =
    let double : x * 2 ^ suc k ≡ x * 2 ^ k * 2 =
      ap (λ t. x * t) (pow-suc 2 k) ∙ sym (mul_assoc x (2 ^ k) 2) in
    let half : x * 2 ^ suc k / 2 ≡ x * 2 ^ k = omega (arith, double) in
    let ih = bit_or-shifted k x (l / 2) (omega (arith, pow-suc 2 k)) in
    let step = rw half at (bit_or_step (x * 2 ^ suc k) l) in omega (arith, step, ih, double)

-- The digit of `a` at the place `k`.
unfoldable pub bit : ℕ → ℕ → ℕ
bit a zero = a % 2
bit a (suc k) = bit (a / 2) k

pub bit-bit_or : (k a b : ℕ) → bit (bit_or a b) k ≡ max (bit a k) (bit b k)
unfolding bit
bit-bit_or zero a b = omega (arith, bit_or_step a b)
bit-bit_or (suc k) a b =
    let half : bit_or a b / 2 ≡ bit_or (a / 2) (b / 2) = omega (arith, bit_or_step a b) in
    rw half (bit-bit_or k (a / 2) (b / 2))

pub bit-pow : (k : ℕ) → bit (2 ^ k) k ≡ 1
unfolding bit
bit-pow zero = refl
bit-pow (suc k) =
    let half : 2 ^ suc k / 2 ≡ 2 ^ k = omega (arith, pow-suc 2 k) in rw half (bit-pow k)

pub bit-le-one : (k a : ℕ) → bit a k ≤ 1
unfolding bit
bit-le-one zero a = omega arith
bit-le-one (suc k) a = bit-le-one k (a / 2)

-- `a & (1 << k)`
pub bit_and-pow : (k a : ℕ) → bit_and a (2 ^ k) ≡ bit a k * 2 ^ k
unfolding bit
bit_and-pow zero a = omega (arith, bit_and-one a, pow-zero 2)
bit_and-pow (suc k) a =
    let half : 2 ^ suc k / 2 ≡ 2 ^ k = omega (arith, pow-suc 2 k) in
    let step = rw half at (bit_and_step a (2 ^ suc k)) in
    let double : bit (a / 2) k * 2 ^ suc k ≡ bit (a / 2) k * 2 ^ k * 2 =
      ap (λ t. bit (a / 2) k * t) (pow-suc 2 k) ∙ sym (mul_assoc (bit (a / 2) k) (2 ^ k) 2) in
    omega (arith, step, bit_and-pow k (a / 2), double, pow-suc 2 k)

pub two_pow-positive : (k : ℕ) → 1 ≤ 2 ^ k
two_pow-positive zero = omega (arith, pow-zero 2)
two_pow-positive (suc k) = omega (arith, pow-suc 2 k, two_pow-positive k)
