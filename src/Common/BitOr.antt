-- ===== src/Common/BitOr.antt =====
-- `|` of two numbers with no bit in common is their sum.
use Prim.Native.Nat.{
  ℕ, zero, suc, ◌+◌, ◌*◌, ◌/◌, ◌%◌, ◌^◌, ◌≤◌, ◌<◌, max, bit_or, digits, bit_or-bitwise,
}
use mathlib.Core.Path.{◌≡◌, refl, ap, sym, subst}
use native.Mathlib.Nat.{pow-suc, div-add-mod'}
use native.Mathlib.Omega.{arith}

abbrev or_digits : ℕ → ℕ → ℕ → ℕ
or_digits n a b = digits (λ d. d) max n a b

-- More fuel than the first number changes nothing.
or_digits_fuel : (n m a b : ℕ) → a ≤ n → a ≤ m → or_digits n a b ≡ or_digits m a b
or_digits_fuel zero zero a b p q = refl
or_digits_fuel zero (suc m) zero b p q = refl
or_digits_fuel zero (suc m) (suc a) b p q = absurd (omega arith)
or_digits_fuel (suc n) zero zero b p q = refl
or_digits_fuel (suc n) zero (suc a) b p q = absurd (omega arith)
or_digits_fuel (suc n) (suc m) zero b p q = refl
or_digits_fuel (suc n) (suc m) (suc a) b p q =
    omega (arith, or_digits_fuel n m (suc a / 2) (b / 2) (omega arith) (omega arith))

lowest_bit : (a b : ℕ) → bit_or a b ≡ bit_or (a / 2) (b / 2) * 2 + max (a % 2) (b % 2)
lowest_bit zero b = omega (arith, bit_or-bitwise 0 b, bit_or-bitwise 0 (b / 2))
lowest_bit (suc a) b = omega (
  arith,
  bit_or-bitwise (suc a) b,
  bit_or-bitwise (suc a / 2) (b / 2),
  or_digits_fuel a (suc a / 2) (suc a / 2) (b / 2) (omega arith) (omega arith),
)

or-zero_below : (n a : ℕ) → a ≤ n → bit_or a 0 ≡ a
or-zero_below n zero h = refl
or-zero_below zero (suc a) h = absurd (omega arith)
or-zero_below (suc n) (suc a) h =
    omega (arith, lowest_bit (suc a) 0, or-zero_below n (suc a / 2) (omega arith))

or_shifted : (k q r : ℕ) → r < 2 ^ k → bit_or (q * 2 ^ k) r ≡ q * 2 ^ k + r
or_shifted zero q r h =
    let none_left : r ≡ 0 = omega arith in
    let whole : q * 2 ^ 0 ≡ q = omega arith in
    rw (none_left, whole, or-zero_below q q (omega arith)) (omega arith)
or_shifted (suc k) q r h =
    let twice : q * 2 ^ suc k ≡ q * 2 ^ k * 2 =
      omega (arith, ap (λ (t : ℕ). q * t) (pow-suc 2 k)) in
    let half : q * 2 ^ k * 2 / 2 ≡ q * 2 ^ k = omega arith in
    let even : q * 2 ^ k * 2 % 2 ≡ 0 = omega arith in
    rw
      (
        twice,
        lowest_bit (q * 2 ^ k * 2) r,
        half,
        even,
        or_shifted k q (r / 2) (omega (arith, pow-suc 2 k)),
      )
      (omega arith)

pub or_sum : (k a r : ℕ) → a % 2 ^ k ≡ 0 → r < 2 ^ k → bit_or a r ≡ a + r
or_sum k a r h l =
    let shifted : a ≡ a / 2 ^ k * 2 ^ k = omega (arith, div-add-mod' a (2 ^ k)) in
    subst (λ (t : ℕ). bit_or t r ≡ t + r) (sym shifted) (or_shifted k (a / 2 ^ k) r l)
