-- ===== src/Base/Lowest.antt =====
-- Bitwise operations at variables: the law for the lowest binary digit, and the laws of zero.
use Prim.Native.Nat.{
  ℕ, zero, suc, ◌+◌, ◌*◌, ◌/◌, ◌%◌, ◌≤◌, min, max, bit_and, bit_or, digits, bitwise,
  bit_and-bitwise, bit_or-bitwise,
}
use mathlib.Core.Path.{◌≡◌, refl, sym, ap, ◌∙◌}
use native.Mathlib.Omega.{arith}
use native.Mathlib.Nat.{le_refl}
use native.Mathlib.Decide.{ℕ_discrete}

-- The native operations recur on a count of digits that is left. What they give does not depend on
-- the count where it is not less than the first number.
module _ (z : ℕ → ℕ) (f : ℕ → ℕ → ℕ) where
  exhausted : (count b : ℕ) → digits z f count 0 b ≡ z b
  exhausted zero b = refl
  exhausted (suc count) b = refl

  one_more : (count a b : ℕ) → a ≤ count → digits z f (suc count) a b ≡ digits z f count a b
  one_more count zero b h = sym (exhausted count b)
  one_more zero (suc a) b h = absurd (omega arith)
  one_more (suc count) (suc a) b h =
      ap (λ t. t * 2 + f (suc a % 2) (b % 2)) (one_more count (suc a / 2) (b / 2) (omega arith))

  own_count : (count a b : ℕ) → a ≤ count → digits z f count a b ≡ bitwise z f a b
  own_count zero zero b h = refl
  own_count zero (suc a) b h = absurd (omega arith)
  own_count (suc count) a b h = elim (ℕ_discrete a (suc count)) [
    | yes e ↦ ap (λ n. digits z f n a b) (sym e)
    | no ne ↦ one_more count a b (omega arith) ∙ own_count count a b (omega arith)
  ]

  -- One digit at a time, also where the first number has run out.
  lowest_digit :
      ((b : ℕ) → z b ≡ z (b / 2) * 2 + f 0 (b % 2))
      → (a b : ℕ) → bitwise z f a b ≡ bitwise z f (a / 2) (b / 2) * 2 + f (a % 2) (b % 2)
  lowest_digit rest zero b = rest b
  lowest_digit rest (suc a) b =
      ap (λ t. t * 2 + f (suc a % 2) (b % 2)) (own_count a (suc a / 2) (b / 2) (omega arith))

pub bit_or-digit : (a b : ℕ) → bit_or a b ≡ bit_or (a / 2) (b / 2) * 2 + max (a % 2) (b % 2)
bit_or-digit a b =
    bit_or-bitwise a b
    ∙ lowest_digit (λ y. y) max (λ y. omega arith) a b
    ∙ ap (λ t. t * 2 + max (a % 2) (b % 2)) (sym (bit_or-bitwise (a / 2) (b / 2)))

pub bit_and-digit : (a b : ℕ) → bit_and a b ≡ bit_and (a / 2) (b / 2) * 2 + min (a % 2) (b % 2)
bit_and-digit a b =
    bit_and-bitwise a b
    ∙ lowest_digit (λ y. 0) min (λ y. omega arith) a b
    ∙ ap (λ t. t * 2 + min (a % 2) (b % 2)) (sym (bit_and-bitwise (a / 2) (b / 2)))

pub bit_or_zero_left : (a : ℕ) → bit_or 0 a ≡ a
bit_or_zero_left a = bit_or-bitwise 0 a

pub bit_and_zero_left : (a : ℕ) → bit_and 0 a ≡ 0
bit_and_zero_left a = bit_and-bitwise 0 a

bit_or_zero_fuel : (n a : ℕ) → a ≤ n → bit_or a 0 ≡ a
bit_or_zero_fuel n zero h = refl
bit_or_zero_fuel zero (suc a) h = absurd (omega arith)
bit_or_zero_fuel (suc n) (suc a) h =
    omega (arith, bit_or-digit (suc a) 0, bit_or_zero_fuel n (suc a / 2) (omega arith))

pub bit_or_zero_right : (a : ℕ) → bit_or a 0 ≡ a
bit_or_zero_right a = bit_or_zero_fuel a a (le_refl a)

bit_and_zero_fuel : (n a : ℕ) → a ≤ n → bit_and a 0 ≡ 0
bit_and_zero_fuel n zero h = refl
bit_and_zero_fuel zero (suc a) h = absurd (omega arith)
bit_and_zero_fuel (suc n) (suc a) h =
    omega (arith, bit_and-digit (suc a) 0, bit_and_zero_fuel n (suc a / 2) (omega arith))

pub bit_and_zero_right : (a : ℕ) → bit_and a 0 ≡ 0
bit_and_zero_right a = bit_and_zero_fuel a a (le_refl a)
