-- ===== src/Word/Step.antt =====
-- The lowest binary digit of the native `|` and `&`, from the digit recursion that they stand for.
use Prim.Native.Nat.{digits, bitwise, bit_and-bitwise, bit_or-bitwise, bit_xor-bitwise, differ}
use htc_leo_pkg.Prelude.{
  ℕ, zero, suc, ◌+◌, ◌*◌, ◌/◌, ◌%◌, ◌≤◌, min, max, bit_and, bit_or, bit_xor, ◌≡◌, refl, arith,
}

module _ (tail : ℕ → ℕ) (op : ℕ → ℕ → ℕ) where
  -- Any two fuels that cover `a` give the same digits.
  same_digits : (p q a b : ℕ) → a ≤ min p q → digits tail op p a b ≡ digits tail op q a b
  same_digits zero zero a b h = refl
  same_digits zero (suc q) (suc a) b h = absurd (omega arith)
  same_digits zero (suc q) zero b h = refl
  same_digits (suc p) zero (suc a) b h = absurd (omega arith)
  same_digits (suc p) zero zero b h = refl
  same_digits (suc p) (suc q) zero b h = refl
  same_digits (suc p) (suc q) (suc a) b h =
      omega (arith, same_digits p q (suc a / 2) (b / 2) (omega arith))

  low_digit :
      (a b : ℕ)
      → bitwise tail op (suc a) b ≡ 2 * bitwise tail op (suc a / 2) (b / 2) + op (suc a % 2) (b % 2)
  low_digit a b = omega (arith, same_digits a (suc a / 2) (suc a / 2) (b / 2) (omega arith))

pub bit_and_step : (a b : ℕ) → bit_and a b ≡ 2 * bit_and (a / 2) (b / 2) + min (a % 2) (b % 2)
bit_and_step zero b = omega (arith, bit_and-bitwise 0 b, bit_and-bitwise 0 (b / 2))
bit_and_step (suc a) b = simp bit_and-bitwise (low_digit (λ t. 0) min a b)

pub bit_or_step : (a b : ℕ) → bit_or a b ≡ 2 * bit_or (a / 2) (b / 2) + max (a % 2) (b % 2)
bit_or_step zero b = omega (arith, bit_or-bitwise 0 b, bit_or-bitwise 0 (b / 2))
bit_or_step (suc a) b = simp bit_or-bitwise (low_digit (λ t. t) max a b)

differ_step : (a b : ℕ) → a ≤ 1 → b ≤ 1 → differ a b ≡ (a + b) % 2
differ_step zero zero h k = refl
differ_step zero (suc b) h k = omega arith
differ_step (suc zero) zero h k = refl
differ_step (suc zero) (suc zero) h k = refl
differ_step (suc zero) (suc (suc b)) h k = absurd (omega arith)
differ_step (suc (suc a)) b h k = absurd (omega arith)

pub bit_xor_step : (a b : ℕ) → bit_xor a b ≡ 2 * bit_xor (a / 2) (b / 2) + (a % 2 + b % 2) % 2
bit_xor_step zero b = omega (arith, bit_xor-bitwise 0 b, bit_xor-bitwise 0 (b / 2))
bit_xor_step (suc a) b = simp bit_xor-bitwise (
    omega (
      arith,
      low_digit (λ t. t) differ a b,
      differ_step (suc a % 2) (b % 2) (omega arith) (omega arith),
    ))
