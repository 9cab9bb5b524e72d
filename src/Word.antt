-- ===== src/Word.antt =====
-- 32-bit register words: one bit of a word, and what `|`, `&` and `~` do to it.
pub mod Step
use Step.{bit_or_step, bit_and_step, bit_xor_step}
use Prim.Native.Nat.{bit_and-bitwise}
use native.Mathlib.Nat.{pow-suc, one-le-pow}
use htc_leo_pkg.Prelude.{
  ℕ, zero, suc, ◌+◌, ◌-◌, ◌*◌, ◌/◌, ◌%◌, ◌^◌, ◌≤◌, ◌<◌, min, max, bit_and, bit_or, bit_xor, ◌≡◌,
  ◌≢◌, refl, ap, ◌∙◌, arith, ◌==◌, if◌then◌else◌,
}

-- `1 << k` for `k < 32`.
abbrev pub bit_at : ℕ → ℕ
bit_at k = 2 ^ k

-- `~v` of a 32-bit word.
abbrev pub lnot : ℕ → ℕ
lnot v = 2 ^ 32 - 1 - v

bit_and_zero : (b : ℕ) → bit_and 0 b ≡ 0
bit_and_zero b = bit_and-bitwise 0 b

bit_and_right_zero_fuel : (n a : ℕ) → a ≤ n → bit_and a 0 ≡ 0
bit_and_right_zero_fuel n zero h = refl
bit_and_right_zero_fuel zero (suc a) h = absurd (omega arith)
bit_and_right_zero_fuel (suc n) (suc a) h =
    omega (arith, bit_and_step (suc a) 0, bit_and_right_zero_fuel n (suc a / 2) (omega arith))

pub bit_and_right_zero : (a : ℕ) → bit_and a 0 ≡ 0
bit_and_right_zero a = bit_and_right_zero_fuel a a (omega arith)

pow_mono : (k w : ℕ) → k < w → 2 ^ k < 2 ^ w
pow_mono k zero h = absurd (omega arith)
pow_mono zero (suc w) h = omega (arith, pow-suc 2 w, one-le-pow w 2)
pow_mono (suc k) (suc w) h = omega (arith, pow-suc 2 w, pow-suc 2 k, pow_mono k w (omega arith))

-- Bit `k` of a word.
unfoldable pub test_bit : ℕ → ℕ → ℕ
test_bit v zero = v % 2
test_bit v (suc k) = test_bit (v / 2) k

pub test_bit-lt : (v k : ℕ) → test_bit v k < 2
unfolding test_bit
test_bit-lt v zero = omega arith
test_bit-lt v (suc k) = test_bit-lt (v / 2) k

pub test_bit-or : (a b k : ℕ) → test_bit (bit_or a b) k ≡ max (test_bit a k) (test_bit b k)
unfolding test_bit
test_bit-or a b zero = omega (arith, bit_or_step a b)
test_bit-or a b (suc k) =
    ap (λ (t : ℕ). test_bit t k) (omega (arith, bit_or_step a b)) ∙ test_bit-or (a / 2) (b / 2) k

pub test_bit-and : (a b k : ℕ) → test_bit (bit_and a b) k ≡ min (test_bit a k) (test_bit b k)
unfolding test_bit
test_bit-and a b zero = omega (arith, bit_and_step a b)
test_bit-and a b (suc k) =
    ap (λ (t : ℕ). test_bit t k) (omega (arith, bit_and_step a b)) ∙ test_bit-and (a / 2) (b / 2) k

pub test_bit-zero : (k : ℕ) → test_bit 0 k ≡ 0
unfolding test_bit
test_bit-zero zero = refl
test_bit-zero (suc k) = test_bit-zero k

pub test_bit-bit_at : (i k : ℕ) → test_bit (bit_at i) k ≡ (if i == k then 1 else 0)
unfolding test_bit
test_bit-bit_at zero zero = refl
test_bit-bit_at zero (suc k) = test_bit-zero k ∙ ground arith
test_bit-bit_at (suc i) zero = ground (arith, pow-suc 2 i)
test_bit-bit_at (suc i) (suc k) =
    ap (λ (t : ℕ). test_bit t k) (omega (arith, pow-suc 2 i)) ∙ (test_bit-bit_at i k ∙ ground arith)

-- `~` at any width.
test_bit-complement :
    (w v k : ℕ) → v < 2 ^ w → k < w → test_bit (2 ^ w - 1 - v) k + test_bit v k ≡ 1
unfolding test_bit
test_bit-complement zero v k h p = absurd (omega arith)
test_bit-complement (suc w) v zero h p = omega (arith, pow-suc 2 w, one-le-pow w 2)
test_bit-complement (suc w) v (suc k) h p =
    ap (λ (t : ℕ). test_bit t k + test_bit (v / 2) k) (omega (arith, pow-suc 2 w, one-le-pow w 2))
    ∙ test_bit-complement w (v / 2) k (omega (arith, pow-suc 2 w)) (omega arith)

pub test_bit-lnot : (v k : ℕ) → v < 2 ^ 32 → k < 32 → test_bit (lnot v) k + test_bit v k ≡ 1
test_bit-lnot v k h p = test_bit-complement 32 v k h p

bit_or-lt_pow : (w a b : ℕ) → a < 2 ^ w → b < 2 ^ w → bit_or a b < 2 ^ w
bit_or-lt_pow zero a b p q =
    let a0 : a ≡ 0 = omega arith in let b0 : b ≡ 0 = omega arith in rw (a0, b0) (omega arith)
bit_or-lt_pow (suc w) a b p q = omega (
  arith,
  pow-suc 2 w,
  bit_or_step a b,
  bit_or-lt_pow w (a / 2) (b / 2) (omega (arith, pow-suc 2 w)) (omega (arith, pow-suc 2 w)),
)

pub bit_or-lt : (a b : ℕ) → a < 2 ^ 32 → b < 2 ^ 32 → bit_or a b < 2 ^ 32
bit_or-lt a b p q = bit_or-lt_pow 32 a b p q

bit_and-le_fuel : (n a b : ℕ) → a ≤ n → bit_and a b ≤ a
bit_and-le_fuel n zero b h = omega (arith, bit_and_zero b)
bit_and-le_fuel zero (suc a) b h = absurd (omega arith)
bit_and-le_fuel (suc n) (suc a) b h =
    omega (arith, bit_and_step (suc a) b, bit_and-le_fuel n (suc a / 2) (b / 2) (omega arith))

pub bit_and-le : (a b : ℕ) → bit_and a b ≤ a
bit_and-le a b = bit_and-le_fuel a a b (omega arith)

pub bit_at-lt : (k : ℕ) → k < 32 → bit_at k < 2 ^ 32
bit_at-lt k h = pow_mono k 32 h

-- `v & (1 << k)` is zero exactly when bit `k` of `v` is clear.
pub bit_and-bit_at : (v k : ℕ) → bit_and v (bit_at k) ≡ test_bit v k * 2 ^ k
unfolding test_bit
bit_and-bit_at v zero = omega (arith, bit_and_step v 1, bit_and_right_zero (v / 2))
bit_and-bit_at v (suc k) = omega (
  arith,
  pow-suc 2 k,
  bit_and_step v (bit_at (suc k)),
  ap (λ (t : ℕ). bit_and (v / 2) t) (half k),
  bit_and-bit_at (v / 2) k,
  ap (λ (t : ℕ). test_bit (v / 2) k * t) (pow-suc 2 k),
)
  where
    half : (k : ℕ) → bit_at (suc k) / 2 ≡ bit_at k
    half k = omega (arith, pow-suc 2 k)

pub bit_at-injective : (i k : ℕ) → bit_at i ≡ bit_at k → i ≡ k
bit_at-injective i k e =
    ground (arith, test_bit-bit_at i i, test_bit-bit_at k i, ap (λ (t : ℕ). test_bit t i) e)

-- The low five bits.
pub bit_and_31 : (a : ℕ) → bit_and a 31 ≡ a % 32
bit_and_31 a = omega (
  arith,
  bit_and_step a 31,
  bit_and_step (a / 2) 15,
  bit_and_step (a / 2 / 2) 7,
  bit_and_step (a / 2 / 2 / 2) 3,
  bit_and_step (a / 2 / 2 / 2 / 2) 1,
  bit_and_right_zero (a / 2 / 2 / 2 / 2 / 2),
)

bit_xor-comm_fuel : (n a b : ℕ) → a ≤ n → b ≤ n → bit_xor a b ≡ bit_xor b a
bit_xor-comm_fuel zero zero zero h k = refl
bit_xor-comm_fuel zero (suc a) b h k = absurd (omega arith)
bit_xor-comm_fuel zero zero (suc b) h k = absurd (omega arith)
bit_xor-comm_fuel (suc n) a b h k = omega (
  arith,
  bit_xor_step a b,
  bit_xor_step b a,
  bit_xor-comm_fuel n (a / 2) (b / 2) (omega arith) (omega arith),
)

pub bit_xor_comm : (a b : ℕ) → bit_xor a b ≡ bit_xor b a
bit_xor_comm a b = bit_xor-comm_fuel (a + b) a b (omega arith) (omega arith)
