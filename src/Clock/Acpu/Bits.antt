-- ===== src/Clock/Acpu/Bits.antt =====
-- The fields that acpuclock.c writes into its registers.
use htc_leo_pkg.Prelude.{
  ℕ, zero, suc, ◌+◌, ◌*◌, ◌/◌, ◌%◌, ◌^◌, ◌≤◌, ◌<◌, ◌≡◌, ap, ap₂, ◌∙◌, arith, bit_and, bit_or,
}
use htc_leo_pkg.Word.{lnot, bit_and_right_zero, bit_and_31}
use htc_leo_pkg.Word.Step.{bit_and_step, bit_or_step}

bit_or_right_zero_fuel : (n a : ℕ) → a ≤ n → bit_or a 0 ≡ a
bit_or_right_zero_fuel n zero h = omega (arith, bit_or_step 0 0)
bit_or_right_zero_fuel zero (suc a) h = absurd (omega arith)
bit_or_right_zero_fuel (suc n) (suc a) h =
    omega (arith, bit_or_step (suc a) 0, bit_or_right_zero_fuel n (suc a / 2) (omega arith))

bit_or_right_zero : (a : ℕ) → bit_or a 0 ≡ a
bit_or_right_zero a = bit_or_right_zero_fuel a a (omega arith)

-- Three low bits at a time.
or_eight : (k r : ℕ) → bit_or (8 * k) r ≡ 8 * bit_or k (r / 8) + r % 8
or_eight k r = omega (
  arith,
  bit_or_step (8 * k) r,
  bit_or_step (8 * k / 2) (r / 2),
  bit_or_step (8 * k / 2 / 2) (r / 2 / 2),
  third k r,
)
  where
    third : (k r : ℕ) → bit_or (8 * k / 2 / 2 / 2) (r / 2 / 2 / 2) ≡ bit_or k (r / 8)
    third k r = ap₂ bit_or (omega arith) (omega arith)

and_eight : (v m : ℕ) → m % 8 ≡ 0 → bit_and v m ≡ 8 * bit_and (v / 2 / 2 / 2) (m / 2 / 2 / 2)
and_eight v m h =
    omega
      (arith, bit_and_step v m, bit_and_step (v / 2) (m / 2), bit_and_step (v / 2 / 2) (m / 2 / 2))

-- `val & ~0x1FF` has nine low bits clear.
clear_nine : (v : ℕ) → (k : ℕ) × (bit_and v (lnot 0x1ff) ≡ 8 * (8 * (8 * k)))
clear_nine v =
    let w = v / 2 / 2 / 2 in
    let x = w / 2 / 2 / 2 in
    let a = and_eight v (lnot 0x1ff) (omega arith) in
    let b = and_eight w 0x1fffffc0 (omega arith) in
    let c = and_eight x 0x3fffff8 (omega arith) in
    (bit_and (x / 2 / 2 / 2) 0x7fffff, a ∙ ap (λ (t : ℕ). 8 * t) (b ∙ ap (λ (t : ℕ). 8 * t) c))

or_three : (k r : ℕ) → r < 8 → bit_or (8 * k) r ≡ 8 * k + r
or_three k r h = omega (arith, or_eight k r, ap (bit_or k) (gone h), bit_or_right_zero k)
  where
    gone : {r : ℕ} → r < 8 → r / 8 ≡ 0
    gone h = omega (arith, h)

or_six : (k r : ℕ) → r < 64 → bit_or (8 * (8 * k)) r ≡ 8 * (8 * k) + r
or_six k r h = omega (arith, or_eight (8 * k) r, or_three k (r / 8) (omega (arith, h)))

bit_and_63 : (a : ℕ) → bit_and a 63 ≡ a % 64
bit_and_63 a = omega (arith, bit_and_step a 63, bit_and_31 (a / 2))

-- `(val & ~0x1FF) | (lval << 3) | mode`
fields :
    (v l mode : ℕ)
    → l < 64
    → mode < 8
    → (k : ℕ) × (bit_or (bit_or (bit_and v (lnot 0x1ff)) (l * 2 ^ 3)) mode
        ≡ 8 * (8 * (8 * k) + l) + mode)
fields v l mode h p =
    let (k, e) = clear_nine v in
    (
      k,
      ap (λ (t : ℕ). bit_or (bit_or t (l * 2 ^ 3)) mode) e
          ∙ (ap (λ (t : ℕ). bit_or t mode)
                (omega (
                  arith,
                  or_eight (8 * (8 * k)) (l * 2 ^ 3),
                  or_six k l h,
                  ap (bit_or (8 * (8 * k))) (eighth l),
                ))
              ∙ or_three (8 * (8 * k) + l) mode p),
    )
  where
    eighth : (l : ℕ) → l * 2 ^ 3 / 8 ≡ l
    eighth l = omega arith

-- The L value that is written with a switch mode is read back.
pub l_value_read_back :
    (v l mode : ℕ)
    → l < 64
    → mode < 8
    → bit_and (bit_or (bit_or (bit_and v (lnot 0x1ff)) (l * 2 ^ 3)) mode / 2 ^ 3) 0x3f ≡ l
l_value_read_back v l mode h p =
    let (k, e) = fields v l mode h p in
    omega (arith, bit_and_63 (bit_or (bit_or (bit_and v (lnot 0x1ff)) (l * 2 ^ 3)) mode / 2 ^ 3), e)

-- The source that select_clock writes is read back.
pub source_read_back : (v : ℕ) → bit_and (bit_or (bit_and v (lnot 6)) (bit_and 1 3 * 2)) 6 / 2 ≡ 1
source_read_back v =
    let n = bit_and v (lnot 6) in
    let s = bit_or n 2 in
    omega (
      arith,
      bit_and_step v (lnot 6),
      bit_and_step (v / 2) 0x7ffffffc,
      bit_and_step (v / 2 / 2) 0x3ffffffe,
      bit_or_step n 2,
      bit_or_step (n / 2) 1,
      bit_or_right_zero (n / 2 / 2),
      bit_and_step s 6,
      bit_and_step (s / 2) 3,
      bit_and_step (s / 2 / 2) 1,
      bit_and_right_zero (s / 2 / 2 / 2),
    )
