-- ===== src/Bitmap.antt =====
-- Bit sets over 32-bit words, QSD8250Pkg/Include/Library/BitmapLib.h with the two read-modify-write
-- operations of AtomicLib.h.
use htc_leo_pkg.Prelude.{
  ℕ, ◌*◌, ◌/◌, ◌%◌, ◌^◌, refl, sym, ◌<◌, bit_and, bit_or, ◌≡◌, ◌∙◌, arith, List, length, get_or,
  set, get_or-set_self, get_or-set_ne, ◌==◌, if◌then◌else◌, ℕ_discrete,
}
use native.Mathlib.Nat.{one-le-pow}
use htc_leo_pkg.Word.{bit_at, lnot, test_bit, bit_and-bit_at, test_bit-lt}
use htc_leo_pkg.Bus.Poke.{put_bit, test_bit-put_bit}

-- `AtomicOr` and `AtomicAnd` give the old word.
pub atomic_or : List ℕ → ℕ → ℕ → ℕ × List ℕ
atomic_or words i value = (get_or words i 0, set words i (bit_or (get_or words i 0) value))

pub atomic_and : List ℕ → ℕ → ℕ → ℕ × List ℕ
atomic_and words i value = (get_or words i 0, set words i (bit_and (get_or words i 0) value))

pub bitmap_set : List ℕ → ℕ → ℕ × List ℕ
unfolding atomic_or
bitmap_set bitmap bit =
    let mask = bit_at (bit % 32) in
    let (old, bitmap') = atomic_or bitmap (bit / 32) mask in
    (if bit_and old mask == 0 then 0 else 1, bitmap')

pub bitmap_clear : List ℕ → ℕ → ℕ × List ℕ
unfolding atomic_and
bitmap_clear bitmap bit =
    let mask = bit_at (bit % 32) in
    let (old, bitmap') = atomic_and bitmap (bit / 32) (lnot mask) in
    (if bit_and old mask == 0 then 0 else 1, bitmap')

pub bitmap_test : List ℕ → ℕ → ℕ
bitmap_test bitmap bit =
    if bit_and (get_or bitmap (bit / 32) 0) (bit_at (bit % 32)) == 0 then 0 else 1

-- The bit of a word as the code tests it.
mask_lem : (v k : ℕ) → (if bit_and v (bit_at k) == 0 then 0 else 1) ≡ test_bit v k
mask_lem v k = elim (ℕ_discrete (test_bit v k) 0) [
  | yes e ↦
      let z : bit_and v (bit_at k) ≡ 0 = bit_and-bit_at v k ∙ rw e (omega arith) in ground arith
  | no ne ↦
      let one : test_bit v k ≡ 1 = omega (arith, test_bit-lt v k) in
      let full : bit_and v (bit_at k) ≡ 2 ^ k = bit_and-bit_at v k ∙ rw one (omega arith) in
      ground (arith, one-le-pow k 2)
]

pub bitmap_test_lem :
    (bitmap : List ℕ) (k : ℕ) → bitmap_test bitmap k ≡ test_bit (get_or bitmap (k / 32) 0) (k % 32)
unfolding bitmap_test
bitmap_test_lem bitmap k = mask_lem (get_or bitmap (k / 32) 0) (k % 32)

-- Writing one word's put bit, seen through every bit of the array.
put_word :
    (bitmap : List ℕ) (i on k : ℕ)
    → i < 32 * length bitmap
    → test_bit
        (get_or (set bitmap (i / 32) (put_bit (get_or bitmap (i / 32) 0) (i % 32) on)) (k / 32) 0)
        (k % 32)
      ≡ (if i == k then if on == 0 then 0 else 1 else test_bit (get_or bitmap (k / 32) 0) (k % 32))
put_word bitmap i on k h = elim (ℕ_discrete (i / 32) (k / 32)) [
  | yes e ↦
      let v = get_or bitmap (i / 32) 0 in
      let self = get_or-set_self bitmap (i / 32) (put_bit v (i % 32) on) 0 (omega arith) in
      let bit = test_bit-put_bit v (i % 32) on (k % 32) (omega arith) (omega arith) in
      rw (sym e) (rw self (bit ∙ ground arith))
  | no ne ↦
      rw
        (get_or-set_ne bitmap (i / 32) (k / 32) (put_bit (get_or bitmap (i / 32) 0) (i % 32) on) 0
          ne)
        (ground arith)
]

-- After `BitmapSet` or `BitmapClear` of a bit inside the array, `BitmapTest` gives the new value at
-- that bit and the old value at every other; the call gives the bit's old value.
pub bitmap_lem :
    (bitmap : List ℕ) (i k : ℕ)
    → i < 32 * length bitmap
    → (bitmap_set bitmap i).0 ≡ bitmap_test bitmap i
      × (bitmap_clear bitmap i).0 ≡ bitmap_test bitmap i
      × bitmap_test (bitmap_set bitmap i).1 k ≡ (if i == k then 1 else bitmap_test bitmap k)
      × bitmap_test (bitmap_clear bitmap i).1 k ≡ (if i == k then 0 else bitmap_test bitmap k)
unfolding bitmap_set bitmap_clear bitmap_test atomic_or atomic_and
bitmap_lem bitmap i k h = (
  refl,
  refl,
  rw (mask_lem (get_or bitmap (k / 32) 0) (k % 32)) (mask_lem _ _ ∙ put_word bitmap i 1 k h),
  rw (mask_lem (get_or bitmap (k / 32) 0) (k % 32)) (mask_lem _ _ ∙ put_word bitmap i 0 k h),
)
