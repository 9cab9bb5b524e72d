-- ===== src/Bus/Poke.antt =====
-- The read-modify-write by which the drivers set or clear one bit of a register.
use htc_leo_pkg.Prelude.{ℕ, ◌^◌, ◌<◌, ◌≡◌, ◌≢◌, ◌∙◌, arith, ◌==◌, if◌then◌else◌, bit_and, bit_or}
use htc_leo_pkg.Word.{
  bit_at, lnot, test_bit, test_bit-or, test_bit-and, test_bit-bit_at, test_bit-lnot, bit_or-lt,
  bit_and-le, bit_at-lt, test_bit-lt,
}
use htc_leo_pkg.Bus.{Bus, IsStorage}

-- Setting or clearing bit `i` of a word, as the drivers do it.
abbrev pub put_bit : ℕ → ℕ → ℕ → ℕ
put_bit v i on = if on == 0 then bit_and v (lnot (bit_at i)) else bit_or v (bit_at i)

pub put_bit-lt : (v i on : ℕ) → v < 2 ^ 32 → i < 32 → put_bit v i on < 2 ^ 32
put_bit-lt v i on h k =
    ground (arith, bit_and-le v (lnot (bit_at i)), bit_or-lt v (bit_at i), bit_at-lt i k)

pub test_bit-put_bit :
    (v i on k : ℕ)
    → i < 32
    → k < 32
    → test_bit (put_bit v i on) k ≡ (if i == k then if on == 0 then 0 else 1 else test_bit v k)
test_bit-put_bit v i on k hi hk = ground (
  arith,
  test_bit-and v (lnot (bit_at i)) k,
  test_bit-or v (bit_at i) k,
  test_bit-bit_at i k,
  test_bit-lnot (bit_at i) k (bit_at-lt i hi) hk,
  test_bit-lt v k,
)

-- Read the register, then write it back with bit `i` put.
abbrev pub poke : (bus : Bus) → ℕ → ℕ → ℕ → bus.State → bus.State
poke bus a i on s = bus.writel (bus.readl s a).1 a (put_bit (bus.readl s a).0 i on)

module _ (bus : Bus) (P : ℕ → Type 0) (laws : IsStorage bus P) where
  open bus use {State, readl, writel}

  pub poke_self :
      (a i on : ℕ) (s : State)
      → P a
      → i < 32
      → (readl (poke bus a i on s) a).0 ≡ put_bit (readl s a).0 i on
  poke_self a i on s c h = laws.self _ a _ c (put_bit-lt _ i on (laws.width s a c) h)

  pub poke_other :
      (a c i on : ℕ) (s : State) → P a → c ≢ a → (readl (poke bus c i on s) a).0 ≡ (readl s a).0
  poke_other a c i on s p ne = laws.other _ a c _ p ne ∙ laws.quiet s a c p
