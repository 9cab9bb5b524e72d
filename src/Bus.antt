-- ===== src/Bus.antt =====
-- Memory-mapped hardware as the code meets it, through `readl` and `writel` (MmioRead32 and
-- MmioWrite32). The devices are not part of the program: they are a parameter, with a state of
-- their own that a read may change too.
pub mod Poke
pub mod Poll
use htc_leo_pkg.Prelude.{ℕ, ◌%◌, ◌^◌, ◌<◌, ◌≡◌, ◌≢◌, refl, arith, ◌==◌, if◌then◌else◌}

pub record Bus : Type 1 where
  pub State : Type 0
  pub readl : State → ℕ → ℕ × State
  pub writel : State → ℕ → ℕ → State

-- The registers that `P` names are plain storage: 32 bits wide, they hold what was written last,
-- and no other access changes them.
pub record IsStorage (bus : Bus) (P : ℕ → Type 0) : Type 0 where
  pub width : (s : bus.State) (a : ℕ) → P a → (bus.readl s a).0 < 2 ^ 32
  pub self : (s : bus.State) (a v : ℕ) → P a → v < 2 ^ 32 → (bus.readl (bus.writel s a v) a).0 ≡ v
  pub other :
      (s : bus.State) (a c v : ℕ)
      → P a
      → c ≢ a
      → (bus.readl (bus.writel s c v) a).0 ≡ (bus.readl s a).0
  pub quiet :
      (s : bus.State) (a c : ℕ) → P a → (bus.readl (bus.readl s c).1 a).0 ≡ (bus.readl s a).0

-- A bus whose every register is storage: it shows that the laws can be met.
abbrev pub memory_bus : Bus
memory_bus = record {
  State = ℕ → ℕ;
  readl = λ s a. (s a % 2 ^ 32, s);
  writel = λ s a v x. if x == a then v else s x;
}

pub memory_bus-IsStorage : (P : ℕ → Type 0) → IsStorage memory_bus P
memory_bus-IsStorage P = record {
  width = λ s a p. omega arith;
  self = λ s a v p h. ground arith;
  other = λ s a c v p h. ground arith;
  quiet = λ s a c p. refl;
}
