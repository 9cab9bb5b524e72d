-- ===== src/Clock/Acpu/Tests.antt =====
-- A change of the processor's speed on memory whose PLL status always reads 0.
use htc_leo_pkg.Prelude.{ℕ, ◌%◌, ◌^◌, ◌≡◌, refl, arith, some, inl, inr, true, ◌==◌, if◌then◌else◌}
use htc_leo_pkg.Bus.{Bus, IsStorage}
use htc_leo_pkg.Clock.Acpu.{
  Acpu, acpu_stby, scpll_speed, scpll_status, acpuclk_set_rate, acpuclk_find_speed,
}
use htc_leo_pkg.Clock.Acpu.Switch.{IsClockRegister, IsSettling, acpuclk_set_rate_lem}

abbrev clock_bus : Bus
clock_bus = record {
  State = ℕ → ℕ;
  readl = λ s a. (if a == scpll_status then 0 else s a % 2 ^ 32, s);
  writel = λ s a v x. if x == a then v else s x;
}

clock_bus-IsStorage : IsStorage clock_bus IsClockRegister
clock_bus-IsStorage = record {
  width = λ s a p. ground arith;
  self = λ s a v p h. ground (arith, p);
  other = λ s a c v p h. ground (arith, h);
  quiet = λ s a c p. refl;
}

abbrev no_pause : ℕ → (ℕ → ℕ) → (ℕ → ℕ)
no_pause t s = s

settles : (s : ℕ → ℕ) → IsSettling clock_bus no_pause 1 clock_bus-IsStorage s
settles s = (0, omega arith, refl, refl)

-- The modem's clock is in use.
abbrev standby : Acpu (ℕ → ℕ)
standby = record { current_speed = some acpu_stby; acpuclk_init_done = true; hw = λ a. 0 }

acpuclk_set_rate_lem_example :
    (c' : Acpu (ℕ → ℕ)) × (s' : ℕ → ℕ) × (acpuclk_set_rate clock_bus no_pause 1 768000000 standby
      ≡ some (0, c'))
    × (c'.current_speed ≡ some (scpll_speed 768000 20 1200 128000))
    × (acpuclk_find_speed clock_bus no_pause 1 c'.hw ≡ some (768000, s'))
acpuclk_set_rate_lem_example =
    acpuclk_set_rate_lem clock_bus no_pause 1 clock_bus-IsStorage settles 768000000
      (scpll_speed 768000 20 1200 128000) acpu_stby standby
      (inr (inr (inr (inr (inr (inr (inr (inr (inr (inr (inl refl))))))))))) refl refl (omega arith)
