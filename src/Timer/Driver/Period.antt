-- ===== src/Timer/Driver/Period.antt =====
-- The period that Timer.c programs.
use htc_leo_pkg.Prelude.{
  ℕ, ◌+◌, ◌*◌, ◌/◌, ◌≤◌, ◌<◌, ◌≡◌, ◌≢◌, refl, ap, ◌∙◌, arith, if-false, ==_ne, ◌⊎◌, inl, inr,
}
use htc_leo_pkg.Bus.{Bus, IsStorage}
use htc_leo_pkg.Efi.{Status}
use htc_leo_pkg.Interrupt.{int_enset0, enable_interrupt_source, disable_interrupt_source}
use htc_leo_pkg.Timer.Driver.{
  TimerState, dgt_match_val, dgt_enable, dgt_clear, timer_driver_set_timer_period,
}

module _ (bus : Bus) (H : Type 0)
    (laws : IsStorage bus (λ a. (a ≡ dgt_match_val) ⊎ (a ≡ dgt_enable))) where
  open bus use {State, readl, writel}

  -- For a period up to about fifteen minutes, the timer is left enabled, to be cleared at a match, with
  -- the match value of the whole milliseconds in the period, in ticks of 4.8 MHz: never later than
  -- asked for, and less than a millisecond earlier. The period is in units of 100 ns, and kept. The
  -- match and the enable register must be plain storage.
  pub set_timer_period_rounds_down :
      (period : ℕ) (t : TimerState H State)
      → period ≢ 0
      → period < 10000 * 894784
      → let t' = (timer_driver_set_timer_period bus H period t).1 in
        let ticks = (readl t'.hw dgt_match_val).0 in
        (ticks ≡ period / 10000 * 4800)
        × ((readl t'.hw dgt_enable).0 ≡ 3)
        × (t'.period ≡ period)
        × (ticks * 10000 ≤ period * 4800)
        × (period * 4800 < (ticks + 4800) * 10000)
  unfolding timer_driver_set_timer_period enable_interrupt_source disable_interrupt_source
  set_timer_period_rounds_down period t ne short =
      let value : (readl (timer_driver_set_timer_period bus H period t).1.hw dgt_match_val).0
          ≡ period / 10000 * 4800 =
        ap (λ (r : Status × State). (readl r.1 dgt_match_val).0) (if-false _ _ (==_ne period 0 ne))
        ∙ (laws.other _ dgt_match_val int_enset0 _ (inl refl) (omega arith)
            ∙ (laws.other _ dgt_match_val dgt_enable _ (inl refl) (omega arith)
                ∙ (laws.other _ dgt_match_val dgt_clear _ (inl refl) (omega arith)
                    ∙ (laws.self _ dgt_match_val _ (inl refl) (omega arith)
                        ∙ omega (arith, short))))) in
      let enabled : (readl (timer_driver_set_timer_period bus H period t).1.hw dgt_enable).0 ≡ 3 =
        ap (λ (r : Status × State). (readl r.1 dgt_enable).0) (if-false _ _ (==_ne period 0 ne))
        ∙ (laws.other _ dgt_enable int_enset0 _ (inr refl) (omega arith)
            ∙ laws.self _ dgt_enable 3 (inr refl) (omega arith)) in
      (value, enabled, refl, omega (arith, value), omega (arith, value))
