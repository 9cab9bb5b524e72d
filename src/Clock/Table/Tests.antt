-- ===== src/Clock/Table/Tests.antt =====
-- Runs of the clock table on the modem of Pcom.Tests.
use htc_leo_pkg.Prelude.{none, ℕ, ◌≡◌, refl, arith, some, set, inr, inl, ◌==◌, if◌then◌else◌}
use htc_leo_pkg.Pcom.{app_status, app_data1, pcom_cmd_fail}
use htc_leo_pkg.Pcom.Tests.{modem, no_pause, modem_ready, modem_answers}
use htc_leo_pkg.Clock.Speed.{speed, clock_speed, sdc1_clk}
use htc_leo_pkg.Clock.Speed.Ladder.{count_below, sdc_steps, clock_speed_lem}
use htc_leo_pkg.Clock.Table.{Clocks, fill_clocks_lookup, clk_enable}
use htc_leo_pkg.Pcom.Calls.{IsAnswered}
use htc_leo_pkg.Pcom.{pcom_clk_regime_sec_enable}
use htc_leo_pkg.Clock.Table.Calls.{clk_enable_replaces}

abbrev at_start : Clocks (ℕ → ℕ)
unfolding fill_clocks_lookup
at_start = record { table = fill_clocks_lookup; hw = λ a. 0 }

-- The controller of the SD card at 25 MHz.
clock_speed_lem_example : clock_speed sdc1_clk 25000000 ≡ speed 7
unfolding count_below
clock_speed_lem_example =
    clock_speed_lem sdc1_clk 25000000 sdc_steps (inr (inr (inr (inr (inr (inr (inr (inl refl))))))))

clk_enable_replaces_example :
    (t : modem.State) × (c' : Clocks modem.State) × IsAnswered modem no_pause 1
      pcom_clk_regime_sec_enable
      (some 66)
      none
      at_start.hw
      t
    × (let (status, t₁) = modem.readl t app_status in
        let entry = if status == pcom_cmd_fail then 66 else (modem.readl t₁ app_data1).0 in
        (clk_enable modem no_pause 1 sdc1_clk at_start ≡ some (entry, c'))
        × (c'.table ≡ set at_start.table sdc1_clk entry))
unfolding fill_clocks_lookup
clk_enable_replaces_example =
    clk_enable_replaces modem no_pause 1 sdc1_clk 66 at_start refl (omega arith) modem_ready
      modem_answers
