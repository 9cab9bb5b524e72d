-- ===== src/Timer/Tests.antt =====
-- Delays on a counter that goes on by one tick with each read, started just before its wrap-around.
use htc_leo_pkg.Prelude.{
  ℕ, ◌+◌, ◌-◌, ◌*◌, ◌/◌, ◌%◌, ◌^◌, ◌≤◌, ◌≡◌, ◌<◌, refl, arith, none, some, ◌==◌, if◌then◌else◌, ◌⊎◌,
}
use htc_leo_pkg.Bus.{Bus, memory_bus, memory_bus-IsStorage}
use htc_leo_pkg.Timer.{
  gpt_count_val, delay_ticks, frequency, get_time_in_nano_second, micro_second_delay,
}
use htc_leo_pkg.Timer.Delay.{
  IsCounter, Whenever, get_time_in_nano_second_lem, micro_second_delay_never_early,
}
use htc_leo_pkg.Timer.Driver.{TimerState, dgt_match_val, dgt_enable, timer_driver_set_timer_period}
use htc_leo_pkg.Timer.Driver.Period.{set_timer_period_rounds_down}
use htc_leo_pkg.Timer.Ends.{micro_second_delay_returns}

abbrev ticking : Bus
ticking = record {
  State = ℕ;
  readl = λ s a. if a == gpt_count_val then (s % 2 ^ 32, s + 1) else (0, s);
  writel = λ s a v. s;
}

abbrev time : ℕ → ℕ
time s = s

ticking-IsCounter : IsCounter ticking time
ticking-IsCounter = record { shows = λ s. refl; forward = λ s. omega arith }

get_time_in_nano_second_lem_example : get_time_in_nano_second 32766 ≡ 32766 * 1000000000 / frequency
get_time_in_nano_second_lem_example = get_time_in_nano_second_lem 32766 (omega arith)

micro_second_delay_never_early_example :
    Whenever
      (λ (s' : ℕ).
        ((2 ^ 32 - 2) + delay_ticks 100 ≤ s') × ((2 ^ 32 - 2) * 1000 + 100 * 33 ≤ s' * 1000 + 32))
      (micro_second_delay ticking 6 100 (2 ^ 32 - 2))
micro_second_delay_never_early_example =
    micro_second_delay_never_early ticking 6 time ticking-IsCounter 100 (2 ^ 32 - 2) (omega arith)

micro_second_delay_returns_example :
    (s' : ℕ) × (micro_second_delay ticking 6 100 (2 ^ 32 - 2) ≡ some s')
    × ((2 ^ 32 - 2) + delay_ticks 100 ≤ s')
    × (s' ≤ (2 ^ 32 - 2) + delay_ticks 100 + 1)
    × ((2 ^ 32 - 2) * 1000 + 100 * 33 ≤ s' * 1000 + 32)
    × (s' * 1000 < (2 ^ 32 - 2) * 1000 + 100 * 33 + 2000)
micro_second_delay_returns_example =
    micro_second_delay_returns ticking 6 time ticking-IsCounter (λ s. omega arith) 4 (omega arith)
      100 (2 ^ 32 - 2) (omega arith) (λ t. omega arith)

-- A period of 1.5 ms.
abbrev idle : TimerState ℕ (ℕ → ℕ)
idle = record { notify = none; period = 0; hw = λ a. 0 }

set_timer_period_rounds_down_example :
    let t' = (timer_driver_set_timer_period memory_bus ℕ 15000 idle).1 in
    let ticks = (memory_bus.readl t'.hw dgt_match_val).0 in
    (ticks ≡ 15000 / 10000 * 4800)
    × ((memory_bus.readl t'.hw dgt_enable).0 ≡ 3)
    × (t'.period ≡ 15000)
    × (ticks * 10000 ≤ 15000 * 4800)
    × (15000 * 4800 < (ticks + 4800) * 10000)
set_timer_period_rounds_down_example =
    set_timer_period_rounds_down memory_bus ℕ
      (memory_bus-IsStorage (λ a. (a ≡ dgt_match_val) ⊎ (a ≡ dgt_enable))) 15000 idle (omega arith)
      (omega arith)
