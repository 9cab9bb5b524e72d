-- ===== src/Timer.antt =====
-- The timer library, QSD8250Pkg/Library/GPTTimerLib/GPTTimerLib.c; the register base is the default
-- of QSD8250Pkg/QSD8250Pkg.dec. UINTN is 32 bits wide. `n` bounds the reads of a loop, and a loop that
-- they do not end gives `none`.
pub mod Delay
pub mod Ends
pub mod Driver
mod Tests
use htc_leo_pkg.Prelude.{
  ℕ, zero, suc, ◌+◌, ◌-◌, ◌*◌, ◌/◌, ◌%◌, ◌^◌, Option, none, some, Bool, not, ◌&&◌, ltb, leb, ◌==◌,
  ◌>>=◌, if◌then◌else◌,
}
use htc_leo_pkg.Bus.{Bus}
use htc_leo_pkg.Bus.Poll.{wait_until}

abbrev pub gpt_reg : ℕ → ℕ
gpt_reg off = 0xac100000 + off

abbrev pub gpt_count_val : ℕ
gpt_count_val = gpt_reg 0x04

abbrev pub gpt_enable : ℕ
gpt_enable = gpt_reg 0x08

abbrev pub gpt_clear : ℕ
gpt_clear = gpt_reg 0x0c

abbrev pub gpt_enable_en : ℕ
gpt_enable_en = 1

-- GetPerformanceCounterProperties: ticks per second.
abbrev pub frequency : ℕ
frequency = 32765

-- The ticks of a delay, rounded up; 64 bits wide.
abbrev pub delay_ticks : ℕ → ℕ
delay_ticks micro_seconds = (micro_seconds * 33 + 1000 - 33) / 1000

-- The microseconds of NanoSecondDelay, rounded up.
abbrev pub round_up : ℕ → ℕ
round_up nano_seconds = nano_seconds / 1000 + (if nano_seconds % 1000 == 0 then 0 else 1)

-- GetTimeInNanoSecond, modulo 2 ^ 64.
pub get_time_in_nano_second : ℕ → ℕ
get_time_in_nano_second ticks =
    let whole = ticks / frequency * 1000000000 % 2 ^ 64 in
    let remainder = ticks % frequency % 2 ^ 32 in
    (whole + remainder * 1000000000 % 2 ^ 64 / frequency) % 2 ^ 64

module _ (bus : Bus) (n : ℕ) where
  open bus use {State, readl, writel}

  pub timer_early_init : State → Option State
  timer_early_init s = do
    s₁ ←
        wait_until bus (λ v. v == 0) (λ t. t) n gpt_count_val
          (writel (writel s gpt_clear 0) gpt_enable 0)
    some (writel s₁ gpt_enable gpt_enable_en)

  -- `while (go(Count)) Count = MmioRead32(GPT_COUNT_VAL);` with `left` passes.
  abbrev pub count_while : (ℕ → Bool) → ℕ → ℕ → State → Option (ℕ × State)
  count_while go zero count s = none
  count_while go (suc left) count s =
      let (next, s') = readl s gpt_count_val in
      let rest = count_while go left next s' in if go count then rest else some (count, s)

  pub micro_second_delay : ℕ → State → Option State
  micro_second_delay micro_seconds s = do
    let (init_count, s₀) = readl s gpt_count_val
    let timeout = (init_count + delay_ticks micro_seconds) % 2 ^ 32
    r ← count_while (λ count. ltb timeout count && leb init_count count) n init_count s₀
    t ← count_while (λ count. ltb count timeout) n r.0 r.1
    some t.1

  pub nano_second_delay : ℕ → State → Option State
  unfolding micro_second_delay
  nano_second_delay nano_seconds s = micro_second_delay (round_up nano_seconds) s

  pub get_performance_counter : State → ℕ × State
  get_performance_counter s = readl s gpt_count_val
