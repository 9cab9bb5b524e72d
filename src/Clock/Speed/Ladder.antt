-- ===== src/Clock/Speed/Ladder.antt =====
-- The ladders of Clock.Speed against a count of thresholds.
use htc_leo_pkg.Prelude.{
  ℕ, suc, ◌+◌, ◌<◌, ◌≡◌, refl, ap, ◌∙◌, arith, List, [], ◌∷◌, length, inl, inr, Bool-cases, if-true,
  if-false, ltb, if◌then◌else◌, OneOf, All-OneOf,
}
use htc_leo_pkg.Clock.Speed.{
  speed, clock_speed, icodec_rx_clk, icodec_tx_clk, sdac_mclk, uart1dm_clk, uart2dm_clk, ecodec_clk,
  spi_clk, sdc1_clk, sdc2_clk,
}

-- How many thresholds are below the rate.
unfoldable pub count_below : List ℕ → ℕ → ℕ
count_below [] rate = 0
count_below (t ∷ ts) rate = (if ltb t rate then 1 else 0) + count_below ts rate

-- A ladder of tests, from the highest threshold down.
abbrev ladder : List ℕ → ℕ → ℕ
ladder [] rate = 1
ladder (t ∷ ts) rate =
    let rest = ladder ts rate in if ltb t rate then suc (length (t ∷ ts)) else rest

abbrev Descending : ℕ → List ℕ → Type 0
Descending top [] = Unit
Descending top (t ∷ ts) = (t < top) × Descending t ts

count_below_all :
    (top : ℕ) (ts : List ℕ) (rate : ℕ)
    → Descending top ts
    → top < suc rate
    → count_below ts rate ≡ length ts
unfolding count_below
count_below_all top [] rate d h = refl
count_below_all top (t ∷ ts) rate (lt, d) h =
    ground (arith, count_below_all t ts rate d (omega arith))

ladder_lem :
    (top : ℕ) (ts : List ℕ) (rate : ℕ)
    → Descending top ts
    → ladder ts rate ≡ 1 + count_below ts rate
unfolding count_below
ladder_lem top [] rate d = refl
ladder_lem top (t ∷ ts) rate (lt, d) = elim (Bool-cases (ltb t rate)) [
  | inl e ↦ if-true _ _ e ∙ ground (arith, count_below_all t ts rate d (ground arith))
  | inr e ↦ if-false _ _ e ∙ (ladder_lem t ts rate d ∙ ground arith)
]

abbrev pub icodec_steps : List ℕ
icodec_steps = 11289600 ∷ 8192000 ∷ 6144000 ∷ 5644800 ∷ 4096000 ∷ 3072000 ∷ 2822400 ∷ 2048000 ∷ []

abbrev pub sdac_steps : List ℕ
sdac_steps = 1411200 ∷ 1024000 ∷ 768000 ∷ 705600 ∷ 512000 ∷ 384000 ∷ 352800 ∷ 256000 ∷ []

abbrev pub uart_steps : List ℕ
uart_steps =
    61440000 ∷ 58982400 ∷ 56000000 ∷ 51200000 ∷ 48000000 ∷ 40000000 ∷ 32000000 ∷ 24000000 ∷ 16000000
    ∷ 15360000 ∷ 14745600 ∷ 7680000 ∷ 7372800 ∷ 3840000 ∷ []

abbrev pub ecodec_steps : List ℕ
ecodec_steps = 2048000 ∷ 128000 ∷ []

abbrev pub spi_steps : List ℕ
spi_steps = 15360000 ∷ 9600000 ∷ 4800000 ∷ 960000 ∷ []

abbrev pub sdc_steps : List ℕ
sdc_steps =
    50000000 ∷ 49152000 ∷ 45000000 ∷ 40000000 ∷ 35000000 ∷ 30000000 ∷ 25000000 ∷ 20000000 ∷ 15000000
    ∷ 10000000 ∷ 5000000 ∷ 400000 ∷ 144000 ∷ []

-- The clocks whose speed is a step, with the thresholds of the steps.
abbrev pub stepped_clocks : List (ℕ × List ℕ)
stepped_clocks =
    (icodec_rx_clk, icodec_steps)
    ∷ (icodec_tx_clk, icodec_steps)
    ∷ (sdac_mclk, sdac_steps)
    ∷ (uart1dm_clk, uart_steps)
    ∷ (uart2dm_clk, uart_steps)
    ∷ (ecodec_clk, ecodec_steps)
    ∷ (spi_clk, spi_steps)
    ∷ (sdc1_clk, sdc_steps)
    ∷ (sdc2_clk, sdc_steps)
    ∷ []

-- For the clocks that run at steps, the speed number is one more than the number of thresholds
-- below the rate, for every rate.
pub clock_speed_lem :
    (id rate : ℕ) (steps : List ℕ)
    → OneOf (id, steps) stepped_clocks
    → clock_speed id rate ≡ speed (1 + count_below steps rate)
unfolding clock_speed
clock_speed_lem id rate steps m =
    All-OneOf (λ (p : ℕ × List ℕ). clock_speed p.0 rate ≡ speed (1 + count_below p.1 rate))
      stepped_clocks
      (
        ap speed (ladder_lem 100000000 icodec_steps rate (omega arith)),
        (
          ap speed (ladder_lem 100000000 icodec_steps rate (omega arith)),
          (
            ap speed (ladder_lem 100000000 sdac_steps rate (omega arith)),
            (
              ap speed (ladder_lem 100000000 uart_steps rate (omega arith)),
              (
                ap speed (ladder_lem 100000000 uart_steps rate (omega arith)),
                (
                  ap speed (ladder_lem 100000000 ecodec_steps rate (omega arith)),
                  (
                    ap speed (ladder_lem 100000000 spi_steps rate (omega arith)),
                    (
                      ap speed (ladder_lem 100000000 sdc_steps rate (omega arith)),
                      (ap speed (ladder_lem 100000000 sdc_steps rate (omega arith)), tt),
                    ),
                  ),
                ),
              ),
            ),
          ),
        ),
      )
      m
