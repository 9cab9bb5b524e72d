-- ===== src/Clock/Speed.antt =====
-- The speed numbers of CotullaClkSetRate, QSD8250Pkg/GPLDrivers/ClockDxe/ClockDxe.c; the clock
-- numbers are those of QSD8250Pkg/Include/Chipset/clock.h.
pub mod Ladder
use htc_leo_pkg.Prelude.{ℕ, Bool, ltb, ◌==◌, if◌then◌else◌}

abbrev pub icodec_rx_clk : ℕ
icodec_rx_clk = 10

abbrev pub icodec_tx_clk : ℕ
icodec_tx_clk = 11

abbrev pub sdac_mclk : ℕ
sdac_mclk = 87

abbrev pub uart1dm_clk : ℕ
uart1dm_clk = 34

abbrev pub uart2dm_clk : ℕ
uart2dm_clk = 35

abbrev pub ecodec_clk : ℕ
ecodec_clk = 5

abbrev pub vfe_mdc_clk : ℕ
vfe_mdc_clk = 40

abbrev pub vfe_clk : ℕ
vfe_clk = 41

abbrev pub spi_clk : ℕ
spi_clk = 45

abbrev pub sdc1_clk : ℕ
sdc1_clk = 19

abbrev pub sdc2_clk : ℕ
sdc2_clk = 21

abbrev pub sdc1_pclk : ℕ
sdc1_pclk = 20

abbrev pub sdc2_pclk : ℕ
sdc2_pclk = 22

-- A speed to ask the modem for; nothing to do, `return 0`; or a clock that is not known, -1.
pub data Choice : Type 0 where
  speed : ℕ → Choice
  nothing : Choice
  unknown_clock : Choice

abbrev pub icodec_speed : ℕ → ℕ
icodec_speed rate =
    if ltb 11289600 rate
    then 9
    else if ltb 8192000 rate
    then 8
    else if ltb 6144000 rate
    then 7
    else if ltb 5644800 rate
    then 6
    else if ltb 4096000 rate
    then 5
    else if ltb 3072000 rate
    then 4
    else if ltb 2822400 rate
    then 3
    else if ltb 2048000 rate
    then 2
    else 1

abbrev pub sdac_speed : ℕ → ℕ
sdac_speed rate =
    if ltb 1411200 rate
    then 9
    else if ltb 1024000 rate
    then 8
    else if ltb 768000 rate
    then 7
    else if ltb 705600 rate
    then 6
    else if ltb 512000 rate
    then 5
    else if ltb 384000 rate
    then 4
    else if ltb 352800 rate
    then 3
    else if ltb 256000 rate
    then 2
    else 1

abbrev pub uart_speed : ℕ → ℕ
uart_speed rate =
    if ltb 61440000 rate
    then 15
    else if ltb 58982400 rate
    then 14
    else if ltb 56000000 rate
    then 13
    else if ltb 51200000 rate
    then 12
    else if ltb 48000000 rate
    then 11
    else if ltb 40000000 rate
    then 10
    else if ltb 32000000 rate
    then 9
    else if ltb 24000000 rate
    then 8
    else if ltb 16000000 rate
    then 7
    else if ltb 15360000 rate
    then 6
    else if ltb 14745600 rate
    then 5
    else if ltb 7680000 rate
    then 4
    else if ltb 7372800 rate
    then 3
    else if ltb 3840000 rate
    then 2
    else 1

abbrev pub ecodec_speed : ℕ → ℕ
ecodec_speed rate = if ltb 2048000 rate then 3 else if ltb 128000 rate then 2 else 1

abbrev pub spi_speed : ℕ → ℕ
spi_speed rate =
    if ltb 15360000 rate
    then 5
    else if ltb 9600000 rate
    then 4
    else if ltb 4800000 rate
    then 3
    else if ltb 960000 rate
    then 2
    else 1

abbrev pub sdc_speed : ℕ → ℕ
sdc_speed rate =
    if ltb 50000000 rate
    then 14
    else if ltb 49152000 rate
    then 13
    else if ltb 45000000 rate
    then 12
    else if ltb 40000000 rate
    then 11
    else if ltb 35000000 rate
    then 10
    else if ltb 30000000 rate
    then 9
    else if ltb 25000000 rate
    then 8
    else if ltb 20000000 rate
    then 7
    else if ltb 15000000 rate
    then 6
    else if ltb 10000000 rate
    then 5
    else if ltb 5000000 rate
    then 4
    else if ltb 400000 rate
    then 3
    else if ltb 144000 rate
    then 2
    else 1

abbrev pub vfe_mdc_speed : ℕ → Choice
vfe_mdc_speed rate =
    if rate == 96000000
    then speed 37
    else if rate == 48000000
    then speed 32
    else if rate == 24000000
    then speed 22
    else if rate == 12000000
    then speed 14
    else if rate == 6000000
    then speed 6
    else if rate == 3000000
    then speed 1
    else nothing

abbrev pub vfe_speed : ℕ → Choice
vfe_speed rate =
    if rate == 36000000
    then speed 1
    else if rate == 48000000
    then speed 2
    else if rate == 64000000
    then speed 3
    else if rate == 78000000
    then speed 4
    else if rate == 96000000
    then speed 5
    else nothing

-- The `switch`.
pub clock_speed : ℕ → ℕ → Choice
clock_speed id rate =
    if id == icodec_rx_clk
    then speed (icodec_speed rate)
    else if id == icodec_tx_clk
    then speed (icodec_speed rate)
    else if id == sdac_mclk
    then speed (sdac_speed rate)
    else if id == uart1dm_clk
    then speed (uart_speed rate)
    else if id == uart2dm_clk
    then speed (uart_speed rate)
    else if id == ecodec_clk
    then speed (ecodec_speed rate)
    else if id == vfe_mdc_clk
    then vfe_mdc_speed rate
    else if id == vfe_clk
    then vfe_speed rate
    else if id == spi_clk
    then speed (spi_speed rate)
    else if id == sdc1_clk
    then speed (sdc_speed rate)
    else if id == sdc2_clk
    then speed (sdc_speed rate)
    else if id == sdc1_pclk
    then nothing
    else if id == sdc2_pclk
    then nothing
    else unknown_clock
