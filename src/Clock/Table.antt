-- ===== src/Clock/Table.antt =====
-- The clock driver's table and its calls of the modem, QSD8250Pkg/GPLDrivers/ClockDxe/ClockDxe.c.
-- A pointer into the table that is passed to msm_proc_comm is a word that the call may replace.
pub mod Calls
mod Tests
use htc_leo_pkg.Prelude.{
  ℕ, ◌-◌, ◌^◌, Option, none, some, List, [], ◌∷◌, replicate, get_elem?, set, ◌==◌, ◌>>=◌,
  if◌then◌else◌,
}
use htc_leo_pkg.Bus.{Bus}
use htc_leo_pkg.Pcom.{
  Reply, msm_proc_comm, value_or_zero, pcom_clk_regime_sec_enable, pcom_clk_regime_sec_disable,
  pcom_clk_regime_sec_sel_speed, pcom_clk_regime_sec_msm_get_clk_freq_khz,
  pcom_clkctl_rpc_pll_request,
}
use htc_leo_pkg.Clock.Speed.{
  Choice, speed, nothing, unknown_clock, clock_speed, icodec_rx_clk, icodec_tx_clk, sdac_mclk,
  uart1dm_clk, uart2dm_clk, ecodec_clk, vfe_mdc_clk, vfe_clk, spi_clk, sdc1_clk, sdc2_clk,
  sdc1_pclk, sdc2_pclk,
}

abbrev pub adm_clk : ℕ
adm_clk = 1

abbrev pub grp_clk : ℕ
grp_clk = 8

abbrev pub imem_clk : ℕ
imem_clk = 12

abbrev pub mdc_clk : ℕ
mdc_clk = 13

abbrev pub mdp_clk : ℕ
mdp_clk = 14

abbrev pub sdc4_pclk : ℕ
sdc4_pclk = 26

abbrev pub vfe_axi_clk : ℕ
vfe_axi_clk = 46

abbrev pub nr_clks : ℕ
nr_clks = 100

-- -1 of 32 bits.
abbrev pub minus_one : ℕ
minus_one = 2 ^ 32 - 1

abbrev pub put_clocks : List (ℕ × ℕ) → List ℕ → List ℕ
put_clocks [] table = table
put_clocks ((id, number) ∷ rest) table = put_clocks rest (set table id number)

-- ClocksLookup after FillClocksLookup.
pub fill_clocks_lookup : List ℕ
fill_clocks_lookup =
    put_clocks
      ((icodec_rx_clk, 50)
        ∷ (icodec_tx_clk, 52)
        ∷ (ecodec_clk, 42)
        ∷ (sdac_mclk, 64)
        ∷ (imem_clk, 55)
        ∷ (grp_clk, 56)
        ∷ (adm_clk, 19)
        ∷ (uart1dm_clk, 78)
        ∷ (uart2dm_clk, 80)
        ∷ (vfe_axi_clk, 24)
        ∷ (vfe_mdc_clk, 40)
        ∷ (vfe_clk, 41)
        ∷ (mdc_clk, 53)
        ∷ (spi_clk, 95)
        ∷ (mdp_clk, 9)
        ∷ (sdc1_clk, 66)
        ∷ (sdc2_clk, 67)
        ∷ (sdc1_pclk, 17)
        ∷ (sdc2_pclk, 16)
        ∷ [])
      (replicate nr_clks minus_one)

-- ClocksLookup and the hardware.
pub record Clocks (State : Type 0) : Type 0 where
  pub table : List ℕ
  pub hw : State

-- The value returned and what it leaves; `none` is a wait that `n` reads do not end, or an access past
-- the end of the table.
module _ (bus : Bus) (pause : bus.State → bus.State) (n : ℕ) where
  open bus use {State, readl, writel}

  -- A call with `&ClocksLookup[id]` for its first pointer.
  abbrev pub call_for : ℕ → ℕ → Option ℕ → Clocks State → Option (Reply State × Clocks State)
  call_for cmd id data2 c = do
    number ← get_elem? c.table id
    r ← msm_proc_comm bus pause n cmd (some number) data2 c.hw
    some (r, record { table = set c.table id (value_or_zero r.data1); hw = r.hw })

  pub cotulla_clk_set_rate : ℕ → ℕ → Clocks State → Option (ℕ × Clocks State)
  cotulla_clk_set_rate id rate c = elim (clock_speed id rate) [
    | unknown_clock ↦ some (minus_one, c)
    | nothing ↦ some (0, c)
    | speed k ↦ do done ← call_for pcom_clk_regime_sec_sel_speed id (some k) c; some (0, done.1)
  ]

  pub clk_set_rate : ℕ → ℕ → Clocks State → Option (ℕ × Clocks State)
  unfolding cotulla_clk_set_rate
  clk_set_rate id freq c = do
    done ← cotulla_clk_set_rate id freq c
    some (if done.0 == minus_one then minus_one else done.0, done.1)

  pub clk_get_rate : ℕ → Clocks State → Option (ℕ × Clocks State)
  clk_get_rate id c = do
    number ← get_elem? c.table id
    let other : ℕ = if id == sdc4_pclk then 64000000 else minus_one
    let asked : Option (ℕ × Clocks State) =
        call_for pcom_clk_regime_sec_msm_get_clk_freq_khz id (some 0) c >>= λ done.
        some (value_or_zero done.0.data2, done.1)
    if number == minus_one then some (other, c) else asked

  pub clk_enable : ℕ → Clocks State → Option (ℕ × Clocks State)
  clk_enable id c = do
    number ← get_elem? c.table id
    let asked : Option (ℕ × Clocks State) =
        call_for pcom_clk_regime_sec_enable id none c >>= λ done.
        get_elem? done.1.table id >>= λ after. some (after, done.1)
    if number == minus_one then some (minus_one, c) else asked

  pub clk_disable : ℕ → Clocks State → Option (Clocks State)
  clk_disable id c = do
    number ← get_elem? c.table id
    let asked : Option (Clocks State) =
        call_for pcom_clk_regime_sec_disable id none c >>= λ done. some done.1
    if number == minus_one then some c else asked

  -- `on = !!on`
  pub msm_pll_request : ℕ → ℕ → State → Option (ℕ × State)
  msm_pll_request id on s = do
    r ←
        msm_proc_comm bus pause n pcom_clkctl_rpc_pll_request (some id)
          (some (if on == 0 then 0 else 1)) s
    some (r.ret, r.hw)
