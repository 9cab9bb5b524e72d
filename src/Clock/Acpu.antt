-- ===== src/Clock/Acpu.antt =====
-- The processor clock, QSD8250Pkg/GPLDrivers/ClockDxe/acpuclock.c. `pause` is NanoSecondDelay; `n`
-- bounds the reads of a wait, and a wait that they do not end gives `none`, as do the loops that the
-- source never leaves and a call before `current_speed` is set.
pub mod Bits
pub mod Switch
mod Tests
use htc_leo_pkg.Prelude.{
  ℕ, ◌+◌, ◌-◌, ◌*◌, ◌/◌, ◌^◌, Option, none, some, List, [], ◌∷◌, ◌++◌, get_elem?, Bool, true, false,
  ◌&&◌, ◌||◌, ltb, bit_and, bit_or, bit_xor, ◌==◌, ◌>>=◌, if◌then◌else◌,
}
use htc_leo_pkg.Word.{lnot}
use htc_leo_pkg.Bus.{Bus}
use htc_leo_pkg.Bus.Poll.{wait_until}

abbrev pub spss_clk_cntl : ℕ
spss_clk_cntl = 0xac100000 + 0x100

abbrev pub spss_clk_sel : ℕ
spss_clk_sel = 0xac100000 + 0x104

abbrev pub scpll_ctl : ℕ
scpll_ctl = 0xa8800000 + 0x4

abbrev pub scpll_status : ℕ
scpll_status = 0xa8800000 + 0x18

abbrev pub scpll_fsm_ctl_ext : ℕ
scpll_fsm_ctl_ext = 0xa8800000 + 0x10

abbrev pub shot_switch : ℕ
shot_switch = 4

abbrev pub hop_switch : ℕ
hop_switch = 5

abbrev pub cctl : ℕ → ℕ → ℕ
cctl src div = src * 2 ^ 4 + (div - 1)

abbrev pub clk_tcxo : ℕ
clk_tcxo = 0

abbrev pub clk_modem_pll : ℕ
clk_modem_pll = 4

abbrev pub src_raw : ℕ
src_raw = 0

abbrev pub src_scpll : ℕ
src_scpll = 1

abbrev pub pllmode_powerdown : ℕ
pllmode_powerdown = 0

abbrev pub pllmode_standby : ℕ
pllmode_standby = 2

abbrev pub pllmode_normal : ℕ
pllmode_normal = 7

abbrev pub pllmode_mask : ℕ
pllmode_mask = 7

-- struct clkctl_acpu_speed
pub record AcpuSpeed : Type 0 where
  pub acpu_khz : ℕ
  pub clk_cfg : ℕ
  pub clk_sel : ℕ
  pub sc_l_value : ℕ
  pub vdd : ℕ
  pub axiclk_khz : ℕ

-- A row over the switched PLL.
abbrev pub scpll_speed : ℕ → ℕ → ℕ → ℕ → AcpuSpeed
scpll_speed khz l vdd axi = record {
  acpu_khz = khz;
  clk_cfg = cctl clk_tcxo 1;
  clk_sel = src_scpll;
  sc_l_value = l;
  vdd = vdd;
  axiclk_khz = axi;
}

abbrev pub acpu_stby : AcpuSpeed
acpu_stby = record {
  acpu_khz = 245000;
  clk_cfg = cctl clk_modem_pll 1;
  clk_sel = src_raw;
  sc_l_value = 0;
  vdd = 1050;
  axiclk_khz = 29000;
}

abbrev pub scpll_speeds : List AcpuSpeed
scpll_speeds =
    scpll_speed 384000 10 1050 58000
    ∷ scpll_speed 422400 11 1050 117000
    ∷ scpll_speed 460800 12 1050 117000
    ∷ scpll_speed 499200 13 1075 117000
    ∷ scpll_speed 537600 14 1100 117000
    ∷ scpll_speed 576000 15 1100 117000
    ∷ scpll_speed 614400 16 1125 117000
    ∷ scpll_speed 652800 17 1150 117000
    ∷ scpll_speed 691200 18 1175 117000
    ∷ scpll_speed 729600 19 1200 117000
    ∷ scpll_speed 768000 20 1200 128000
    ∷ scpll_speed 806400 21 1225 128000
    ∷ scpll_speed 844800 22 1250 128000
    ∷ scpll_speed 883200 23 1275 128000
    ∷ scpll_speed 921600 24 1300 128000
    ∷ scpll_speed 960000 25 1300 128000
    ∷ scpll_speed 998400 26 1300 128000
    ∷ []

abbrev pub end_of_table : AcpuSpeed
end_of_table = record {
  acpu_khz = 0;
  clk_cfg = 0;
  clk_sel = 0;
  sc_l_value = 0;
  vdd = 0;
  axiclk_khz = 0;
}

abbrev pub acpu_freq_tbl : List AcpuSpeed
acpu_freq_tbl = acpu_stby ∷ (scpll_speeds ++ (end_of_table ∷ []))

abbrev pub is_acpu_standby : AcpuSpeed → Bool
is_acpu_standby x = (x.clk_cfg == acpu_stby.clk_cfg) && (x.clk_sel == acpu_stby.clk_sel)

-- The `for` loop over the table; `none` at its end.
pub find_speed : List AcpuSpeed → ℕ → Option AcpuSpeed
find_speed [] rate = none
find_speed (next ∷ rest) rate =
    let further = find_speed rest rate in
    if next.acpu_khz == rate then some next else if next.acpu_khz == 0 then none else further

-- The statics and the hardware.
pub record Acpu (State : Type 0) : Type 0 where
  pub current_speed : Option AcpuSpeed
  pub acpuclk_init_done : Bool
  pub hw : State

module _ (bus : Bus) (pause : ℕ → bus.State → bus.State) (n : ℕ) where
  open bus use {State, readl, writel}

  -- `while (readl(SCPLL_STATUS_ADDR) & mask);`
  abbrev pub status_wait : ℕ → State → Option State
  status_wait mask s = wait_until bus (λ v. bit_and v mask == 0) (λ t. t) n scpll_status s

  -- `(val & ~mask) | bits`
  abbrev pub replace : ℕ → ℕ → ℕ → ℕ
  replace mask bits val = bit_or (bit_and val (lnot mask)) bits

  pub scpll_power_down : State → Option State
  scpll_power_down s = do
    s₁ ← status_wait 1 s
    let val = (readl s₁ scpll_ctl).0
    let standby = replace pllmode_mask pllmode_standby val
    let s₂ = pause 10 (writel (readl s₁ scpll_ctl).1 scpll_ctl standby)
    some (writel s₂ scpll_ctl (replace pllmode_mask pllmode_powerdown standby))

  -- The PLL is taken from another mode to 384 MHz.
  abbrev pub scpll_start : ℕ → State → Option State
  scpll_start ctl s = do
    let s₁ = pause 10 (writel s scpll_ctl (replace pllmode_mask pllmode_standby ctl))
    let (val, s₂) = readl s₁ scpll_fsm_ctl_ext
    let s₃ =
        writel s₂ scpll_fsm_ctl_ext
          (bit_or (bit_or (bit_and val (lnot 0x1ff)) (0x0a * 2 ^ 3)) shot_switch)
    let (ctl', s₄) = readl s₃ scpll_ctl
    s₅ ← status_wait 1 (writel s₄ scpll_ctl (bit_or ctl' pllmode_normal))
    some (pause 25 s₅)

  -- The new L value is written and the mode switched.
  abbrev pub scpll_hop : ℕ → State → Option State
  scpll_hop lval s =
      let (val, s₁) = readl s scpll_fsm_ctl_ext in
      let s₂ =
        writel s₁ scpll_fsm_ctl_ext
          (bit_or (bit_or (bit_and val (lnot 0x1ff)) (lval * 2 ^ 3)) hop_switch) in
      let (ctl, s₃) = readl s₂ scpll_ctl in
      status_wait 1 (writel s₃ scpll_ctl (bit_or ctl pllmode_normal))

  -- The L value is kept from 10 to 33.
  abbrev pub clamp_l : ℕ → ℕ
  clamp_l lval = let high = if ltb 33 lval then 33 else lval in if ltb high 10 then 10 else high

  pub scpll_set_freq : ℕ → State → Option State
  scpll_set_freq lval s = do
    s₁ ← status_wait 3 s
    let (ctl, s₂) = readl s₁ scpll_ctl
    s₃ ← if bit_and ctl pllmode_mask == pllmode_normal then some s₂ else scpll_start ctl s₂
    scpll_hop (clamp_l lval) s₃

  -- The last two lines of select_clock.
  abbrev pub switch_source : ℕ → State → State
  switch_source src s =
      let (sel, s') = readl s spss_clk_sel in
      writel s' spss_clk_sel (bit_or (bit_and sel (lnot 6)) (bit_and src 3 * 2))

  abbrev pub raw_source : ℕ → State → State
  raw_source config s =
      let (sel, s₁) = readl s spss_clk_sel in
      let shift = if bit_and sel 1 == 0 then 0 else 8 in
      let (val, s₂) = readl s₁ spss_clk_cntl in
      let s₃ =
        writel s₂ spss_clk_cntl
          (bit_or (bit_and val (lnot (0x7f * 2 ^ shift))) (config * 2 ^ shift)) in
      writel s₃ spss_clk_sel (bit_xor sel 1)

  pub select_clock : ℕ → ℕ → State → State
  select_clock src config s = switch_source src (if src == src_raw then raw_source config s else s)

  -- From the current speed to the next one.
  abbrev pub switch_speed : AcpuSpeed → AcpuSpeed → State → Option State
  switch_speed cur next s =
      let by_standby =
        if is_acpu_standby cur then s else select_clock acpu_stby.clk_sel acpu_stby.clk_cfg s in
      let to_scpll : Option State =
        scpll_set_freq next.sc_l_value by_standby >>= λ t. some (select_clock src_scpll 0 t) in
      let from_scpll = scpll_power_down (
        select_clock next.clk_sel next.clk_cfg
          (select_clock acpu_stby.clk_sel acpu_stby.clk_cfg s)) in
      if next.clk_sel == src_scpll
      then to_scpll
      else if cur.clk_sel == src_scpll
      then from_scpll
      else some (select_clock next.clk_sel next.clk_cfg s)

  -- The code returned, -1 being 2 ^ 32 - 1. `rate` is in Hz; the reason is not used.
  pub acpuclk_set_rate : ℕ → Acpu State → Option (ℕ × Acpu State)
  unfolding scpll_power_down scpll_set_freq select_clock find_speed
  acpuclk_set_rate rate c = do
    cur ← c.current_speed
    let khz = rate / 1000
    let switched : Option (ℕ × Acpu State) = elim (find_speed acpu_freq_tbl khz) [
      | none ↦ some (2 ^ 32 - 1, c)
      | some next ↦ switch_speed cur next c.hw >>= λ s.
          some (0, record c { current_speed = some next; hw = s })
    ]
    if (khz == cur.acpu_khz) || (khz == 0) then some (0, c) else switched

  -- In kHz.
  pub acpuclk_find_speed : State → Option (ℕ × State)
  acpuclk_find_speed s =
      let (sel, s₁) = readl s spss_clk_sel in
      let (val, s₂) = readl s₁ scpll_fsm_ctl_ext in
      let src = bit_and sel 6 / 2 in
      if src == 1
      then some (bit_and (val / 2 ^ 3) 0x3f * 38400, s₂)
      else if src == 2
      then some (128000, s₁)
      else none

  -- `pll` is msm_pll_request; bit 0 of MSM_CLK_CTL_BASE + 0x300 says that the modem's PLL is on.
  pub acpuclk_init : (ℕ → ℕ → State → Option (ℕ × State)) → ℕ → Acpu State → Option (Acpu State)
  unfolding acpuclk_find_speed scpll_power_down scpll_set_freq select_clock
  acpuclk_init pll freq_num c =
      let ready : Option (Acpu State) = (do
        found ← acpuclk_find_speed c.hw
        on ← pll 0 1 found.1
        off ← pll 0 0 on.1
        let (v, s) = readl off.1 (0xa8600000 + 0x300)
        speed ← get_elem? acpu_freq_tbl freq_num
        s₁ ←
            if bit_and v 1 == 0
            then none
            else scpll_power_down (select_clock acpu_stby.clk_sel acpu_stby.clk_cfg s)
        s₂ ← scpll_set_freq speed.sc_l_value s₁
        some (record {
          current_speed = some speed;
          acpuclk_init_done = true;
          hw = select_clock src_scpll 0 s₂;
        })) in
      if c.acpuclk_init_done then some c else ready

  pub acpuclk_get_rate : Acpu State → Option ℕ
  acpuclk_get_rate c =
      if c.acpuclk_init_done
      then (c.current_speed >>= λ speed. some speed.acpu_khz)
      else some 998001
