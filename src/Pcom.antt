-- ===== src/Pcom.antt =====
-- Calls to the modem processor through shared memory, QSD8250Pkg/Library/MsmPcomLib/pcom.c and
-- QSD8250Pkg/Include/Library/pcom.h. `pause` is NanoSecondDelay(5); `n` bounds the reads of a wait,
-- and a wait that they do not end gives `none`.
pub mod Calls
pub mod Tests
use htc_leo_pkg.Prelude.{ℕ, ◌+◌, ◌*◌, ◌-◌, ◌^◌, Option, none, some, ◌==◌, ◌>>=◌, if◌then◌else◌}
use htc_leo_pkg.Bus.{Bus}
use htc_leo_pkg.Bus.Poll.{wait_until}

abbrev pub msm_shared_base : ℕ
msm_shared_base = 0x00100000

abbrev pub msm_a2m_int : ℕ → ℕ
msm_a2m_int n = 0xac100000 + 0x400 + n * 4

abbrev pub app_command : ℕ
app_command = msm_shared_base

abbrev pub app_status : ℕ
app_status = msm_shared_base + 0x04

abbrev pub app_data1 : ℕ
app_data1 = msm_shared_base + 0x08

abbrev pub app_data2 : ℕ
app_data2 = msm_shared_base + 0x0c

abbrev pub mdm_status : ℕ
mdm_status = msm_shared_base + 0x14

-- Commands.
abbrev pub pcom_cmd_idle : ℕ
pcom_cmd_idle = 0

abbrev pub pcom_cmd_done : ℕ
pcom_cmd_done = 1

abbrev pub pcom_clkctl_rpc_rate : ℕ
pcom_clkctl_rpc_rate = 27

abbrev pub pcom_clkctl_rpc_pll_request : ℕ
pcom_clkctl_rpc_pll_request = 28

abbrev pub pcom_clk_regime_sec_enable : ℕ
pcom_clk_regime_sec_enable = 50

abbrev pub pcom_clk_regime_sec_disable : ℕ
pcom_clk_regime_sec_disable = 51

abbrev pub pcom_clk_regime_sec_sel_speed : ℕ
pcom_clk_regime_sec_sel_speed = 58

abbrev pub pcom_clk_regime_sec_msm_get_clk_freq_khz : ℕ
pcom_clk_regime_sec_msm_get_clk_freq_khz = 67

-- Status codes; those from pcom_cmd_fail to 15 are failures.
abbrev pub pcom_invalid_status : ℕ
pcom_invalid_status = 0

abbrev pub pcom_ready : ℕ
pcom_ready = 1

abbrev pub pcom_cmd_fail : ℕ
pcom_cmd_fail = 4

-- The code returned, what the two pointers point to after the call, and the hardware.
pub record Reply (State : Type 0) : Type 0 where
  pub ret : ℕ
  pub data1 : Option ℕ
  pub data2 : Option ℕ
  pub hw : State

abbrev pub value_or_zero : Option ℕ → ℕ
value_or_zero none = 0
value_or_zero (some v) = v

module _ (bus : Bus) (pause : bus.State → bus.State) (n : ℕ) where
  open bus use {State, readl, writel}

  abbrev pub pcom_wait_for : ℕ → ℕ → State → Option State
  pcom_wait_for addr value s = wait_until bus (λ v. v == value) pause n addr s

  abbrev pub notify_modem : State → State
  notify_modem s = writel s (msm_a2m_int 6) 1

  -- The command and its data are written and the modem is told.
  abbrev pub send : ℕ → Option ℕ → Option ℕ → State → State
  send cmd data1 data2 s = notify_modem (
      writel (writel (writel s app_command cmd) app_data1 (value_or_zero data1)) app_data2
        (value_or_zero data2))

  -- `if (data) *data = readl(addr)`
  abbrev pub read_back : Option ℕ → ℕ → State → Option ℕ × State
  read_back none addr s = (none, s)
  read_back (some _) addr s = let (v, s') = readl s addr in (some v, s')

  -- What follows the second wait.
  abbrev pub receive : Option ℕ → Option ℕ → State → Reply State
  receive data1 data2 s =
      let (status, s₁) = readl s app_status in
      let (v1, s₂) = read_back data1 app_data1 s₁ in
      let (v2, s₃) = read_back data2 app_data2 s₂ in
      let done : Reply State = record {
        ret = 0;
        data1 = v1;
        data2 = v2;
        hw = writel s₃ app_command pcom_cmd_idle;
      } in
      let failed : Reply State = record {
        ret = 2 ^ 32 - 1;
        data1 = data1;
        data2 = data2;
        hw = writel s₁ app_command pcom_cmd_idle;
      } in
      if status == pcom_cmd_fail then failed else done

  pub msm_proc_comm : ℕ → Option ℕ → Option ℕ → State → Option (Reply State)
  msm_proc_comm cmd data1 data2 s = do
    s₁ ← pcom_wait_for mdm_status pcom_ready s
    s₂ ← pcom_wait_for app_command pcom_cmd_done (send cmd data1 data2 s₁)
    some (receive data1 data2 s₂)

  pub msm_pcom_init : State → State
  msm_pcom_init s = writel (writel s app_command pcom_cmd_idle) app_status pcom_invalid_status

  -- The code returned and the hardware.
  pub pcom_clock_get_rate : ℕ → State → Option (ℕ × State)
  unfolding msm_proc_comm
  pcom_clock_get_rate id s = do
    r ← msm_proc_comm pcom_clkctl_rpc_rate (some id) none s
    some (if r.ret == 0 then value_or_zero r.data1 else 2 ^ 32 - 1, r.hw)
