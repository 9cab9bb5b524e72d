-- ===== src/Pcom/Tests.antt =====
-- A modem in memory that is always ready and answers a call at once: status 3, and both data words
-- plus one hundred.
use htc_leo_pkg.Prelude.{ℕ, ◌+◌, ◌≡◌, refl, arith, some, ◌==◌, if◌then◌else◌}
use htc_leo_pkg.Bus.{Bus}
use htc_leo_pkg.Pcom.{
  app_command, app_status, app_data1, app_data2, mdm_status, msm_a2m_int, pcom_cmd_done, pcom_ready,
  pcom_clk_regime_sec_enable, notify_modem, Reply, msm_proc_comm,
}
use htc_leo_pkg.Pcom.Calls.{IsAwaited, IsAnswered, IsReply, msm_proc_comm_returns}

abbrev pub modem : Bus
modem = record {
  State = ℕ → ℕ;
  readl = λ s a. (if a == mdm_status then pcom_ready else s a, s);
  writel = λ s a v x.
      if a == msm_a2m_int 6
      then (if x == app_command
          then pcom_cmd_done
          else if x == app_status
          then 3
          else if x == app_data1
          then s app_data1 + 100
          else if x == app_data2
          then s app_data2 + 100
          else s x)
      else if x == a
      then v
      else s x;
}

abbrev pub no_pause : (ℕ → ℕ) → (ℕ → ℕ)
no_pause s = s

pub modem_ready : (t : ℕ → ℕ) → IsAwaited modem no_pause 1 mdm_status pcom_ready t
modem_ready t = (0, omega arith, refl)

pub modem_answers :
    (t : ℕ → ℕ)
    → IsAwaited modem no_pause 1 app_command pcom_cmd_done (notify_modem modem no_pause 1 t)
modem_answers t = (0, omega arith, refl)

msm_proc_comm_returns_example :
    (t : modem.State) × (r : Reply modem.State) × IsAnswered modem no_pause 1
      pcom_clk_regime_sec_enable
      (some 66)
      (some 0)
      (λ a. 0)
      t
    × (msm_proc_comm modem no_pause 1 pcom_clk_regime_sec_enable (some 66) (some 0) (λ a. 0)
        ≡ some r)
    × IsReply modem no_pause 1 (some 66) (some 0) t r
msm_proc_comm_returns_example =
    msm_proc_comm_returns modem no_pause 1 pcom_clk_regime_sec_enable (some 66) (some 0) (λ a. 0)
      modem_ready modem_answers
