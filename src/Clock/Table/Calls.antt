-- ===== src/Clock/Table/Calls.antt =====
-- What a call for a clock does to ClocksLookup of ClockDxe.c, for a modem that answers.
use htc_leo_pkg.Prelude.{
  ℕ, ◌≡◌, ◌≢◌, refl, ap, ◌∙◌, Bool, true, false, none, some, get_elem?, set, get_elem?-set_self,
  ◌==◌, if◌then◌else◌, ==_ne, if-false,
}
use htc_leo_pkg.Bus.{Bus}
use htc_leo_pkg.Pcom.{
  value_or_zero, mdm_status, app_command, app_status, app_data1, pcom_ready, pcom_cmd_done,
  pcom_cmd_fail, notify_modem, pcom_clk_regime_sec_enable,
}
use htc_leo_pkg.Pcom.Calls.{IsAwaited, IsAnswered, msm_proc_comm_returns}
use htc_leo_pkg.Clock.Table.{Clocks, minus_one, clk_enable}

value_of_if :
    (b : Bool) (x y : ℕ) → value_or_zero (if b then some x else some y) ≡ (if b then x else y)
value_of_if true x y = refl
value_of_if false x y = refl

module _ (bus : Bus) (pause : bus.State → bus.State) (n : ℕ) where
  open bus use {State, readl, writel}

  -- Enabling a clock whose entry is not -1 asks a modem that is ready and answers to enable the clock
  -- of that number, and its entry of the table is then the word that the modem left in the first data
  -- register: the entry is kept only if the status is PCOM_CMD_FAIL. The value returned is the entry
  -- after the call.
  pub clk_enable_replaces :
      (id number : ℕ) (c : Clocks State)
      → get_elem? c.table id ≡ some number
      → number ≢ minus_one
      → ((t : State) → IsAwaited bus pause n mdm_status pcom_ready t)
      → ((t : State) → IsAwaited bus pause n app_command pcom_cmd_done (notify_modem bus pause n t))
      → (t : State) × (c' : Clocks State) × IsAnswered bus pause n pcom_clk_regime_sec_enable
          (some number)
          none
          c.hw
          t
        × (let (status, t₁) = readl t app_status in
            let entry = if status == pcom_cmd_fail then number else (readl t₁ app_data1).0 in
            (clk_enable bus pause n id c ≡ some (entry, c')) × (c'.table ≡ set c.table id entry))
  unfolding clk_enable
  clk_enable_replaces id number c found real ready answers =
      let (t, r, asked, call, words) =
        msm_proc_comm_returns bus pause n pcom_clk_regime_sec_enable (some number) none c.hw ready
          answers in
      let entry =
        if (readl t app_status).0 == pcom_cmd_fail
        then number
        else (readl (readl t app_status).1 app_data1).0 in
      let kept : value_or_zero r.data1 ≡ entry =
        ap value_or_zero words.1 ∙ value_of_if ((readl t app_status).0 == pcom_cmd_fail) number _ in
      let c' : Clocks State = record {
        table = set c.table id (value_or_zero r.data1);
        hw = r.hw;
      } in
      (
        t,
        c',
        asked,
        (
          rw (found, clk_enable)
              (if-false _ _ (==_ne number minus_one real)
                ∙ rw call (
                    rw (get_elem?-set_self c.table id (value_or_zero r.data1) number found)
                      (ap (λ (w : ℕ). some (w, c')) kept))),
          ap (set c.table id) kept,
        ),
      )
