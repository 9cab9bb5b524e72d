-- ===== src/Clock/Acpu/Switch.antt =====
-- A change of speed of acpuclock.c, for hardware whose clock registers are plain storage and whose
-- PLL settles.
use htc_leo_pkg.Prelude.{
  ℕ, ◌-◌, ◌*◌, ◌/◌, ◌^◌, ◌≤◌, ◌<◌, ◌≡◌, ◌≢◌, refl, ap, ◌∙◌, arith, Option, none, some, false, ◌||◌,
  ◌⊎◌, inl, inr, OneOf, All-OneOf, bit_and, bit_or, ◌==◌, ◌>>=◌, if◌then◌else◌, if-true, if-false,
  if-elim,
}
use htc_leo_pkg.Word.{lnot, bit_or-lt, bit_and-le}
use htc_leo_pkg.Bus.{Bus, IsStorage}
use htc_leo_pkg.Bus.Poll.{polled, IsUnchanged, wait_until-IsUnchanged}
use htc_leo_pkg.Clock.Acpu.{
  AcpuSpeed, acpu_freq_tbl, scpll_speeds, acpu_stby, Acpu, find_speed, spss_clk_cntl, spss_clk_sel,
  scpll_ctl, scpll_status, scpll_fsm_ctl_ext, hop_switch, shot_switch, replace, clamp_l,
  pllmode_standby, src_scpll, status_wait, scpll_start, scpll_hop, scpll_set_freq, select_clock,
  switch_speed, acpuclk_set_rate, acpuclk_find_speed, pllmode_normal, pllmode_mask, is_acpu_standby,
}
use htc_leo_pkg.Clock.Acpu.Bits.{l_value_read_back, source_read_back}

-- The registers that hold what was written.
abbrev pub IsClockRegister : ℕ → Type 0
IsClockRegister a =
    (a ≡ spss_clk_cntl) ⊎ (a ≡ spss_clk_sel) ⊎ (a ≡ scpll_ctl) ⊎ (a ≡ scpll_fsm_ctl_ext)

-- A row over the PLL is found by its frequency, and its L value is in range and gives the frequency.
found_in_table :
    {e : AcpuSpeed} → OneOf e scpll_speeds → find_speed acpu_freq_tbl e.acpu_khz ≡ some e
unfolding find_speed
found_in_table m =
    All-OneOf (λ (e : AcpuSpeed). find_speed acpu_freq_tbl e.acpu_khz ≡ some e) scpll_speeds
      (
        refl,
        (
          refl,
          (
            refl,
            (
              refl,
              (
                refl,
                (
                  refl,
                  (
                    refl,
                    (
                      refl,
                      (refl, (refl, (refl, (refl, (refl, (refl, (refl, (refl, (refl, tt))))))))),
                    ),
                  ),
                ),
              ),
            ),
          ),
        ),
      )
      m

row_facts :
    {e : AcpuSpeed}
    → OneOf e scpll_speeds
    → (e.clk_sel ≡ src_scpll)
      × (10 ≤ e.sc_l_value)
      × (e.sc_l_value ≤ 33)
      × ((e.sc_l_value * 38400 ≡ e.acpu_khz) × (0 < e.acpu_khz))
row_facts m =
    All-OneOf
      (λ (e : AcpuSpeed).
        (e.clk_sel ≡ src_scpll)
        × (10 ≤ e.sc_l_value)
        × (e.sc_l_value ≤ 33)
        × ((e.sc_l_value * 38400 ≡ e.acpu_khz) × (0 < e.acpu_khz)))
      scpll_speeds (omega arith) m

module _ (bus : Bus) (pause : ℕ → bus.State → bus.State) (n : ℕ)
    (laws : IsStorage bus IsClockRegister) where
  open bus use {State, readl, writel}

  -- The status register shows no switch and no calibration within `n` reads.
  abbrev pub IsSettling : State → Type 0
  IsSettling s =
      (k : ℕ) × (k < n)
      × (bit_and (readl (polled bus (λ t. t) k scpll_status s) scpll_status).0 1 ≡ 0)
      × (bit_and (readl (polled bus (λ t. t) k scpll_status s) scpll_status).0 3 ≡ 0)

  module _ (settles : (s : State) → IsSettling s) where
    fsm : IsClockRegister scpll_fsm_ctl_ext
    fsm = inr (inr (inr refl))

    sel : IsClockRegister spss_clk_sel
    sel = inr (inl refl)

    wait_one :
        (s : State)
        → (s' : State) × (status_wait bus pause n 1 s ≡ some s')
          × IsUnchanged bus IsClockRegister s s'
    wait_one s =
        let (k, h, one, three) = settles s in
        wait_until-IsUnchanged bus IsClockRegister laws (λ v. bit_and v 1 == 0) (λ t. t) n k
          scpll_status s h (ap (λ (v : ℕ). v == 0) one) (λ t a p. refl)

    wait_three :
        (s : State)
        → (s' : State) × (status_wait bus pause n 3 s ≡ some s')
          × IsUnchanged bus IsClockRegister s s'
    wait_three s =
        let (k, h, one, three) = settles s in
        wait_until-IsUnchanged bus IsClockRegister laws (λ v. bit_and v 3 == 0) (λ t. t) n k
          scpll_status s h (ap (λ (v : ℕ). v == 0) three) (λ t a p. refl)

    -- The hop leaves the L value in its register.
    hop_lem :
        (l : ℕ) (s : State)
        → l < 64
        → (s' : State) × (scpll_hop bus pause n l s ≡ some s')
          × (bit_and ((readl s' scpll_fsm_ctl_ext).0 / 2 ^ 3) 0x3f ≡ l)
    hop_lem l s h =
        let v = (readl s scpll_fsm_ctl_ext).0 in
        let w = bit_or (bit_or (bit_and v (lnot 0x1ff)) (l * 2 ^ 3)) hop_switch in
        let s₂ = writel (readl s scpll_fsm_ctl_ext).1 scpll_fsm_ctl_ext w in
        let s₃ = (readl s₂ scpll_ctl).1 in
        let s₄ = writel s₃ scpll_ctl (bit_or (readl s₂ scpll_ctl).0 pllmode_normal) in
        let (s', e, same) = wait_one s₄ in
        let width : w < 2 ^ 32 =
          bit_or-lt _ hop_switch
            (bit_or-lt _ (l * 2 ^ 3)
              (omega (arith, bit_and-le v (lnot 0x1ff), laws.width s scpll_fsm_ctl_ext fsm))
              (omega (arith, h)))
            (omega arith) in
        let read : (readl s' scpll_fsm_ctl_ext).0 ≡ w =
          same scpll_fsm_ctl_ext fsm
          ∙ (laws.other s₃ scpll_fsm_ctl_ext scpll_ctl _ fsm (omega arith)
              ∙ (laws.quiet s₂ scpll_fsm_ctl_ext scpll_ctl fsm
                  ∙ laws.self _ scpll_fsm_ctl_ext w fsm width)) in
        (
          s',
          e,
          ap (λ (t : ℕ). bit_and (t / 2 ^ 3) 0x3f) read
              ∙ l_value_read_back v l hop_switch h (omega arith),
        )

    start_returns : (ctl : ℕ) (s : State) → (s' : State) × (scpll_start bus pause n ctl s ≡ some s')
    start_returns ctl s =
        let s₁ =
          pause 10 (writel s scpll_ctl (replace bus pause n pllmode_mask pllmode_standby ctl)) in
        let v = (readl s₁ scpll_fsm_ctl_ext).0 in
        let s₃ =
          writel (readl s₁ scpll_fsm_ctl_ext).1 scpll_fsm_ctl_ext
            (bit_or (bit_or (bit_and v (lnot 0x1ff)) (0x0a * 2 ^ 3)) shot_switch) in
        let s₄ =
          writel (readl s₃ scpll_ctl).1 scpll_ctl (bit_or (readl s₃ scpll_ctl).0 pllmode_normal) in
        let (s₅, e, _) = wait_one s₄ in (pause 25 s₅, rw e)

    -- Setting the PLL returns, with the L value in its register.
    set_freq_lem :
        (l : ℕ) (s : State)
        → 10 ≤ l
        → l ≤ 33
        → (s' : State) × (scpll_set_freq bus pause n l s ≡ some s')
          × (bit_and ((readl s' scpll_fsm_ctl_ext).0 / 2 ^ 3) 0x3f ≡ l)
    unfolding scpll_set_freq
    set_freq_lem l s low high =
        let (s₁, e₁, _) = wait_three s in
        let ctl = (readl s₁ scpll_ctl).0 in
        let s₂ = (readl s₁ scpll_ctl).1 in
        let (s₃, e₃) =
          if-elim (λ (o : Option State). (t : State) × (o ≡ some t))
            (bit_and ctl pllmode_mask == pllmode_normal) {x = some s₂}
            {y = scpll_start bus pause n ctl s₂} (λ _. (s₂, refl)) (λ _. start_returns ctl s₂) in
        let (s', e, r) = hop_lem l s₃ (omega (arith, high)) in
        let same : clamp_l bus pause n l ≡ l = ground (arith, low, high) in
        (
          s',
          rw (e₁, scpll_set_freq) (rw e₃ (ap (λ (k : ℕ). scpll_hop bus pause n k s₃) same ∙ e)),
          r,
        )

    -- After the source was switched to the PLL, the speed found is the one of the L value.
    find_after :
        (l : ℕ) (s : State)
        → bit_and ((readl s scpll_fsm_ctl_ext).0 / 2 ^ 3) 0x3f ≡ l
        → (s' : State) × (acpuclk_find_speed bus pause n (select_clock bus pause n src_scpll 0 s)
            ≡ some (l * 38400, s'))
    unfolding acpuclk_find_speed select_clock
    find_after l s h =
        let w = bit_or (bit_and (readl s spss_clk_sel).0 (lnot 6)) (bit_and src_scpll 3 * 2) in
        let t = writel (readl s spss_clk_sel).1 spss_clk_sel w in
        let width : w < 2 ^ 32 =
          bit_or-lt _ 2
            (omega
              (arith, bit_and-le (readl s spss_clk_sel).0 (lnot 6), laws.width s spss_clk_sel sel))
            (omega arith) in
        let source : bit_and (readl t spss_clk_sel).0 6 / 2 ≡ 1 =
          ap (λ (v : ℕ). bit_and v 6 / 2) (laws.self _ spss_clk_sel w sel width)
          ∙ source_read_back (readl s spss_clk_sel).0 in
        let value : (readl (readl t spss_clk_sel).1 scpll_fsm_ctl_ext).0
            ≡ (readl s scpll_fsm_ctl_ext).0 =
          laws.quiet t scpll_fsm_ctl_ext spss_clk_sel fsm
          ∙ (laws.other _ scpll_fsm_ctl_ext spss_clk_sel w fsm (omega arith)
              ∙ laws.quiet s scpll_fsm_ctl_ext spss_clk_sel fsm) in
        (
          (readl (readl t spss_clk_sel).1 scpll_fsm_ctl_ext).1,
          if-true _ _ (ap (λ (v : ℕ). v == 1) source)
              ∙ ap
                  (λ (v : ℕ).
                    some (v * 38400, (readl (readl t spss_clk_sel).1 scpll_fsm_ctl_ext).1))
                  (ap (λ (v : ℕ). bit_and (v / 2 ^ 3) 0x3f) value ∙ h),
        )

    switch_lem :
        (cur next : AcpuSpeed) (s : State)
        → next.clk_sel ≡ src_scpll
        → 10 ≤ next.sc_l_value
        → next.sc_l_value ≤ 33
        → (t s' : State) × (switch_speed bus pause n cur next s ≡ some t)
          × (acpuclk_find_speed bus pause n t ≡ some (next.sc_l_value * 38400, s'))
    switch_lem cur next s source low high =
        let by_standby =
          if is_acpu_standby cur
          then s
          else select_clock bus pause n acpu_stby.clk_sel acpu_stby.clk_cfg s in
        let (s₁, e, r) = set_freq_lem next.sc_l_value by_standby low high in
        let (s', found) = find_after next.sc_l_value s₁ r in
        (
          select_clock bus pause n src_scpll 0 s₁,
          s',
          if-true _ _ (ap (λ (v : ℕ). v == src_scpll) source) ∙ rw e,
          found,
        )

    -- Asked for the frequency of a row over the PLL, other than the current one, the driver returns 0
    -- with that row for its current speed, and the registers that it leaves are those from which
    -- acpuclk_find_speed finds the frequency asked for.
    pub acpuclk_set_rate_lem :
        (rate : ℕ) (next cur : AcpuSpeed) (c : Acpu State)
        → OneOf next scpll_speeds
        → rate / 1000 ≡ next.acpu_khz
        → c.current_speed ≡ some cur
        → cur.acpu_khz ≢ next.acpu_khz
        → (c' : Acpu State) × (s' : State) × (acpuclk_set_rate bus pause n rate c ≡ some (0, c'))
          × (c'.current_speed ≡ some next)
          × (acpuclk_find_speed bus pause n c'.hw ≡ some (next.acpu_khz, s'))
    unfolding acpuclk_set_rate
    acpuclk_set_rate_lem rate next cur c row asked now other =
        let f = row_facts row in
        let found : find_speed acpu_freq_tbl (rate / 1000) ≡ some next =
          ap (find_speed acpu_freq_tbl) asked ∙ found_in_table row in
        let test : ((rate / 1000 == cur.acpu_khz) || (rate / 1000 == 0)) ≡ false =
          ground (arith, asked, other, f) in
        let (t, s', e, r) = switch_lem cur next c.hw f.0 f.1 f.2 in
        let c' : Acpu State = record c { current_speed = some next; hw = t } in
        (
          c',
          s',
          rw (now, acpuclk_set_rate)
              (if-false _ _ test
                ∙ (ap
                      (λ (o : Option AcpuSpeed). elim o [
                        | none ↦ some (2 ^ 32 - 1, c)
                        | some next ↦ switch_speed bus pause n cur next c.hw >>= λ s.
                            some (0, record c { current_speed = some next; hw = s })
                      ])
                      found
                    ∙ ap
                        (λ (o : Option State).
                          o >>= λ s. some (0, record c { current_speed = some next; hw = s }))
                        e)),
          refl,
          r ∙ ap (λ (v : ℕ). some (v, s')) f.3.0,
        )
