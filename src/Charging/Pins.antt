-- ===== src/Charging/Pins.antt =====
-- The two charger pins against the state that ChargingDxe.c keeps, for hardware whose GPIO control
-- registers are plain storage, and for an I2C bus and an LED whose calls keep the two pins.
use htc_leo_pkg.Prelude.{
  ℕ, zero, suc, ◌≡◌, ◌≢◌, refl, ◌∙◌, arith, Bool, true, false, not, ltb, ◌⊎◌, inl, inr, ◌==◌,
  if◌then◌else◌, bit_and, if-elim, if-true, if-false, ==_refl, ==_ne, sym, ◌≤◌,
}
use mathlib.Core.Path.{subst}
use htc_leo_pkg.Bus.{Bus, IsStorage}
use htc_leo_pkg.Gpio.{gpio_set}
use htc_leo_pkg.Gpio.Control.{IsControl, level, direction, gpio_set_lem}
use htc_leo_pkg.Gpio.Drive.{IsKept, read-IsKept, kept_pin, drive, drive_lem}
use htc_leo_pkg.Charging.{
  ChargerState, chg_off, chg_ac, chg_usb_low, chg_usb_high, chg_off_full_bat, is_state, Charger,
  battery_charger_enable, battery_charger_current, usb_status, usb_portsc, portsc_ls, set_pins,
  set_charger, check_usb_status, is_ac_online, ds2746_voltage, enter, enter_ac, led,
  default_threshold, wants_charging, exit_boot_services_event, led_off, led_amber, led_green,
}

-- The enable pin is active low: 0 lets the battery charge. The current pin is 1 but on a USB host.
abbrev pub enable_level : ChargerState → ℕ
enable_level chg_off = 1
enable_level chg_off_full_bat = 1
enable_level _ = 0

abbrev pub current_level : ChargerState → ℕ
current_level chg_usb_low = 0
current_level _ = 1

is_state_sound : (a b : ChargerState) → is_state a b ≡ true → a ≡ b
is_state_sound chg_off chg_off h = refl
is_state_sound chg_ac chg_ac h = refl
is_state_sound chg_usb_low chg_usb_low h = refl
is_state_sound chg_usb_high chg_usb_high h = refl
is_state_sound chg_off_full_bat chg_off_full_bat h = refl
is_state_sound _ _ h = absurd (cc h)

module _ (bus : Bus) (laws : IsStorage bus IsControl) where
  open bus use {State, readl, writel}

  -- Both pins are outputs at the levels that the state asks for.
  pub record HasPins (state : ChargerState) (s : State) : Type 0 where
    pub enable : level bus laws battery_charger_enable s ≡ enable_level state
    pub current : level bus laws battery_charger_current s ≡ current_level state
    pub enable_out : direction bus laws battery_charger_enable s ≡ 1
    pub current_out : direction bus laws battery_charger_current s ≡ 1

  kept-HasPins :
      {state : ChargerState} (s s' : State)
      → IsKept bus laws s s'
      → HasPins state s
      → HasPins state s'
  kept-HasPins s s' k p =
      let e = kept_pin bus laws battery_charger_enable s s' (omega arith) k in
      let c = kept_pin bus laws battery_charger_current s s' (omega arith) k in
      record {
        enable = e.0 ∙ p.enable;
        current = c.0 ∙ p.current;
        enable_out = e.1 ∙ p.enable_out;
        current_out = c.1 ∙ p.current_out;
      }

  -- Whatever the state, both pins are kept.
  abbrev pub Keeps : State → State → Type 0
  Keeps s s' = (state : ChargerState) → HasPins state s → HasPins state s'

  read-Keeps : (s : State) (c : ℕ) → Keeps s (readl s c).1
  read-Keeps s c state p = kept-HasPins s (readl s c).1 (read-IsKept bus laws s c) p

  then-Keeps : {s s' t : State} → Keeps s s' → Keeps s' t → Keeps s t
  then-Keeps f g state p = g state (f state p)

  -- Setting another pin keeps them, so a driver for other pins may do so.
  pub gpio_set-Keeps :
      (n on : ℕ) (s : State)
      → n ≤ 164
      → n ≢ battery_charger_enable
      → n ≢ battery_charger_current
      → Keeps s (gpio_set bus n on s)
  gpio_set-Keeps n on s h ne nc state p =
      let e = gpio_set_lem bus laws n battery_charger_enable on s h (omega arith) in
      let c = gpio_set_lem bus laws n battery_charger_current on s h (omega arith) in
      record {
        enable = e.0 ∙ (if-false _ _ (==_ne n battery_charger_enable ne) ∙ p.enable);
        current = c.0 ∙ (if-false _ _ (==_ne n battery_charger_current nc) ∙ p.current);
        enable_out = e.1 ∙ (if-false _ _ (==_ne n battery_charger_enable ne) ∙ p.enable_out);
        current_out = c.1 ∙ (if-false _ _ (==_ne n battery_charger_current nc) ∙ p.current_out);
      }

  -- One pin is driven, then the other.
  drive_both :
      (p q x y : ℕ) (s : State)
      → p ≤ 164
      → q ≤ 164
      → p ≢ q
      → let s' = drive bus laws q y (drive bus laws p x s) in
        (level bus laws p s' ≡ (if x == 0 then 0 else 1))
        × (level bus laws q s' ≡ (if y == 0 then 0 else 1))
        × (direction bus laws p s' ≡ 1)
        × (direction bus laws q s' ≡ 1)
  drive_both p q x y s hp hq ne =
      let t = drive bus laws p x s in
      let a = drive_lem bus laws p p x s hp hp in
      let b = drive_lem bus laws q p y t hq hp in
      let c = drive_lem bus laws q q y t hq hq in
      (
        b.0 ∙ (if-false _ _ (==_ne q p (λ e. ne (sym e))) ∙ (a.0 ∙ if-true _ _ (==_refl p))),
        c.0 ∙ if-true _ _ (==_refl q),
        b.1 ∙ (if-false _ _ (==_ne q p (λ e. ne (sym e))) ∙ (a.1 ∙ if-true _ _ (==_refl p))),
        c.1 ∙ if-true _ _ (==_refl q),
      )

  enable_first :
      {state : ChargerState} (x y : ℕ) (s : State)
      → (if x == 0 then 0 else 1) ≡ enable_level state
      → (if y == 0 then 0 else 1) ≡ current_level state
      → HasPins state
          (drive bus laws battery_charger_current y (drive bus laws battery_charger_enable x s))
  enable_first x y s e c =
      let d =
        drive_both battery_charger_enable battery_charger_current x y s (omega arith) (omega arith)
          (omega arith) in
      record { enable = d.0 ∙ e; current = d.1 ∙ c; enable_out = d.2; current_out = d.3 }

  current_first :
      {state : ChargerState} (x y : ℕ) (s : State)
      → (if x == 0 then 0 else 1) ≡ enable_level state
      → (if y == 0 then 0 else 1) ≡ current_level state
      → HasPins state
          (drive bus laws battery_charger_enable x (drive bus laws battery_charger_current y s))
  current_first x y s e c =
      let d =
        drive_both battery_charger_current battery_charger_enable y x s (omega arith) (omega arith)
          (omega arith) in
      record { enable = d.1 ∙ e; current = d.0 ∙ c; enable_out = d.3; current_out = d.2 }

  -- The state and the pins are those of `state`.
  pub record IsAt (state : ChargerState) (c : Charger bus) : Type 0 where
    pub kept : c.g_state ≡ state
    pub pins : HasPins state c.hw

  module _ (i2c_read : ℕ → ℕ → State → ℕ × State) (led_set_mode : ℕ → State → State)
      (micro_second_delay : ℕ → State → State) where
    set_pins-HasPins :
        (state : ChargerState) (s : State)
        → HasPins state (set_pins bus i2c_read led_set_mode micro_second_delay state s)
    set_pins-HasPins chg_off s = enable_first 1 1 s refl refl
    set_pins-HasPins chg_ac s = current_first 0 1 s refl refl
    set_pins-HasPins chg_usb_low s = enable_first 0 0 s refl refl
    set_pins-HasPins chg_usb_high s = current_first 0 1 s refl refl
    set_pins-HasPins chg_off_full_bat s = enable_first 1 1 s refl refl

    -- What a poll finds: the USB status, the voltage and the line state, in this order.
    abbrev pub target : State → ChargerState
    target s =
        let (usb, s₁) = check_usb_status bus i2c_read led_set_mode micro_second_delay s in
        let (voltage, s₂) = ds2746_voltage bus i2c_read led_set_mode micro_second_delay 0x26 s₁ in
        let (ac, s₃) = is_ac_online bus i2c_read led_set_mode micro_second_delay s₂ in
        if not usb
        then chg_off
        else if ltb voltage default_threshold
        then if ac then chg_ac else chg_usb_low
        else chg_off_full_bat

    -- `n` polls.
    abbrev pub polls : ℕ → Charger bus → Charger bus
    polls zero c = c
    polls (suc n) c = polls n (wants_charging bus i2c_read led_set_mode micro_second_delay c)

    module _ (led_keeps : (mode : ℕ) (s : State) → Keeps s (led_set_mode mode s))
        (i2c_keeps : (addr reg : ℕ) (s : State) → Keeps s (i2c_read addr reg s).1) where
      -- The pins were right, or `state` is not the one that is kept.
      abbrev pub IsDue : ChargerState → Charger bus → Type 0
      IsDue state c = HasPins c.g_state c.hw ⊎ (c.g_state ≢ state)

      stays :
          (state : ChargerState) (c : Charger bus)
          → IsDue state c
          → is_state c.g_state state ≡ true
          → IsAt state c
      stays state c (inl p) e =
          let same = is_state_sound c.g_state state e in
          record { kept = same; pins = subst (λ (t : ChargerState). HasPins t c.hw) same p }
      stays state c (inr ne) e = absurd (ne (is_state_sound c.g_state state e))

      enter-IsAt :
          (state : ChargerState) (c : Charger bus)
          → IsDue state c
          → IsAt state (enter bus i2c_read led_set_mode micro_second_delay state c)
      unfolding set_charger
      enter-IsAt state c d =
          if-elim (IsAt state) (is_state c.g_state state) (stays state c d)
            (λ _. record { kept = refl; pins = set_pins-HasPins state _ })

      enter_ac-IsAt :
          (c : Charger bus)
          → IsDue chg_ac c
          → IsAt chg_ac (enter_ac bus i2c_read led_set_mode micro_second_delay c)
      unfolding set_charger
      enter_ac-IsAt c d =
          if-elim (IsAt chg_ac) (is_state c.g_state chg_ac) (stays chg_ac c d)
            (λ _. record { kept = refl; pins = set_pins-HasPins chg_ac _ })

      led-IsAt :
          {state : ChargerState} {c : Charger bus} (mode : ℕ)
          → IsAt state c
          → IsAt state (led bus i2c_read led_set_mode micro_second_delay mode c)
      led-IsAt {state} {c} mode a = record { kept = a.kept; pins = led_keeps mode c.hw _ a.pins }

      kept-IsDue :
          {state : ChargerState} {c : Charger bus} (s' : State)
          → Keeps c.hw s'
          → IsDue state c
          → IsDue state (record c { hw = s' })
      kept-IsDue s' k (inl p) = inl (k _ p)
      kept-IsDue s' k (inr ne) = inr ne

      -- The tests of WantsCharging, on the states that their reads leave.
      branches :
          (usb low ac : Bool) (c : Charger bus) (s₁ s₂ s₃ : State)
          → Keeps c.hw s₁
          → Keeps s₁ s₂
          → Keeps s₂ s₃
          → let state =
              if not usb
              then chg_off
              else if low
              then if ac then chg_ac else chg_usb_low
              else chg_off_full_bat in
            let c₁ : Charger bus = record { hw = s₁; g_state = c.g_state } in
            let c₂ : Charger bus = record { hw = s₂; g_state = c.g_state } in
            let c₃ : Charger bus = record { hw = s₃; g_state = c.g_state } in
            IsDue state c
            → IsAt state (
                if not usb
                then (led bus i2c_read led_set_mode micro_second_delay led_off
                    (enter bus i2c_read led_set_mode micro_second_delay chg_off c₁))
                else if low
                then (led bus i2c_read led_set_mode micro_second_delay led_amber (
                    if ac
                    then enter_ac bus i2c_read led_set_mode micro_second_delay c₃
                    else enter bus i2c_read led_set_mode micro_second_delay chg_usb_low c₃))
                else (led bus i2c_read led_set_mode micro_second_delay led_green
                    (enter bus i2c_read led_set_mode micro_second_delay chg_off_full_bat c₂)))
      branches false low ac c s₁ s₂ s₃ k₁ k₂ k₃ d =
          led-IsAt led_off (enter-IsAt chg_off _ (kept-IsDue s₁ k₁ d))
      branches true false ac c s₁ s₂ s₃ k₁ k₂ k₃ d =
          led-IsAt led_green (enter-IsAt chg_off_full_bat _ (kept-IsDue s₂ (then-Keeps k₁ k₂) d))
      branches true true true c s₁ s₂ s₃ k₁ k₂ k₃ d =
          led-IsAt led_amber (enter_ac-IsAt _ (kept-IsDue s₃ (then-Keeps k₁ (then-Keeps k₂ k₃)) d))
      branches true true false c s₁ s₂ s₃ k₁ k₂ k₃ d =
          led-IsAt led_amber
            (enter-IsAt chg_usb_low _ (kept-IsDue s₃ (then-Keeps k₁ (then-Keeps k₂ k₃)) d))

      voltage-Keeps :
          (addr : ℕ) (s : State)
          → Keeps s (ds2746_voltage bus i2c_read led_set_mode micro_second_delay addr s).1
      unfolding ds2746_voltage
      voltage-Keeps addr s =
          then-Keeps (i2c_keeps addr 0x0c s) (i2c_keeps addr 0x0d (i2c_read addr 0x0c s).1)

      -- After a poll the driver's state is the one that the USB status, the battery and the line
      -- ask for, and both charger pins are outputs at the levels of that state, if the pins were
      -- right before, or the state was another. The I2C reads and the LED calls must keep the levels
      -- and the directions of these two pins; they may change other pins.
      pub wants_charging_lem :
          (c : Charger bus)
          → IsDue (target c.hw) c
          → IsAt (target c.hw) (wants_charging bus i2c_read led_set_mode micro_second_delay c)
      unfolding wants_charging check_usb_status is_ac_online
      wants_charging_lem c d =
          let s₁ = (readl c.hw usb_status).1 in
          let v = ds2746_voltage bus i2c_read led_set_mode micro_second_delay 0x26 s₁ in
          let a = readl v.1 usb_portsc in
          branches (not ((readl c.hw usb_status).0 == 0)) (ltb v.0 default_threshold)
            (bit_and a.0 portsc_ls == portsc_ls) c s₁ v.1 a.1 (read-Keeps c.hw usb_status)
            (voltage-Keeps 0x26 s₁) (read-Keeps v.1 usb_portsc) d

      polls-HasPins :
          (n : ℕ) (c : Charger bus)
          → HasPins c.g_state c.hw
          → HasPins (polls n c).g_state (polls n c).hw
      polls-HasPins zero c p = p
      polls-HasPins (suc n) c p =
          let a = wants_charging_lem c (inl p) in
          polls-HasPins n _ (
            subst
              (λ (t : ChargerState).
                HasPins t (wants_charging bus i2c_read led_set_mode micro_second_delay c).hw)
              (sym a.kept) a.pins)

      -- From a state of the driver that both pins fit, and however many polls come then, the operating
      -- system gets the phone with the charger disabled: state off, enable and current pins both
      -- driven to 1. At the start of the driver, whose state is off, the pins need not fit, and
      -- nothing sets them before the state changes. The I2C reads and the LED calls must keep the
      -- levels and the directions of the two pins.
      pub exit_boot_services_event_lem :
          (n : ℕ) (c : Charger bus)
          → HasPins c.g_state c.hw
          → IsAt chg_off
              (exit_boot_services_event bus i2c_read led_set_mode micro_second_delay (polls n c))
      unfolding exit_boot_services_event
      exit_boot_services_event_lem n c p =
          led-IsAt led_off (enter-IsAt chg_off (polls n c) (inl (polls-HasPins n c p)))
