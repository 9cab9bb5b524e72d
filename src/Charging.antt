-- ===== src/Charging.antt =====
-- The charging driver, QSD8250Pkg/GPLDrivers/ChargingDxe/ChargingDxe.c, with the battery gauge,
-- QSD8250Pkg/Library/DS2746Lib/DS2746.c. The registers and the GPIO driver are the ones of Bus and
-- Gpio; the I2C protocol, the LED of the microcontroller and the timer library are parameters.
pub mod Pins
mod Tests
use htc_leo_pkg.Prelude.{
  ℕ, zero, suc, ◌+◌, ◌*◌, ◌/◌, ◌%◌, ◌^◌, Bool, true, false, not, bit_and, bit_or, ltb, ◌==◌,
  if◌then◌else◌,
}
use htc_leo_pkg.Bus.{Bus}
use htc_leo_pkg.Gpio.{gpio_set, gpio_config, gpio_output}

-- enum PSY_CHARGER_STATE
pub data ChargerState : Type 0 where
  chg_off chg_ac chg_usb_low chg_usb_high chg_off_full_bat : ChargerState

abbrev pub is_state : ChargerState → ChargerState → Bool
is_state chg_off chg_off = true
is_state chg_ac chg_ac = true
is_state chg_usb_low chg_usb_low = true
is_state chg_usb_high chg_usb_high = true
is_state chg_off_full_bat chg_off_full_bat = true
is_state _ _ = false

abbrev pub battery_charger_enable : ℕ
battery_charger_enable = 22

abbrev pub battery_charger_current : ℕ
battery_charger_current = 16

abbrev pub usb_usbcmd : ℕ
usb_usbcmd = 0xa0800140

abbrev pub usb_ulpi_viewport : ℕ
usb_ulpi_viewport = 0xa0800170

abbrev pub usb_portsc : ℕ
usb_portsc = 0xa0800184

-- MSM_SHARED_BASE + USB_STATUS
abbrev pub usb_status : ℕ
usb_status = 0x00100000 + 0xef20c

abbrev pub portsc_ls : ℕ
portsc_ls = 3 * 2 ^ 10

abbrev pub ulpi_run : ℕ
ulpi_run = 2 ^ 30

abbrev pub ulpi_write_bit : ℕ
ulpi_write_bit = 2 ^ 29

abbrev pub ulpi_addr : ℕ → ℕ
ulpi_addr n = bit_and n 255 * 2 ^ 16

abbrev pub ulpi_data : ℕ → ℕ
ulpi_data n = bit_and n 255

abbrev pub led_off : ℕ
led_off = 0

abbrev pub led_green : ℕ
led_green = 1

abbrev pub led_amber : ℕ
led_amber = 2

-- default_chg_voltage_threshold[VOLTAGE_4100]
abbrev pub default_threshold : ℕ
default_threshold = 4100

-- The hardware and the static `gState`.
pub record Charger (bus : Bus) : Type 0 where
  pub hw : bus.State
  pub g_state : ChargerState

module _ (bus : Bus) (i2c_read : ℕ → ℕ → bus.State → ℕ × bus.State)
    (led_set_mode : ℕ → bus.State → bus.State)
    (micro_second_delay : ℕ → bus.State → bus.State) where
  open bus use {State, readl, writel}

  -- `while ((read & ULPI_RUN) && (--timeout))`
  pub ulpi_wait : ℕ → State → State
  ulpi_wait zero s = s
  ulpi_wait (suc timeout) s =
      let (v, s') = readl s usb_ulpi_viewport in
      let rest = ulpi_wait timeout s' in if bit_and v ulpi_run == 0 then s' else rest

  pub ulpi_write : ℕ → ℕ → State → State
  unfolding ulpi_wait
  ulpi_write val reg s = ulpi_wait 10000 (
      writel s usb_ulpi_viewport
        (bit_or (bit_or (bit_or ulpi_run ulpi_write_bit) (ulpi_addr reg)) (ulpi_data val)))

  -- gGpio->Set, then gGpio->Config to an output.
  abbrev pub set_and_config : ℕ → ℕ → State → State
  set_and_config gpio value s = (gpio_config bus gpio gpio_output (gpio_set bus gpio value s)).1

  abbrev pub set_pins : ChargerState → State → State
  set_pins chg_usb_low s =
      set_and_config battery_charger_current 0 (set_and_config battery_charger_enable 0 s)
  set_pins chg_ac s =
      set_and_config battery_charger_enable 0 (set_and_config battery_charger_current 1 s)
  set_pins chg_usb_high s =
      set_and_config battery_charger_enable 0 (set_and_config battery_charger_current 1 s)
  set_pins chg_off_full_bat s =
      set_and_config battery_charger_current 1 (set_and_config battery_charger_enable 1 s)
  set_pins chg_off s =
      set_and_config battery_charger_current 1 (set_and_config battery_charger_enable 1 s)

  pub set_charger : ChargerState → Charger bus → Charger bus
  set_charger state c = record { hw = set_pins state c.hw; g_state = state }

  pub check_usb_status : State → Bool × State
  check_usb_status s = let (v, s') = readl s usb_status in (not (v == 0), s')

  pub is_ac_online : State → Bool × State
  is_ac_online s = let (v, s') = readl s usb_portsc in (bit_and v portsc_ls == portsc_ls, s')

  -- The gauge's address on the I2C bus is 0x26, its voltage in registers 0x0c and 0x0d.
  pub ds2746_voltage : ℕ → State → ℕ × State
  ds2746_voltage addr s =
      let (s0, s₁) = i2c_read addr 0x0c s in
      let (s1, s₂) = i2c_read addr 0x0d s₁ in
      (bit_or (s0 % 2 ^ 8 * 2 ^ 8) (s1 % 2 ^ 8) / 2 ^ 4 * 2440 / 1000, s₂)

  -- The three states that are entered over a reset of the USB controller and a delay.
  abbrev pub enter : ChargerState → Charger bus → Charger bus
  enter state c =
      if is_state c.g_state state
      then c
      else (set_charger state
          (record c { hw = micro_second_delay 10 (writel c.hw usb_usbcmd 0x00080001) }))

  abbrev pub enter_ac : Charger bus → Charger bus
  enter_ac c =
      if is_state c.g_state chg_ac
      then c
      else (set_charger chg_ac
          (record c { hw = ulpi_write 0x48 0x04 (writel c.hw usb_usbcmd 0x00080000) }))

  abbrev pub led : ℕ → Charger bus → Charger bus
  led mode c = record c { hw = led_set_mode mode c.hw }

  pub wants_charging : Charger bus → Charger bus
  unfolding ulpi_write set_charger check_usb_status is_ac_online ds2746_voltage
  wants_charging c =
      let (usb, s₁) = check_usb_status c.hw in
      let (voltage, s₂) = ds2746_voltage 0x26 s₁ in
      let (ac, s₃) = is_ac_online s₂ in
      let c₁ : Charger bus = record { hw = s₁; g_state = c.g_state } in
      let c₂ : Charger bus = record { hw = s₂; g_state = c.g_state } in
      let c₃ : Charger bus = record { hw = s₃; g_state = c.g_state } in
      let ready = if ac then enter_ac c₃ else enter chg_usb_low c₃ in
      if not usb
      then (led led_off (enter chg_off c₁))
      else if ltb voltage default_threshold
      then (led led_amber ready)
      else (led led_green (enter chg_off_full_bat c₂))

  pub exit_boot_services_event : Charger bus → Charger bus
  unfolding set_charger
  exit_boot_services_event c = led led_off (enter chg_off c)
