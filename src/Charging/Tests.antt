-- ===== src/Charging/Tests.antt =====
-- Runs of ChargingDxe.c on plain memory, with a gauge that always reads 0x60 over a bus whose clock and
-- data pin, GPIO 95 and 96, are driven by each read, and an LED that changes no register.
use htc_leo_pkg.Prelude.{ℕ, arith, refl, inl, ◌==◌, if◌then◌else◌}
use htc_leo_pkg.Bus.{memory_bus, memory_bus-IsStorage}
use htc_leo_pkg.Word.{test_bit}
use htc_leo_pkg.Gpio.{gpio_set}
use htc_leo_pkg.Gpio.Bank.{find_gpio}
use htc_leo_pkg.Gpio.Control.{IsControl}
use htc_leo_pkg.Charging.{chg_off, Charger, usb_status, wants_charging, exit_boot_services_event}
use htc_leo_pkg.Charging.Pins.{
  Keeps, gpio_set-Keeps, HasPins, IsAt, target, wants_charging_lem, polls,
  exit_boot_services_event_lem,
}

abbrev gauge : ℕ → ℕ → (ℕ → ℕ) → ℕ × (ℕ → ℕ)
gauge addr reg s = (0x60, gpio_set memory_bus 96 0 (gpio_set memory_bus 95 0 s))

gauge-Keeps :
    (addr reg : ℕ) (s : ℕ → ℕ)
    → Keeps memory_bus (memory_bus-IsStorage IsControl) s (gauge addr reg s).1
gauge-Keeps addr reg s state p =
    let laws = memory_bus-IsStorage IsControl in
    gpio_set-Keeps memory_bus laws 96 0 (gpio_set memory_bus 95 0 s) (omega arith) (omega arith)
      (omega arith) state
      (gpio_set-Keeps memory_bus laws 95 0 s (omega arith) (omega arith) (omega arith) state p)

abbrev same : ℕ → (ℕ → ℕ) → (ℕ → ℕ)
same n s = s

-- A USB host is plugged in; GPIO 16 and 22, bits 0 and 6 of the second bank, are outputs at level 1.
abbrev plugged : Charger memory_bus
plugged = record {
  hw = λ a.
      if a == usb_status
      then 1
      else if a == 0xa9100c00
      then 0x41
      else if a == 0xa9100c08
      then 0x41
      else 0;
  g_state = chg_off;
}

plugged-HasPins : HasPins memory_bus (memory_bus-IsStorage IsControl) chg_off plugged.hw
unfolding find_gpio test_bit
plugged-HasPins = record { enable = refl; current = refl; enable_out = refl; current_out = refl }

wants_charging_lem_example :
    IsAt memory_bus
      (memory_bus-IsStorage IsControl)
      (target memory_bus (memory_bus-IsStorage IsControl) gauge same same plugged.hw)
      (wants_charging memory_bus gauge same same plugged)
wants_charging_lem_example =
    wants_charging_lem memory_bus (memory_bus-IsStorage IsControl) gauge same same (λ m s t p. p)
      gauge-Keeps plugged (inl plugged-HasPins)

exit_boot_services_event_lem_example : IsAt memory_bus (memory_bus-IsStorage IsControl) chg_off (
    exit_boot_services_event memory_bus gauge same same
      (polls memory_bus (memory_bus-IsStorage IsControl) gauge same same 3 plugged))
exit_boot_services_event_lem_example =
    exit_boot_services_event_lem memory_bus (memory_bus-IsStorage IsControl) gauge same same
      (λ m s t p. p) gauge-Keeps 3 plugged plugged-HasPins
