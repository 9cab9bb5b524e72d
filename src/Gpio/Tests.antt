-- ===== src/Gpio/Tests.antt =====
-- Runs of the GPIO operations on plain memory.
use htc_leo_pkg.Prelude.{ℕ, ◌≡◌, arith}
use htc_leo_pkg.Bus.{memory_bus, memory_bus-IsStorage}
use htc_leo_pkg.Gpio.{gpio_set}
use htc_leo_pkg.Gpio.Control.{IsControl, level, direction, gpio_set_lem}

abbrev zeros : ℕ → ℕ
zeros a = 0

gpio_set_lem_example :
    (level memory_bus (memory_bus-IsStorage IsControl) 33 (gpio_set memory_bus 33 1 zeros) ≡ 1)
    × (direction memory_bus (memory_bus-IsStorage IsControl) 33 (gpio_set memory_bus 33 1 zeros)
        ≡ 1)
gpio_set_lem_example =
    gpio_set_lem memory_bus (memory_bus-IsStorage IsControl) 33 33 1 zeros (omega arith)
      (omega arith)
