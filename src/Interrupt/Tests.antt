-- ===== src/Interrupt/Tests.antt =====
-- Runs of the interrupt controller on plain memory.
use htc_leo_pkg.Prelude.{ℕ, ◌≡◌, arith, none, some, replicate, set}
use htc_leo_pkg.Bus.{memory_bus}
use htc_leo_pkg.Efi.{success}
use htc_leo_pkg.Interrupt.{Vic, nr_irqs, enable_interrupt_source, disable_interrupt_source}
use htc_leo_pkg.Interrupt.Sources.{source_alias}

-- Source 9 has a handler, a number.
abbrev due : Vic ℕ (ℕ → ℕ)
due = record { handlers = set (replicate nr_irqs none) 9 (some 1); hw = λ a. 0 }

source_alias_example :
    ((enable_interrupt_source memory_bus 73 due.hw).0 ≡ success)
    × (enable_interrupt_source memory_bus 73 due.hw ≡ enable_interrupt_source memory_bus 41 due.hw)
    × (disable_interrupt_source memory_bus 73 due.hw
        ≡ disable_interrupt_source memory_bus 41 due.hw)
source_alias_example = source_alias memory_bus 73 due.hw (omega arith) (omega arith)
