-- ===== src/Interrupt/Sources.antt =====
-- Which bit of which register a source number stands for.
use htc_leo_pkg.Prelude.{ℕ, ◌+◌, ◌%◌, ◌≤◌, ◌≡◌, arith, bit_and}
use htc_leo_pkg.Word.{bit_and_31}
use htc_leo_pkg.Bus.{Bus}
use htc_leo_pkg.Efi.{success}
use htc_leo_pkg.Interrupt.{nr_irqs, enable_interrupt_source, disable_interrupt_source}

-- The controller has 64 sources, but numbers from 64 to NR_IRQS are accepted, and enable or disable
-- the source `32 + n % 32` of the second register instead: the GPIO group sources 73 and 74, which
-- GpioDxe registers, act on sources 41 and 42.
pub source_alias :
    (bus : Bus) (n : ℕ) (s : bus.State)
    → 64 ≤ n
    → n ≤ nr_irqs
    → ((enable_interrupt_source bus n s).0 ≡ success)
      × (enable_interrupt_source bus n s ≡ enable_interrupt_source bus (32 + n % 32) s)
      × (disable_interrupt_source bus n s ≡ disable_interrupt_source bus (32 + n % 32) s)
unfolding enable_interrupt_source disable_interrupt_source
source_alias bus n s h k =
    let e : bit_and n 31 ≡ bit_and (32 + n % 32) 31 =
      omega (arith, bit_and_31 n, bit_and_31 (32 + n % 32)) in
    (ground arith, ground (arith, e), ground (arith, e))
