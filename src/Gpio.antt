-- ===== src/Gpio.antt =====
-- The GPIO driver, QSD8250Pkg/Drivers/GpioDxe/GpioDxe.c. `Bank` is its register table and
-- `find_gpio`; here are the operations of the protocol and the interrupt side.
pub mod Bank
pub mod Pins
pub mod Control
pub mod Drive
mod Tests
use htc_leo_pkg.Prelude.{
  ℕ, zero, suc, ◌+◌, ◌-◌, ◌^◌, List, [], ◌∷◌, Option, none, some, Bool, true, false, not, bit_and,
  bit_or, bit_xor, ◌==◌, if◌then◌else◌,
}
use htc_leo_pkg.Word.{bit_at, lnot}
use htc_leo_pkg.Bus.{Bus}
use Bank.{GpioRegs, gpio_regs, find_gpio}

-- Bit 0 of `flags`, GPIO_OUTPUT.
abbrev pub gpio_output : ℕ
gpio_output = 1

abbrev pub gpio_input : ℕ
gpio_input = 0

module _ (bus : Bus) where
  open bus use {State, readl, writel}

  -- The result is the code returned, -1 being 2 ^ 32 - 1, and the new state of the hardware.
  pub gpio_config : ℕ → ℕ → State → ℕ × State
  gpio_config n flags s =
      let (ret, b) = find_gpio n 0 in
      elim ret [
        | none ↦ (2 ^ 32 - 1, s)
        | some r ↦
            let (v, s') = readl s r.oe in
            (
              0,
              writel s' r.oe
                  (if bit_and flags gpio_output == 0 then bit_and v (lnot b) else bit_or v b),
            )
      ]

  pub gpio_set : ℕ → ℕ → State → State
  gpio_set n on s =
      let (ret, b) = find_gpio n 0 in
      elim ret [
        | none ↦ s
        | some r ↦
            let (_, s₁) = gpio_config n gpio_output s in
            let (v, s₂) = readl s₁ r.out in
            writel s₂ r.out (if on == 0 then bit_and v (lnot b) else bit_or v b)
      ]

  pub gpio_get : ℕ → State → ℕ × State
  gpio_get n s =
      let (ret, b) = find_gpio n 0 in
      elim ret [
        | none ↦ (0, s)
        | some r ↦
            let (_, s₁) = gpio_config n gpio_input s in
            let (v, s₂) = readl s₁ r.inp in (if bit_and v b == 0 then 0 else 1, s₂)
      ]

  -- One pass of the `do` loop: the polarity follows the level, and the loop is left when no edge
  -- was missed.
  edge_pass : GpioRegs → State → Bool × State
  edge_pass r s =
      let (val, s₁) = readl s r.inp in
      let (pol, s₂) = readl s₁ r.int_pos in
      let s₃ = writel s₂ r.int_pos (bit_or pol (lnot val)) in
      let (intstat, s₄) = readl s₃ r.int_status in
      let (val2, s₅) = readl s₄ r.inp in (bit_and (bit_xor val val2) (lnot intstat) == 0, s₅)

  -- `loop_limit` passes are left after this one.
  edge_loop : ℕ → GpioRegs → State → State
  edge_loop zero r s = (edge_pass r s).1
  edge_loop (suc loop_limit) r s =
      let (stable, s') = edge_pass r s in
      let rest = edge_loop loop_limit r s' in if stable then s' else rest

  pub msm_gpio_update_both_edge_detect : ℕ → State → State
  msm_gpio_update_both_edge_detect gpio s =
      let (ret, b) = find_gpio gpio 0 in elim ret [ none ↦ s | some r ↦ edge_loop 100 r s ]

  pub msm_gpio_irq_clear : ℕ → State → ℕ × State
  msm_gpio_irq_clear gpio s =
      let (ret, b) = find_gpio gpio 0 in
      elim ret [ none ↦ (2 ^ 32 - 1, s) | some r ↦ (0, writel s r.int_clear b) ]

  pub msm_gpio_irq_ack : ℕ → State → State
  msm_gpio_irq_ack gpio s = msm_gpio_update_both_edge_detect gpio (msm_gpio_irq_clear gpio s).1

  -- `for (j = 32 - left; j < 32; j++)`
  isr_bits : ℕ → GpioRegs → ℕ → State → State
  isr_bits zero r pending s = s
  isr_bits (suc left) r pending s =
      let j = 32 - suc left in
      isr_bits left r pending
        (if bit_and pending (bit_at j) == 0 then s else msm_gpio_irq_ack (r.start + j) s)

  isr_banks : List GpioRegs → State → State
  isr_banks [] s = s
  isr_banks (r ∷ rs) s =
      let (st, s₁) = readl s r.int_status in
      let (e, s₂) = readl s₁ r.int_en in isr_banks rs (isr_bits 32 r (bit_and e st) s₂)

  pub msm_gpio_isr : State → State
  msm_gpio_isr s = isr_banks gpio_regs s

  -- The loop of GpioDxeInitialize that clears and masks every interrupt.
  clear_banks : List GpioRegs → State → State
  clear_banks [] s = s
  clear_banks (r ∷ rs) s = clear_banks rs (writel (writel s r.int_clear (2 ^ 32 - 1)) r.int_en 0)

  pub gpio_dxe_clear : State → State
  gpio_dxe_clear s = clear_banks gpio_regs s
