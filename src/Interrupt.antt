-- ===== src/Interrupt.antt =====
-- The primary interrupt controller, QSD8250Pkg/Drivers/InterruptDxe/InterruptDxe.c, with the
-- registers of Include/Chipset/interrupts.h and the counts of Include/Chipset/irqs.h. `ASSERT` is
-- the empty statement of a release build.
pub mod Sources
pub mod Handlers
mod Tests
use htc_leo_pkg.Prelude.{
  ℕ, zero, suc, ◌+◌, ◌-◌, ◌^◌, List, Option, none, some, Bool, true, false, not, bit_and, ◌==◌, ltb,
  if◌then◌else◌, get_elem?, set,
}
use htc_leo_pkg.Word.{bit_at}
use htc_leo_pkg.Bus.{Bus}
use htc_leo_pkg.Efi.{Status, success, unsupported, invalid_parameter, already_started}

abbrev pub nr_irqs : ℕ
nr_irqs = 64 + 23 + 165 + 64 + 16

abbrev pub vic_reg : ℕ → ℕ
vic_reg off = 0xac000000 + off

abbrev pub int_select0 : ℕ
int_select0 = vic_reg 0x0000

abbrev pub int_select1 : ℕ
int_select1 = vic_reg 0x0004

abbrev pub int_en0 : ℕ
int_en0 = vic_reg 0x0010

abbrev pub int_en1 : ℕ
int_en1 = vic_reg 0x0014

abbrev pub int_enclear0 : ℕ
int_enclear0 = vic_reg 0x0020

abbrev pub int_enclear1 : ℕ
int_enclear1 = vic_reg 0x0024

abbrev pub int_enset0 : ℕ
int_enset0 = vic_reg 0x0030

abbrev pub int_enset1 : ℕ
int_enset1 = vic_reg 0x0034

abbrev pub int_type0 : ℕ
int_type0 = vic_reg 0x0040

abbrev pub int_type1 : ℕ
int_type1 = vic_reg 0x0044

abbrev pub int_masteren : ℕ
int_masteren = vic_reg 0x0068

abbrev pub config : ℕ
config = vic_reg 0x006c

abbrev pub int_clear0 : ℕ
int_clear0 = vic_reg 0x00b0

abbrev pub int_clear1 : ℕ
int_clear1 = vic_reg 0x00b4

abbrev pub irq_vec_rd : ℕ
irq_vec_rd = vic_reg 0x00d0

abbrev pub irq_vec_wr : ℕ
irq_vec_wr = vic_reg 0x00d8

-- `gRegisteredInterruptHandlers`, NULL being `none`, and the hardware.
pub record Vic (H S : Type 0) : Type 0 where
  pub handlers : List (Option H)
  pub hw : S

module _ (bus : Bus) where
  open bus use {State, readl, writel}

  pub init_interrupts : State → State
  init_interrupts s₀ =
      let s₁ = writel s₀ int_clear0 0xffffffff in
      let s₂ = writel s₁ int_clear1 0xffffffff in
      let s₃ = writel s₂ int_select0 0 in
      let s₄ = writel s₃ int_select1 0 in
      let s₅ = writel s₄ int_type0 0xffffffff in
      let s₆ = writel s₅ int_type1 0xffffffff in
      let s₇ = writel s₆ config 0 in
      let s₈ = writel s₇ int_en0 1 in let s₉ = writel s₈ int_en1 1 in writel s₉ int_masteren 1

  pub deinit_interrupts : State → State
  deinit_interrupts s₀ =
      let s₁ = writel s₀ int_masteren 0 in
      let s₂ = writel s₁ int_en0 0 in
      let s₃ = writel s₂ int_en1 0 in
      let s₄ = writel s₃ int_clear0 0xffffffff in
      let s₅ = writel s₄ int_clear1 0xffffffff in
      let s₆ = writel s₅ int_select0 0 in
      let s₇ = writel s₆ int_select1 0 in
      let s₈ = writel s₇ int_type0 0xffffffff in
      let s₉ = writel s₈ int_type1 0xffffffff in writel s₉ config 0

  unfoldable pub enable_interrupt_source : ℕ → State → Status × State
  enable_interrupt_source source s = if ltb nr_irqs source then (unsupported, s) else (
    success,
    writel s (if ltb 31 source then int_enset1 else int_enset0) (bit_at (bit_and source 31)),
  )

  unfoldable pub disable_interrupt_source : ℕ → State → Status × State
  disable_interrupt_source source s = if ltb nr_irqs source then (unsupported, s) else (
    success,
    writel s (if ltb 31 source then int_enclear1 else int_enclear0) (bit_at (bit_and source 31)),
  )

  -- The second component is `*InterruptState`, where it is written.
  pub get_interrupt_source_state : ℕ → State → Status × Option Bool × State
  get_interrupt_source_state source s =
      let bit = bit_at (bit_and source 31) in
      let (v, s') = readl s (if ltb 31 source then int_enclear1 else int_enclear0) in
      if ltb nr_irqs source
      then (unsupported, none, s)
      else (success, some (not (bit_and v bit == bit)), s')

  pub end_of_interrupt : ℕ → State → Status × State
  end_of_interrupt source s =
      if ltb nr_irqs source then (unsupported, s) else (success, writel s irq_vec_wr 0)

  -- The sources from `nr_irqs - left` on.
  disable_from : ℕ → State → State
  disable_from zero s = s
  disable_from (suc left) s = disable_from left (disable_interrupt_source (nr_irqs - suc left) s).1

  pub exit_boot_services_event : State → State
  exit_boot_services_event s = deinit_interrupts (disable_from nr_irqs s)

module _ (bus : Bus) (H : Type 0) (call : H → ℕ → Vic H bus.State → Vic H bus.State) where
  open bus use {State, readl, writel}

  -- `none` is an access past the end of the table.
  pub register_interrupt_source : ℕ → Option H → Vic H State → Option (Status × Vic H State)
  register_interrupt_source source handler s =
      let (status, hw') = enable_interrupt_source bus source s.hw in
      let stored = some (status, record s { handlers = set s.handlers source handler; hw = hw' }) in
      if ltb nr_irqs source then some (unsupported, s) else elim (get_elem? s.handlers source) [
        | none ↦ none
        | some none ↦ elim handler [ none ↦ some (invalid_parameter, s) | some h ↦ stored ]
        | some (some old) ↦ elim handler [ none ↦ stored | some h ↦ some (already_started, s) ]
      ]

  pub irq_interrupt_handler : Vic H State → Option (Vic H State)
  irq_interrupt_handler s =
      let (vector, hw₁) = readl s.hw irq_vec_rd in
      let hw₂ =
        writel hw₁ (if ltb 31 vector then int_clear1 else int_clear0)
          (bit_at (bit_and vector 31)) in
      let cleared : Vic H State = record s { hw = hw₂ } in
      elim (get_elem? s.handlers vector) [
        | none ↦ none
        | some none ↦ some (record cleared { hw = writel hw₂ irq_vec_wr 0 })
        | some (some h) ↦
            let after = call h vector cleared in
            some (record after { hw = writel after.hw irq_vec_wr 0 })
      ]
