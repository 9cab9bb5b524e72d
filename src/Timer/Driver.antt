-- ===== src/Timer/Driver.antt =====
-- The timer driver, QSD8250Pkg/Drivers/TimerDxe/Timer.c, over the interrupt controller of Interrupt.
-- The registers are those of QSD8250Pkg/Include/Chipset/iomap.h. Raising the task priority has no
-- effect here, since one function runs at a time.
pub mod Period
use htc_leo_pkg.Prelude.{
  ℕ, ◌+◌, ◌*◌, ◌/◌, ◌%◌, ◌^◌, Option, none, some, bit_or, ◌==◌, if◌then◌else◌,
}
use htc_leo_pkg.Bus.{Bus}
use htc_leo_pkg.Efi.{Status, success, invalid_parameter, unsupported, already_started}
use htc_leo_pkg.Interrupt.{enable_interrupt_source, disable_interrupt_source, end_of_interrupt}
use htc_leo_pkg.Timer.{gpt_reg}

abbrev pub dgt_match_val : ℕ
dgt_match_val = gpt_reg 0x10

abbrev pub dgt_enable : ℕ
dgt_enable = gpt_reg 0x18

abbrev pub dgt_clear : ℕ
dgt_clear = gpt_reg 0x1c

abbrev pub dgt_enable_clr_on_match_en : ℕ
dgt_enable_clr_on_match_en = 2

abbrev pub dgt_enable_en : ℕ
dgt_enable_en = 1

abbrev pub dgt_hz : ℕ
dgt_hz = 4800000

-- INT_DEBUG_TIMER_EXP, the value of `gVector`.
abbrev pub int_debug_timer_exp : ℕ
int_debug_timer_exp = 8

-- mTimerNotifyFunction, NULL being `none`, mTimerPeriod, in units of 100 ns, and the hardware.
pub record TimerState (H S : Type 0) : Type 0 where
  pub notify : Option H
  pub period : ℕ
  pub hw : S

module _ (bus : Bus) (H : Type 0) where
  open bus use {State, readl, writel}

  pub timer_driver_register_handler : Option H → TimerState H State → Status × TimerState H State
  timer_driver_register_handler f t = elim t.notify [
    | none ↦ elim f [
      | none ↦ (invalid_parameter, t)
      | some h ↦ (success, record t { notify = some h })
    ]
    | some old ↦ elim f [
      | none ↦ (success, record t { notify = none })
      | some h ↦ (already_started, t)
    ]
  ]

  pub timer_driver_set_timer_period : ℕ → TimerState H State → Status × TimerState H State
  timer_driver_set_timer_period timer_period t =
      let off =
        disable_interrupt_source bus int_debug_timer_exp
          (writel (writel t.hw dgt_enable 0) dgt_clear 0) in
      let masked = (disable_interrupt_source bus int_debug_timer_exp t.hw).1 in
      let timer_count = timer_period / 10000 in
      let on = enable_interrupt_source bus int_debug_timer_exp (
        writel
          (writel (writel masked dgt_match_val (timer_count * (dgt_hz / 1000) % 2 ^ 32)) dgt_clear
            0)
          dgt_enable (bit_or dgt_enable_en dgt_enable_clr_on_match_en)) in
      let r = if timer_period == 0 then off else on in
      (r.0, record t { period = timer_period; hw = r.1 })

  -- With a pointer that is not NULL.
  pub timer_driver_get_timer_period : TimerState H State → Status × ℕ
  timer_driver_get_timer_period t = (success, t.period)

  pub timer_driver_generate_soft_interrupt : Status
  timer_driver_generate_soft_interrupt = unsupported

  -- `call` is the notification function.
  pub timer_interrupt_handler :
      (H → ℕ → TimerState H State → TimerState H State)
      → ℕ
      → TimerState H State
      → TimerState H State
  timer_interrupt_handler call source t =
      let told : TimerState H State = elim t.notify [ none ↦ t | some f ↦ call f t.period t ] in
      record told { hw = (end_of_interrupt bus source told.hw).1 }

  -- ExitBootServicesEvent
  pub timer_exit_boot_services_event : TimerState H State → TimerState H State
  unfolding timer_driver_set_timer_period
  timer_exit_boot_services_event t = (timer_driver_set_timer_period 0 t).1
