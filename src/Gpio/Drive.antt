-- ===== src/Gpio/Drive.antt =====
-- What keeps the pins, and what Config to an output does to them: for the drivers that set pins of
-- QSD8250Pkg/Drivers/GpioDxe/GpioDxe.c among accesses to other registers.
use htc_leo_pkg.Prelude.{
  ℕ, ◌-◌, ◌≤◌, ◌<◌, ◌≡◌, ap, sym, ◌∙◌, arith, inl, inr, ◌==◌, if◌then◌else◌, OneOf, All-OneOf,
}
use htc_leo_pkg.Word.{test_bit}
use htc_leo_pkg.Bus.{Bus, IsStorage}
use htc_leo_pkg.Bus.Poke.{poke_other}
use htc_leo_pkg.Gpio.{gpio_config, gpio_set, gpio_output}
use htc_leo_pkg.Gpio.Bank.{GpioRegs, gpio_regs}
use htc_leo_pkg.Gpio.Pins.{find_gpio-IsBank, start_of_oe, out-ne-oe}
use htc_leo_pkg.Gpio.Control.{
  IsControl, out-IsControl, oe-IsControl, pin_bit_of_bank, config_output, poked, level, direction,
  gpio_set_lem,
}

control_from_bank : {r : GpioRegs} → OneOf r gpio_regs → (0xa9000000 ≤ r.out) × (0xa9000000 ≤ r.oe)
control_from_bank m =
    All-OneOf (λ (r : GpioRegs). (0xa9000000 ≤ r.out) × (0xa9000000 ≤ r.oe)) gpio_regs (omega arith)
      m

-- Every control register is above the other devices.
pub IsControl-high : {a : ℕ} → IsControl a → 0xa9000000 ≤ a
IsControl-high (r, m, inl e) = omega (arith, e, control_from_bank m)
IsControl-high (r, m, inr e) = omega (arith, e, control_from_bank m)

module _ (bus : Bus) (laws : IsStorage bus IsControl) where
  open bus use {State, readl, writel}

  -- `s'` shows what `s` does in every output and direction register.
  abbrev pub IsKept : State → State → Type 0
  IsKept s s' = (a : ℕ) → IsControl a → (readl s' a).0 ≡ (readl s a).0

  pub read-IsKept : (s : State) (c : ℕ) → IsKept s (readl s c).1
  read-IsKept s c a p = laws.quiet s a c p

  pub write-IsKept : (s : State) (c v : ℕ) → c < 0xa9000000 → IsKept s (writel s c v)
  write-IsKept s c v h a p = laws.other s a c v p (λ e. omega (arith, e, IsControl-high p))

  pub then-IsKept : {s s' t : State} → IsKept s s' → IsKept s' t → IsKept s t
  then-IsKept f g a p = g a p ∙ f a p

  pub kept_pin :
      (m : ℕ) (s s' : State)
      → m ≤ 164
      → IsKept s s'
      → (level bus laws m s' ≡ level bus laws m s)
        × (direction bus laws m s' ≡ direction bus laws m s)
  kept_pin m s s' h f =
      let (q, d) = find_gpio-IsBank m h in
      (
        pin_bit_of_bank bus laws (λ r. r.out) s' d
            ∙ (ap (λ (v : ℕ). test_bit v (m - q.start)) (f q.out (out-IsControl d.listed))
                ∙ sym (pin_bit_of_bank bus laws (λ r. r.out) s d)),
        pin_bit_of_bank bus laws (λ r. r.oe) s' d
            ∙ (ap (λ (v : ℕ). test_bit v (m - q.start)) (f q.oe (oe-IsControl d.listed))
                ∙ sym (pin_bit_of_bank bus laws (λ r. r.oe) s d)),
      )

  config_pin :
      (n m : ℕ) (s : State)
      → n ≤ 164
      → m ≤ 164
      → (level bus laws m (gpio_config bus n gpio_output s).1 ≡ level bus laws m s)
        × (direction bus laws m (gpio_config bus n gpio_output s).1
            ≡ (if n == m then 1 else direction bus laws m s))
  config_pin n m s hn hm =
      let (r, b) = find_gpio-IsBank n hn in
      let (q, d) = find_gpio-IsBank m hm in
      (
        ap (λ (p : ℕ × State). level bus laws m p.1) (config_output bus laws s b)
            ∙ (pin_bit_of_bank bus laws (λ r. r.out) _ d
                ∙ (ap (λ (v : ℕ). test_bit v (m - q.start))
                      (poke_other bus IsControl laws q.out r.oe (n - r.start) 1 s
                        (out-IsControl d.listed) (λ e. out-ne-oe d.listed b.listed (sym e)))
                    ∙ sym (pin_bit_of_bank bus laws (λ r. r.out) s d))),
        ap (λ (p : ℕ × State). direction bus laws m p.1) (config_output bus laws s b)
            ∙ (pin_bit_of_bank bus laws (λ r. r.oe) _ d
                ∙ (poked bus laws (λ r. r.oe) n m 1 r q s b d (oe-IsControl d.listed)
                      (start_of_oe b.listed d.listed)
                    ∙ ap (λ (t : ℕ). if n == m then 1 else t)
                        (sym (pin_bit_of_bank bus laws (λ r. r.oe) s d)))),
      )

  -- Set, then Config to an output.
  abbrev pub drive : ℕ → ℕ → State → State
  drive n on s = (gpio_config bus n gpio_output (gpio_set bus n on s)).1

  pub drive_lem :
      (n m on : ℕ) (s : State)
      → n ≤ 164
      → m ≤ 164
      → (level bus laws m (drive n on s)
          ≡ (if n == m then if on == 0 then 0 else 1 else level bus laws m s))
        × (direction bus laws m (drive n on s) ≡ (if n == m then 1 else direction bus laws m s))
  drive_lem n m on s hn hm =
      let a = gpio_set_lem bus laws n m on s hn hm in
      let b = config_pin n m (gpio_set bus n on s) hn hm in
      (b.0 ∙ a.0, b.1 ∙ (ap (λ (t : ℕ). if n == m then 1 else t) a.1 ∙ ground arith))
