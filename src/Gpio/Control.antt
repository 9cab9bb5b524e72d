-- ===== src/Gpio/Control.antt =====
-- What `gpio_set` and `gpio_get` do to the pins, for hardware whose output and direction registers
-- are plain storage.
use htc_leo_pkg.Prelude.{
  ℕ, ◌-◌, ◌^◌, ◌*◌, ◌≤◌, ◌<◌, ◌≡◌, ◌≢◌, refl, ap, sym, ◌∙◌, arith, none, some, ◌⊎◌, inl, inr, ◌==◌,
  if◌then◌else◌, ==_ne, bit_and, OneOf, Bool-cases,
}
use mathlib.Core.Path.{subst}
use native.Mathlib.Decide.{ℕ_discrete}
use htc_leo_pkg.Word.{bit_at, test_bit, bit_and-bit_at, test_bit-lt}
use htc_leo_pkg.Bus.{Bus, IsStorage}
use htc_leo_pkg.Bus.Poke.{test_bit-put_bit, poke, poke_self, poke_other}
use native.Mathlib.Nat.{one-le-pow}
use htc_leo_pkg.Gpio.{
  gpio_config, gpio_set, gpio_get, gpio_output, gpio_input, msm_gpio_irq_ack, msm_gpio_irq_clear,
  msm_gpio_update_both_edge_detect,
}
use htc_leo_pkg.Gpio.Bank.{GpioRegs, gpio_regs, find_gpio}
use htc_leo_pkg.Gpio.Pins.{
  IsBank, find_gpio-IsBank, find_gpio-none, start_of_out, start_of_oe, out-ne-oe, bank_width,
}

-- The output and the direction registers.
abbrev pub IsControl : ℕ → Type 0
IsControl a = (r : GpioRegs) × OneOf r gpio_regs × ((a ≡ r.out) ⊎ (a ≡ r.oe))

pub out-IsControl : {r : GpioRegs} → OneOf r gpio_regs → IsControl r.out
out-IsControl {r} m = (r, m, inl refl)

pub oe-IsControl : {r : GpioRegs} → OneOf r gpio_regs → IsControl r.oe
oe-IsControl {r} m = (r, m, inr refl)

IsBank-unique : {n : ℕ} {r q : GpioRegs} → IsBank n r → IsBank n q → r ≡ q
IsBank-unique b d = cc (b.found, d.found)

module _ (bus : Bus) (laws : IsStorage bus IsControl) where
  open bus use {State, readl, writel}

  -- The bit of pin `m` in the register that `f` selects in its bank.
  abbrev pub pin_bit : (GpioRegs → ℕ) → ℕ → State → ℕ
  pin_bit f m s = elim (find_gpio m 0).0 [
    | none ↦ 0
    | some r ↦ test_bit (readl s (f r)).0 (m - r.start)
  ]

  pub pin_bit_of_bank :
      {m : ℕ} {q : GpioRegs} (f : GpioRegs → ℕ) (s : State)
      → IsBank m q
      → pin_bit f m s ≡ test_bit (readl s (f q)).0 (m - q.start)
  pin_bit_of_bank f s b = rw (b.found, pin_bit)

  pub config_output :
      {n : ℕ} {r : GpioRegs} (s : State)
      → IsBank n r
      → gpio_config bus n gpio_output s ≡ (0, poke bus r.oe (n - r.start) 1 s)
  unfolding gpio_config
  config_output s b = rw (b.found, gpio_config) (rw b.found)

  config_input :
      {n : ℕ} {r : GpioRegs} (s : State)
      → IsBank n r
      → gpio_config bus n gpio_input s ≡ (0, poke bus r.oe (n - r.start) 0 s)
  unfolding gpio_config
  config_input s b = rw (b.found, gpio_config) (rw b.found)

  gpio_set-poke :
      {n : ℕ} {r : GpioRegs} (on : ℕ) (s : State)
      → IsBank n r
      → gpio_set bus n on s ≡ poke bus r.out (n - r.start) on (poke bus r.oe (n - r.start) 1 s)
  unfolding gpio_set
  gpio_set-poke on s b = rw (b.found, config_output s b, gpio_set) (rw b.found)

  gpio_get-poke :
      {n : ℕ} {r : GpioRegs} (s : State)
      → IsBank n r
      → let s' = poke bus r.oe (n - r.start) 0 s in
        gpio_get bus n s ≡ (
          if bit_and (readl s' r.inp).0 (bit_at (n - r.start)) == 0 then 0 else 1,
          (readl s' r.inp).1,
        )
  unfolding gpio_get
  gpio_get-poke s b = rw (b.found, config_input s b, gpio_get) (rw b.found)

  -- The bit of `m` in a register of kind `f`, after pin `n`'s bit was put in a register of that
  -- kind, if equal registers of the kind stand in one bank.
  pub poked :
      (f : GpioRegs → ℕ) (n m on : ℕ) (r q : GpioRegs) (s : State)
      → IsBank n r
      → IsBank m q
      → IsControl (f q)
      → (f r ≡ f q → r.start ≡ q.start)
      → test_bit (readl (poke bus (f r) (n - r.start) on s) (f q)).0 (m - q.start)
        ≡ (if n == m then if on == 0 then 0 else 1 else test_bit (readl s (f q)).0 (m - q.start))
  poked f n m on r q s b d c one_bank = elim (ℕ_discrete (f r) (f q)) [
    | yes e ↦
        ap (λ (a : ℕ). test_bit (readl (poke bus a (n - r.start) on s) (f q)).0 (m - q.start)) e
        ∙ (ap (λ (v : ℕ). test_bit v (m - q.start))
              (poke_self bus IsControl laws (f q) (n - r.start) on s c (width b))
            ∙ (test_bit-put_bit _ (n - r.start) on (m - q.start) (width b) (width d)
                ∙ ground (arith, one_bank e, b.low, d.low)))
    | no ne ↦
        ap (λ (v : ℕ). test_bit v (m - q.start))
          (poke_other bus IsControl laws (f q) (f r) (n - r.start) on s c ne)
        ∙ rw (==_ne n m (apart ne))
  ]
    where
      width : {k : ℕ} {p : GpioRegs} → IsBank k p → k - p.start < 32
      width w = omega (arith, bank_width w)

      apart : f r ≢ f q → n ≢ m
      apart ne e = ne (ap f (IsBank-unique b (subst (λ (k : ℕ). IsBank k q) (sym e) d)))

  -- The output level and the direction (1: output) of a pin.
  abbrev pub level : ℕ → State → ℕ
  level = pin_bit (λ r. r.out)

  abbrev pub direction : ℕ → State → ℕ
  direction = pin_bit (λ r. r.oe)

  set_level :
      (n m on : ℕ) (r q : GpioRegs) (s : State)
      → IsBank n r
      → IsBank m q
      → level m (gpio_set bus n on s) ≡ (if n == m then if on == 0 then 0 else 1 else level m s)
  set_level n m on r q s b d =
      ap (level m) (gpio_set-poke on s b)
      ∙ (pin_bit_of_bank (λ r. r.out) _ d
          ∙ (poked (λ r. r.out) n m on r q (poke bus r.oe (n - r.start) 1 s) b d
                (out-IsControl d.listed) (start_of_out b.listed d.listed)
              ∙ ap (λ (t : ℕ). if n == m then if on == 0 then 0 else 1 else t)
                  (ap (λ (v : ℕ). test_bit v (m - q.start))
                      (poke_other bus IsControl laws q.out r.oe (n - r.start) 1 s
                        (out-IsControl d.listed) (λ e. out-ne-oe d.listed b.listed (sym e)))
                    ∙ sym (pin_bit_of_bank (λ r. r.out) s d))))

  set_direction :
      (n m on : ℕ) (r q : GpioRegs) (s : State)
      → IsBank n r
      → IsBank m q
      → direction m (gpio_set bus n on s) ≡ (if n == m then 1 else direction m s)
  set_direction n m on r q s b d =
      ap (direction m) (gpio_set-poke on s b)
      ∙ (pin_bit_of_bank (λ r. r.oe) _ d
          ∙ (ap (λ (v : ℕ). test_bit v (m - q.start))
                (poke_other bus IsControl laws q.oe r.out (n - r.start) on
                  (poke bus r.oe (n - r.start) 1 s) (oe-IsControl d.listed)
                  (out-ne-oe b.listed d.listed))
              ∙ (poked (λ r. r.oe) n m 1 r q s b d (oe-IsControl d.listed)
                    (start_of_oe b.listed d.listed)
                  ∙ ap (λ (t : ℕ). if n == m then 1 else t)
                      (sym (pin_bit_of_bank (λ r. r.oe) s d)))))

  -- `gpio_set n on` makes pin `n` an output at level `on`, and changes neither the level nor the
  -- direction of any other pin.
  pub gpio_set_lem :
      (n m on : ℕ) (s : State)
      → n ≤ 164
      → m ≤ 164
      → (level m (gpio_set bus n on s) ≡ (if n == m then if on == 0 then 0 else 1 else level m s))
        × (direction m (gpio_set bus n on s) ≡ (if n == m then 1 else direction m s))
  gpio_set_lem n m on s hn hm =
      let (r, b) = find_gpio-IsBank n hn in
      let (q, d) = find_gpio-IsBank m hm in
      (set_level n m on r q s b d, set_direction n m on r q s b d)

  get_result : (v k : ℕ) → (if bit_and v (bit_at k) == 0 then 0 else 1) ≡ test_bit v k
  get_result v k = ground (arith, bit_and-bit_at v k, test_bit-lt v k, one-le-pow k 2, one_times)
    where
      one_times : (if test_bit v k == 0 then 0 else 2 ^ k) ≡ test_bit v k * 2 ^ k
      one_times = elim (Bool-cases (test_bit v k == 0)) [
        | inl e ↦
            let z : test_bit v k ≡ 0 = ground arith in
            rw (e, ap (λ (t : ℕ). t * 2 ^ k) z) (omega arith)
        | inr e ↦
            let o : test_bit v k ≡ 1 = ground (arith, test_bit-lt v k) in
            rw (e, ap (λ (t : ℕ). t * 2 ^ k) o) (omega arith)
      ]

  get_level :
      (n m : ℕ) (r q : GpioRegs) (s : State)
      → IsBank n r
      → IsBank m q
      → level m (gpio_get bus n s).1 ≡ level m s
  get_level n m r q s b d =
      pin_bit_of_bank (λ r. r.out) _ d
      ∙ (ap (λ (v : ℕ). test_bit v (m - q.start))
            (ap (λ (p : ℕ × State). (readl p.1 q.out).0) (gpio_get-poke s b)
              ∙ (laws.quiet _ q.out r.inp (out-IsControl d.listed)
                  ∙ poke_other bus IsControl laws q.out r.oe (n - r.start) 0 s
                      (out-IsControl d.listed) (λ e. out-ne-oe d.listed b.listed (sym e))))
          ∙ sym (pin_bit_of_bank (λ r. r.out) s d))

  get_direction :
      (n m : ℕ) (r q : GpioRegs) (s : State)
      → IsBank n r
      → IsBank m q
      → direction m (gpio_get bus n s).1 ≡ (if n == m then 0 else direction m s)
  get_direction n m r q s b d =
      pin_bit_of_bank (λ r. r.oe) _ d
      ∙ (ap (λ (v : ℕ). test_bit v (m - q.start))
            (ap (λ (p : ℕ × State). (readl p.1 q.oe).0) (gpio_get-poke s b)
              ∙ laws.quiet _ q.oe r.inp (oe-IsControl d.listed))
          ∙ (poked (λ r. r.oe) n m 0 r q s b d (oe-IsControl d.listed)
                (start_of_oe b.listed d.listed)
              ∙ ap (λ (t : ℕ). if n == m then 0 else t) (sym (pin_bit_of_bank (λ r. r.oe) s d))))

  -- `gpio_get n` makes pin `n` an input and returns the input bit that the pin then shows. It
  -- changes no level and no other pin's direction.
  pub gpio_get_lem :
      (n m : ℕ) (s : State)
      → n ≤ 164
      → m ≤ 164
      → ((gpio_get bus n s).0 ≡ pin_bit (λ r. r.inp) n (gpio_config bus n gpio_input s).1)
        × (level m (gpio_get bus n s).1 ≡ level m s)
        × (direction m (gpio_get bus n s).1 ≡ (if n == m then 0 else direction m s))
  gpio_get_lem n m s hn hm =
      let (r, b) = find_gpio-IsBank n hn in
      let (q, d) = find_gpio-IsBank m hm in
      (
        ap (λ (p : ℕ × State). p.0) (gpio_get-poke s b)
            ∙ (get_result _ (n - r.start)
                ∙ (ap (λ (p : ℕ × State). test_bit (readl p.1 r.inp).0 (n - r.start))
                      (sym (config_input s b))
                    ∙ sym (pin_bit_of_bank (λ r. r.inp) _ b))),
        get_level n m r q s b d,
        get_direction n m r q s b d,
      )

-- A pin number above 164 is refused by every operation, and the hardware is not touched.
pub gpio_out_of_range :
    (bus : Bus) (n arg : ℕ) (s : bus.State)
    → 164 < n
    → (gpio_config bus n arg s ≡ (2 ^ 32 - 1, s))
      × (gpio_set bus n arg s ≡ s)
      × (gpio_get bus n s ≡ (0, s))
      × (msm_gpio_irq_ack bus n s ≡ s)
unfolding gpio_config gpio_set gpio_get msm_gpio_irq_ack msm_gpio_irq_clear
    msm_gpio_update_both_edge_detect
gpio_out_of_range bus n arg s h =
    let e = find_gpio-none n 0 h in
    (
      rw (e, gpio_config),
      rw (e, gpio_set),
      rw (e, gpio_get),
      rw (e, msm_gpio_update_both_edge_detect) (rw (e, msm_gpio_irq_clear)),
    )
