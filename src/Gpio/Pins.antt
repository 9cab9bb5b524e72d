-- ===== src/Gpio/Pins.antt =====
-- `find_gpio`: every pin has one bank and one bit, and no two pins share them.
use htc_leo_pkg.Prelude.{
  ℕ, ◌+◌, ◌-◌, ◌≤◌, ◌<◌, ◌≡◌, ◌≢◌, refl, ap, sym, ◌∙◌, arith, Option, none, some, List, [], ◌∷◌,
  inl, inr, leb, ◌&&◌, Bool-cases, ◌==◌, if◌then◌else◌, OneOf, All-OneOf,
}
use htc_leo_pkg.Word.{bit_at, bit_at-injective}
use htc_leo_pkg.Gpio.Bank.{GpioRegs, gpio_regs, find_gpio, find_loop}

-- The banks cover the pins from `lo` to `hi` with no gap.
abbrev Contiguous : ℕ → List GpioRegs → ℕ → Type 0
Contiguous lo [] hi = hi < lo
Contiguous lo (r ∷ rs) hi = (r.start ≡ lo) × Contiguous (r.end + 1) rs hi

find_loop-finds :
    (rs : List GpioRegs) (lo hi n : ℕ) (ret : Option GpioRegs) (bit : ℕ)
    → Contiguous lo rs hi
    → lo ≤ n
    → n ≤ hi
    → (r : GpioRegs) × OneOf r rs
      × (r.start ≤ n)
      × (n ≤ r.end)
      × (find_loop rs n ret bit ≡ (some r, bit_at (n - r.start)))
unfolding find_loop
find_loop-finds [] lo hi n ret bit c l h = absurd (omega arith)
find_loop-finds (r ∷ rs) lo hi n ret bit c l h = elim (Bool-cases (leb r.start n && leb n r.end)) [
  | inl hit ↦ (r, inl refl, ground arith, ground arith, rw hit)
  | inr miss ↦
      let rest = find_loop-finds rs (r.end + 1) hi n (some r) bit c.1 (ground arith) h in
      (rest.0, inr rest.1, rest.2, rest.3, rw miss rest.4)
]

-- `r` is the bank of pin `n`.
pub record IsBank (n : ℕ) (r : GpioRegs) : Type 0 where
  pub listed : OneOf r gpio_regs
  pub low : r.start ≤ n
  pub high : n ≤ r.end
  pub found : find_gpio n 0 ≡ (some r, bit_at (n - r.start))

pub find_gpio-IsBank : (n : ℕ) → n ≤ 164 → (r : GpioRegs) × IsBank n r
unfolding find_gpio
find_gpio-IsBank n h =
    let f = find_loop-finds gpio_regs 0 164 n none 0 (omega arith) (omega arith) h in
    (f.0, record { listed = f.1; low = f.2; high = f.3; found = ground (arith, f.4) })

pub find_gpio-none : (n bit : ℕ) → 164 < n → find_gpio n bit ≡ (none, bit)
unfolding find_gpio
find_gpio-none n bit h = ground arith

-- The output register tells the bank's first pin, and the two control registers are told apart.
first_pin : ℕ → ℕ
first_pin a =
    if a == 0xa9000800
    then 0
    else if a == 0xa9100c00
    then 16
    else if a == 0xa9000804
    then 43
    else if a == 0xa9000808
    then 68
    else if a == 0xa900080c
    then 95
    else if a == 0xa9000810
    then 104
    else if a == 0xa9000814
    then 122
    else 153

first_pin_oe : ℕ → ℕ
first_pin_oe a =
    if a == 0xa9000820
    then 0
    else if a == 0xa9100c08
    then 16
    else if a == 0xa9000824
    then 43
    else if a == 0xa9000828
    then 68
    else if a == 0xa900082c
    then 95
    else if a == 0xa9000830
    then 104
    else if a == 0xa9000834
    then 122
    else 153

first_pin-out : {r : GpioRegs} → OneOf r gpio_regs → first_pin r.out ≡ r.start
unfolding first_pin
first_pin-out m = All-OneOf (λ (r : GpioRegs). first_pin r.out ≡ r.start) gpio_regs (omega arith) m

first_pin_oe-oe : {r : GpioRegs} → OneOf r gpio_regs → first_pin_oe r.oe ≡ r.start
unfolding first_pin_oe
first_pin_oe-oe m =
    All-OneOf (λ (r : GpioRegs). first_pin_oe r.oe ≡ r.start) gpio_regs (omega arith) m

-- Pins of one output (or direction) register stand in one bank.
pub start_of_out :
    {r q : GpioRegs} → OneOf r gpio_regs → OneOf q gpio_regs → r.out ≡ q.out → r.start ≡ q.start
start_of_out m k e = sym (first_pin-out m) ∙ (ap first_pin e ∙ first_pin-out k)

pub start_of_oe :
    {r q : GpioRegs} → OneOf r gpio_regs → OneOf q gpio_regs → r.oe ≡ q.oe → r.start ≡ q.start
start_of_oe m k e = sym (first_pin_oe-oe m) ∙ (ap first_pin_oe e ∙ first_pin_oe-oe k)

-- 1 at a direction register, 0 at an output register.
is_oe : ℕ → ℕ
is_oe a =
    if a == 0xa9100c08 then 1 else if a == 0xa9100c00 then 0 else if leb 0xa9000820 a then 1 else 0

is_oe-regs : {r : GpioRegs} → OneOf r gpio_regs → (is_oe r.oe ≡ 1) × (is_oe r.out ≡ 0)
unfolding is_oe
is_oe-regs m =
    All-OneOf (λ (r : GpioRegs). (is_oe r.oe ≡ 1) × (is_oe r.out ≡ 0)) gpio_regs (omega arith) m

pub out-ne-oe : {r q : GpioRegs} → OneOf r gpio_regs → OneOf q gpio_regs → r.out ≢ q.oe
out-ne-oe {r} {q} m k e = omega (arith, ap is_oe e, is_oe-regs m, is_oe-regs k)

-- A bank holds at most 31 pins, so `1 << (n - start)` stays inside a word.
pub bank_width : {n : ℕ} {r : GpioRegs} → IsBank n r → n - r.start < 31
bank_width {n} {r} b = omega (arith, narrow, b)
  where
    narrow : r.end < r.start + 31
    narrow = All-OneOf (λ (q : GpioRegs). q.end < q.start + 31) gpio_regs (omega arith) b.listed

-- Two pins from 0 to 164 with the same bank and the same bit are one pin.
pub find_gpio-injective : (n m : ℕ) → n ≤ 164 → m ≤ 164 → find_gpio n 0 ≡ find_gpio m 0 → n ≡ m
find_gpio-injective n m hn hm e =
    let (r, b) = find_gpio-IsBank n hn in
    let (q, d) = find_gpio-IsBank m hm in
    let same : r ≡ q = cc (b.found, d.found, e) in
    let bits : bit_at (n - r.start) ≡ bit_at (m - q.start) = cc (b.found, d.found, e) in
    omega (arith, bit_at-injective _ _ bits, ap (λ (x : GpioRegs). x.start) same, b.low, d.low)
