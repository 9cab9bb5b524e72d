-- ===== src/Timer/Delay.antt =====
-- MicroSecondDelay of GPTTimerLib.c against the time that passes, the counter's wrap-around included,
-- and the conversion of ticks to nanoseconds.
use htc_leo_pkg.Prelude.{
  ℕ, zero, suc, ◌+◌, ◌*◌, ◌/◌, ◌%◌, ◌^◌, ◌≤◌, ◌<◌, ◌≡◌, arith, Option, none, some, Bool, false,
  ◌&&◌, ltb, leb, ◌>>=◌, if-elim, Bool-cases, inl, inr,
}
use htc_leo_pkg.Bus.{Bus}
use htc_leo_pkg.Timer.{
  gpt_count_val, delay_ticks, frequency, get_time_in_nano_second, count_while, micro_second_delay,
}

-- Of a count of ticks of the 32-bit counter, GetTimeInNanoSecond gives the exact quotient, rounded
-- down: no product overflows.
pub get_time_in_nano_second_lem :
    (ticks : ℕ) → ticks < 2 ^ 32 → get_time_in_nano_second ticks ≡ ticks * 1000000000 / frequency
unfolding get_time_in_nano_second
get_time_in_nano_second_lem ticks h = omega (arith, h)

-- The counter register shows the low 32 bits of a time that does not go back.
pub record IsCounter (bus : Bus) (now : bus.State → ℕ) : Type 0 where
  pub shows : (s : bus.State) → (bus.readl s gpt_count_val).0 ≡ now s % 2 ^ 32
  pub forward : (s : bus.State) → now s ≤ now (bus.readl s gpt_count_val).1

-- The two exits of the loops leave the target behind: `a₀`, `a₁` and `a₂` are the times of the first
-- count and of the counts that stop the loops.
target_passed :
    (a₀ a₁ a₂ c₀ c₁ c₂ ticks : ℕ)
    → ticks < 2 ^ 32
    → a₀ ≤ a₁
    → a₁ ≤ a₂
    → c₀ ≡ a₀ % 2 ^ 32
    → c₁ ≡ a₁ % 2 ^ 32
    → c₂ ≡ a₂ % 2 ^ 32
    → (ltb ((c₀ + ticks) % 2 ^ 32) c₁ && leb c₀ c₁) ≡ false
    → ltb c₂ ((c₀ + ticks) % 2 ^ 32) ≡ false
    → a₀ + ticks ≤ a₂
target_passed a₀ a₁ a₂ c₀ c₁ c₂ ticks h p q e₀ e₁ e₂ first second =
    let past : (c₀ + ticks) % 2 ^ 32 ≤ c₂ = ground (arith, second) in
    elim (Bool-cases (ltb ((c₀ + ticks) % 2 ^ 32) c₁)) [
      | inl above ↦
          let wrapped : c₁ < c₀ = ground (arith, first, above) in
          omega (arith, wrapped, past, h, p, q, e₀, e₁, e₂)
      | inr below ↦
          let reached : c₁ ≤ (c₀ + ticks) % 2 ^ 32 = ground (arith, below) in
          omega (arith, reached, past, h, p, q, e₀, e₁, e₂)
    ]

-- Of a result, if there is one.
abbrev pub Whenever {ℓ} : {A : Type 0} → (A → Type ℓ) → Option A → Type ℓ
Whenever P none = Unit
Whenever P (some a) = P a

module _ (bus : Bus) (n : ℕ) (now : bus.State → ℕ) (counter : IsCounter bus now) where
  open bus use {State, readl, writel}

  -- A count that was read at a time from `start` on, and stops the loop.
  abbrev IsExit : (ℕ → Bool) → ℕ → ℕ × State → Type 0
  IsExit go start r =
      (at_time : ℕ) × (start ≤ at_time)
      × (at_time ≤ now r.1)
      × (r.0 ≡ at_time % 2 ^ 32)
      × (go r.0 ≡ false)

  count_while-IsExit :
      (go : ℕ → Bool) (start left count : ℕ) (s : State) (at_time : ℕ)
      → start ≤ at_time
      → at_time ≤ now s
      → count ≡ at_time % 2 ^ 32
      → Whenever (IsExit go start) (count_while bus n go left count s)
  count_while-IsExit go start zero count s t a b c = tt
  count_while-IsExit go start (suc left) count s t a b c =
      if-elim (Whenever (IsExit go start)) (go count)
        (λ _.
          count_while-IsExit go start left _ (readl s gpt_count_val).1 (now s) (omega (arith, a, b))
            (counter.forward s) (counter.shows s))
        (λ e. (t, a, b, c, e))

  Whenever-bind :
      {A B : Type 0} (P : A → Type 0) (Q : B → Type 0) (o : Option A) (f : A → Option B)
      → Whenever P o
      → ((a : A) → P a → Whenever Q (f a))
      → Whenever Q (o >>= f)
  Whenever-bind P Q none f p q = tt
  Whenever-bind P Q (some a) f p q = q a p

  -- The ticks that were asked for have passed since it began.
  pub micro_second_delay-ticks :
      (us : ℕ) (s : State)
      → us < 2 ^ 32
      → Whenever (λ s'. now s + delay_ticks us ≤ now s') (micro_second_delay bus n us s)
  unfolding micro_second_delay
  micro_second_delay-ticks us s h =
      let c = (readl s gpt_count_val).0 in
      let s₀ = (readl s gpt_count_val).1 in
      let timeout = (c + delay_ticks us) % 2 ^ 32 in
      let first = λ (count : ℕ). ltb timeout count && leb c count in
      let second = λ (count : ℕ). ltb count timeout in
      Whenever-bind (IsExit first (now s)) (λ s'. now s + delay_ticks us ≤ now s')
        (count_while bus n first n c s₀) _
        (count_while-IsExit first (now s) n c s₀ (now s) (omega arith) (counter.forward s)
          (counter.shows s))
        (λ r x.
          Whenever-bind (IsExit second x.0) (λ s'. now s + delay_ticks us ≤ now s')
            (count_while bus n second n r.0 r.1) _
            (count_while-IsExit second x.0 n r.0 r.1 x.0 (omega arith) x.2 x.3)
            (λ t y.
              let passed =
                target_passed (now s) x.0 y.0 c r.0 t.0 (delay_ticks us) (omega (arith, h)) x.1 y.1
                  (counter.shows s) x.3 y.3 x.4 y.4 in
              omega (arith, passed, y.2)))

  Whenever-map :
      {A : Type 0} (P Q : A → Type 0) (o : Option A)
      → ((a : A) → P a → Q a)
      → Whenever P o
      → Whenever Q o
  Whenever-map P Q none f p = tt
  Whenever-map P Q (some a) f p = f a p

  -- A delay never ends before its ticks: whenever it ends, they have passed since it began, at whatever
  -- speed the loop reads and however often the counter wraps. At 33 ticks for a millisecond these are
  -- the microseconds that were asked for, less than one of them missing.
  pub micro_second_delay_never_early :
      (us : ℕ) (s : State)
      → us < 2 ^ 32
      → Whenever
          (λ s'. (now s + delay_ticks us ≤ now s') × (now s * 1000 + us * 33 ≤ now s' * 1000 + 32))
          (micro_second_delay bus n us s)
  micro_second_delay_never_early us s h =
      Whenever-map (λ s'. now s + delay_ticks us ≤ now s') _ (micro_second_delay bus n us s)
        (λ s' p. (p, omega arith)) (micro_second_delay-ticks us s h)
