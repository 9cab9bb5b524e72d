-- ===== src/Timer/Ends.antt =====
-- That MicroSecondDelay of GPTTimerLib.c ends, when its loops read the counter at least once a tick.
use htc_leo_pkg.Prelude.{
  ℕ, zero, suc, ◌+◌, ◌*◌, ◌/◌, ◌%◌, ◌^◌, ◌≤◌, ◌<◌, ◌≡◌, ap, ◌∙◌, arith, some, Bool, false, ◌&&◌,
  ltb, leb, ◌==◌, if-true, if-false, Bool-cases, inl, inr, ℕ_discrete, ltb→lt,
}
use mathlib.Core.Path.{subst}
use htc_leo_pkg.Bus.{Bus}
use htc_leo_pkg.Timer.{gpt_count_val, delay_ticks, count_while, micro_second_delay}
use htc_leo_pkg.Timer.Delay.{IsCounter, Whenever, micro_second_delay-ticks}

no_wrap :
    (a c ticks : ℕ)
    → c ≡ a % 2 ^ 32
    → a + ticks < (a / 2 ^ 32 + 1) * 2 ^ 32
    → (ltb ((c + ticks) % 2 ^ 32) c && leb c c) ≡ false
no_wrap a c ticks e h =
    let above : c ≤ (c + ticks) % 2 ^ 32 = omega (arith, e, h) in ground (arith, above)

nothing_below_zero : (x c : ℕ) → (ltb x 0 && leb c 0) ≡ false
nothing_below_zero x c = ground arith

-- At the target the second loop stops.
at_target :
    (a c ticks t : ℕ)
    → c ≡ a % 2 ^ 32
    → t ≡ a + ticks
    → ltb (t % 2 ^ 32) ((c + ticks) % 2 ^ 32) ≡ false
at_target a c ticks t e h =
    let same : t % 2 ^ 32 ≡ (c + ticks) % 2 ^ 32 = omega (arith, e, h) in ground (arith, same)

module _ (bus : Bus) (n : ℕ) (now : bus.State → ℕ) (counter : IsCounter bus now)
    (slow : (s : bus.State) → now (bus.readl s gpt_count_val).1 ≤ now s + 1) where
  open bus use {State, readl, writel}

  -- The state after `k` reads of the counter.
  abbrev pub after : ℕ → State → State
  after zero s = s
  after (suc k) s = after k (readl s gpt_count_val).1

  after_later : (k : ℕ) (s : State) → now s ≤ now (after k s)
  after_later zero s = omega arith
  after_later (suc k) s = omega (arith, counter.forward s, after_later k (readl s gpt_count_val).1)

  -- No time between two reads is passed over.
  hit :
      (m target : ℕ) (s : State)
      → now s ≤ target
      → target ≤ now (after m s)
      → (k : ℕ) × (k ≤ m) × (now (after k s) ≡ target)
  hit zero target s a b = (0, omega arith, omega (arith, a, b))
  hit (suc m) target s a b = elim (ℕ_discrete (now s) target) [
    | yes e ↦ (0, omega arith, e)
    | no ne ↦
        let r = hit m target (readl s gpt_count_val).1 (omega (arith, ne, a, slow s)) b in
        (suc r.0, omega (arith, r.1), r.2)
  ]

  -- A count that stops the loop, read before the state `r.1` and within a tick of it, and not after
  -- `limit`.
  abbrev IsStop : (ℕ → Bool) → ℕ → ℕ → ℕ × State → Type 0
  IsStop go start limit r =
      (at_time : ℕ) × (start ≤ at_time)
      × (at_time ≤ limit)
      × (at_time ≤ now r.1)
      × (now r.1 ≤ at_time + 1)
      × (r.0 ≡ at_time % 2 ^ 32)
      × (go r.0 ≡ false)

  stop_now :
      (go : ℕ → Bool) (left count : ℕ) (s : State)
      → zero < left
      → go count ≡ false
      → count_while bus n go left count s ≡ some (count, s)
  stop_now go zero count s h e = absurd (omega (arith, h))
  stop_now go (suc left) count s h e = if-false _ _ e

  -- The pass that reads the next count.
  count_while-IsStop_next :
      (go : ℕ → Bool) (start limit left k : ℕ) (s : State)
      → suc k < suc left
      → go (now (after k s) % 2 ^ 32) ≡ false
      → now (after k s) ≤ limit
      → start ≤ now s
      → ((count k : ℕ) (s : State) (t : ℕ)
          → suc k < left
          → go (now (after k s) % 2 ^ 32) ≡ false
          → now (after k s) ≤ limit
          → start ≤ t
          → t ≤ now s
          → now s ≤ t + 1
          → count ≡ t % 2 ^ 32
          → (r : ℕ × State) × (count_while bus n go left count s ≡ some r)
            × IsStop go start limit r)
      → (r : ℕ × State) × (count_while bus n go left
            (readl s gpt_count_val).0
            (readl s gpt_count_val).1
          ≡ some r)
        × IsStop go start limit r
  count_while-IsStop_next go start limit left zero s h e l a rest =
      let stop = ap go (counter.shows s) ∙ e in
      (
        readl s gpt_count_val,
        stop_now go left _ _ (omega (arith, h)) stop,
        (now s, a, l, counter.forward s, slow s, counter.shows s, stop),
      )
  count_while-IsStop_next go start limit left (suc k) s h e l a rest =
      rest (readl s gpt_count_val).0 k (readl s gpt_count_val).1 (now s) (omega (arith, h)) e l a
        (counter.forward s) (slow s) (counter.shows s)

  count_while-IsStop :
      (go : ℕ → Bool) (start limit left count k : ℕ) (s : State) (t : ℕ)
      → suc k < left
      → go (now (after k s) % 2 ^ 32) ≡ false
      → now (after k s) ≤ limit
      → start ≤ t
      → t ≤ now s
      → now s ≤ t + 1
      → count ≡ t % 2 ^ 32
      → (r : ℕ × State) × (count_while bus n go left count s ≡ some r) × IsStop go start limit r
  count_while-IsStop go start limit zero count k s t h e l a b c d = absurd (omega (arith, h))
  count_while-IsStop go start limit (suc left) count k s t h e l a b c d =
      elim (Bool-cases (go count)) [
        | inl more ↦
            let r =
              count_while-IsStop_next go start limit left k s h e l (omega (arith, a, b))
                (count_while-IsStop go start limit left) in
            (r.0, if-true _ _ more ∙ r.1, r.2)
        | inr stop ↦ (
          (count, s),
          if-false _ _ stop,
          (t, a, omega (arith, b, l, after_later k s), b, c, d, stop),
        )
      ]

  module _ (m : ℕ) (fuel : suc m < n) where
    -- The first loop ends before the target is passed.
    first_loop :
        (ticks : ℕ) (s : State)
        → now (readl s gpt_count_val).1 + ticks ≤ now (after m (readl s gpt_count_val).1)
        → ticks < 2 ^ 32
        → let c = (readl s gpt_count_val).0 in
          let go = λ (count : ℕ). ltb ((c + ticks) % 2 ^ 32) count && leb c count in
          (r : ℕ × State) × (count_while bus n go n c (readl s gpt_count_val).1 ≡ some r)
          × IsStop go (now s) (now s + ticks) r
    first_loop ticks s reads h =
        let c = (readl s gpt_count_val).0 in
        let s₀ = (readl s gpt_count_val).1 in
        let go = λ (count : ℕ). ltb ((c + ticks) % 2 ^ 32) count && leb c count in
        let edge = (now s / 2 ^ 32 + 1) * 2 ^ 32 in
        elim (Bool-cases (ltb (now s + ticks) edge)) [
          | inl within ↦
              let stop : go c ≡ false =
                no_wrap (now s) c ticks (counter.shows s) (ltb→lt _ _ within) in
              (
                (c, s₀),
                stop_now go n c s₀ (omega (arith, fuel)) stop,
                (now s, omega arith, omega arith, counter.forward s, slow s, counter.shows s, stop),
              )
          | inr wraps ↦
              let over : edge ≤ now s + ticks = ground (arith, wraps) in
              let k =
                hit m edge s₀ (omega (arith, slow s))
                  (omega (arith, reads, over, counter.forward s)) in
              let stop : go (now (after k.0 s₀) % 2 ^ 32) ≡ false =
                ap go (omega (arith, k.2)) ∙ nothing_below_zero ((c + ticks) % 2 ^ 32) c in
              count_while-IsStop go (now s) (now s + ticks) n c k.0 s₀ (now s)
                (omega (arith, fuel, k.1)) stop (omega (arith, k.2, over)) (omega arith)
                (counter.forward s) (slow s) (counter.shows s)
        ]

    -- The second loop ends at the target.
    second_loop :
        (ticks : ℕ) (s : State) (r : ℕ × State) (t : ℕ)
        → now s ≤ t
        → t ≤ now s + ticks
        → t ≤ now r.1
        → now r.1 ≤ t + 1
        → r.0 ≡ t % 2 ^ 32
        → now r.1 + ticks ≤ now (after m r.1)
        → let go = λ (count : ℕ). ltb count (((readl s gpt_count_val).0 + ticks) % 2 ^ 32) in
          (x : ℕ × State) × (count_while bus n go n r.0 r.1 ≡ some x)
          × IsStop go t (now s + ticks) x
    second_loop ticks s r t a b c d e reads =
        let c₀ = (readl s gpt_count_val).0 in
        let go = λ (count : ℕ). ltb count ((c₀ + ticks) % 2 ^ 32) in
        elim (Bool-cases (t == now s + ticks)) [
          | inl here ↦
              let stop : go r.0 ≡ false =
                ap go e ∙ at_target (now s) c₀ ticks t (counter.shows s) (ground (arith, here)) in
              (
                r,
                stop_now go n r.0 r.1 (omega (arith, fuel)) stop,
                (t, omega arith, b, c, d, e, stop),
              )
          | inr before ↦
              let less : t < now s + ticks = ground (arith, before, b) in
              let k =
                hit m (now s + ticks) r.1 (omega (arith, less, d)) (omega (arith, reads, a, c)) in
              let stop : go (now (after k.0 r.1) % 2 ^ 32) ≡ false =
                at_target (now s) c₀ ticks (now (after k.0 r.1)) (counter.shows s) k.2 in
              count_while-IsStop go t (now s + ticks) n r.0 k.0 r.1 t (omega (arith, fuel, k.1))
                stop (omega (arith, k.2)) (omega arith) c d e
        ]

    -- If the counter is read at least once a tick, and the reads of a loop outlast the delay, then
    -- MicroSecondDelay ends when the ticks that were asked for have passed, or one tick later. At 33
    -- ticks for a millisecond it ends less than a microsecond before the time that was asked for, and
    -- less than two ticks after it.
    pub micro_second_delay_returns :
        (us : ℕ) (s : State)
        → us < 2 ^ 32
        → ((t : State) → now t + delay_ticks us ≤ now (after m t))
        → (s' : State) × (micro_second_delay bus n us s ≡ some s')
          × (now s + delay_ticks us ≤ now s')
          × (now s' ≤ now s + delay_ticks us + 1)
          × (now s * 1000 + us * 33 ≤ now s' * 1000 + 32)
          × (now s' * 1000 < now s * 1000 + us * 33 + 2000)
    unfolding micro_second_delay
    micro_second_delay_returns us s h reads =
        let ticks = delay_ticks us in
        let s₀ = (readl s gpt_count_val).1 in
        let (r, e, x) = first_loop ticks s (reads s₀) (omega (arith, h)) in
        let (y, e', z) = second_loop ticks s r x.0 x.1 x.2 x.3 x.4 x.5 (reads r.1) in
        let ends : micro_second_delay bus n us s ≡ some y.1 = rw (e, micro_second_delay) (rw e') in
        let early : now s + ticks ≤ now y.1 =
          subst (Whenever (λ s'. now s + ticks ≤ now s')) ends
            (micro_second_delay-ticks bus n now counter us s h) in
        let late : now y.1 ≤ now s + ticks + 1 = omega (arith, z.2, z.4) in
        (y.1, ends, early, late, omega (arith, early), omega (arith, late))
