-- ===== src/Bus/Poll.antt =====
-- The busy wait on a register, with fuel for the reads, and what it keeps.
use htc_leo_pkg.Prelude.{
  ℕ, zero, suc, ◌≤◌, ◌<◌, ◌≡◌, refl, ◌∙◌, arith, Option, none, some, Bool, true, if◌then◌else◌,
  Bool-cases, inl, inr, if-true, if-false,
}
use htc_leo_pkg.Bus.{Bus, IsStorage}

module _ (bus : Bus) where
  open bus use {State, readl, writel}

  -- `while (!done(readl(addr))) pause;` with at most `n` reads; `none` if they are not enough.
  pub wait_until : (ℕ → Bool) → (State → State) → ℕ → ℕ → State → Option State
  wait_until done pause zero addr s = none
  wait_until done pause (suc n) addr s =
      let (v, s') = readl s addr in
      let rest = wait_until done pause n addr (pause s') in if done v then some s' else rest

  -- The state after `k` reads that did not end the wait.
  abbrev pub polled : (State → State) → ℕ → ℕ → State → State
  polled pause zero addr s = s
  polled pause (suc k) addr s = polled pause k addr (pause (readl s addr).1)

  -- If the register reads right after `k` reads, more than `k` reads are enough, and the wait ends at
  -- the first right one.
  pub wait_until_returns :
      (done : ℕ → Bool) (pause : State → State) (n k addr : ℕ) (s : State)
      → k < n
      → done (readl (polled pause k addr s) addr).0 ≡ true
      → (j : ℕ) × (j ≤ k)
        × (done (readl (polled pause j addr s) addr).0 ≡ true)
        × (wait_until done pause n addr s ≡ some (readl (polled pause j addr s) addr).1)
  unfolding wait_until
  wait_until_returns done pause zero k addr s h e = absurd (omega arith)
  wait_until_returns done pause (suc n) zero addr s h e = (0, omega arith, e, if-true _ _ e)
  wait_until_returns done pause (suc n) (suc k) addr s h e =
      elim (Bool-cases (done (readl s addr).0)) [
        | inl now ↦ (0, omega arith, now, if-true _ _ now)
        | inr later ↦
            let r =
              wait_until_returns done pause n k addr (pause (readl s addr).1) (omega arith) e in
            (suc r.0, omega (arith, r.1), r.2, if-false _ _ later ∙ r.3)
      ]

  -- `s'` shows what `s` does in every register of `P`.
  abbrev pub IsUnchanged : (ℕ → Type 0) → State → State → Type 0
  IsUnchanged P s s' = (a : ℕ) → P a → (readl s' a).0 ≡ (readl s a).0

  module _ (P : ℕ → Type 0) (laws : IsStorage bus P) where
    pub polled-IsUnchanged :
        (pause : State → State) (k addr : ℕ) (s : State)
        → ((t : State) → IsUnchanged P t (pause t))
        → IsUnchanged P s (polled pause k addr s)
    polled-IsUnchanged pause zero addr s h a p = refl
    polled-IsUnchanged pause (suc k) addr s h a p =
        polled-IsUnchanged pause k addr (pause (readl s addr).1) h a p
        ∙ (h (readl s addr).1 a p ∙ laws.quiet s a addr p)

    -- A wait that a state of the register will end does end, and changes no register of `P`.
    pub wait_until-IsUnchanged :
        (done : ℕ → Bool) (pause : State → State) (n k addr : ℕ) (s : State)
        → k < n
        → done (readl (polled pause k addr s) addr).0 ≡ true
        → ((t : State) → IsUnchanged P t (pause t))
        → (s' : State) × (wait_until done pause n addr s ≡ some s') × IsUnchanged P s s'
    wait_until-IsUnchanged done pause n k addr s h e keeps =
        let (j, le, now, r) = wait_until_returns done pause n k addr s h e in
        (
          (readl (polled pause j addr s) addr).1,
          r,
          λ a p. laws.quiet _ a addr p ∙ polled-IsUnchanged pause j addr s keeps a p,
        )
