-- ===== src/Interrupt/Handlers.antt =====
-- Registrations that register_interrupt_source refuses, and the one past the end of the table.
use htc_leo_pkg.Prelude.{
  ℕ, ◌≤◌, ◌≡◌, arith, Option, none, some, Bool, true, false, ◌==◌, if◌then◌else◌, get_elem?, length,
  get_elem?-past_end,
}
use htc_leo_pkg.Bus.{Bus}
use htc_leo_pkg.Efi.{unsupported, invalid_parameter, already_started}
use htc_leo_pkg.Interrupt.{Vic, nr_irqs, register_interrupt_source}

module _ (bus : Bus) (H : Type 0) (call : H → ℕ → Vic H bus.State → Vic H bus.State) where
  open bus use {State, readl, writel}

  abbrev is_some : Option H → Bool
  is_some o = elim o [ none ↦ false | some _ ↦ true ]

  -- A second handler for a source that has one, and NULL for a source that has none, are refused
  -- with the two codes of the protocol, and nothing changes.
  pub register_refused :
      (source : ℕ) (h old : Option H) (s : Vic H State)
      → source ≤ nr_irqs
      → get_elem? s.handlers source ≡ some old
      → is_some h ≡ is_some old
      → register_interrupt_source bus H call source h s
        ≡ some (elim h [ none ↦ invalid_parameter | some _ ↦ already_started ], s)
  unfolding register_interrupt_source
  register_refused source none none s le e same = ground arith
  register_refused source none (some o) s le e same = cc
  register_refused source (some h) none s le e same = cc
  register_refused source (some h) (some o) s le e same = ground arith

  -- Of the sources from NR_IRQS on, those above it are refused, but NR_IRQS itself passes the check
  -- and is looked up one entry past the end of the table.
  pub register_past_end :
      (source : ℕ) (h : Option H) (s : Vic H State)
      → length s.handlers ≡ nr_irqs
      → nr_irqs ≤ source
      → register_interrupt_source bus H call source h s
        ≡ (if source == nr_irqs then none else some (unsupported, s))
  unfolding register_interrupt_source
  register_past_end source h s len le = ground (arith, get_elem?-past_end s.handlers source)
