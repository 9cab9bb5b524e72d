-- ===== src/Sirc/Register.antt =====
-- Claiming and releasing a line: what becomes of the table, and of the type and polarity bits.
use htc_leo_pkg.Prelude.{
  ℕ, ◌<◌, ◌≡◌, refl, ap, ◌∙◌, arith, Option, none, some, inl, inr, ◌⊎◌, bit_and, ◌==◌, leb, ltb,
  ◌&&◌, if◌then◌else◌, get_or, length, get_or-set_self, get_or-set_ne,
}
use htc_leo_pkg.Word.{bit_at, lnot, test_bit}
use htc_leo_pkg.Bus.{Bus, IsStorage}
use htc_leo_pkg.Bus.Poke.{put_bit, test_bit-put_bit, poke, poke_self, poke_other}
use htc_leo_pkg.Efi.{success, out_of_resources}
use htc_leo_pkg.Sirc.{
  Sirc, SircLine, num_lines, no_line, program_line, sirc_register_line, int_type, int_polarity,
  int_enclear, int_enset, sirc_edge, sirc_negative, mmio_or32, mmio_and32,
}

-- The two registers that hold the configuration.
abbrev pub IsConfig : ℕ → Type 0
IsConfig a = (a ≡ int_type) ⊎ (a ≡ int_polarity)

module _ (bus : Bus) (H : Type 0) (call : H → ℕ → Sirc H bus.State → Sirc H bus.State) where
  open bus use {State, readl, writel}

  -- A claim or a release of a line below 23 stores just that entry of the table (a release clears
  -- the context too) and leaves the counters; a line number from 23 on is refused and nothing
  -- changes.
  pub sirc_register_line_table :
      (line flags : ℕ) (handler : Option H) (context k : ℕ) (s : Sirc H State)
      → length s.lines ≡ num_lines
      → let (status, s') = sirc_register_line bus H call line flags handler context s in
        (status ≡ (if leb num_lines line then out_of_resources else success))
        × (get_or s'.lines k no_line ≡ (
            if ltb line num_lines && line == k
            then record {
              handler = handler;
              context = elim handler [ none ↦ 0 | some h ↦ context ];
            }
            else get_or s.lines k no_line))
        × (s'.irq_count ≡ s.irq_count)
        × ((if leb num_lines line then s' else s) ≡ s)
  unfolding sirc_register_line
  sirc_register_line_table line flags none context k s len = (
    ground arith,
    ground (
      arith,
      get_or-set_self s.lines line no_line no_line,
      get_or-set_ne s.lines line k no_line no_line,
    ),
    ground arith,
    ground arith,
  )
  sirc_register_line_table line flags (some f) context k s len =
      let new : SircLine H = record { handler = some f; context = context } in
      (
        ground arith,
        ground (
          arith,
          get_or-set_self s.lines line new no_line,
          get_or-set_ne s.lines line k new no_line,
        ),
        ground arith,
        ground arith,
      )

module _ (bus : Bus) (H : Type 0) (call : H → ℕ → Sirc H bus.State → Sirc H bus.State)
    (laws : IsStorage bus IsConfig) where
  open bus use {State, readl, writel}

  mmio-poke :
      (a line flags : ℕ) (hw : State)
      → (if bit_and flags 1 == 0
          then mmio_and32 bus H call a (lnot (bit_at line)) hw
          else mmio_or32 bus H call a (bit_at line) hw)
        ≡ poke bus a line (bit_and flags 1) hw
  mmio-poke a line flags hw = ground arith

  -- The writes of a claim as two read-modify-writes between the mask and the unmask.
  program_line-poke :
      (line flags : ℕ) (hw : State)
      → program_line bus H call line flags hw
        ≡ writel
            (poke bus int_polarity line (bit_and flags sirc_negative) (
              poke bus int_type line
                (bit_and flags sirc_edge)
                (writel hw int_enclear (bit_at line))))
            int_enset
            (bit_at line)
  unfolding program_line
  program_line-poke line flags hw =
      ap (λ (t : State). writel t int_enset (bit_at line))
        (mmio-poke int_polarity line flags _
          ∙ ap (poke bus int_polarity line (bit_and flags 1)) (mmio-poke int_type line flags _))

  type_after :
      (line flags : ℕ) (hw : State)
      → line < 32
      → (readl (program_line bus H call line flags hw) int_type).0
        ≡ put_bit (readl hw int_type).0 line (bit_and flags 1)
  type_after line flags hw h =
      ap (λ (t : State). (readl t int_type).0) (program_line-poke line flags hw)
      ∙ (laws.other _ int_type int_enset _ (inl refl) (omega arith)
          ∙ (poke_other bus IsConfig laws int_type int_polarity line _ _ (inl refl) (omega arith)
              ∙ (poke_self bus IsConfig laws int_type line _ _ (inl refl) h
                  ∙ ap (λ (v : ℕ). put_bit v line (bit_and flags 1))
                      (laws.other hw int_type int_enclear _ (inl refl) (omega arith)))))

  polarity_after :
      (line flags : ℕ) (hw : State)
      → line < 32
      → (readl (program_line bus H call line flags hw) int_polarity).0
        ≡ put_bit (readl hw int_polarity).0 line (bit_and flags 1)
  polarity_after line flags hw h =
      ap (λ (t : State). (readl t int_polarity).0) (program_line-poke line flags hw)
      ∙ (laws.other _ int_polarity int_enset _ (inr refl) (omega arith)
          ∙ (poke_self bus IsConfig laws int_polarity line _ _ (inr refl) h
              ∙ ap (λ (v : ℕ). put_bit v line (bit_and flags 1))
                  (poke_other bus IsConfig laws int_polarity int_type line _ _ (inr refl)
                      (omega arith)
                    ∙ laws.other hw int_polarity int_enclear _ (inr refl) (omega arith))))

  -- A claim programs the line's type bit and its polarity bit alike, both with bit 0 of the flags,
  -- so no flags give an edge line that is active high or a level line that is active low. The bits
  -- of the other lines stay.
  pub program_line_lem :
      (line flags k : ℕ) (hw : State)
      → line < num_lines
      → k < 32
      → let hw' = program_line bus H call line flags hw in
        let edge : ℕ = if bit_and flags 1 == 0 then 0 else 1 in
        (test_bit (readl hw' int_type).0 k
          ≡ (if line == k then edge else test_bit (readl hw int_type).0 k))
        × (test_bit (readl hw' int_polarity).0 k
            ≡ (if line == k then edge else test_bit (readl hw int_polarity).0 k))
        × (test_bit (readl hw' int_type).0 line ≡ test_bit (readl hw' int_polarity).0 line)
  program_line_lem line flags k hw h hk =
      let wide : line < 32 = omega arith in
      let on = bit_and flags 1 in
      let type_bit = λ (j : ℕ) (hj : j < 32).
        ap (λ (v : ℕ). test_bit v j) (type_after line flags hw wide)
        ∙ test_bit-put_bit (readl hw int_type).0 line on j wide hj in
      let polarity_bit = λ (j : ℕ) (hj : j < 32).
        ap (λ (v : ℕ). test_bit v j) (polarity_after line flags hw wide)
        ∙ test_bit-put_bit (readl hw int_polarity).0 line on j wide hj in
      (type_bit k hk, polarity_bit k hk, ground (arith, type_bit line wide, polarity_bit line wide))
