-- ===== src/Sirc/Tests.antt =====
-- Runs of the secondary interrupt controller with one claimed line.
use htc_leo_pkg.Prelude.{
  ℕ, ◌%◌, ◌^◌, ◌+◌, ◌≡◌, refl, arith, some, replicate, set, get_or, ◌==◌, ◌&&◌, ltb, if◌then◌else◌,
}
use htc_leo_pkg.Word.{test_bit}
use htc_leo_pkg.Bus.{memory_bus, memory_bus-IsStorage}
use htc_leo_pkg.Sirc.{
  Sirc, num_lines, no_line, irq0_status, int_ack, int_type, int_polarity, program_line,
  sirc_interrupt_handler,
}
use htc_leo_pkg.Sirc.Dispatch.{is_served, serve_all, sirc_interrupt_handler_lem}
use htc_leo_pkg.Sirc.Register.{IsConfig, program_line_lem}

-- A handler is a number, and does nothing when called.
abbrev quiet : ℕ → ℕ → Sirc ℕ (ℕ → ℕ) → Sirc ℕ (ℕ → ℕ)
quiet h c s = s

-- Line 3 has a handler and is pending.
abbrev one_pending : Sirc ℕ (ℕ → ℕ)
one_pending = record {
  lines = set (replicate 23 no_line) 3 (record { handler = some 7; context = 1 });
  irq_count = replicate 23 0;
  hw = λ a. if a == irq0_status then 8 else 0;
}

sirc_interrupt_handler_lem_example :
    (ack : ℕ) × (s' : Sirc ℕ (ℕ → ℕ)) × (s' ≡ serve_all memory_bus ℕ quiet num_lines 8 one_pending)
    × (sirc_interrupt_handler memory_bus ℕ quiet one_pending
        ≡ (if ack == 0 then s' else record s' { hw = memory_bus.writel s'.hw int_ack ack }))
    × (s'.lines ≡ one_pending.lines)
    × ((k : ℕ) → test_bit ack k ≡ (if ltb k num_lines && is_served 8 one_pending k then 1 else 0))
    × ((k : ℕ)
        → get_or s'.irq_count k 0 ≡ (
            if ltb k num_lines && is_served 8 one_pending k
            then (get_or one_pending.irq_count k 0 + 1) % 2 ^ 64
            else get_or one_pending.irq_count k 0))
sirc_interrupt_handler_lem_example =
    sirc_interrupt_handler_lem memory_bus ℕ quiet one_pending (λ h c s. (refl, refl)) refl

program_line_lem_example :
    let hw' = program_line memory_bus ℕ quiet 5 1 one_pending.hw in
    (test_bit (memory_bus.readl hw' int_type).0 5 ≡ 1)
    × (test_bit (memory_bus.readl hw' int_polarity).0 5 ≡ 1)
    × (test_bit (memory_bus.readl hw' int_type).0 5
        ≡ test_bit (memory_bus.readl hw' int_polarity).0 5)
program_line_lem_example =
    program_line_lem memory_bus ℕ quiet (memory_bus-IsStorage IsConfig) 5 1 5 one_pending.hw
      (omega arith) (omega arith)
