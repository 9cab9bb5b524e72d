-- ===== src/Sirc.antt =====
-- The secondary interrupt controller, QSD8250Pkg/Drivers/SircDxe/SircDxe.c, with the constants of
-- QSD8250Pkg/Include/Protocol/HtcLeoSirc.h and QSD8250Pkg/Include/Chipset/interrupts.h.
pub mod Dispatch
pub mod Register
mod Tests
use htc_leo_pkg.Prelude.{
  ℕ, zero, suc, ◌+◌, ◌-◌, ◌%◌, ◌^◌, List, Option, none, some, bit_and, bit_or, ◌==◌, leb,
  if◌then◌else◌, get_or, set,
}
use htc_leo_pkg.Word.{bit_at, lnot}
use htc_leo_pkg.Bus.{Bus}
use htc_leo_pkg.Efi.{Status, success, out_of_resources}

abbrev pub num_lines : ℕ
num_lines = 23

abbrev pub sirc_edge : ℕ
sirc_edge = 1

abbrev pub sirc_negative : ℕ
sirc_negative = 1

abbrev int_sirc_0 : ℕ
int_sirc_0 = 9

abbrev pub sirc_reg : ℕ → ℕ
sirc_reg off = 0xac200000 + off

abbrev pub int_select : ℕ
int_select = sirc_reg 0x0000

abbrev pub int_enable : ℕ
int_enable = sirc_reg 0x0004

abbrev pub int_enclear : ℕ
int_enclear = sirc_reg 0x0008

abbrev pub int_enset : ℕ
int_enset = sirc_reg 0x000c

abbrev pub int_type : ℕ
int_type = sirc_reg 0x0010

abbrev pub int_polarity : ℕ
int_polarity = sirc_reg 0x0014

abbrev pub irq0_status : ℕ
irq0_status = sirc_reg 0x001c

abbrev pub int_ack : ℕ
int_ack = sirc_reg 0x0028

-- SIRC_LINE: the handler pointer, NULL being `none`, and the context pointer.
pub record SircLine (H : Type 0) : Type 0 where
  pub handler : Option H
  pub context : ℕ

-- `mLine`, `mSircProtocol.IrqCount` and the hardware.
pub record Sirc (H S : Type 0) : Type 0 where
  pub lines : List (SircLine H)
  pub irq_count : List ℕ
  pub hw : S

abbrev pub no_line : {H : Type 0} → SircLine H
no_line = record { handler = none; context = 0 }

-- `H` is the type of handlers, and `call` what a handler does when it is called with its context.
module _ (bus : Bus) (H : Type 0) (call : H → ℕ → Sirc H bus.State → Sirc H bus.State) where
  open bus use {State, readl, writel}

  abbrev pub line_of : ℕ → Sirc H State → SircLine H
  line_of line s = get_or s.lines line no_line

  -- One round of the loop of SircInterruptHandler, over `Ack` and the state.
  pub dispatch_line : ℕ → ℕ → ℕ × Sirc H State → ℕ × Sirc H State
  dispatch_line status line (ack, s) =
      if bit_and status (bit_at line) == 0 then (ack, s) else elim (line_of line s).handler [
        | none ↦ (ack, s)
        | some h ↦
            let counted = record s {
              irq_count = set s.irq_count line ((get_or s.irq_count line 0 + 1) % 2 ^ 64);
            } in
            (bit_or ack (bit_at line), call h (line_of line counted).context counted)
      ]

  -- The rounds for the last `left` lines.
  pub dispatch_lines : ℕ → ℕ → ℕ × Sirc H State → ℕ × Sirc H State
  dispatch_lines zero status p = p
  dispatch_lines (suc left) status p =
      dispatch_lines left status (dispatch_line status (num_lines - suc left) p)

  pub sirc_interrupt_handler : Sirc H State → Sirc H State
  sirc_interrupt_handler s =
      let (status, hw') = readl s.hw irq0_status in
      let (ack, s') = dispatch_lines num_lines status (0, record s { hw = hw' }) in
      if status == 0
      then record s { hw = hw' }
      else if ack == 0
      then s'
      else record s' { hw = writel s'.hw int_ack ack }

  abbrev mmio_or32 : ℕ → ℕ → State → State
  mmio_or32 a v s = let (old, s') = readl s a in writel s' a (bit_or old v)

  abbrev mmio_and32 : ℕ → ℕ → State → State
  mmio_and32 a v s = let (old, s') = readl s a in writel s' a (bit_and old v)

  -- The register writes of a claim, in order.
  pub program_line : ℕ → ℕ → State → State
  program_line line flags hw =
      let bit = bit_at line in
      let hw₁ = writel hw int_enclear bit in
      let hw₂ =
        if bit_and flags sirc_edge == 0
        then mmio_and32 int_type (lnot bit) hw₁
        else mmio_or32 int_type bit hw₁ in
      let hw₃ =
        if bit_and flags sirc_negative == 0
        then mmio_and32 int_polarity (lnot bit) hw₂
        else mmio_or32 int_polarity bit hw₂ in
      writel hw₃ int_enset bit

  pub sirc_register_line : ℕ → ℕ → Option H → ℕ → Sirc H State → Status × Sirc H State
  sirc_register_line line flags handler context s =
      if leb num_lines line then (out_of_resources, s) else elim handler [
        | none ↦ (
          success,
          record s { lines = set s.lines line no_line; hw = writel s.hw int_enclear (bit_at line) },
        )
        | some h ↦ (
          success,
          record s {
            lines = set s.lines line (record { handler = some h; context = context });
            hw = program_line line flags s.hw;
          },
        )
      ]

  -- The statuses are those of LocateProtocol and of InstallMultipleProtocolInterfaces; `register` and
  -- `disable` are RegisterInterruptSource, for SircInterruptHandler, and DisableInterruptSource of the
  -- primary controller.
  pub sirc_dxe_initialize :
      Status
      → Status
      → (register disable : ℕ → Sirc H State → Status × Sirc H State) → Sirc H State
      → Status × Sirc H State
  sirc_dxe_initialize located installed register disable s =
      let hw₁ = writel s.hw int_select 0 in
      let hw₂ = writel hw₁ int_type 0 in
      let hw₃ = writel hw₂ int_polarity 0 in
      let (status, s') = register int_sirc_0 (record s { hw = writel hw₃ int_enable 0 }) in
      elim located [
        | success ↦ elim status [
          | success ↦ elim installed [
            | success ↦ (success, s')
            | error ↦ (error, (disable int_sirc_0 s').1)
          ]
          | error ↦ (error, s')
        ]
        | error ↦ (error, s)
      ]
