-- ===== src/I2c/Tests.antt =====
-- A read of two bytes from register 12 of the chip 0x26, on memory in place of the controller, with
-- three interrupts before each read of the status.
use htc_leo_pkg.Prelude.{
  ◌≡◌, ℕ, refl, arith, some, none, true, false, List, [], ◌∷◌, Bool, Gives, ◌==◌, ◌&&◌,
  if◌then◌else◌,
}
use htc_leo_pkg.Bus.{memory_bus}
use htc_leo_pkg.I2c.{address, I2cMsg, I2c, byte, msm_i2c_interrupt_locked, take_interrupts}
use htc_leo_pkg.I2c.Frame.{recorder, no_delay, marked, writing, message, address_frame, write_frame}
use htc_leo_pkg.I2c.InTransfer.{IsInTransfer, interrupt_locked-IsInTransfer}
use htc_leo_pkg.I2c.Xfer.{Code, set_up, msm_i2c_xfer}
use htc_leo_pkg.I2c.Xfer.Returns.{IsIdle, set_up_race, msm_i2c_xfer_returns}

abbrev to_chip : I2cMsg
to_chip = record { addr = 0x26; is_read = false; len = 1; buf = 12 ∷ [] }

abbrev from_chip : I2cMsg
from_chip = record { addr = 0x26; is_read = true; len = 2; buf = 0 ∷ 0 ∷ [] }

abbrev both : List I2cMsg
both = to_chip ∷ from_chip ∷ []

abbrev idle : I2c (ℕ → ℕ)
idle = record {
  msgs = [];
  msg = none;
  rem = 0;
  pos = byte 0;
  cnt = 0;
  ret = some 0;
  need_flush = false;
  flush_cnt = 0;
  timed_out = false;
  hw = λ a. 0;
}

-- One byte of the second message is there.
abbrev half_read : I2c (ℕ → ℕ)
half_read = record {
  msgs = both;
  msg = some 1;
  rem = 1;
  pos = byte 1;
  cnt = 1;
  ret = some 2;
  need_flush = false;
  flush_cnt = 0;
  timed_out = false;
  hw = λ a. 2;
}

half_read-IsInTransfer : IsInTransfer half_read
half_read-IsInTransfer = record {
  index = 1;
  here = from_chip;
  busy = refl;
  found = refl;
  buffers = (refl, (refl, tt));
  left = refl;
  placed = refl;
}

abbrev same : (ℕ → ℕ) → (ℕ → ℕ)
same s = s

abbrev no_wait : ℕ → (ℕ → ℕ) → (ℕ → ℕ)
no_wait t s = s

abbrev no_mux : Bool → (ℕ → ℕ) → (ℕ → ℕ)
no_mux b s = s

-- Three interrupts before each read of the waits.
abbrev three : ℕ → ℕ → ℕ
three p k = if p == 2 then 0 else 3

interrupt_locked-IsInTransfer_example :
    Gives IsInTransfer (msm_i2c_interrupt_locked memory_bus same half_read)
interrupt_locked-IsInTransfer_example =
    interrupt_locked-IsInTransfer memory_bus same half_read half_read-IsInTransfer

msm_i2c_xfer_returns_example :
    Gives
      (λ (r : Code × I2c (ℕ → ℕ)). IsIdle r.1)
      (msm_i2c_xfer memory_bus no_wait no_wait same same no_mux three both 2 idle)
msm_i2c_xfer_returns_example =
    msm_i2c_xfer_returns memory_bus no_wait no_wait same same no_mux three both 2 idle refl refl
      (omega arith) (refl, (refl, tt)) (λ k. refl)

-- The LED command of the microcontroller at address 0x66.
write_frame_example :
    take_interrupts recorder no_delay 4 (writing (message 0x66 (0x51 ∷ 1 ∷ [])) address 2 true [])
    ≡ some (
        writing
          (message 0x66 (0x51 ∷ 1 ∷ []))
          (byte 2)
          0
          false
          (address_frame 0x66 (0x51 ∷ 1 ∷ []) ∷ marked (0x51 ∷ 1 ∷ [])))
write_frame_example = write_frame 0x66 (0x51 ∷ 1 ∷ []) true (omega arith)

-- A read of two bytes that is being set up, with an interrupt before dev.pos is set.
abbrev in_set_up : ℕ → ℕ → ℕ
in_set_up p k = if (p == 2) && (k == 2) then 1 else 0

abbrev due : I2c (ℕ → ℕ)
due = record idle { msgs = both; hw = λ a. 1 }

set_up_race_example :
    set_up memory_bus no_wait no_wait same same no_mux in_set_up 1 2 due
    ≡ some (record due {
      msg = some 1;
      rem = 1;
      pos = address;
      ret = some 2;
      need_flush = false;
      flush_cnt = 0;
      cnt = 1;
      hw = due.hw;
    })
set_up_race_example =
    set_up_race memory_bus no_wait no_wait same same no_mux in_set_up 1 2 due from_chip refl refl
      refl refl (omega arith) refl (λ k. refl)
