-- ===== src/Gpio/Bank.antt =====
-- The table GPIO_REGS and `find_gpio` of GpioDxe.c, with the addresses of
-- QSD8250Pkg/Include/Chipset/gpio.h.
use htc_leo_pkg.Prelude.{
  ℕ, ◌+◌, ◌-◌, ◌&&◌, List, [], ◌∷◌, Option, none, some, leb, ltb, if◌then◌else◌,
}
use htc_leo_pkg.Word.{bit_at}

-- `in` is a reserved word here.
pub record GpioRegs : Type 0 where
  pub out : ℕ
  pub inp : ℕ
  pub int_status : ℕ
  pub int_clear : ℕ
  pub int_en : ℕ
  pub int_edge : ℕ
  pub int_pos : ℕ
  pub oe : ℕ
  pub owner : ℕ
  pub start : ℕ
  pub end : ℕ

abbrev pub gpio1_reg : ℕ → ℕ
gpio1_reg off = 0xa9000000 + 0x800 + off

abbrev pub gpio2_reg : ℕ → ℕ
gpio2_reg off = 0xa9100000 + 0xc00 + off

abbrev pub gpio1_reg_r : ℕ → ℕ
gpio1_reg_r off = 0xa8e00000 + off

abbrev pub gpio2_reg_r : ℕ → ℕ
gpio2_reg_r off = 0xa8f00000 + 0x400 + off

abbrev pub bank0 : GpioRegs
bank0 = record {
  out = gpio1_reg 0x00;
  inp = gpio1_reg 0x50;
  int_status = gpio1_reg 0xf0;
  int_clear = gpio1_reg 0xd0;
  int_en = gpio1_reg 0xb0;
  int_edge = gpio1_reg 0x70;
  int_pos = gpio1_reg 0x90;
  oe = gpio1_reg 0x20;
  owner = gpio1_reg_r 0x100;
  start = 0;
  end = 15;
}

abbrev pub bank1 : GpioRegs
bank1 = record {
  out = gpio2_reg 0x00;
  inp = gpio2_reg 0x20;
  int_status = gpio2_reg 0x70;
  int_clear = gpio2_reg 0x68;
  int_en = gpio2_reg 0x60;
  int_edge = gpio2_reg 0x50;
  int_pos = gpio2_reg 0x58;
  oe = gpio2_reg 0x08;
  owner = gpio2_reg_r 0x104;
  start = 16;
  end = 42;
}

abbrev pub bank2 : GpioRegs
bank2 = record {
  out = gpio1_reg 0x04;
  inp = gpio1_reg 0x54;
  int_status = gpio1_reg 0xf4;
  int_clear = gpio1_reg 0xd4;
  int_en = gpio1_reg 0xb4;
  int_edge = gpio1_reg 0x74;
  int_pos = gpio1_reg 0x94;
  oe = gpio1_reg 0x24;
  owner = gpio1_reg_r 0x108;
  start = 43;
  end = 67;
}

abbrev pub bank3 : GpioRegs
bank3 = record {
  out = gpio1_reg 0x08;
  inp = gpio1_reg 0x58;
  int_status = gpio1_reg 0xf8;
  int_clear = gpio1_reg 0xd8;
  int_en = gpio1_reg 0xb8;
  int_edge = gpio1_reg 0x78;
  int_pos = gpio1_reg 0x98;
  oe = gpio1_reg 0x28;
  owner = gpio1_reg_r 0x10c;
  start = 68;
  end = 94;
}

abbrev pub bank4 : GpioRegs
bank4 = record {
  out = gpio1_reg 0x0c;
  inp = gpio1_reg 0x5c;
  int_status = gpio1_reg 0xfc;
  int_clear = gpio1_reg 0xdc;
  int_en = gpio1_reg 0xbc;
  int_edge = gpio1_reg 0x7c;
  int_pos = gpio1_reg 0x9c;
  oe = gpio1_reg 0x2c;
  owner = gpio1_reg_r 0x110;
  start = 95;
  end = 103;
}

abbrev pub bank5 : GpioRegs
bank5 = record {
  out = gpio1_reg 0x10;
  inp = gpio1_reg 0x60;
  int_status = gpio1_reg 0x100;
  int_clear = gpio1_reg 0xe0;
  int_en = gpio1_reg 0xc0;
  int_edge = gpio1_reg 0x80;
  int_pos = gpio1_reg 0xa0;
  oe = gpio1_reg 0x30;
  owner = gpio1_reg_r 0x114;
  start = 104;
  end = 121;
}

abbrev pub bank6 : GpioRegs
bank6 = record {
  out = gpio1_reg 0x14;
  inp = gpio1_reg 0x64;
  int_status = gpio1_reg 0x103;
  int_clear = gpio1_reg 0xe4;
  int_en = gpio1_reg 0xc4;
  int_edge = gpio1_reg 0x84;
  int_pos = gpio1_reg 0xa4;
  oe = gpio1_reg 0x34;
  owner = gpio1_reg_r 0x118;
  start = 122;
  end = 152;
}

abbrev pub bank7 : GpioRegs
bank7 = record {
  out = gpio1_reg 0x18;
  inp = gpio1_reg 0x68;
  int_status = gpio1_reg 0x108;
  int_clear = gpio1_reg 0xe8;
  int_en = gpio1_reg 0xc8;
  int_edge = gpio1_reg 0x88;
  int_pos = gpio1_reg 0xa8;
  oe = gpio1_reg 0x38;
  owner = gpio1_reg_r 0x11c;
  start = 153;
  end = 164;
}

abbrev pub gpio_regs : List GpioRegs
gpio_regs = bank0 ∷ bank1 ∷ bank2 ∷ bank3 ∷ bank4 ∷ bank5 ∷ bank6 ∷ bank7 ∷ []

-- The `for` loop: `ret` is left at the entry that was looked at last, and `bit` is written only
-- on a hit.
unfoldable pub find_loop : List GpioRegs → ℕ → Option GpioRegs → ℕ → Option GpioRegs × ℕ
find_loop [] n ret bit = (ret, bit)
find_loop (r ∷ rs) n ret bit =
    if leb r.start n && leb n r.end
    then (some r, bit_at (n - r.start))
    else find_loop rs n (some r) bit

-- The entry of pin `n`, or NULL, and what `*bit` holds afterwards.
unfoldable pub find_gpio : ℕ → ℕ → Option GpioRegs × ℕ
unfolding find_loop
find_gpio n bit = if ltb bank7.end n then (none, bit) else find_loop gpio_regs n none bit
