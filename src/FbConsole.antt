-- ===== src/FbConsole.antt =====
-- The text console on the frame buffer that serves as the serial port,
-- QSD8250Pkg/Library/FrameBufferSerialPortLib/FrameBufferSerialPortLib.c, with the sizes of
-- QSD8250Pkg/QSD8250Pkg.dec and Include/Resources/font5x12.h. The pixels of a glyph are left out: a
-- glyph is recorded with the offset where FbConDrawglyph starts. ResetFb forgets them.
pub mod Within
mod Tests
use htc_leo_pkg.Prelude.{
  ℕ, zero, suc, ◌+◌, ◌-◌, ◌*◌, ◌/◌, ◌%◌, ◌^◌, List, [], ◌∷◌, Option, none, some, Bool, true, false,
  not, ◌&&◌, ◌==◌, leb, ltb, if◌then◌else◌, length,
}
use htc_leo_pkg.Efi.{Status, success}

abbrev pub g_width : ℕ
g_width = 480

abbrev pub g_height : ℕ
g_height = 800

abbrev pub g_bpp : ℕ
g_bpp = 32

abbrev pub font_width : ℕ
font_width = 5

abbrev pub font_height : ℕ
font_height = 12

abbrev pub scale_factor : ℕ
scale_factor = 1

-- FB_BGRA8888_WHITE, FB_BGRA8888_BLACK and FB_BGRA8888_YELLOW.
abbrev white : ℕ
white = 0xffffffff

abbrev black : ℕ
black = 0xff000000

abbrev yellow : ℕ
yellow = 0xffffff00

pub data MsgType : Type 0 where
  common_msg unlock_title_msg title_msg subtitle_msg : MsgType
  yellow_msg orange_msg red_msg green_msg select_msg_bg_color : MsgType

pub record Glyph : Type 0 where
  pub pixels : ℕ
  pub char : ℕ
  pub foreground : ℕ

-- The statics of the library, the processor's interrupt flag, and the glyphs on the screen.
pub record FbConsole : Type 0 where
  pub x : ℕ
  pub y : ℕ
  pub max_x : ℕ
  pub max_y : ℕ
  pub foreground : ℕ
  pub background : ℕ
  pub initialized : Bool
  pub interrupts : Bool
  pub screen : List Glyph

pub fb_con_reset : FbConsole → FbConsole
fb_con_reset c = record c {
  x = 0;
  y = 0;
  max_x = g_width / (font_width + 1);
  max_y = (g_height - 1) / font_height;
  foreground = white;
  background = black;
}

-- `if (intstate) ArmEnableInterrupts ()`
abbrev restore : Bool → FbConsole → FbConsole
restore intstate c = if intstate then record c { interrupts = true } else c

pub serial_port_initialize : FbConsole → Status × FbConsole
unfolding fb_con_reset
serial_port_initialize c = if c.initialized then (success, c) else (
  success,
  restore c.interrupts
      (record (fb_con_reset (record c { interrupts = false })) { initialized = true }),
)

-- From the label `newline` on; the first component says whether the code goes back to `paint`. The
-- comparison is unsigned.
abbrev new_line : ℕ → Bool → FbConsole → Bool × FbConsole
new_line scale intstate c =
    let moved = record c { x = 0; y = c.y + scale } in
    if leb ((c.max_y + 2 ^ 32 - scale) % 2 ^ 32) (c.y + scale)
    then (true, restore intstate (record moved { y = 0; screen = [] }))
    else (false, restore intstate moved)

abbrev is_title : MsgType → Bool
is_title title_msg = true
is_title subtitle_msg = true
is_title _ = false

-- From the label `paint` on. `uninit` is what the variable intstate holds when `goto newline` has
-- jumped over its initialisation.
pub paint : ℕ → MsgType → ℕ → Bool → FbConsole → Bool × FbConsole
paint ch type scale uninit c =
    let drawn = record c {
      x = c.x + 1;
      interrupts = false;
      screen =
          record {
            pixels =
                c.y * (g_bpp / 8 * font_height * g_width)
                + c.x * scale * (g_bpp / 8 * (font_width + 1));
            char = ch;
            foreground = c.foreground;
          }
          ∷ c.screen;
    } in
    if ltb 127 ch
    then (false, c)
    else if ltb ch 32
    then if ch == 10
      then new_line scale uninit c
      else if ch == 13
      then (false, record c { x = 0 })
      else (false, c)
    else if (c.x == 0) && (ch == 32) && not (is_title type)
    then (false, c)
    else if leb (c.max_x / scale) (c.x + 1)
    then new_line scale c.interrupts drawn
    else (false, restore c.interrupts drawn)

-- The passes from `paint` on, on fuel; `none` is a call that is still going.
pub paint_loop : ℕ → ℕ → MsgType → ℕ → Bool → FbConsole → Option FbConsole
unfolding paint
paint_loop zero ch type scale uninit c = none
paint_loop (suc n) ch type scale uninit c =
    let (again, c') = paint ch type scale uninit c in
    let rest = paint_loop n ch type scale uninit c' in if again then rest else some c'

pub fb_con_put_char_with_factor : ℕ → ℕ → MsgType → ℕ → Bool → FbConsole → Option FbConsole
unfolding paint_loop
fb_con_put_char_with_factor n ch type scale uninit c =
    if c.initialized then paint_loop n ch type scale uninit c else some c

-- The loop over the buffer.
pub put_chars : ℕ → Bool → List ℕ → FbConsole → Option FbConsole
unfolding fb_con_put_char_with_factor
put_chars n uninit [] c = some c
put_chars n uninit (ch ∷ buffer) c =
    elim (fb_con_put_char_with_factor n ch common_msg scale_factor uninit c) [
      | none ↦ none
      | some c' ↦ put_chars n uninit buffer c'
    ]

pub serial_port_write : ℕ → Bool → List ℕ → FbConsole → Option (ℕ × FbConsole)
unfolding put_chars
serial_port_write n uninit buffer c =
    elim (put_chars n uninit buffer (record c { interrupts = false })) [
      | none ↦ none
      | some c' ↦ some (length buffer, restore c.interrupts c')
    ]

pub serial_port_write_critical : ℕ → Bool → List ℕ → FbConsole → Option (ℕ × FbConsole)
unfolding put_chars
serial_port_write_critical n uninit buffer c =
    elim (put_chars n uninit buffer (record c { interrupts = false; foreground = yellow })) [
      | none ↦ none
      | some c' ↦
          some (length buffer, restore c.interrupts (record c' { foreground = c.foreground }))
    ]
