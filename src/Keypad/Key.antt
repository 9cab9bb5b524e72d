-- ===== src/Keypad/Key.antt =====
-- The state machine of one key, QSD8250Pkg/Include/Library/KeypadDeviceHelperLib.h, with the two bit
-- sets and the combo keys of Library/KeypadDeviceHelperLib/KeypadDeviceHelperLib.c.
pub mod Machine
pub mod Timing
use htc_leo_pkg.Prelude.{
  ℕ, ◌+◌, ◌*◌, ◌%◌, ◌^◌, List, Bool, true, false, not, ◌&&◌, ◌==◌, leb, ltb, if◌then◌else◌,
  replicate,
}
use htc_leo_pkg.Bitmap.{bitmap_set, bitmap_clear, bitmap_test}
use htc_leo_pkg.Keypad.Queue.{KeyData, zero_key}

abbrev pub max_scancode : ℕ
max_scancode = 24

abbrev pub max_uncode_char : ℕ
max_uncode_char = 127

-- SCAN_UP, SCAN_DOWN and CHAR_CARRIAGE_RETURN of the UEFI specification.
abbrev pub scan_up : ℕ
scan_up = 1

abbrev pub scan_down : ℕ
scan_down = 2

abbrev pub carriage_return : ℕ
carriage_return = 13

abbrev pub ms2ns : ℕ → ℕ
ms2ns ms = ms * 1000000

pub data KeyState : Type 0 where
  released pressed longpress_release : KeyState

pub record KeyContext : Type 0 where
  pub key_data : KeyData
  pub time : ℕ
  pub state : KeyState
  pub is_repeat : Bool
  pub is_longpress : Bool

-- gBitmapScanCodes and gBitmapUnicodeChars.
pub record KeyMaps : Type 0 where
  pub scan_codes : List ℕ
  pub unicode_chars : List ℕ

abbrev pub no_keys : KeyMaps
no_keys = record { scan_codes = replicate 1 0; unicode_chars = replicate 4 0 }

abbrev pub key_data_power_down : KeyData
key_data_power_down = record zero_key { unicode_char = 115 }

abbrev pub key_data_power_up : KeyData
key_data_power_up = record zero_key { unicode_char = 101 }

abbrev pub key_data_power_longpress : KeyData
key_data_power_longpress = record zero_key { unicode_char = 32 }

abbrev put_map : List ℕ → ℕ → Bool → List ℕ
put_map bitmap bit value = if value then (bitmap_set bitmap bit).1 else (bitmap_clear bitmap bit).1

-- The test of `ScanCode && ScanCode < MAX_SCANCODE` and of its like for characters.
abbrev pub is_code : ℕ → ℕ → Bool
is_code limit code = if code == 0 then false else ltb code limit

-- The second map is written at `scan_code`, as in the source.
pub key_set_state : ℕ → ℕ → Bool → KeyMaps → KeyMaps
key_set_state scan_code unicode_char value maps = record {
  scan_codes =
      if is_code max_scancode scan_code
      then put_map maps.scan_codes scan_code value
      else maps.scan_codes;
  unicode_chars =
      if is_code max_uncode_char unicode_char
      then put_map maps.unicode_chars scan_code value
      else maps.unicode_chars;
}

pub key_get_state : ℕ → ℕ → KeyMaps → Bool
key_get_state scan_code unicode_char maps =
    if is_code max_scancode scan_code && (bitmap_test maps.scan_codes scan_code == 0)
    then false
    else if is_code max_uncode_char unicode_char && (bitmap_test maps.unicode_chars scan_code == 0)
    then false
    else true

pub lib_key_initialize_key_context : KeyContext
lib_key_initialize_key_context = record {
  key_data = zero_key;
  time = 0;
  state = released;
  is_repeat = false;
  is_longpress = false;
}

abbrev to_released : KeyContext → KeyContext
to_released ctx = record ctx { time = 0; state = released; is_repeat = false; is_longpress = false }

-- `push` is the PushEfikeyBufTail of the return API, and `S` what it changes.
module _ {S : Type 0} (push : KeyData → S → S) where
  abbrev repeat_key : KeyContext → S → KeyContext × S
  repeat_key ctx s = (record ctx { time = 0; is_repeat = true }, push ctx.key_data s)

  -- The body of the first long press, before Longpress is set.
  abbrev first_longpress : KeyContext → KeyMaps → S → KeyContext × S
  first_longpress ctx maps s =
      if ctx.key_data.unicode_char == carriage_return
      then (
        ctx,
        push
            (if key_get_state scan_down 0 maps
              then key_data_power_down
              else if key_get_state scan_up 0 maps
              then key_data_power_up
              else key_data_power_longpress)
            s,
      )
      else if key_get_state 0 carriage_return maps
      then (ctx, s)
      else repeat_key ctx s

  -- KEYSTATE_PRESSED with the key still down.
  pub key_held : KeyContext → KeyMaps → S → KeyContext × S
  key_held ctx maps s =
      if ctx.is_repeat && leb (ms2ns 200) ctx.time
      then repeat_key ctx s
      else if not ctx.is_longpress && leb (ms2ns 500) ctx.time
      then (
        record (first_longpress ctx maps s).0 { is_longpress = true },
        (first_longpress ctx maps s).1,
      )
      else (ctx, s)

  -- KEYSTATE_PRESSED with the key up.
  pub key_let_go : KeyContext → S → KeyContext × S
  key_let_go ctx s =
      if not ctx.is_longpress
      then (record ctx { state = longpress_release }, push ctx.key_data s)
      else if leb (ms2ns 10) ctx.time
      then (to_released ctx, s)
      else (ctx, s)

  -- The `switch`, after the key's time has run on.
  pub key_step : Bool → KeyContext → KeyMaps → S → KeyContext × S
  key_step is_pressed ctx maps s = elim ctx.state [
    | released ↦ (if is_pressed then record ctx { time = 0; state = pressed } else ctx, s)
    | pressed ↦ if is_pressed then key_held ctx maps s else key_let_go ctx s
    | longpress_release ↦ (to_released ctx, s)
  ]

  pub lib_key_update_key_status : KeyContext → Bool → ℕ → KeyMaps × S → KeyContext × KeyMaps × S
  lib_key_update_key_status ctx is_pressed delta (maps, s) =
      let maps' = key_set_state ctx.key_data.scan_code ctx.key_data.unicode_char is_pressed maps in
      let (ctx', s') =
        key_step is_pressed (record ctx { time = (ctx.time + delta) % 2 ^ 64 }) maps' s in
      (ctx', maps', s')
