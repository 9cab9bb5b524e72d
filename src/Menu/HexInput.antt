-- ===== src/Menu/HexInput.antt =====
-- The entry field for a hexadecimal number, QSD8250Pkg/Application/HtcLeoMenuApp/HexInput.c. What is
-- printed is left out.
pub mod Refine
pub mod Typed
mod Tests
use htc_leo_pkg.Prelude.{
  ℕ, zero, suc, ◌+◌, ◌-◌, ◌%◌, List, [], ◌∷◌, Option, none, some, Bool, true, false, ◌==◌, ltb,
  if◌then◌else◌, get_or, set, replicate,
}
use htc_leo_pkg.Keypad.Console.{InputKey}
use htc_leo_pkg.Keypad.Device.{DeviceType, unknown, leo, schubert, bravo, passion}

abbrev pub hex_length : ℕ
hex_length = 8

-- L"0123456789ABCDEF", with its end.
abbrev pub hex_chars : List ℕ
hex_chars = 48 ∷ 49 ∷ 50 ∷ 51 ∷ 52 ∷ 53 ∷ 54 ∷ 55 ∷ 56 ∷ 57 ∷ 65 ∷ 66 ∷ 67 ∷ 68 ∷ 69 ∷ 70 ∷ 0 ∷ []

-- L"00000000", with its end.
abbrev pub empty_hex_buffer : List ℕ
empty_hex_buffer = 48 ∷ 48 ∷ 48 ∷ 48 ∷ 48 ∷ 48 ∷ 48 ∷ 48 ∷ 0 ∷ []

-- The variables of GetHexInput, with the global HexBuffer.
pub record HexInput : Type 0 where
  pub hex_buffer : List ℕ
  pub index : ℕ
  pub hex_char_index : ℕ
  pub old_hex_char_index : List ℕ
  pub input_complete : Bool

abbrev pub hex_char : ℕ → ℕ
hex_char i = get_or hex_chars i 0

abbrev next_digit : HexInput → HexInput
next_digit s =
    let old = set s.old_hex_char_index s.index s.hex_char_index in
    if ltb s.index (hex_length - 1)
    then record s {
      old_hex_char_index = old;
      index = s.index + 1;
      hex_char_index = get_or old (s.index + 1) 0;
    }
    else s

abbrev cycle_digit : HexInput → HexInput
cycle_digit s =
    let i = (s.hex_char_index + 1) % 16 in
    record s {
      hex_char_index = i;
      hex_buffer = set s.hex_buffer s.index (hex_char i);
      old_hex_char_index = set s.old_hex_char_index s.index i;
    }

abbrev previous_digit : HexInput → HexInput
previous_digit s =
    let i = if ltb 0 s.index then s.index - 1 else s.index in
    record s {
      index = i;
      hex_buffer = set s.hex_buffer i (hex_char (get_or s.old_hex_char_index i 0));
      hex_char_index = get_or s.old_hex_char_index i 0;
    }

abbrev complete : HexInput → HexInput
complete s = record s { input_complete = true }

-- SCAN_ESC is 23, CHAR_CARRIAGE_RETURN 13, CHAR_TAB 9 and CHAR_BACKSPACE 8.
abbrev pub leo_key : InputKey → HexInput → HexInput
leo_key key s =
    if key.scan_code == 23
    then next_digit s
    else if key.unicode_char == 13
    then complete s
    else if key.unicode_char == 9
    then cycle_digit s
    else if key.unicode_char == 8
    then previous_digit s
    else s

-- SCAN_DOWN is 2 and SCAN_UP 1.
abbrev pub volume_key : InputKey → HexInput → HexInput
volume_key key s =
    if key.scan_code == 2
    then next_digit s
    else if key.scan_code == 1
    then cycle_digit s
    else if key.unicode_char == 13
    then complete s
    else s

abbrev device_key : DeviceType → InputKey → HexInput → HexInput
device_key leo key s = leo_key key s
device_key schubert key s = volume_key key s
device_key passion key s = volume_key key s
device_key bravo key s = volume_key key s
device_key unknown key s = s

-- One pass of the main loop, from the keystroke on.
pub hex_pass : DeviceType → InputKey → HexInput → HexInput
hex_pass device key s =
    let s' = device_key device key s in record s' { hex_buffer = set s'.hex_buffer hex_length 0 }

-- What the call of ReadKeyStroke in a pass puts into Key; `none` is a call that leaves Key alone, as
-- one without a keystroke may. The call does not wait, and its status is not looked at.
abbrev pub Read : Type 0
Read = Option InputKey

-- Key after a read.
abbrev pub key_after : InputKey → Read → InputKey
key_after key none = key
key_after key (some new) = new

-- The main loop over the reads of its passes, with Key, which nothing sets before the first read;
-- `none` is a loop that is still going.
pub hex_loop : DeviceType → List Read → InputKey → HexInput → Option (List ℕ)
unfolding hex_pass
hex_loop device [] key s = if s.input_complete then some s.hex_buffer else none
hex_loop device (read ∷ reads) key s =
    let now = key_after key read in
    let rest = hex_loop device reads now (hex_pass device now s) in
    if s.input_complete then some s.hex_buffer else rest

-- The loop that copies EmptyHexBuffer, from `i` on.
pub clear_buffer : ℕ → ℕ → List ℕ → List ℕ
clear_buffer zero i buffer = buffer
clear_buffer (suc left) i buffer =
    clear_buffer left (i + 1) (set buffer i (get_or empty_hex_buffer i 0))

-- HexBuffer is what the last call left there, and `key` what the uninitialised Key holds.
pub get_hex_input : DeviceType → List Read → InputKey → List ℕ → Option (List ℕ)
unfolding clear_buffer hex_loop
get_hex_input device reads key hex_buffer = hex_loop device reads key (record {
  hex_buffer = clear_buffer (hex_length + 1) 0 hex_buffer;
  index = 0;
  hex_char_index = 0;
  old_hex_char_index = replicate 8 0;
  input_complete = false;
})
