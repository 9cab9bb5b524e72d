-- ===== src/Keypad/Device.antt =====
-- The keys of the phones and their polling,
-- QSD8250Pkg/Library/KeypadDeviceImplLib/KeypadDeviceImplLib.c.
pub mod Poll
use htc_leo_pkg.Prelude.{
  ℕ, zero, suc, ◌+◌, List, [], ◌∷◌, Option, none, some, Bool, true, false, not, ◌&&◌, ◌==◌,
  if◌then◌else◌, map,
}
use htc_leo_pkg.Keypad.Queue.{KeyData, zero_key}
use htc_leo_pkg.Keypad.Key.{
  KeyContext, KeyMaps, lib_key_initialize_key_context, lib_key_update_key_status, scan_up,
  scan_down, carriage_return,
}

pub data KeyDeviceType : Type 0 where
  unknown_key legacy keymatrix tlmm pm8x41 pm8x41_pon : KeyDeviceType

-- The builds, DEVICETYPE.
pub data DeviceType : Type 0 where
  unknown leo schubert bravo passion : DeviceType

-- KEY_CONTEXT_PRIVATE.
pub record KeyContextPrivate : Type 0 where
  pub efi_key_context : KeyContext
  pub is_valid : Bool
  pub device_type : KeyDeviceType
  pub gpio : ℕ
  pub active_low : Bool
  pub gpio_in : ℕ
  pub gpio_out : ℕ
  pub enable_key_pad_led : Bool

pub keypad_initialize_key_context_private : KeyContextPrivate → KeyContextPrivate
keypad_initialize_key_context_private k = record k {
  is_valid = false;
  gpio = 0;
  gpio_out = 0;
  gpio_in = 0;
  device_type = unknown_key;
  active_low = false;
  enable_key_pad_led = false;
}

-- The place in KeyList of the key with a key code: power, volume up, volume down, back, windows,
-- home, dial.
pub keypad_key_code_to_key_context : ℕ → Option ℕ
keypad_key_code_to_key_context code =
    if code == 114
    then some 2
    else if code == 115
    then some 1
    else if code == 116
    then some 0
    else if code == 117
    then some 3
    else if code == 118
    then some 4
    else if code == 119
    then some 5
    else if code == 120
    then some 6
    else none

abbrev at_key :
    ℕ → (KeyContextPrivate → KeyContextPrivate) → List KeyContextPrivate → List KeyContextPrivate
at_key zero f [] = []
at_key zero f (k ∷ ks) = f k ∷ ks
at_key (suc i) f [] = []
at_key (suc i) f (k ∷ ks) = k ∷ at_key i f ks

-- Setting up the key with a key code; the constructor uses codes that are there.
abbrev set_up :
    ℕ → (KeyContextPrivate → KeyContextPrivate) → List KeyContextPrivate → List KeyContextPrivate
set_up code f ks = elim (keypad_key_code_to_key_context code) [ none ↦ ks | some i ↦ at_key i f ks ]

abbrev legacy_key : ℕ → Bool → KeyContextPrivate → KeyContextPrivate
legacy_key pin led k = record k {
  device_type = legacy;
  gpio = pin;
  active_low = true;
  enable_key_pad_led = led;
  is_valid = true;
}

abbrev matrix_key : ℕ → ℕ → Bool → KeyContextPrivate → KeyContextPrivate
matrix_key out inp led k = record k {
  device_type = keymatrix;
  gpio_out = out;
  gpio_in = inp;
  active_low = true;
  enable_key_pad_led = led;
  is_valid = true;
}

-- The block that the phones other than the Schubert share.
abbrev common_keys : List KeyContextPrivate → List KeyContextPrivate
common_keys ks =
    set_up 114 (matrix_key 33 41 false)
      (set_up 115 (matrix_key 33 42 false) (set_up 120 (matrix_key 32 41 true) ks))

-- The `switch` and the test after it.
pub device_keys : DeviceType → List KeyContextPrivate → List KeyContextPrivate
unfolding keypad_key_code_to_key_context
device_keys schubert ks = set_up 118 (legacy_key 42 true) (
    set_up 120 (legacy_key 90 false)
      (set_up 114 (legacy_key 41 false) (set_up 115 (legacy_key 94 false) ks)))
device_keys leo ks = common_keys (
    set_up 119 (matrix_key 31 41 true) (
      set_up 118 (matrix_key 32 42 true)
        (set_up 117 (matrix_key 31 42 true) (set_up 116 (legacy_key 94 true) ks))))
device_keys bravo ks = common_keys ks
device_keys passion ks = common_keys ks
device_keys unknown ks = ks

pub keypad_device_impl_constructor : DeviceType → List KeyContextPrivate → List KeyContextPrivate
unfolding device_keys
keypad_device_impl_constructor device ks =
    device_keys device (map keypad_initialize_key_context_private ks)

-- The scan code and the character of each key, in the order of KeyList: SCAN_ESC, SCAN_UP, SCAN_DOWN,
-- CHAR_BACKSPACE, CHAR_TAB, SCAN_HOME, CHAR_CARRIAGE_RETURN.
abbrev pub key_codes : List (ℕ × ℕ)
key_codes =
    (23, 0) ∷ (scan_up, 0) ∷ (scan_down, 0) ∷ (0, 8) ∷ (0, 9) ∷ (5, 0) ∷ (0, carriage_return) ∷ []

abbrev reset_key : ℕ × ℕ → KeyContextPrivate → KeyContextPrivate
reset_key (scan_code, unicode_char) k = record k {
  efi_key_context = record lib_key_initialize_key_context {
    key_data = record zero_key { scan_code = scan_code; unicode_char = unicode_char };
  };
}

abbrev pub reset_keys : List (ℕ × ℕ) → List KeyContextPrivate → List KeyContextPrivate
reset_keys [] ks = ks
reset_keys (c ∷ cs) [] = []
reset_keys (c ∷ cs) (k ∷ ks) = reset_key c k ∷ reset_keys cs ks

pub keypad_device_impl_reset : List KeyContextPrivate → List KeyContextPrivate
keypad_device_impl_reset ks = reset_keys key_codes ks

-- The GPIO protocol, the light behind the keys, driven by GPIO or by the microprocessor as the build
-- says, and the timer that turns it off; ASSERTed results are taken to be EFI_SUCCESS.
pub record Board : Type 1 where
  pub State : Type 0
  pub gpio_get : ℕ → State → ℕ × State
  pub gpio_set : ℕ → ℕ → State → State
  pub led_on : State → State
  pub led_off : State → State
  pub cancel_timer : State → State
  pub create_event : State → State
  pub set_timer : State → State

-- What a poll changes besides the keys: the hardware, `timerRunning`, the bit sets, and what the
-- reports change.
pub record Polling (State S : Type 0) : Type 0 where
  pub hw : State
  pub timer_running : Bool
  pub maps : KeyMaps
  pub reports : S

module _ (board : Board) where
  open board use {State, gpio_get, gpio_set, led_on, led_off, cancel_timer, create_event, set_timer}

  pub disable_key_pad_led : State × Bool → State × Bool
  disable_key_pad_led (hw, running) = (led_off hw, false)

  pub enable_keypad_led_with_timer : State × Bool → State × Bool
  enable_keypad_led_with_timer (hw, running) =
      let hw' = if running then cancel_timer hw else hw in
      (set_timer (create_event (led_on hw')), true)

  -- The level of a key's line, or nothing for a key of another type.
  pub read_key_line : KeyContextPrivate → State → Option (ℕ × State)
  read_key_line k hw = elim k.device_type [
    | legacy ↦ some (gpio_get k.gpio hw)
    | keymatrix ↦
        let (status, hw') = gpio_get k.gpio_in (gpio_set k.gpio_out 0 hw) in
        some (status, gpio_set k.gpio_out 1 hw')
    | _ ↦ none
  ]

  module _ {S : Type 0} (push : KeyData → S → S) (delta : ℕ) where
    -- `(GpioStatus ? 1 : 0) ^ ActiveLow`.
    abbrev line_pressed : ℕ → Bool → Bool
    line_pressed status low = if low then status == 0 else not (status == 0)

    -- The rest of the body once the line is read.
    pub poll_read :
        KeyContextPrivate → Polling State S → ℕ × State → KeyContextPrivate × Polling State S
    unfolding enable_keypad_led_with_timer
    poll_read k t (status, hw₁) =
        let is_pressed = line_pressed status k.active_low in
        let (hw₂, running) =
          if is_pressed && k.enable_key_pad_led
          then enable_keypad_led_with_timer (hw₁, t.timer_running)
          else (hw₁, t.timer_running) in
        let (ctx, maps, reports) =
          lib_key_update_key_status push k.efi_key_context is_pressed delta (t.maps, t.reports) in
        (
          record k { efi_key_context = ctx },
          record { hw = hw₂; timer_running = running; maps = maps; reports = reports },
        )

    -- The body of the loop for one key.
    pub poll_key : KeyContextPrivate → Polling State S → KeyContextPrivate × Polling State S
    unfolding read_key_line poll_read
    poll_key k t =
        if not k.is_valid
        then (k, t)
        else elim (read_key_line k t.hw) [ none ↦ (k, t) | some line ↦ poll_read k t line ]

    pub keypad_device_impl_get_keys :
        List KeyContextPrivate × Polling State S → List KeyContextPrivate × Polling State S
    unfolding poll_key
    keypad_device_impl_get_keys ([], t) = ([], t)
    keypad_device_impl_get_keys (k ∷ ks, t) =
        let (k', t₁) = poll_key k t in
        let (ks', t₂) = keypad_device_impl_get_keys (ks, t₁) in (k' ∷ ks', t₂)
