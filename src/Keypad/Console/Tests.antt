-- ===== src/Keypad/Console/Tests.antt =====
-- Runs of the text input protocol on two waiting keys.
use htc_leo_pkg.Prelude.{ℕ, ◌≡◌, refl, arith, List, [], ◌∷◌, none, some, true, false, replicate}
use htc_leo_pkg.Efi.{success}
use htc_leo_pkg.Bus.{memory_bus}
use htc_leo_pkg.Gpio.{gpio_get, gpio_set}
use htc_leo_pkg.Keypad.Queue.{KeyData, KeyQueue, zero_key}
use htc_leo_pkg.Keypad.Queue.Refine.{IsValid, contents}
use htc_leo_pkg.Keypad.Key.{released, no_keys}
use htc_leo_pkg.Keypad.Console.{
  ConsoleIn, keypad_read_key_stroke, keypad_wait_for_key, keypad_timer_handler, is_key_registered,
}
use htc_leo_pkg.Keypad.Console.Wait.{drop_partials, is_nonempty, keypad_wait_for_key_lem}
use htc_leo_pkg.Keypad.Console.Read.{IsKeystroke, keypad_read_key_stroke_returns}
use htc_leo_pkg.Keypad.Console.Notify.{keypad_register_key_notify, keypad_unregister_key_notify}
use htc_leo_pkg.Keypad.Console.Notify.Registered.{new_entry, register_roundtrip}
use htc_leo_pkg.Keypad.Device.{
  KeyContextPrivate, Board, Polling, leo, legacy, keypad_initialize_key_context_private,
  keypad_device_impl_constructor, keypad_device_impl_reset,
}
use htc_leo_pkg.Keypad.Device.Poll.{DeviceState, device_get_keys, device_get_keys-IsPolling}

abbrev key_a : KeyData
key_a = record zero_key { unicode_char = 97 }

abbrev two_keys : KeyQueue
two_keys = record { buffer = replicate 256 key_a; head = 255; tail = 1 }

two_keys-IsValid : IsValid two_keys
two_keys-IsValid = record { storage = refl; head_in = omega arith; tail_in = omega arith }

abbrev console : ConsoleIn
console = record {
  last = 0;
  caps_lock = false;
  num_lock = false;
  scroll_lock = false;
  left_ctrl = false;
  right_ctrl = false;
  left_alt = false;
  right_alt = false;
  left_shift = false;
  right_shift = false;
  left_logo = false;
  right_logo = false;
  menu = false;
  sys_req = false;
  is_support_partial_key = false;
  efi_key_queue = two_keys;
  efi_key_queue_for_notify = record { buffer = replicate 256 zero_key; head = 0; tail = 0 };
  keypad_err = false;
  notify_list = new_entry 1 key_a 10 ∷ new_entry 2 key_a 11 ∷ [];
  signals = 0;
}

abbrev same_time : ℕ → ℕ
same_time t = t

abbrev count_time : ℕ → ℕ × ℕ
count_time d = (d, d)

-- A device that reports nothing.
abbrev silent : (KeyData → ConsoleIn → ConsoleIn) → ℕ → ℕ × ConsoleIn → ℕ × ConsoleIn
silent push delta t = t

keypad_wait_for_key_lem_example :
    let r = keypad_wait_for_key silent same_time count_time same_time 256 (0, console) in
    IsValid r.2.efi_key_queue
    × (contents r.2.efi_key_queue ≡ drop_partials (contents two_keys))
    × (r.0 ≡ is_nonempty (drop_partials (contents two_keys)))
unfolding keypad_timer_handler
keypad_wait_for_key_lem_example =
    keypad_wait_for_key_lem silent same_time count_time same_time (0, console) refl two_keys-IsValid

register_roundtrip_example :
    let (status, handle, c') =
      keypad_register_key_notify (some zero_key) (some 12) true (some 3) console in
    (status ≡ success)
    × (handle ≡ some 3)
    × (keypad_register_key_notify (some zero_key) (some 12) true none c' ≡ (success, some 3, c'))
    × (keypad_unregister_key_notify (some 3) c' ≡ (success, console))
unfolding is_key_registered
register_roundtrip_example =
    register_roundtrip zero_key 12 3 none console refl
      ((λ e. absurd (omega arith)), ((λ e. absurd (omega arith)), tt))

-- The keypad of the Leo on plain memory, its lights not shown.
abbrev memory_board : Board
memory_board = record {
  State = ℕ → ℕ;
  gpio_get = gpio_get memory_bus;
  gpio_set = gpio_set memory_bus;
  led_on = λ s. s;
  led_off = λ s. s;
  cancel_timer = λ s. s;
  create_event = λ s. s;
  set_timer = λ s. s;
}

abbrev blank_key : KeyContextPrivate
blank_key = keypad_initialize_key_context_private (record {
  efi_key_context = record {
    key_data = zero_key;
    time = 0;
    state = released;
    is_repeat = false;
    is_longpress = false;
  };
  is_valid = false;
  device_type = legacy;
  gpio = 0;
  active_low = false;
  gpio_in = 0;
  gpio_out = 0;
  enable_key_pad_led = false;
})

abbrev leo_keys : List KeyContextPrivate
leo_keys = keypad_device_impl_reset (keypad_device_impl_constructor leo (replicate 7 blank_key))

abbrev leo_device : DeviceState memory_board
leo_device = (leo_keys, record { hw = λ a. 0; timer_running = false; maps = no_keys; reports = tt })

abbrev idle : Polling (ℕ → ℕ) ℕ
idle = record { hw = λ a. 0; timer_running = false; maps = no_keys; reports = 0 }

abbrev push_none : KeyData → ℕ → ℕ
push_none key n = n

abbrev same_device : DeviceState memory_board → DeviceState memory_board
same_device d = d

abbrev stopped_clock : DeviceState memory_board → ℕ × DeviceState memory_board
stopped_clock d = (0, d)

-- Over the keys of the phone themselves.
keypad_read_key_stroke_returns_example : IsKeystroke (
    keypad_read_key_stroke
      (device_get_keys memory_board)
      same_device
      stopped_clock
      same_time
      256
      (leo_device, console))
keypad_read_key_stroke_returns_example =
    keypad_read_key_stroke_returns (device_get_keys memory_board) same_device stopped_clock
      same_time (device_get_keys-IsPolling memory_board) (leo_device, console) refl two_keys-IsValid
