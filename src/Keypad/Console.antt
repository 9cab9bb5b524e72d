-- ===== src/Keypad/Console.antt =====
-- The console-in device of the keypad driver: Keypad.h, KeypadController.c, KeypadTextIn.c and the
-- return API of Keypad.c, QSD8250Pkg/Drivers/KeypadDxe.
pub mod Notify
pub mod Read
pub mod Wait
mod Tests
use htc_leo_pkg.Prelude.{
  ℕ, zero, suc, ◌+◌, ◌-◌, ◌%◌, ◌^◌, List, [], ◌∷◌, Option, none, some, Bool, true, false, not, ◌&&◌,
  ◌||◌, bit_and, ◌==◌, leb, if◌then◌else◌, get_or, ◌≡◌, arith,
}
use htc_leo_pkg.Efi.{Status, success, invalid_parameter, unsupported, device_error}
use htc_leo_pkg.Keypad.Queue.{
  KeyData, KeyQueue, zero_key, is_efikey_buf_empty, pop_efikey_buf_head, push_efikey_buf_tail,
}

-- KEYPAD_CONSOLE_IN_EX_NOTIFY; a pointer, to a function or to the entry, is a number.
pub record NotifyEntry : Type 0 where
  pub handle : ℕ
  pub key_data : KeyData
  pub key_notification_fn : ℕ

-- KEYPAD_CONSOLE_IN_DEV. `signals` counts the signals of KeyNotifyProcessEvent.
pub record ConsoleIn : Type 0 where
  pub last : ℕ
  pub caps_lock : Bool
  pub num_lock : Bool
  pub scroll_lock : Bool
  pub left_ctrl : Bool
  pub right_ctrl : Bool
  pub left_alt : Bool
  pub right_alt : Bool
  pub left_shift : Bool
  pub right_shift : Bool
  pub left_logo : Bool
  pub right_logo : Bool
  pub menu : Bool
  pub sys_req : Bool
  pub is_support_partial_key : Bool
  pub efi_key_queue : KeyQueue
  pub efi_key_queue_for_notify : KeyQueue
  pub keypad_err : Bool
  pub notify_list : List NotifyEntry
  pub signals : ℕ

pub is_key_registered : KeyData → KeyData → Bool
is_key_registered registered input =
    if not (registered.scan_code == input.scan_code)
      || not (registered.unicode_char == input.unicode_char)
    then false
    else if not (registered.shift_state == 0) && not (registered.shift_state == input.shift_state)
    then false
    else if not (registered.toggle_state == 0)
        && not (registered.toggle_state == input.toggle_state)
    then false
    else true

pub key_registered_refl : (key : KeyData) → is_key_registered key key ≡ true
unfolding is_key_registered
key_registered_refl key = ground arith

-- SCAN_NULL and CHAR_NULL.
abbrev pub is_partial : KeyData → Bool
is_partial key = (key.scan_code == 0) && (key.unicode_char == 0)

-- The key goes to the notify queue once for each entry that matches it.
abbrev pub push_notify : List NotifyEntry → KeyData → ConsoleIn → ConsoleIn
push_notify [] key c = c
push_notify (entry ∷ link) key c = push_notify link key (
    if is_key_registered entry.key_data key
    then record c {
      efi_key_queue_for_notify = push_efikey_buf_tail c.efi_key_queue_for_notify key;
      signals = suc c.signals;
    }
    else c)

pub keypad_return_api_push_efikey_buf_tail : KeyData → ConsoleIn → ConsoleIn
keypad_return_api_push_efikey_buf_tail key c =
    if is_partial key && not c.is_support_partial_key
    then c
    else let c' = push_notify c.notify_list key c in
      record c' { efi_key_queue = push_efikey_buf_tail c'.efi_key_queue key }

pub keypad_error : ConsoleIn → ConsoleIn
keypad_error c = record c { keypad_err = true }

-- Bits of EFI_KEY_TOGGLE_STATE and of the shift state, from the UEFI specification.
abbrev pub toggle_state_valid : ℕ
toggle_state_valid = 128

abbrev key_state_exposed : ℕ
key_state_exposed = 64

abbrev caps_lock_active : ℕ
caps_lock_active = 4

abbrev num_lock_active : ℕ
num_lock_active = 2

abbrev scroll_lock_active : ℕ
scroll_lock_active = 1

abbrev pub control_pressed : ℕ
control_pressed = 12

abbrev has : ℕ → ℕ → Bool
has state bits = bit_and state bits == bits

pub keypad_set_state : Option ℕ → ConsoleIn → Status × ConsoleIn
keypad_set_state none c = (invalid_parameter, c)
keypad_set_state (some state) c =
    if c.keypad_err
    then (device_error, c)
    else if not (has state toggle_state_valid)
    then (unsupported, c)
    else (
      success,
      record c {
        scroll_lock = has state scroll_lock_active;
        num_lock = has state num_lock_active;
        caps_lock = has state caps_lock_active;
        is_support_partial_key = has state key_state_exposed;
      },
    )

-- EFI_INPUT_KEY.
pub record InputKey : Type 0 where
  pub scan_code : ℕ
  pub unicode_char : ℕ

-- Ctrl with a letter is the letter's control character.
pub translate_ctrl : KeyData → InputKey
translate_ctrl key = record {
  scan_code = key.scan_code;
  unicode_char =
      if bit_and key.shift_state control_pressed == 0
      then key.unicode_char
      else if leb 97 key.unicode_char && leb key.unicode_char 122
      then key.unicode_char - 97 + 1
      else if leb 65 key.unicode_char && leb key.unicode_char 90
      then key.unicode_char - 65 + 1
      else key.unicode_char;
}

-- The loop of KeypadWaitForKey on fuel; the result says whether the event is signalled.
pub wait_loop : ℕ → KeyQueue → Bool × KeyQueue
wait_loop zero queue = (false, queue)
wait_loop (suc n) queue =
    let rest = wait_loop n (pop_efikey_buf_head queue).2 in
    if is_efikey_buf_empty queue
    then (false, queue)
    else if is_partial (get_or queue.buffer queue.head zero_key)
    then rest
    else (true, queue)

-- `get_keys` and `reset` are the KEYPAD_DEVICE_PROTOCOL, `counter` and `nanoseconds` the timer
-- library's GetPerformanceCounter and GetTimeInNanoSecond, and `D` the state of all of these.
module _ {D : Type 0}
    (get_keys : (KeyData → ConsoleIn → ConsoleIn) → ℕ → D × ConsoleIn → D × ConsoleIn)
    (reset : D → D) (counter : D → ℕ × D) (nanoseconds : ℕ → ℕ) where
  pub keypad_timer_handler : D × ConsoleIn → D × ConsoleIn
  keypad_timer_handler (d, c) =
      if c.keypad_err
      then (d, c)
      else let (now, d') = counter d in
        get_keys keypad_return_api_push_efikey_buf_tail
          (nanoseconds ((now + 2 ^ 64 - c.last) % 2 ^ 64)) (d', record c { last = now })

  pub init_keypad : D × ConsoleIn → Status × D × ConsoleIn
  init_keypad (d, c) = (
    success,
    reset d,
    record c {
      efi_key_queue = record c.efi_key_queue { head = 0; tail = 0 };
      efi_key_queue_for_notify = record c.efi_key_queue_for_notify { head = 0; tail = 0 };
      caps_lock = false;
      num_lock = false;
      scroll_lock = false;
      left_ctrl = false;
      right_ctrl = false;
      left_alt = false;
      right_alt = false;
      left_shift = false;
      right_shift = false;
      left_logo = false;
      right_logo = false;
      menu = false;
      sys_req = false;
      is_support_partial_key = false;
    },
  )

  pub keypad_efi_reset : D × ConsoleIn → Status × D × ConsoleIn
  unfolding init_keypad
  keypad_efi_reset (d, c) = if c.keypad_err then (device_error, d, c) else init_keypad (d, c)

  -- With a buffer for the key.
  pub keypad_read_key_stroke_worker : D × ConsoleIn → Status × Option KeyData × D × ConsoleIn
  unfolding keypad_timer_handler
  keypad_read_key_stroke_worker (d, c) =
      let (d', c') = keypad_timer_handler (d, c) in
      if c'.keypad_err
      then (device_error, none, d', c')
      else let (status, key, queue) = pop_efikey_buf_head c'.efi_key_queue in
        (status, key, d', record c' { efi_key_queue = queue })

  -- The loop of KeypadReadKeyStroke on fuel; `none` is a loop that is still going. A call that
  -- succeeds gives the key.
  pub keypad_read_key_stroke : ℕ → D × ConsoleIn → Option (Status × Option InputKey × D × ConsoleIn)
  unfolding keypad_read_key_stroke_worker
  keypad_read_key_stroke zero t = none
  keypad_read_key_stroke (suc n) t =
      let r = keypad_read_key_stroke_worker t in
      let rest = keypad_read_key_stroke n (r.2, r.3) in
      elim r.0 [
        | success ↦ elim r.1 [
          | none ↦ some (r.0, none, r.2, r.3)
          | some key ↦
              if is_partial key then rest else some (success, some (translate_ctrl key), r.2, r.3)
        ]
        | _ ↦ some (r.0, none, r.2, r.3)
      ]

  pub keypad_wait_for_key : ℕ → D × ConsoleIn → Bool × D × ConsoleIn
  unfolding wait_loop
  keypad_wait_for_key n (d, c) =
      let (d', c') = keypad_timer_handler (d, c) in
      if c'.keypad_err
      then (false, d', c')
      else let (signal, queue) = wait_loop n c'.efi_key_queue in
        (signal, d', record c' { efi_key_queue = queue })
