-- ===== src/Keypad/Console/Notify.antt =====
-- Key notifications: KeypadRegisterKeyNotify, KeypadUnregisterKeyNotify and KeyNotifyProcessHandler of
-- KeypadTextIn.c.
pub mod Registered
pub mod Calls
use htc_leo_pkg.Prelude.{
  ℕ, zero, suc, ◌+◌, ◌*◌, ◌<◌, ◌≤◌, ◌≡◌, ◌≢◌, refl, ap, ◌∙◌, sym, arith, List, [], ◌∷◌, ◌++◌,
  Option, none, some, Bool, true, false, not, ◌==◌, ◌||◌, if◌then◌else◌, length, inl, inr,
  Bool-cases, if-elim, ==_refl, ==_ne, length-append, All,
}
use htc_leo_pkg.Efi.{Status, success, invalid_parameter, out_of_resources}
use htc_leo_pkg.Keypad.Queue.{KeyData, KeyQueue, pop_efikey_buf_head, push_efikey_buf_tail}
use htc_leo_pkg.Keypad.Console.{ConsoleIn, NotifyEntry, is_key_registered, push_notify}

-- The entry that already has the key and the function.
abbrev pub find_notify : List NotifyEntry → KeyData → ℕ → Option ℕ
find_notify [] key fn = none
find_notify (entry ∷ link) key fn =
    if is_key_registered entry.key_data key
    then if entry.key_notification_fn == fn then some entry.handle else find_notify link key fn
    else find_notify link key fn

-- `pool` is what AllocateZeroPool gives; a NULL argument is `none` or `false`. The result has the
-- handle that is stored through NotifyHandle.
pub keypad_register_key_notify :
    Option KeyData → Option ℕ → Bool → Option ℕ → ConsoleIn → Status × Option ℕ × ConsoleIn
keypad_register_key_notify (some key) (some fn) true pool c =
    elim (find_notify c.notify_list key fn) [
      | some handle ↦ (success, some handle, c)
      | none ↦ elim pool [
        | none ↦ (out_of_resources, none, c)
        | some handle ↦ (
          success,
          some handle,
          record c {
            notify_list =
                c.notify_list
                ++ (record { handle = handle; key_data = key; key_notification_fn = fn } ∷ []);
          },
        )
      ]
    ]
keypad_register_key_notify _ _ _ pool c = (invalid_parameter, none, c)

-- The list without the entry, or nothing if it is not there.
abbrev pub remove_entry : List NotifyEntry → ℕ → Option (List NotifyEntry)
remove_entry [] handle = none
remove_entry (entry ∷ link) handle =
    let rest = remove_entry link handle in
    if entry.handle == handle
    then some link
    else elim rest [ none ↦ none | some link' ↦ some (entry ∷ link') ]

pub keypad_unregister_key_notify : Option ℕ → ConsoleIn → Status × ConsoleIn
keypad_unregister_key_notify none c = (invalid_parameter, c)
keypad_unregister_key_notify (some handle) c = elim (remove_entry c.notify_list handle) [
  | none ↦ (invalid_parameter, c)
  | some link ↦ (success, record c { notify_list = link })
]

-- The functions that the inner loop calls for one key, in the order of the calls.
abbrev pub notified : List NotifyEntry → KeyData → List (ℕ × KeyData)
notified [] key = []
notified (entry ∷ link) key =
    if is_key_registered entry.key_data key
    then (entry.key_notification_fn, key) ∷ notified link key
    else notified link key

-- The outer loop on fuel, with the calls made so far; `none` is a loop that is still going. The
-- functions called do not change the lists.
pub key_notify_process_handler :
    ℕ → List (ℕ × KeyData) → ConsoleIn → Option (List (ℕ × KeyData) × ConsoleIn)
key_notify_process_handler zero calls c = none
key_notify_process_handler (suc n) calls c =
    let (status, key, queue) = pop_efikey_buf_head c.efi_key_queue_for_notify in
    elim status [
      | success ↦ elim key [
        | none ↦ some (calls, c)
        | some k ↦
            key_notify_process_handler n (calls ++ notified c.notify_list k)
              (record c { efi_key_queue_for_notify = queue })
      ]
      | _ ↦ some (calls, c)
    ]
