-- ===== src/Keypad/Console/Notify/Calls.antt =====
-- How often a notification function is called for one key.
use htc_leo_pkg.Prelude.{
  false, ℕ, suc, List, [], ◌∷◌, ◌++◌, Option, none, some, false, if◌then◌else◌, length,
}
use htc_leo_pkg.Keypad.Queue.{KeyData, KeyQueue, pop_efikey_buf_head, push_efikey_buf_tail}
use htc_leo_pkg.Keypad.Console.{ConsoleIn, NotifyEntry, is_key_registered}
use htc_leo_pkg.Keypad.Console.Notify.{notified}

-- The entries that match a key.
abbrev pub matches : List NotifyEntry → KeyData → ℕ
matches [] key = 0
matches (entry ∷ link) key =
    if is_key_registered entry.key_data key then suc (matches link key) else matches link key

-- The calls for one waiting key after another.
abbrev all_notified : List NotifyEntry → List KeyData → List (ℕ × KeyData)
all_notified link [] = []
all_notified link (k ∷ ks) = notified link k ++ all_notified link ks

abbrev sent : KeyData → ConsoleIn → ConsoleIn
sent key c = record c {
  efi_key_queue_for_notify = push_efikey_buf_tail c.efi_key_queue_for_notify key;
  signals = suc c.signals;
}

abbrev Outcome : Type 0
Outcome = Option (List (ℕ × KeyData) × ConsoleIn)

abbrev pub calls_made : Outcome → Option (List (ℕ × KeyData))
calls_made none = none
calls_made (some r) = some r.0

abbrev pop_queue : ConsoleIn → KeyQueue
pop_queue c = (pop_efikey_buf_head c.efi_key_queue_for_notify).2

abbrev pub call_count : Option (List (ℕ × KeyData)) → Option ℕ
call_count none = none
call_count (some calls) = some (length calls)
