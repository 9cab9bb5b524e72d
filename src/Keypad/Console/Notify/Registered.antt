-- ===== src/Keypad/Console/Notify/Registered.antt =====
-- A registration, made again and taken back.
use htc_leo_pkg.Prelude.{
  ℕ, ◌≡◌, ◌≢◌, refl, arith, List, [], ◌∷◌, ◌++◌, Option, none, some, true, All, ==_ne,
}
use htc_leo_pkg.Efi.{success}
use htc_leo_pkg.Keypad.Queue.{KeyData}
use htc_leo_pkg.Keypad.Console.{ConsoleIn, NotifyEntry, key_registered_refl}
use htc_leo_pkg.Keypad.Console.Notify.{
  find_notify, remove_entry, keypad_register_key_notify, keypad_unregister_key_notify,
}

abbrev pub new_entry : ℕ → KeyData → ℕ → NotifyEntry
new_entry handle key fn = record { handle = handle; key_data = key; key_notification_fn = fn }

find-append :
    (link : List NotifyEntry) (key : KeyData) (fn h : ℕ)
    → find_notify link key fn ≡ none
    → find_notify (link ++ (new_entry h key fn ∷ [])) key fn ≡ some h
find-append [] key fn h e = ground (arith, key_registered_refl key)
find-append (entry ∷ link) key fn h e = ground (arith, find-append link key fn h)

remove-append :
    (link : List NotifyEntry) (key : KeyData) (fn h : ℕ)
    → All (λ (e : NotifyEntry). e.handle ≢ h) link
    → remove_entry (link ++ (new_entry h key fn ∷ [])) h ≡ some link
remove-append [] key fn h e = ground arith
remove-append (entry ∷ link) key fn h e =
    rw (remove-append link key fn h e.1, ==_ne entry.handle h e.0) refl

abbrev added : ℕ → KeyData → ℕ → ConsoleIn → ConsoleIn
added h key fn c = record c { notify_list = c.notify_list ++ (new_entry h key fn ∷ []) }

register_new :
    (key : KeyData) (fn h : ℕ) (c : ConsoleIn)
    → find_notify c.notify_list key fn ≡ none
    → keypad_register_key_notify (some key) (some fn) true (some h) c
      ≡ (success, some h, added h key fn c)
unfolding keypad_register_key_notify
register_new key fn h c e = rw (keypad_register_key_notify, e) refl

register_old :
    (key : KeyData) (fn h : ℕ) (pool : Option ℕ) (c : ConsoleIn)
    → find_notify c.notify_list key fn ≡ some h
    → keypad_register_key_notify (some key) (some fn) true pool c ≡ (success, some h, c)
unfolding keypad_register_key_notify
register_old key fn h pool c e = rw (keypad_register_key_notify, e) refl

unregister_found :
    (h : ℕ) (c : ConsoleIn) (link : List NotifyEntry)
    → remove_entry c.notify_list h ≡ some link
    → keypad_unregister_key_notify (some h) c ≡ (success, record c { notify_list = link })
unfolding keypad_unregister_key_notify
unregister_found h c link e = rw (keypad_unregister_key_notify, e) refl

-- A new registration succeeds with the handle of the memory allocated for it; made again it gives
-- the same handle and changes nothing, and taken back it leaves the list as it was, if no entry of
-- the list had that handle.
pub register_roundtrip :
    (key : KeyData) (fn h : ℕ) (pool : Option ℕ) (c : ConsoleIn)
    → find_notify c.notify_list key fn ≡ none
    → All (λ (e : NotifyEntry). e.handle ≢ h) c.notify_list
    → let (status, handle, c') = keypad_register_key_notify (some key) (some fn) true (some h) c in
      (status ≡ success)
      × (handle ≡ some h)
      × (keypad_register_key_notify (some key) (some fn) true pool c' ≡ (success, some h, c'))
      × (keypad_unregister_key_notify (some h) c' ≡ (success, c))
register_roundtrip key fn h pool c e fresh =
    let c' = added h key fn c in
    rw (register_new key fn h c e) (
      refl,
      refl,
      register_old key fn h pool c' (find-append c.notify_list key fn h e),
      unregister_found h c' c.notify_list (remove-append c.notify_list key fn h fresh),
    )
