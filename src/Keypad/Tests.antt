-- ===== src/Keypad/Tests.antt =====
-- Runs of the keypad: the queue, the keys, and the text input protocol.
use htc_leo_pkg.Prelude.{
  ◌*◌, ◌≤◌, ◌≡◌, refl, arith, List, [], ◌∷◌, ◌++◌, map, some, false, replicate,
}
use htc_leo_pkg.Efi.{success}
use htc_leo_pkg.Keypad.Queue.{
  KeyData, KeyQueue, zero_key, pop_efikey_buf_head, push_efikey_buf_tail,
}
use htc_leo_pkg.Keypad.Queue.Refine.{IsValid, contents, popped, pop_refines, push_refines}
use htc_leo_pkg.Keypad.Key.{KeyContext, released, no_keys, lib_key_initialize_key_context, ms2ns}
use htc_leo_pkg.Keypad.Key.Machine.{IsMaps}
use htc_leo_pkg.Keypad.Key.Timing.{hold, run_key, tap_reports_once, held_key_rate, count_key}

abbrev key_a : KeyData
key_a = record zero_key { unicode_char = 97 }

-- A queue with two keys, the second round the end.
abbrev two_keys : KeyQueue
two_keys = record { buffer = replicate 256 key_a; head = 255; tail = 1 }

two_keys-IsValid : IsValid two_keys
two_keys-IsValid = record { storage = refl; head_in = omega arith; tail_in = omega arith }

pop_refines_example :
    IsValid (pop_efikey_buf_head two_keys).2 × (popped two_keys ≡ (success, some key_a, key_a ∷ []))
pop_refines_example = pop_refines two_keys two_keys-IsValid

push_refines_example :
    IsValid (push_efikey_buf_tail two_keys zero_key)
    × (contents (push_efikey_buf_tail two_keys zero_key) ≡ key_a ∷ key_a ∷ zero_key ∷ [])
push_refines_example = push_refines two_keys zero_key two_keys-IsValid

no_keys-IsMaps : IsMaps no_keys
no_keys-IsMaps = record { scan_words = refl; char_words = refl }

-- Reports collected in a list.
abbrev collect : KeyData → List KeyData → List KeyData
collect key keys = key ∷ keys

abbrev fresh : KeyContext
fresh = record {
  key_data = key_a;
  time = 0;
  state = released;
  is_repeat = false;
  is_longpress = false;
}

tap_reports_once_example :
    let r =
      run_key collect
        (hold 1 ∷ map hold (20000000 ∷ 20000000 ∷ [])
          ++ ((false, 20000000) ∷ (false, 20000000) ∷ []))
        (fresh, no_keys, []) in
    (r.0 ≡ record lib_key_initialize_key_context { key_data = key_a }) × (r.2 ≡ key_a ∷ [])
tap_reports_once_example =
    tap_reports_once collect fresh 1 (20000000 ∷ 20000000 ∷ []) 20000000 20000000 no_keys [] refl
      refl (omega arith)

held_key_rate_example :
    ms2ns 200
      * (run_key count_key (map hold (1 ∷ ms2ns 600 ∷ ms2ns 300 ∷ [])) (fresh, no_keys, 0)).2
    ≤ ms2ns 900
held_key_rate_example = held_key_rate fresh 1 (ms2ns 600 ∷ ms2ns 300 ∷ []) no_keys refl refl
