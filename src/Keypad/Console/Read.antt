-- ===== src/Keypad/Console/Read.antt =====
-- KeypadReadKeyStroke returns: the poll of the keypad brings no partial key, so that its loop runs
-- out of them.
use htc_leo_pkg.Prelude.{
  ℕ, zero, suc, ◌-◌, ◌<◌, ◌≤◌, ◌≡◌, refl, ap, ◌⊎◌, ◌∙◌, arith, List, [], ◌∷◌, ◌++◌, Option, none,
  some, true, false, ◌&&◌, ◌==◌, if◌then◌else◌, drop, length, inl, inr, Bool-cases, if-elim,
}
use htc_leo_pkg.Efi.{Status, success, not_ready, device_error}
use htc_leo_pkg.Keypad.Queue.{
  KeyData, KeyQueue, pop_efikey_buf_head, push_efikey_buf_tail, max_count,
}
use htc_leo_pkg.Keypad.Queue.Refine.{
  IsValid, contents, count, pop_refines, push_refines, push_list, pop_list, popped,
  length-keys_from,
}
use htc_leo_pkg.Keypad.Console.{
  ConsoleIn, NotifyEntry, InputKey, is_partial, is_key_registered, push_notify, translate_ctrl,
  keypad_read_key_stroke, keypad_read_key_stroke_worker, keypad_timer_handler,
  keypad_return_api_push_efikey_buf_tail,
}

-- The partial keys that wait.
abbrev partials : List KeyData → ℕ
partials [] = 0
partials (k ∷ ks) = if is_partial k then suc (partials ks) else partials ks

partials-length : (ks : List KeyData) → partials ks ≤ length ks
partials-length [] = omega arith
partials-length (k ∷ ks) = ground (arith, partials-length ks)

partials-append :
    (ks : List KeyData) (k : KeyData)
    → is_partial k ≡ false
    → partials (ks ++ (k ∷ [])) ≡ partials ks
partials-append [] k p = ground arith
partials-append (x ∷ ks) k p = ground (arith, partials-append ks k p)

partials-drop : (ks : List KeyData) → partials (drop 1 ks) ≤ partials ks
partials-drop [] = omega arith
partials-drop (k ∷ ks) = ground arith

partials-push :
    (ks : List KeyData) (k : KeyData)
    → is_partial k ≡ false
    → partials (push_list ks k) ≤ partials ks
partials-push ks k p = elim (Bool-cases (length ks == 255)) [
  | inl e ↦ rw e (omega (arith, partials-append (drop 1 ks) k p, partials-drop ks))
  | inr e ↦ rw e (omega (arith, partials-append ks k p))
]

-- The part of the state that the loop depends on.
abbrev Reads : ℕ → ConsoleIn → Type 0
Reads n c =
    (c.is_support_partial_key ≡ false)
    × IsValid c.efi_key_queue
    × (partials (contents c.efi_key_queue) ≤ n)

push_notify_lem :
    (link : List NotifyEntry) (key : KeyData) (c : ConsoleIn)
    → (push_notify link key c).is_support_partial_key ≡ c.is_support_partial_key
      × (push_notify link key c).efi_key_queue ≡ c.efi_key_queue
push_notify_lem [] key c = (refl, refl)
push_notify_lem (entry ∷ link) key c = elim (Bool-cases (is_key_registered entry.key_data key)) [
  | inl e ↦ rw (push_notify, e) (push_notify_lem link key _)
  | inr e ↦ rw (push_notify, e) (push_notify_lem link key _)
]

push_ignored :
    (key : KeyData) (c : ConsoleIn)
    → is_partial key ≡ true
    → c.is_support_partial_key ≡ false
    → keypad_return_api_push_efikey_buf_tail key c ≡ c
unfolding keypad_return_api_push_efikey_buf_tail
push_ignored key c p off = ground arith

push_taken :
    (key : KeyData) (c : ConsoleIn)
    → is_partial key ≡ false
    → let c' = keypad_return_api_push_efikey_buf_tail key c in
      (c'.is_support_partial_key ≡ c.is_support_partial_key)
      × (c'.efi_key_queue ≡ push_efikey_buf_tail c.efi_key_queue key)
unfolding keypad_return_api_push_efikey_buf_tail
push_taken key c p =
    let (flag, queue) = push_notify_lem c.notify_list key c in
    rw p (flag, ap (λ (q : KeyQueue). push_efikey_buf_tail q key) queue)

push-Reads :
    (n : ℕ) (key : KeyData) (c : ConsoleIn)
    → Reads n c
    → Reads n (keypad_return_api_push_efikey_buf_tail key c)
push-Reads n key c (off, v, le) = elim (Bool-cases (is_partial key)) [
  | inl e ↦ rw (push_ignored key c e off) (off, v, le)
  | inr e ↦
      let (flag, queue) = push_taken key c e in
      let (v', list) = push_refines c.efi_key_queue key v in
      (
        flag ∙ off,
        rw queue v',
        rw (queue, list) (omega (arith, partials-push (contents c.efi_key_queue) key e)),
      )
]

-- The device reports its keys through the function that it is given: what every such call keeps, a
-- poll keeps.
abbrev pub IsPolling :
    {D : Type 0} → ((KeyData → ConsoleIn → ConsoleIn) → ℕ → D × ConsoleIn → D × ConsoleIn) → Type 1
IsPolling {D} get_keys =
    (P : ConsoleIn → Type 0) (push : KeyData → ConsoleIn → ConsoleIn)
    → ((key : KeyData) (c : ConsoleIn) → P c → P (push key c))
    → (delta : ℕ) (d : D) (c : ConsoleIn) → P c
    → P (get_keys push delta (d, c)).1

-- What a call returns: a full key with EFI_SUCCESS, or no key with one of two errors.
abbrev pub IsKeystroke : {D : Type 0} → Option (Status × Option InputKey × D × ConsoleIn) → Type 0
IsKeystroke none = ⊥
IsKeystroke (some u) = elim u.1 [
  | none ↦ (u.0 ≡ not_ready) ⊎ (u.0 ≡ device_error)
  | some key ↦ (u.0 ≡ success) × (((key.scan_code == 0) && (key.unicode_char == 0)) ≡ false)
]

translate_full :
    (key : KeyData)
    → is_partial key ≡ false
    → let k = translate_ctrl key in ((k.scan_code == 0) && (k.unicode_char == 0)) ≡ false
unfolding translate_ctrl
translate_full key p = ground arith

-- What the worker may give from a state with at most `n` partial keys.
abbrev Worked : {D : Type 0} → ℕ → Status × Option KeyData × D × ConsoleIn → Type 0
Worked n r =
    (((r.0 ≡ not_ready) ⊎ (r.0 ≡ device_error)) × (r.1 ≡ none))
    ⊎ ((key : KeyData) × (r.0 ≡ success)
        × (r.1 ≡ some key)
        × (r.3.is_support_partial_key ≡ false)
        × IsValid r.3.efi_key_queue
        × (partials (key ∷ contents r.3.efi_key_queue) ≤ n))

abbrev Popped : Type 0
Popped = Status × Option KeyData × List KeyData

abbrev status_of : Popped → Status
status_of p = p.0

abbrev key_of : Popped → Option KeyData
key_of p = p.1

abbrev keys_of : Popped → List KeyData
keys_of p = p.2

popped_Worked :
    {D : Type 0} (n : ℕ) (d : D) (c : ConsoleIn)
    → Reads n c
    → let (status, key, queue) = pop_efikey_buf_head c.efi_key_queue in
      Worked n (status, key, d, record c { efi_key_queue = queue })
popped_Worked n d c (off, v, le) =
    let (v', e) = pop_refines c.efi_key_queue v in go (contents c.efi_key_queue) v' e le
  where
    go :
        (ks : List KeyData)
        → IsValid (pop_efikey_buf_head c.efi_key_queue).2
        → popped c.efi_key_queue ≡ pop_list ks
        → partials ks ≤ n
        → let (status, key, queue) = pop_efikey_buf_head c.efi_key_queue in
          Worked n (status, key, d, record c { efi_key_queue = queue })
    go [] v' e le = inl (inl (ap status_of e), ap key_of e)
    go (k ∷ ks) v' e le = inr (k, ap status_of e, ap key_of e, off, v', rw (ap keys_of e) le)

module _ {D : Type 0}
    (get_keys : (KeyData → ConsoleIn → ConsoleIn) → ℕ → D × ConsoleIn → D × ConsoleIn)
    (reset : D → D) (counter : D → ℕ × D) (nanoseconds : ℕ → ℕ) (polling : IsPolling get_keys) where
  timer-Reads :
      (n : ℕ) (t : D × ConsoleIn)
      → Reads n t.1
      → Reads n (keypad_timer_handler get_keys reset counter nanoseconds t).1
  unfolding keypad_timer_handler
  timer-Reads n (d, c) h =
      if-elim (λ (t : D × ConsoleIn). Reads n t.1) c.keypad_err (λ e. h)
        (λ e.
          polling (Reads n) keypad_return_api_push_efikey_buf_tail (push-Reads n) _ _
            (record c { last = (counter d).0 }) h)

  worker_lem :
      (n : ℕ) (t : D × ConsoleIn)
      → Reads n t.1
      → Worked n (keypad_read_key_stroke_worker get_keys reset counter nanoseconds t)
  unfolding keypad_read_key_stroke_worker
  worker_lem n t h =
      let t' = keypad_timer_handler get_keys reset counter nanoseconds t in
      if-elim (Worked n) t'.1.keypad_err (λ e. inl (inr refl, refl))
        (λ e. popped_Worked n t'.0 t'.1 (timer-Reads n t h))

  -- One pass of the loop for each outcome of the worker.
  pass-IsKeystroke :
      (n : ℕ) (t : D × ConsoleIn)
      → let r = keypad_read_key_stroke_worker get_keys reset counter nanoseconds t in
        ((r.0 ≡ not_ready) ⊎ (r.0 ≡ device_error))
        → IsKeystroke (keypad_read_key_stroke get_keys reset counter nanoseconds (suc n) t)
  unfolding keypad_read_key_stroke
  pass-IsKeystroke n t (inl e) = rw (IsKeystroke, keypad_read_key_stroke, e) (inl e)
  pass-IsKeystroke n t (inr e) = rw (IsKeystroke, keypad_read_key_stroke, e) (inr e)

  pass_taken :
      (n : ℕ) (t : D × ConsoleIn) (key : KeyData)
      → let r = keypad_read_key_stroke_worker get_keys reset counter nanoseconds t in
        r.0 ≡ success
        → r.1 ≡ some key
        → keypad_read_key_stroke get_keys reset counter nanoseconds (suc n) t ≡ (
            if is_partial key
            then keypad_read_key_stroke get_keys reset counter nanoseconds n (r.2, r.3)
            else some (success, some (translate_ctrl key), r.2, r.3))
  unfolding keypad_read_key_stroke
  pass_taken n t key e f = rw (keypad_read_key_stroke, e, f) refl

  passes_lem :
      (fuel n : ℕ) (t : D × ConsoleIn)
      → Reads n t.1
      → n < fuel
      → IsKeystroke (keypad_read_key_stroke get_keys reset counter nanoseconds fuel t)
  passes_lem zero n t h lt = absurd (omega arith)
  passes_lem (suc fuel) n t h lt = elim (worker_lem n t h) [
    | inl w ↦ pass-IsKeystroke fuel t w.0
    | inr (key, e, f, off, v, le) ↦
        let r = keypad_read_key_stroke_worker get_keys reset counter nanoseconds t in
        rw (pass_taken fuel t key e f) (
          if-elim IsKeystroke (is_partial key)
            (λ p. passes_lem fuel (n - 1) (r.2, r.3) (off, v, ground arith) (ground arith))
            (λ p. (refl, translate_full key p)))
  ]

  -- With partial keys turned off and a valid queue, KeypadReadKeyStroke returns within 256 passes:
  -- a full key with EFI_SUCCESS, or no key with EFI_NOT_READY or EFI_DEVICE_ERROR.
  pub keypad_read_key_stroke_returns :
      (t : D × ConsoleIn)
      → t.1.is_support_partial_key ≡ false
      → IsValid t.1.efi_key_queue
      → IsKeystroke (keypad_read_key_stroke get_keys reset counter nanoseconds max_count t)
  keypad_read_key_stroke_returns t off v =
      let q = t.1.efi_key_queue in
      passes_lem max_count 255 t
        (
          off,
          v,
          omega (arith, partials-length (contents q), length-keys_from q.buffer q.head (count q)),
        )
        (omega arith)
