-- ===== src/Keypad/Console/Wait.antt =====
-- KeypadWaitForKey against the list of waiting keys.
use htc_leo_pkg.Prelude.{
  ℕ, zero, suc, ◌+◌, ◌%◌, ◌<◌, ◌≡◌, ◌≢◌, refl, ap, ◌∙◌, sym, arith, List, [], ◌∷◌, Bool, true,
  false, if◌then◌else◌, get_or, ℕ_discrete, inl, inr, Bool-cases, ==_ne,
}
use htc_leo_pkg.Keypad.Queue.{KeyData, KeyQueue, zero_key, max_count}
use htc_leo_pkg.Keypad.Queue.Refine.{
  IsValid, contents, count, pop_full, contents_empty, contents_full, is_efikey_buf_empty_lem,
}
use htc_leo_pkg.Keypad.Console.{
  ConsoleIn, is_partial, keypad_wait_for_key, keypad_timer_handler, wait_loop,
}

-- The keys from the first full one on.
abbrev pub drop_partials : List KeyData → List KeyData
drop_partials [] = []
drop_partials (k ∷ ks) = if is_partial k then drop_partials ks else k ∷ ks

abbrev pub is_nonempty : List KeyData → Bool
is_nonempty [] = false
is_nonempty (k ∷ ks) = true

-- What a run of the loop is to give.
abbrev Waited : Bool × KeyQueue → KeyQueue → Type 0
Waited r q =
    IsValid r.1
    × (contents r.1 ≡ drop_partials (contents q))
    × (r.0 ≡ is_nonempty (drop_partials (contents q)))

wait_empty : (n : ℕ) (q : KeyQueue) → q.head ≡ q.tail → wait_loop (suc n) q ≡ (false, q)
unfolding wait_loop
wait_empty n q e = ground (arith, is_efikey_buf_empty_lem q)

wait_partial :
    (n : ℕ) (q : KeyQueue)
    → q.head ≢ q.tail
    → is_partial (get_or q.buffer q.head zero_key) ≡ true
    → wait_loop (suc n) q ≡ wait_loop n (record q { head = (q.head + 1) % max_count })
unfolding wait_loop
wait_partial n q ne p =
    rw (is_efikey_buf_empty_lem q, ==_ne q.head q.tail ne, p, pop_full q ne) refl

wait_key :
    (n : ℕ) (q : KeyQueue)
    → q.head ≢ q.tail
    → is_partial (get_or q.buffer q.head zero_key) ≡ false
    → wait_loop (suc n) q ≡ (true, q)
unfolding wait_loop
wait_key n q ne p = rw (is_efikey_buf_empty_lem q, ==_ne q.head q.tail ne, p) refl

drop_partial :
    (k : KeyData) (ks : List KeyData)
    → is_partial k ≡ true
    → drop_partials (k ∷ ks) ≡ drop_partials ks
drop_partial k ks p = ground arith

drop_none :
    (k : KeyData) (ks : List KeyData) → is_partial k ≡ false → drop_partials (k ∷ ks) ≡ k ∷ ks
drop_none k ks p = ground arith

wait_loop_lem : (n : ℕ) (q : KeyQueue) → IsValid q → count q < n → Waited (wait_loop n q) q
wait_loop_lem zero q v h = absurd (omega arith)
wait_loop_lem (suc n) q v h = elim (ℕ_discrete q.head q.tail) [
  | yes e ↦
      let d = ap drop_partials (contents_empty q v e) in
      rw (wait_empty n q e) (v, contents_empty q v e ∙ sym d, sym (ap is_nonempty d))
  | no ne ↦
      let q' : KeyQueue = record q { head = (q.head + 1) % max_count } in
      let k = get_or q.buffer q.head zero_key in
      let full = contents_full q v ne in
      elim (Bool-cases (is_partial k)) [
        | inl p ↦
            let rest = wait_loop_lem n q' (omega (arith, v.storage)) (omega arith) in
            let d = ap drop_partials full ∙ drop_partial k (contents q') p in
            rw (wait_partial n q ne p) (rest.0, rest.1 ∙ sym d, rest.2 ∙ sym (ap is_nonempty d))
        | inr p ↦
            let d = ap drop_partials full ∙ drop_none k (contents q') p in
            rw (wait_key n q ne p) (v, full ∙ sym d, sym (ap is_nonempty d))
      ]
]

module _ {D : Type 0}
    (get_keys : (KeyData → ConsoleIn → ConsoleIn) → ℕ → D × ConsoleIn → D × ConsoleIn)
    (reset : D → D) (counter : D → ℕ × D) (nanoseconds : ℕ → ℕ) where
  -- The state once the keypad has been polled.
  abbrev pub polled : D × ConsoleIn → D × ConsoleIn
  polled t = keypad_timer_handler get_keys reset counter nanoseconds t

  -- With no error and a valid queue after the poll, KeypadWaitForKey leaves the waiting keys without
  -- the partial ones in front, and signals the event just when a key is left; 256 passes are enough.
  pub keypad_wait_for_key_lem :
      (t : D × ConsoleIn)
      → (polled t).1.keypad_err ≡ false
      → IsValid (polled t).1.efi_key_queue
      → let r = keypad_wait_for_key get_keys reset counter nanoseconds max_count t in
        let left = drop_partials (contents (polled t).1.efi_key_queue) in
        IsValid r.2.efi_key_queue × (contents r.2.efi_key_queue ≡ left) × (r.0 ≡ is_nonempty left)
  unfolding keypad_wait_for_key
  keypad_wait_for_key_lem t ok v = rw ok (wait_loop_lem max_count _ v (omega arith))
