-- ===== src/Keypad/Device/Poll.antt =====
-- What a poll of all the keys keeps, and the keypad driver over these keys.
use htc_leo_pkg.Prelude.{ℕ, ◌≡◌, arith, length, List, [], ◌∷◌, not, if-elim, All, Option-elim}
use htc_leo_pkg.Keypad.Queue.{KeyData, zero_key}
use htc_leo_pkg.Keypad.Key.Machine.{
  IsInStep, initialize-IsInStep, key_update-IsInStep, key_update-keeps,
}
use htc_leo_pkg.Keypad.Console.{ConsoleIn}
use htc_leo_pkg.Keypad.Console.Read.{IsPolling}
use htc_leo_pkg.Keypad.Device.{
  KeyContextPrivate, Board, Polling, poll_key, poll_read, read_key_line,
  keypad_device_impl_get_keys, keypad_device_impl_reset, reset_keys, key_codes,
}

abbrev pub ContextIsInStep : KeyContextPrivate → Type 0
ContextIsInStep k = IsInStep k.efi_key_context

reset_keys-IsInStep :
    (cs : List (ℕ × ℕ)) (ks : List KeyContextPrivate)
    → length ks ≡ length cs
    → All ContextIsInStep (reset_keys cs ks)
reset_keys-IsInStep [] [] e = tt
reset_keys-IsInStep [] (k ∷ ks) e = absurd (omega arith)
reset_keys-IsInStep (c ∷ cs) [] e = tt
reset_keys-IsInStep (c ∷ cs) (k ∷ ks) e = (
  initialize-IsInStep (record zero_key { scan_code = c.0; unicode_char = c.1 }),
  reset_keys-IsInStep cs ks (omega arith),
)

-- After a reset the seven keys are in step.
pub reset-IsInStep :
    (ks : List KeyContextPrivate)
    → length ks ≡ 7
    → All ContextIsInStep (keypad_device_impl_reset ks)
unfolding keypad_device_impl_reset
reset-IsInStep ks e = reset_keys-IsInStep key_codes ks e

module _ (board : Board) where
  module _ {S : Type 0} (push : KeyData → S → S) (delta : ℕ) where
    poll-IsInStep :
        (k : KeyContextPrivate) (t : Polling board.State S)
        → ContextIsInStep k
        → ContextIsInStep (poll_key board push delta k t).0
    unfolding poll_key poll_read
    poll-IsInStep k t h =
        let P = λ (r : KeyContextPrivate × Polling board.State S). ContextIsInStep r.0 in
        if-elim P (not k.is_valid) (λ e. h)
          (λ e.
            Option-elim P (read_key_line board k t.hw) h
              (λ line. (key_update-IsInStep push k.efi_key_context _ delta t.maps t.reports h).0))

    poll-keeps :
        (P : S → Type 0)
        → ((key : KeyData) (s : S) → P s → P (push key s))
        → (k : KeyContextPrivate) (t : Polling board.State S) → P t.reports
        → P (poll_key board push delta k t).1.reports
    unfolding poll_key poll_read
    poll-keeps P keeps k t h =
        let Q = λ (r : KeyContextPrivate × Polling board.State S). P r.1.reports in
        if-elim Q (not k.is_valid) (λ e. h)
          (λ e.
            Option-elim Q (read_key_line board k t.hw) h
              (λ line. key_update-keeps push P keeps k.efi_key_context _ delta t.maps t.reports h))

    -- A poll of the keys keeps every key's flags in step with its state.
    pub get_keys-IsInStep :
        (ks : List KeyContextPrivate) (t : Polling board.State S)
        → All ContextIsInStep ks
        → All ContextIsInStep (keypad_device_impl_get_keys board push delta (ks, t)).0
    unfolding keypad_device_impl_get_keys
    get_keys-IsInStep [] t h = h
    get_keys-IsInStep (k ∷ ks) t h =
        (poll-IsInStep k t h.0, get_keys-IsInStep ks (poll_key board push delta k t).1 h.1)

    get_keys-keeps :
        (P : S → Type 0)
        → ((key : KeyData) (s : S) → P s → P (push key s))
        → (ks : List KeyContextPrivate) (t : Polling board.State S) → P t.reports
        → P (keypad_device_impl_get_keys board push delta (ks, t)).1.reports
    unfolding keypad_device_impl_get_keys
    get_keys-keeps P keeps [] t h = h
    get_keys-keeps P keeps (k ∷ ks) t h =
        get_keys-keeps P keeps ks (poll_key board push delta k t).1 (poll-keeps P keeps k t h)

  -- The state of the keys without what they report.
  abbrev pub DeviceState : Type 0
  DeviceState = List KeyContextPrivate × Polling board.State Unit

  -- The keys as the driver's KEYPAD_DEVICE_PROTOCOL.
  abbrev pub device_get_keys :
      (KeyData → ConsoleIn → ConsoleIn) → ℕ → DeviceState × ConsoleIn → DeviceState × ConsoleIn
  device_get_keys push delta (d, c) =
      let t = d.1 in
      let (ks, t') =
        keypad_device_impl_get_keys board push delta (
          d.0,
          record { hw = t.hw; timer_running = t.timer_running; maps = t.maps; reports = c },
        ) in
      (
        (ks, record { hw = t'.hw; timer_running = t'.timer_running; maps = t'.maps; reports = tt }),
        t'.reports,
      )

  pub device_get_keys-IsPolling : IsPolling device_get_keys
  device_get_keys-IsPolling P push keeps delta d c h = get_keys-keeps push delta P keeps d.0 _ h
