-- ===== src/Keypad/Queue.antt =====
-- EFI_KEY_QUEUE and its three operations, QSD8250Pkg/Drivers/KeypadDxe/KeypadTextIn.c. A full queue
-- drops its oldest key.
pub mod Refine
use htc_leo_pkg.Prelude.{
  ℕ, ◌+◌, ◌%◌, List, Option, none, some, Bool, ◌==◌, if◌then◌else◌, get_or, set,
}
use htc_leo_pkg.Efi.{Status, success, not_ready}

abbrev pub max_count : ℕ
max_count = 256

-- EFI_KEY_DATA: the key and the shift and toggle state.
pub record KeyData : Type 0 where
  pub scan_code : ℕ
  pub unicode_char : ℕ
  pub shift_state : ℕ
  pub toggle_state : ℕ

abbrev pub zero_key : KeyData
zero_key = record { scan_code = 0; unicode_char = 0; shift_state = 0; toggle_state = 0 }

pub record KeyQueue : Type 0 where
  pub buffer : List KeyData
  pub head : ℕ
  pub tail : ℕ

pub is_efikey_buf_empty : KeyQueue → Bool
is_efikey_buf_empty q = q.head == q.tail

-- The key is what goes through `KeyData`.
pub pop_efikey_buf_head : KeyQueue → Status × Option KeyData × KeyQueue
unfolding is_efikey_buf_empty
pop_efikey_buf_head q = if is_efikey_buf_empty q then (not_ready, none, q) else (
  success,
  some (get_or q.buffer q.head zero_key),
  record q { head = (q.head + 1) % max_count },
)

pub push_efikey_buf_tail : KeyQueue → KeyData → KeyQueue
unfolding pop_efikey_buf_head
push_efikey_buf_tail q key =
    let q' = if (q.tail + 1) % max_count == q.head then (pop_efikey_buf_head q).2 else q in
    record q' { buffer = set q'.buffer q'.tail key; tail = (q'.tail + 1) % max_count }
