-- ===== src/Detection/Serial.antt =====
-- The serial number, QSD8250Pkg/GPLDrivers/DeviceDetectionDxe/SerialGenerator.c.
use htc_leo_pkg.Prelude.{
  ℕ, zero, suc, ◌+◌, ◌*◌, ◌%◌, ◌^◌, ◌<◌, ◌≡◌, refl, ap, arith, [], ◌∷◌, Option, none, some, Bool,
  true, bit_xor, ◌&&◌, ◌||◌, leb, if◌then◌else◌, get_or, length, All,
}
use htc_leo_pkg.Word.{bit_xor_comm}
use htc_leo_pkg.Detection.Strings.{Text}

abbrev pub serial_len : ℕ
serial_len = 16

-- "ABCDEFGHIJKLMNOPQRSTUVWXYZ0123456789"
abbrev pub charset : Text
charset =
    65 ∷ 66 ∷ 67 ∷ 68 ∷ 69 ∷ 70 ∷ 71 ∷ 72 ∷ 73 ∷ 74 ∷ 75 ∷ 76 ∷ 77 ∷ 78 ∷ 79 ∷ 80 ∷ 81 ∷ 82 ∷ 83
    ∷ 84 ∷ 85 ∷ 86 ∷ 87 ∷ 88 ∷ 89 ∷ 90 ∷ 48 ∷ 49 ∷ 50 ∷ 51 ∷ 52 ∷ 53 ∷ 54 ∷ 55 ∷ 56 ∷ 57 ∷ []

-- One step of djb2.
pub hash_from : ℕ → Text → ℕ
hash_from hash [] = hash
hash_from hash (c ∷ str) = hash_from ((hash * 2 ^ 5 + hash + c) % 2 ^ 32) str

pub hash_string : Text → ℕ
unfolding hash_from
hash_string str = hash_from 5381 str

pub seed_from_inputs : Text → Text → ℕ
unfolding hash_string
seed_from_inputs cid imei = bit_xor (hash_string cid) (hash_string imei)

abbrev pub lcg_next : ℕ → ℕ
lcg_next seed = (seed * 1664525 + 1013904223) % 2 ^ 32

-- The loop that fills the number.
pub serial_from : ℕ → ℕ → Text
serial_from zero seed = []
serial_from (suc left) seed =
    let rnd = lcg_next seed in get_or charset (rnd % 36) 0 ∷ serial_from left rnd

-- With both strings; `alloc` says whether an allocation of that many bytes succeeds.
pub generate_android_serial : (ℕ → Bool) → Text → Text → Option Text
unfolding seed_from_inputs serial_from
generate_android_serial alloc cid imei =
    if alloc (serial_len + 1)
    then some (serial_from serial_len (seed_from_inputs cid imei))
    else none

-- A capital letter or a digit.
abbrev pub is_serial_char : ℕ → Bool
is_serial_char c = leb 65 c && leb c 90 || (leb 48 c && leb c 57)

abbrev are_serial_chars : Text → Bool
are_serial_chars [] = true
are_serial_chars (c ∷ str) = is_serial_char c && are_serial_chars str

get_or-serial_char :
    (str : Text) (i : ℕ)
    → are_serial_chars str ≡ true
    → i < length str
    → is_serial_char (get_or str i 0) ≡ true
get_or-serial_char [] i a h = absurd (omega arith)
get_or-serial_char (c ∷ str) zero a h = ground (arith, a)
get_or-serial_char (c ∷ str) (suc i) a h =
    get_or-serial_char str i (ground (arith, a)) (omega arith)

serial_from_lem :
    (left seed : ℕ)
    → (length (serial_from left seed) ≡ left)
      × All (λ c. is_serial_char c ≡ true) (serial_from left seed)
unfolding serial_from
serial_from_lem zero seed = (refl, tt)
serial_from_lem (suc left) seed =
    let rest = serial_from_lem left (lcg_next seed) in
    (ap suc rest.0, (get_or-serial_char charset (lcg_next seed % 36) refl (omega arith), rest.1))

-- Where memory is left the serial number has 16 characters, each a capital letter or a digit, and
-- it does not tell the two strings that it is made from apart: exchanged they give the same number.
pub generate_android_serial_lem :
    (alloc : ℕ → Bool) (cid imei : Text)
    → alloc 17 ≡ true
    → (serial : Text) × (generate_android_serial alloc cid imei ≡ some serial)
      × (generate_android_serial alloc imei cid ≡ some serial)
      × (length serial ≡ 16)
      × All (λ c. is_serial_char c ≡ true) serial
unfolding generate_android_serial
generate_android_serial_lem alloc cid imei h =
    let serial = serial_from 16 (seed_from_inputs cid imei) in
    let lem = serial_from_lem 16 (seed_from_inputs cid imei) in
    (
      serial,
      rw h refl,
      rw h (rw (bit_xor_comm (hash_string cid) (hash_string imei)) refl),
      lem.0,
      lem.1,
    )
