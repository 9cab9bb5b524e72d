-- ===== src/Menu/HexInput/Refine.antt =====
-- The entry field as eight digits and a cursor that five commands work on.
use htc_leo_pkg.Prelude.{
  ℕ, zero, suc, ◌+◌, ◌-◌, ◌%◌, min, ◌<◌, ◌≡◌, refl, ap, sym, ◌∙◌, arith, List, [], ◌∷◌, ◌++◌, map,
  Option, none, some, Bool, true, false, ◌==◌, ltb, if◌then◌else◌, if-elim, get_or, set, length,
  replicate, length-set, get_or-set_self, append_assoc, length-append,
}
use htc_leo_pkg.Keypad.Console.{InputKey}
use htc_leo_pkg.Keypad.Device.{DeviceType, unknown, leo, schubert, bravo, passion}
use htc_leo_pkg.Menu.HexInput.{
  HexInput, hex_char, empty_hex_buffer, hex_pass, hex_loop, clear_buffer, get_hex_input, next_digit,
  Read, key_after, cycle_digit, previous_digit, complete, device_key,
}

pub data Command : Type 0 where
  next cycle previous accept nothing : Command

pub record Entry : Type 0 where
  pub digits : List ℕ
  pub cursor : ℕ

-- What a key means on each phone.
abbrev pub leo_command : InputKey → Command
leo_command key =
    if key.scan_code == 23
    then next
    else if key.unicode_char == 13
    then accept
    else if key.unicode_char == 9
    then cycle
    else if key.unicode_char == 8
    then previous
    else nothing

abbrev pub volume_command : InputKey → Command
volume_command key =
    if key.scan_code == 2
    then next
    else if key.scan_code == 1
    then cycle
    else if key.unicode_char == 13
    then accept
    else nothing

abbrev pub command : DeviceType → InputKey → Command
command leo key = leo_command key
command schubert key = volume_command key
command passion key = volume_command key
command bravo key = volume_command key
command unknown key = nothing

abbrev pub edit : Command → Entry → Entry
edit next e = record e { cursor = min (e.cursor + 1) 7 }
edit cycle e = record e { digits = set e.digits e.cursor ((get_or e.digits e.cursor 0 + 1) % 16) }
edit previous e = record e { cursor = e.cursor - 1 }
edit accept e = e
edit nothing e = e

-- The digits when they are accepted.
abbrev pub enter : List Command → Entry → Option (List ℕ)
enter [] e = none
enter (accept ∷ cs) e = some e.digits
enter (next ∷ cs) e = enter cs (edit next e)
enter (cycle ∷ cs) e = enter cs (edit cycle e)
enter (previous ∷ cs) e = enter cs (edit previous e)
enter (nothing ∷ cs) e = enter cs e

abbrev pub zeros : Entry
zeros = record { digits = replicate 8 0; cursor = 0 }

-- The string for the digits.
abbrev pub render : List ℕ → List ℕ
render digits = map hex_char digits ++ (0 ∷ [])

abbrev pub rendered : Option (List ℕ) → Option (List ℕ)
rendered none = none
rendered (some digits) = some (render digits)

pub record IsEntry (e : Entry) : Type 0 where
  pub eight : length e.digits ≡ 8
  pub cursor_in : e.cursor < 8

-- The source's variables, all of which the entry gives.
abbrev held_as : Bool → Entry → HexInput
held_as done e = record {
  hex_buffer = render e.digits;
  index = e.cursor;
  hex_char_index = get_or e.digits e.cursor 0;
  old_hex_char_index = e.digits;
  input_complete = done;
}

set_same : (xs : List ℕ) (i : ℕ) → set xs i (get_or xs i 0) ≡ xs
set_same [] i = refl
set_same (x ∷ xs) zero = refl
set_same (x ∷ xs) (suc i) = ap (x ∷◌) (set_same xs i)

set-render :
    (ds : List ℕ) (i d : ℕ) → i < length ds → set (render ds) i (hex_char d) ≡ render (set ds i d)
set-render [] i d h = absurd (omega arith)
set-render (x ∷ ds) zero d h = refl
set-render (x ∷ ds) (suc i) d h = ap (hex_char x ∷◌) (set-render ds i d (omega arith))

set_end : (ds : List ℕ) (n : ℕ) → length ds ≡ n → set (render ds) n 0 ≡ render ds
set_end [] zero h = refl
set_end [] (suc n) h = absurd (omega arith)
set_end (x ∷ ds) zero h = absurd (omega arith)
set_end (x ∷ ds) (suc n) h = ap (hex_char x ∷◌) (set_end ds n (omega arith))

edit-IsEntry : (c : Command) (e : Entry) → IsEntry e → IsEntry (edit c e)
edit-IsEntry next e v = record { eight = v.eight; cursor_in = omega (arith, v.cursor_in) }
edit-IsEntry cycle e v = record {
  eight = length-set e.digits e.cursor ((get_or e.digits e.cursor 0 + 1) % 16) ∙ v.eight;
  cursor_in = v.cursor_in;
}
edit-IsEntry previous e v = record { eight = v.eight; cursor_in = omega (arith, v.cursor_in) }
edit-IsEntry accept e v = v
edit-IsEntry nothing e v = v

-- The source's bodies for the commands.
abbrev act : Command → HexInput → HexInput
act next s = next_digit s
act cycle s = cycle_digit s
act previous s = previous_digit s
act accept s = complete s
act nothing s = s

back_cursor : (i : ℕ) → (if ltb 0 i then i - 1 else i) ≡ i - 1
back_cursor i = ground arith

is_accept : Command → Bool
is_accept accept = true
is_accept _ = false

act_lem :
    (c : Command) (e : Entry)
    → IsEntry e
    → act c (held_as false e) ≡ held_as (is_accept c) (edit c e)
unfolding is_accept
act_lem next e v = rw (set_same e.digits e.cursor) (
    if-elim (λ s. s ≡ held_as false (edit next e)) (ltb e.cursor 7)
      (λ h. ap (λ (i : ℕ). held_as false (record e { cursor = i })) (ground (arith, h)))
      (λ h.
        ap (λ (i : ℕ). held_as false (record e { cursor = i })) (ground (arith, h, v.cursor_in))))
act_lem cycle e v =
    let d = (get_or e.digits e.cursor 0 + 1) % 16 in
    let inside : e.cursor < length e.digits = omega (arith, v.eight, v.cursor_in) in
    rw (set-render e.digits e.cursor d inside)
      (rw (get_or-set_self e.digits e.cursor d 0 inside) refl)
act_lem previous e v =
    let i = e.cursor - 1 in
    let inside : i < length e.digits = omega (arith, v.eight, v.cursor_in) in
    rw (back_cursor e.cursor)
      (rw (set-render e.digits i (get_or e.digits i 0) inside) (rw (set_same e.digits i) refl))
act_lem accept e v = refl
act_lem nothing e v = refl

device_key_lem :
    (device : DeviceType) (key : InputKey) (s : HexInput)
    → device_key device key s ≡ act (command device key) s
device_key_lem leo key s = ground arith
device_key_lem schubert key s = ground arith
device_key_lem passion key s = ground arith
device_key_lem bravo key s = ground arith
device_key_lem unknown key s = refl

hex_pass_lem :
    (device : DeviceType) (key : InputKey) (e : Entry)
    → IsEntry e
    → let c = command device key in
      hex_pass device key (held_as false e) ≡ held_as (is_accept c) (edit c e)
unfolding hex_pass is_accept
hex_pass_lem device key e v =
    let c = command device key in
    rw (device_key_lem device key (held_as false e))
      (rw (act_lem c e v) (rw (set_end (edit c e).digits 8 (edit-IsEntry c e v).eight) refl))

-- The keys that the passes handle: the last one that was read, again and again.
abbrev pub handled : InputKey → List Read → List InputKey
handled key [] = []
handled key (read ∷ reads) = key_after key read ∷ handled (key_after key read) reads

hex_loop_done :
    (device : DeviceType) (reads : List Read) (key : InputKey) (e : Entry)
    → hex_loop device reads key (held_as true e) ≡ some (render e.digits)
unfolding hex_loop
hex_loop_done device [] key e = refl
hex_loop_done device (read ∷ reads) key e = refl

-- What the loop does after a command, from what it does on the reads that are left.
after_command :
    (device : DeviceType) (reads : List Read) (key : InputKey) (cs : List Command) (c : Command)
    (e : Entry)
    → IsEntry e
    → ((e' : Entry)
        → IsEntry e'
        → hex_loop device reads key (held_as false e') ≡ rendered (enter cs e'))
    → hex_loop device reads key (held_as (is_accept c) (edit c e)) ≡ rendered (enter (c ∷ cs) e)
unfolding is_accept
after_command device reads key cs next e v rest = rest (edit next e) (edit-IsEntry next e v)
after_command device reads key cs cycle e v rest = rest (edit cycle e) (edit-IsEntry cycle e v)
after_command device reads key cs previous e v rest =
    rest (edit previous e) (edit-IsEntry previous e v)
after_command device reads key cs accept e v rest = hex_loop_done device reads key e
after_command device reads key cs nothing e v rest = rest e v

hex_loop_lem :
    (device : DeviceType) (reads : List Read) (key : InputKey) (e : Entry)
    → IsEntry e
    → hex_loop device reads key (held_as false e)
      ≡ rendered (enter (map (command device) (handled key reads)) e)
unfolding hex_loop
hex_loop_lem device [] key e v = refl
hex_loop_lem device (read ∷ reads) key e v =
    let now = key_after key read in
    rw (hex_pass_lem device now e v) (
      after_command device reads now (map (command device) (handled now reads)) (command device now)
        e v (hex_loop_lem device reads now))

pub set_past :
    (pre : List ℕ) (x v : ℕ) (xs : List ℕ)
    → set (pre ++ (x ∷ xs)) (length pre) v ≡ (pre ++ (v ∷ [])) ++ xs
set_past [] x v xs = refl
set_past (y ∷ pre) x v xs = ap (y ∷◌) (set_past pre x v xs)

pub get_past : (pre : List ℕ) (x : ℕ) (xs : List ℕ) → get_or (pre ++ (x ∷ xs)) (length pre) 0 ≡ x
get_past [] x xs = refl
get_past (y ∷ pre) x xs = get_past pre x xs

pub length_past : (pre : List ℕ) (x : ℕ) → length (pre ++ (x ∷ [])) ≡ length pre + 1
length_past pre x = length-append pre (x ∷ [])

clear_past :
    (pre src dst : List ℕ)
    → pre ++ src ≡ empty_hex_buffer
    → length dst ≡ length src
    → clear_buffer (length src) (length pre) (pre ++ dst) ≡ empty_hex_buffer
unfolding clear_buffer
clear_past pre [] [] h e = h
clear_past pre [] (d ∷ dst) h e = absurd (omega arith)
clear_past pre (s ∷ src) [] h e = absurd (omega arith)
clear_past pre (s ∷ src) (d ∷ dst) h e =
    rw (ap (λ (b : List ℕ). get_or b (length pre) 0) (sym h) ∙ get_past pre s src, clear_buffer)
      (rw (set_past pre d s dst) (
        rw (sym (length_past pre s))
          (clear_past (pre ++ (s ∷ [])) src dst (append_assoc pre (s ∷ []) src ∙ h) (omega arith))))

-- Whatever the buffer of nine characters held, GetHexInput gives the string of the digits that the
-- commands of the keys that its passes handle enter from eight zeros, when one of them accepts, and
-- goes on when none does. A pass handles the key of its read, or the key of the pass before again
-- if the read brings none; before the first key that is what the uninitialised variable holds.
pub get_hex_input_lem :
    (device : DeviceType) (reads : List Read) (key : InputKey) (buffer : List ℕ)
    → length buffer ≡ 9
    → get_hex_input device reads key buffer
      ≡ rendered (enter (map (command device) (handled key reads)) zeros)
unfolding get_hex_input
get_hex_input_lem device reads key buffer h =
    rw (clear_past [] empty_hex_buffer buffer refl h)
      (hex_loop_lem device reads key zeros (record { eight = refl; cursor_in = omega arith }))
