-- ===== src/Keypad/Key/Machine.antt =====
-- What the bit sets tell of the keys, and which flags go with which state of a key.
use htc_leo_pkg.Prelude.{
  if-elim, leb, refl, ◌+◌, ◌%◌, ◌^◌, ℕ, ◌<◌, ◌≡◌, arith, Bool, true, false, not, ◌&&◌, ◌||◌, ◌==◌,
  if◌then◌else◌, length,
}
use htc_leo_pkg.Bitmap.{bitmap_lem}
use htc_leo_pkg.Keypad.Queue.{KeyData}
use htc_leo_pkg.Keypad.Key.{
  KeyState, released, pressed, longpress_release, KeyContext, KeyMaps, key_set_state, key_get_state,
  key_step, key_held, key_let_go, lib_key_update_key_status, max_scancode, max_uncode_char, ms2ns,
  carriage_return, lib_key_initialize_key_context,
}

-- The sizes of the two arrays.
pub record IsMaps (maps : KeyMaps) : Type 0 where
  pub scan_words : length maps.scan_codes ≡ 1
  pub char_words : length maps.unicode_chars ≡ 4

-- For a key with a scan code and no character, the state last recorded is the state read back, and
-- it is read for no other scan code.
pub scan_code_lem :
    (c k : ℕ) (value : Bool) (maps : KeyMaps)
    → IsMaps maps
    → 0 < c
    → c < max_scancode
    → 0 < k
    → k < max_scancode
    → key_get_state k 0 (key_set_state c 0 value maps)
      ≡ (if c == k then value else key_get_state k 0 maps)
unfolding key_get_state key_set_state
scan_code_lem c k true maps v c0 cm k0 km =
    ground (arith, bitmap_lem maps.scan_codes c k (omega (arith, v.scan_words)))
scan_code_lem c k false maps v c0 cm k0 km =
    ground (arith, bitmap_lem maps.scan_codes c k (omega (arith, v.scan_words)))

-- Characters are told apart by nothing: with no scan code, all of them share bit 0, so that the
-- state recorded for one is the state read for every other.
pub character_alias :
    (u k : ℕ) (value : Bool) (maps : KeyMaps)
    → IsMaps maps
    → 0 < u
    → u < max_uncode_char
    → 0 < k
    → k < max_uncode_char
    → key_get_state 0 k (key_set_state 0 u value maps) ≡ value
unfolding key_get_state key_set_state
character_alias u k true maps v u0 um k0 km =
    ground (arith, bitmap_lem maps.unicode_chars 0 0 (omega (arith, v.char_words)))
character_alias u k false maps v u0 um k0 km =
    ground (arith, bitmap_lem maps.unicode_chars 0 0 (omega (arith, v.char_words)))

-- A key repeats only after its long press, and only a pressed key is in a long press.
abbrev is_key : KeyState → Bool → Bool → Bool
is_key released is_repeat is_longpress = not is_repeat && not is_longpress
is_key pressed is_repeat is_longpress = not is_repeat || is_longpress
is_key longpress_release is_repeat is_longpress = not is_repeat && not is_longpress

abbrev pub IsInStep : KeyContext → Type 0
IsInStep ctx = is_key ctx.state ctx.is_repeat ctx.is_longpress ≡ true

pub initialize-IsInStep :
    (key : KeyData) → IsInStep (record lib_key_initialize_key_context { key_data = key })
unfolding lib_key_initialize_key_context
initialize-IsInStep key = refl

module _ {S : Type 0} (push : KeyData → S → S) where
  step-IsInStep :
      (key : KeyData) (time : ℕ) (state : KeyState) (r l p : Bool) (maps : KeyMaps) (s : S)
      → let ctx' =
          (key_step push p
            (record { key_data = key; time = time; state = state; is_repeat = r; is_longpress = l })
            maps
            s).0 in
        is_key state r l ≡ true
        → (is_key ctx'.state ctx'.is_repeat ctx'.is_longpress ≡ true) × (ctx'.key_data ≡ key)
  unfolding key_held key_let_go key_step
  step-IsInStep key time released r l p maps s v = ground arith
  step-IsInStep key time longpress_release r l p maps s v = ground arith
  step-IsInStep key time pressed r l p maps s v = ground arith

  -- Every poll of a key keeps its flags in step with its state, whatever is pressed and however
  -- long it took, and the key itself does not change.
  pub key_update-IsInStep :
      (ctx : KeyContext) (is_pressed : Bool) (delta : ℕ) (maps : KeyMaps) (s : S)
      → IsInStep ctx
      → IsInStep (lib_key_update_key_status push ctx is_pressed delta (maps, s)).0
        × ((lib_key_update_key_status push ctx is_pressed delta (maps, s)).0.key_data
            ≡ ctx.key_data)
  unfolding lib_key_update_key_status
  key_update-IsInStep ctx is_pressed delta maps s v =
      step-IsInStep ctx.key_data _ ctx.state ctx.is_repeat ctx.is_longpress is_pressed _ s v

  -- What every report keeps, a poll of a key keeps.
  module _ (P : S → Type 0) (keeps : (key : KeyData) (s : S) → P s → P (push key s)) where
    held-keeps : (ctx : KeyContext) (maps : KeyMaps) (s : S) → P s → P (key_held push ctx maps s).1
    unfolding key_held
    held-keeps ctx maps s h =
        let Q = λ (r : KeyContext × S). P r.1 in
        if-elim Q (ctx.is_repeat && leb (ms2ns 200) ctx.time) (λ e. keeps _ s h)
          (λ e.
            if-elim Q (not ctx.is_longpress && leb (ms2ns 500) ctx.time)
              (λ e.
                if-elim Q (ctx.key_data.unicode_char == carriage_return) (λ e. keeps _ s h)
                  (λ e.
                    if-elim Q (key_get_state 0 carriage_return maps) (λ e. h) (λ e. keeps _ s h)))
              (λ e. h))

    let_go-keeps : (ctx : KeyContext) (s : S) → P s → P (key_let_go push ctx s).1
    unfolding key_let_go
    let_go-keeps ctx s h =
        let Q = λ (r : KeyContext × S). P r.1 in
        if-elim Q (not ctx.is_longpress) (λ e. keeps _ s h)
          (λ e. if-elim Q (leb (ms2ns 10) ctx.time) (λ e. h) (λ e. h))

    step-keeps :
        (p : Bool) (ctx : KeyContext) (maps : KeyMaps) (s : S)
        → P s
        → P (key_step push p ctx maps s).1
    unfolding key_step
    step-keeps p ctx maps s h = go ctx.state refl
      where
        go : (state : KeyState) → ctx.state ≡ state → P (key_step push p ctx maps s).1
        go released e = rw (key_step, e) h
        go pressed e =
            rw (key_step, e)
              (if-elim (λ (r : KeyContext × S). P r.1) p (λ e. held-keeps ctx maps s h)
                (λ e. let_go-keeps ctx s h))
        go longpress_release e = rw (key_step, e) h

    pub key_update-keeps :
        (ctx : KeyContext) (is_pressed : Bool) (delta : ℕ) (maps : KeyMaps) (s : S)
        → P s
        → P (lib_key_update_key_status push ctx is_pressed delta (maps, s)).2
    unfolding lib_key_update_key_status
    key_update-keeps ctx is_pressed delta maps s h =
        step-keeps is_pressed (record ctx { time = (ctx.time + delta) % 2 ^ 64 }) _ s h
