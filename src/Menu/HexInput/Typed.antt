-- ===== src/Menu/HexInput/Typed.antt =====
-- Which numbers can be typed in the entry field, and on which phones.
use htc_leo_pkg.Prelude.{
  ℕ, zero, suc, ◌+◌, ◌%◌, min, ◌<◌, ◌≡◌, ◌≢◌, refl, ap, ap₂, sym, ◌∙◌, arith, List, [], ◌∷◌, ◌++◌,
  map, Option, none, some, length, replicate, append_assoc, All,
}
use htc_leo_pkg.Keypad.Console.{InputKey}
use htc_leo_pkg.Keypad.Device.{DeviceType, unknown, leo, schubert, bravo, passion}
use htc_leo_pkg.Menu.HexInput.{Read, get_hex_input}
use htc_leo_pkg.Menu.HexInput.Refine.{
  handled, next, cycle, accept, Entry, command, enter, zeros, render, rendered, get_hex_input_lem,
  set_past, get_past, length_past,
}

abbrev scan : ℕ → InputKey
scan code = record { scan_code = code; unicode_char = 0 }

abbrev pub char : ℕ → InputKey
char c = record { scan_code = 0; unicode_char = c }

-- The windows key on the Leo, volume up on the others.
abbrev pub cycle_key : DeviceType → InputKey
cycle_key leo = char 9
cycle_key _ = scan 1

-- The key that ends the call on the Leo, volume down on the others.
abbrev next_key : DeviceType → InputKey
next_key leo = scan 23
next_key _ = scan 2

-- The keystrokes for some digits and the key that accepts them.
abbrev pub typed : DeviceType → List ℕ → List InputKey
typed device [] = char 13 ∷ []
typed device (d ∷ ds) = replicate d (cycle_key device) ++ (next_key device ∷ typed device ds)

key_commands :
    (device : DeviceType)
    → device ≢ unknown
    → (command device (cycle_key device) ≡ cycle)
      × (command device (next_key device) ≡ next)
      × (command device (char 13) ≡ accept)
key_commands unknown h = absurd (h refl)
key_commands leo h = (refl, refl, refl)
key_commands schubert h = (refl, refl, refl)
key_commands bravo h = (refl, refl, refl)
key_commands passion h = (refl, refl, refl)

-- When each pass reads a key, these are the keys that are handled.
handled-some : (key : InputKey) (keys : List InputKey) → handled key (map some keys) ≡ keys
handled-some key [] = refl
handled-some key (k ∷ keys) = ap (k ∷◌) (handled-some k keys)

-- The key is handled again in each pass without one.
handled-none :
    (n : ℕ) (key new : InputKey)
    → handled key (replicate n none ++ (some new ∷ [])) ≡ replicate n key ++ (new ∷ [])
handled-none zero key new = refl
handled-none (suc n) key new = ap (key ∷◌) (handled-none n key new)

module _ (device : DeviceType) (known : device ≢ unknown) where
  reads_cycle : command device (cycle_key device) ≡ cycle
  reads_cycle = (key_commands device known).0

  reads_next : command device (next_key device) ≡ next
  reads_next = (key_commands device known).1

  reads_accept : command device (char 13) ≡ accept
  reads_accept = (key_commands device known).2

  reads : List InputKey → List ℕ → ℕ → Option (List ℕ)
  reads keys digits cursor =
      enter (map (command device) keys) (record { digits = digits; cursor = cursor })

  -- `d` turns of the digit at the cursor, from `x` to `y`.
  turned :
      (d x y : ℕ) (pre zs : List ℕ) (keys : List InputKey)
      → y < 16
      → x + d ≡ y
      → reads (replicate d (cycle_key device) ++ keys) (pre ++ (x ∷ zs)) (length pre)
        ≡ reads keys (pre ++ (y ∷ zs)) (length pre)
  unfolding reads
  turned zero x y pre zs keys h e =
      ap (λ (k : ℕ). reads keys (pre ++ (k ∷ zs)) (length pre)) (omega arith)
  turned (suc d) x y pre zs keys h e = rw reads_cycle (
      rw (get_past pre x zs) (
        rw (set_past pre x ((x + 1) % 16) zs ∙ append_assoc pre (((x + 1) % 16) ∷ []) zs)
          (turned d ((x + 1) % 16) y pre zs keys h (omega arith))))

  entered :
      (ds pre : List ℕ)
      → length pre + length ds ≡ 8
      → All (λ d. d < 16) ds
      → reads (typed device ds) (pre ++ replicate (length ds) 0) (min (length pre) 7)
        ≡ some (pre ++ ds)
  unfolding reads
  entered [] pre e h = rw reads_accept refl
  entered (d ∷ ds) pre e h =
      let zs : List ℕ = replicate (length ds) 0 in
      let keys : List InputKey = next_key device ∷ typed device ds in
      let here : min (length pre) 7 ≡ length pre = omega arith in
      let moved : reads keys (pre ++ (d ∷ zs)) (length pre)
          ≡ reads (typed device ds) ((pre ++ (d ∷ [])) ++ zs) (min (length (pre ++ (d ∷ []))) 7) =
        rw reads_next (
          ap₂ (λ (digits : List ℕ) (n : ℕ). reads (typed device ds) digits (min n 7))
            (sym (append_assoc pre (d ∷ []) zs)) (sym (length_past pre d))) in
      ap (reads (typed device (d ∷ ds)) (pre ++ (0 ∷ zs))) here
      ∙ turned d 0 d pre zs keys h.0 (omega arith)
      ∙ moved
      ∙ entered ds (pre ++ (d ∷ [])) (omega (arith, length_past pre d)) h.1
      ∙ ap some (append_assoc pre (d ∷ []) ds)

  -- On every phone that is told apart, any eight hexadecimal digits can be typed if each pass of the
  -- loop reads the next of their keystrokes, none coming between that brings no key: GetHexInput then
  -- returns their string, whatever the buffer of nine characters and the uninitialised key held.
  pub typed_lem :
      (ds buffer : List ℕ) (key : InputKey)
      → length ds ≡ 8
      → All (λ d. d < 16) ds
      → length buffer ≡ 9
      → get_hex_input device (map some (typed device ds)) key buffer ≡ some (render ds)
  unfolding reads
  typed_lem ds buffer key e h b =
      get_hex_input_lem device (map some (typed device ds)) key buffer b
      ∙ (ap (λ (ks : List InputKey). rendered (enter (map (command device) ks) zeros))
            (handled-some key (typed device ds))
          ∙ ap rendered (
              ap (λ (n : ℕ). reads (typed device ds) (replicate n 0) 0) (sym e)
              ∙ entered ds [] (omega (arith, e)) h))

  -- `n` turns of the first digit.
  turned_over :
      (n x : ℕ) (zs : List ℕ) (keys : List InputKey)
      → x < 16
      → reads (replicate n (cycle_key device) ++ keys) (x ∷ zs) 0
        ≡ reads keys (((x + n) % 16) ∷ zs) 0
  unfolding reads
  turned_over zero x zs keys h = ap (λ (d : ℕ). reads keys (d ∷ zs) 0) (omega arith)
  turned_over (suc n) x zs keys h = rw reads_cycle (
      turned_over n ((x + 1) % 16) zs keys (omega arith)
      ∙ ap (λ (d : ℕ). reads keys (d ∷ zs) 0) (omega arith))

  -- A key that turns the digit counts again in each pass whose read brings no key and leaves Key
  -- alone: one press, `n` such passes and the key that accepts give the first digit `n + 1` modulo 16
  -- and zeros after it, on every phone that is told apart.
  pub stale_key_repeats :
      (n : ℕ) (key : InputKey) (buffer : List ℕ)
      → length buffer ≡ 9
      → get_hex_input device
          (some (cycle_key device) ∷ (replicate n none ++ (some (char 13) ∷ [])))
          key
          buffer
        ≡ some (render (((n + 1) % 16) ∷ replicate 7 0))
  unfolding reads
  stale_key_repeats n key buffer h =
      let c = cycle_key device in
      let same : (0 + suc n) % 16 ≡ (n + 1) % 16 = omega arith in
      let accepted : reads (char 13 ∷ []) (((0 + suc n) % 16) ∷ replicate 7 0) 0
          ≡ some (((n + 1) % 16) ∷ replicate 7 0) =
        rw reads_accept (ap (λ (d : ℕ). some (d ∷ replicate 7 0)) same) in
      get_hex_input_lem device (some c ∷ (replicate n none ++ (some (char 13) ∷ []))) key buffer h
      ∙ (ap (λ (ks : List InputKey). rendered (enter (map (command device) (c ∷ ks)) zeros))
            (handled-none n c (char 13))
          ∙ ap rendered
              (turned_over (suc n) 0 (replicate 7 0) (char 13 ∷ []) (omega arith) ∙ accepted))

nothing_read : (keys : List InputKey) (e : Entry) → enter (map (command unknown) keys) e ≡ none
nothing_read [] e = refl
nothing_read (key ∷ keys) e = nothing_read keys e

-- On a phone that is not told apart GetHexInput does not return, however many passes it makes and
-- whatever it reads in them.
pub unknown_never_returns :
    (reads : List Read) (key : InputKey) (buffer : List ℕ)
    → length buffer ≡ 9
    → get_hex_input unknown reads key buffer ≡ none
unknown_never_returns reads key buffer h =
    get_hex_input_lem unknown reads key buffer h
    ∙ ap rendered (nothing_read (handled key reads) zeros)
