-- ===== src/Menu/HexInput/Tests.antt =====
-- Runs of the entry field.
use htc_leo_pkg.Prelude.{
  ◌≡◌, ◌≢◌, refl, arith, List, map, replicate, ◌++◌, ◌%◌, [], ◌∷◌, none, some,
}
use htc_leo_pkg.Keypad.Console.{InputKey}
use htc_leo_pkg.Keypad.Device.{unknown, leo}
use htc_leo_pkg.Menu.HexInput.{Read, empty_hex_buffer, get_hex_input}
use htc_leo_pkg.Menu.HexInput.Refine.{render, get_hex_input_lem}
use htc_leo_pkg.Menu.HexInput.Typed.{
  typed, char, cycle_key, stale_key_repeats, typed_lem, unknown_never_returns,
}

abbrev tab : InputKey
tab = record { scan_code = 0; unicode_char = 9 }

abbrev end_call : InputKey
end_call = record { scan_code = 23; unicode_char = 0 }

abbrev back : InputKey
back = record { scan_code = 0; unicode_char = 8 }

abbrev dial : InputKey
dial = record { scan_code = 0; unicode_char = 13 }

-- One pass reads nothing, so that the key before it counts twice.
abbrev with_pause : List Read
with_pause =
    some tab ∷ some end_call ∷ some tab ∷ some tab ∷ some back ∷ some tab ∷ none ∷ some dial ∷ []

get_hex_input_lem_example :
    get_hex_input leo with_pause back empty_hex_buffer
    ≡ some (render (3 ∷ 2 ∷ 0 ∷ 0 ∷ 0 ∷ 0 ∷ 0 ∷ 0 ∷ []))
get_hex_input_lem_example = get_hex_input_lem leo with_pause back empty_hex_buffer refl

leo_known : leo ≢ unknown
leo_known = λ e. cc

typed_lem_example :
    get_hex_input leo
      (map some (typed leo (1 ∷ 0 ∷ 15 ∷ 0 ∷ 0 ∷ 2 ∷ 0 ∷ 10 ∷ [])))
      dial
      empty_hex_buffer
    ≡ some (render (1 ∷ 0 ∷ 15 ∷ 0 ∷ 0 ∷ 2 ∷ 0 ∷ 10 ∷ []))
typed_lem_example =
    typed_lem leo leo_known (1 ∷ 0 ∷ 15 ∷ 0 ∷ 0 ∷ 2 ∷ 0 ∷ 10 ∷ []) empty_hex_buffer dial refl
      (
        omega arith,
        (
          omega arith,
          (
            omega arith,
            (omega arith, (omega arith, (omega arith, (omega arith, (omega arith, tt))))),
          ),
        ),
      )
      refl

stale_key_repeats_example :
    get_hex_input leo
      (some (cycle_key leo) ∷ (replicate 40 none ++ (some (char 13) ∷ [])))
      dial
      empty_hex_buffer
    ≡ some (render ((41 % 16) ∷ replicate 7 0))
stale_key_repeats_example = stale_key_repeats leo leo_known 40 dial empty_hex_buffer refl

unknown_never_returns_example :
    get_hex_input unknown (some tab ∷ none ∷ []) dial empty_hex_buffer ≡ none
unknown_never_returns_example =
    unknown_never_returns (some tab ∷ none ∷ []) dial empty_hex_buffer refl
