-- ===== src/Detection/Tests.antt =====
-- Runs of the detection on a few bytes of memory.
use htc_leo_pkg.Prelude.{
  ℕ, ◌-◌, ◌≡◌, refl, arith, List, [], ◌∷◌, none, some, Bool, true, false, get_or, length, All, ltb,
  inl, if◌then◌else◌,
}
use htc_leo_pkg.Keypad.Device.{unknown, leo}
use htc_leo_pkg.Detection.Strings.{Text, read_text}
use htc_leo_pkg.Detection.{
  HtcDevice, m_device, parse_atags, spl_detect_device, device_detection_dxe_init,
}
use htc_leo_pkg.Detection.Serial.{
  is_serial_char, generate_android_serial, generate_android_serial_lem,
}
use htc_leo_pkg.Detection.Tags.{Tag, said, parse_atags_lem}
use htc_leo_pkg.Detection.Fallback.{spl_detect_device_unknown, no_atags_is_leo}

abbrev enough : ℕ → Bool
enough n = true

generate_android_serial_lem_example :
    (serial : Text) × (generate_android_serial enough (72 ∷ 84 ∷ []) (51 ∷ []) ≡ some serial)
    × (generate_android_serial enough (51 ∷ []) (72 ∷ 84 ∷ []) ≡ some serial)
    × (length serial ≡ 16)
    × All (λ c. is_serial_char c ≡ true) serial
generate_android_serial_lem_example =
    generate_android_serial_lem enough (72 ∷ 84 ∷ []) (51 ∷ []) refl

-- ATAG_CORE, ATAG_CLK and ATAG_NONE at 0x100.
abbrev tagged : ℕ → ℕ
tagged a =
    if ltb a 256
    then 0
    else get_or
        (2 ∷ 0 ∷ 0 ∷ 0 ∷ 1 ∷ 0 ∷ 65 ∷ 84 ∷ 2 ∷ 0 ∷ 0 ∷ 0 ∷ 99 ∷ 76 ∷ 75 ∷ 0 ∷ 0 ∷ 0 ∷ 0 ∷ 0 ∷ [])
        (a - 256) 0

abbrev clk_tags : List Tag
clk_tags =
    record { kind = 0x54410001; text = read_text tagged 8 264 }
    ∷ record { kind = 0x004b4c63; text = read_text tagged 8 272 }
    ∷ []

parse_atags_lem_example : parse_atags tagged 8 3 256 m_device ≡ some (said clk_tags m_device)
parse_atags_lem_example =
    parse_atags_lem tagged 8 2 256 clk_tags m_device refl
      ((λ e. cc), (λ e. cc), refl, refl, ((λ e. cc), (λ e. cc), refl, refl, inl refl)) (omega arith)

spl_detect_device_unknown_example :
    (d' : HtcDevice) × (spl_detect_device tagged 8 enough m_device ≡ some d') × (d'.type ≡ unknown)
spl_detect_device_unknown_example = spl_detect_device_unknown tagged 8 enough m_device refl

abbrev blank : ℕ → ℕ
blank a = 0

no_atags_is_leo_example :
    (d : HtcDevice) × (device_detection_dxe_init blank 8 enough 4 0 m_device ≡ some d)
    × (d.type ≡ leo)
    × (d.cmdline ≡ none)
    × (d.nand_boot ≡ false)
no_atags_is_leo_example = no_atags_is_leo blank 8 enough 4 0 (λ e. cc)
