-- ===== src/Detection/Fallback.antt =====
-- What detection says when there are no tags, and what the version of the boot loader can say.
use htc_leo_pkg.Prelude.{
  ℕ, ◌+◌, ◌≤◌, ◌≡◌, ◌≢◌, refl, arith, [], none, some, Bool, true, false, not, ◌==◌, length, ◌∙◌,
  inl, inr, Option-cases, if-true,
}
use htc_leo_pkg.Keypad.Device.{unknown, leo}
use htc_leo_pkg.Detection.Strings.{
  Text, read_text, word_at, length-read_text, strcmp-longer, leo_hspl_142, leo_hspl_148,
  leo_hspl_166, leo_hspl_172, leo_hspl_208, schubert_hspl_31,
}
use htc_leo_pkg.Detection.{
  HtcDevice, m_device, atag_core, parse_spl_version, parse_atags, get_string_from_memory,
  spl_detect_device, update_serial, update_cid, update_imei, device_detection_dxe_init,
}

short_version : (v : Text) → length v ≤ 9 → parse_spl_version v ≡ unknown
unfolding parse_spl_version
short_version v h = rw (strcmp-longer v leo_hspl_142 (omega (arith, h))) (
    rw (strcmp-longer v leo_hspl_148 (omega (arith, h))) (
      rw (strcmp-longer v leo_hspl_166 (omega (arith, h))) (
        rw (strcmp-longer v leo_hspl_172 (omega (arith, h))) (
          rw (strcmp-longer v leo_hspl_208 (omega (arith, h)))
            (rw (strcmp-longer v schubert_hspl_31 (omega (arith, h))) refl)))))

module _ (mem : ℕ → ℕ) (len : ℕ) (alloc : ℕ → Bool) where
  -- The boot loader's version says nothing: nine characters of it are read, and each of the versions
  -- that are known has thirteen or more. Whatever the memory holds, the phone is then unknown.
  pub spl_detect_device_unknown :
      (d : HtcDevice)
      → alloc 24 ≡ true
      → (d' : HtcDevice) × (spl_detect_device mem len alloc d ≡ some d') × (d'.type ≡ unknown)
  unfolding spl_detect_device get_string_from_memory
  spl_detect_device_unknown d h =
      let version = read_text mem 9 0x1004 in
      (
        record d {
          type = parse_spl_version version;
          clk = false;
          nand_boot = true;
          cmdline = some [];
        },
        rw (h, spl_detect_device) refl,
        short_version version (length-read_text mem 9 0x1004),
      )

  abbrev IsSamePhone : HtcDevice → HtcDevice → Type 0
  IsSamePhone d d' = (d'.type ≡ d.type) × (d'.cmdline ≡ d.cmdline) × (d'.nand_boot ≡ d.nand_boot)

  update_imei_phone : (d : HtcDevice) → IsSamePhone d (update_imei mem len alloc d)
  unfolding update_imei
  update_imei_phone d = elim (Option-cases (get_string_from_memory mem len alloc 0x1ef260 64 15)) [
    | inl e ↦ rw (e, update_imei) (refl, refl, refl)
    | inr (t, e) ↦ rw (e, update_imei) (refl, refl, refl)
  ]

  update_cid_phone : (d : HtcDevice) → IsSamePhone d (update_cid mem len alloc d)
  unfolding update_cid
  update_cid_phone d = elim (Option-cases (get_string_from_memory mem len alloc 0x1ef270 24 8)) [
    | inl e ↦ rw (e, update_cid) (refl, refl, refl)
    | inr (t, e) ↦ rw (e, update_cid) (refl, refl, refl)
  ]

  update_serial_phone : (d : HtcDevice) → IsSamePhone d (update_serial mem len alloc d)
  update_serial_phone d = elim (Option-cases d.imei) [
    | inl e ↦ rw e (refl, refl, refl)
    | inr (imei, e) ↦ elim (Option-cases d.cid) [
      | inl e' ↦ rw (e, e') (refl, refl, refl)
      | inr (cid, e') ↦ rw (e, e') (refl, refl, refl)
    ]
  ]

  -- With memory that does not start with ATAG_CORE, detection does not fall back to the boot loader's
  -- version: the phone stays a Leo with no command line, which is what the static says at first.
  pub no_atags_is_leo :
      (n base : ℕ)
      → word_at mem (base + 0x100 + 4) ≢ atag_core
      → (d : HtcDevice) × (device_detection_dxe_init mem len alloc n base m_device ≡ some d)
        × (d.type ≡ leo)
        × (d.cmdline ≡ none)
        × (d.nand_boot ≡ false)
  unfolding device_detection_dxe_init parse_atags
  no_atags_is_leo n base ne =
      let d₁ = update_imei mem len alloc m_device in
      let d₂ = update_cid mem len alloc d₁ in
      let a = update_imei_phone m_device in
      let b = update_cid_phone d₁ in
      let c = update_serial_phone d₂ in
      let none_found : parse_atags mem len n (base + 0x100) m_device ≡ some m_device =
        if-true {b = not (word_at mem (base + 0x100 + 4) == atag_core)} _ _ (ground (arith, ne)) in
      (
        update_serial mem len alloc d₂,
        rw (none_found, device_detection_dxe_init) refl,
        c.0 ∙ b.0 ∙ a.0,
        c.1 ∙ b.1 ∙ a.1,
        c.2 ∙ b.2 ∙ a.2,
      )
