-- ===== src/Detection.antt =====
-- Which phone this is: QSD8250Pkg/GPLDrivers/DeviceDetectionDxe, DeviceDetectionDxe.c and its parts
-- Atags.c, Spl.c and SerialGenerator.c, with Include/Library/Atags.h.
pub mod Strings
pub mod Serial
pub mod Tags
pub mod Fallback
mod Tests
use htc_leo_pkg.Prelude.{
  ℕ, zero, suc, ◌+◌, ◌*◌, ◌%◌, ◌^◌, List, [], ◌∷◌, ◌++◌, Option, none, some, Bool, true, false, not,
  ◌&&◌, ◌||◌, ◌==◌, leb, ltb, if◌then◌else◌, length, replicate,
}
use htc_leo_pkg.Keypad.Device.{DeviceType, unknown, leo, schubert, bravo, passion}
use htc_leo_pkg.Detection.Strings.{
  Text, strstr, strcmp, read_text, word_at, clk_equals, hardware_leo, hardware_schubert,
  board_bravo, board_mahimahi, leo_hspl_142, leo_hspl_148, leo_hspl_166, leo_hspl_172, leo_hspl_208,
  schubert_hspl_31,
}
use htc_leo_pkg.Detection.Serial.{generate_android_serial}

-- HtcDevice; a NULL pointer is `none`.
pub record HtcDevice : Type 0 where
  pub type : DeviceType
  pub clk : Bool
  pub nand_boot : Bool
  pub cmdline : Option Text
  pub imei : Option Text
  pub cid : Option Text
  pub serial_number : Option Text

-- `mDevice` as a static that nothing initialises; the first DeviceType is LEO.
abbrev pub m_device : HtcDevice
m_device = record {
  type = leo;
  clk = false;
  nand_boot = false;
  cmdline = none;
  imei = none;
  cid = none;
  serial_number = none;
}

pub detect_clk : Option Text → Bool
detect_clk none = false
detect_clk (some cmdline) =
    strstr cmdline clk_equals && (strstr cmdline hardware_leo || strstr cmdline hardware_schubert)

pub atags_detect_device : Text → DeviceType
atags_detect_device cmdline =
    if strstr cmdline hardware_leo
    then leo
    else if strstr cmdline hardware_schubert
    then schubert
    else if strstr cmdline board_bravo
    then bravo
    else if strstr cmdline board_mahimahi
    then passion
    else unknown

pub parse_spl_version : Text → DeviceType
parse_spl_version version =
    if strcmp version leo_hspl_142
      || strcmp version leo_hspl_148
      || strcmp version leo_hspl_166
      || strcmp version leo_hspl_172
      || strcmp version leo_hspl_208
    then leo
    else if strcmp version schubert_hspl_31
    then schubert
    else unknown

abbrev pub atag_none : ℕ
atag_none = 0

abbrev pub atag_core : ℕ
atag_core = 0x54410001

abbrev pub atag_cmdline : ℕ
atag_cmdline = 0x54410009

abbrev pub atag_clk : ℕ
atag_clk = 0x004b4c63

abbrev pub atag_nand_boot_magldr : ℕ
atag_nand_boot_magldr = 0x4c47414d

-- The cases of the `switch` that do more than a debug print; `cmd` is the text of the tag.
pub apply_tag : ℕ → Text → HtcDevice → HtcDevice
unfolding detect_clk atags_detect_device
apply_tag tag cmd d =
    if tag == atag_cmdline
    then record d {
      clk = detect_clk (some cmd);
      type = atags_detect_device cmd;
      cmdline = some cmd;
    }
    else if tag == atag_clk
    then record d { clk = true }
    else if tag == atag_nand_boot_magldr
    then record d { nand_boot = true }
    else d

-- `mem` is the memory by bytes, and `len` more bytes than any text in it has.
module _ (mem : ℕ → ℕ) (len : ℕ) where
  -- The `while (1)` of ParseAtags on fuel; `none` is a loop that is still going.
  pub atag_loop : ℕ → ℕ → HtcDevice → Option HtcDevice
  unfolding apply_tag
  atag_loop zero t d = none
  atag_loop (suc n) t d =
      let size = word_at mem t in
      let tag = word_at mem (t + 4) in
      let rest =
        atag_loop n ((t + size * 4) % 2 ^ 32) (apply_tag tag (read_text mem len (t + 8)) d) in
      if (size == 0) && not (tag == atag_none)
      then some d
      else if tag == atag_none
      then some d
      else rest

  pub parse_atags : ℕ → ℕ → HtcDevice → Option HtcDevice
  unfolding atag_loop
  parse_atags n start d =
      if not (word_at mem (start + 4) == atag_core) then some d else atag_loop n start d

  -- `alloc` says whether an allocation of that many bytes succeeds.
  module _ (alloc : ℕ → Bool) where
    pub get_string_from_memory : ℕ → ℕ → ℕ → Option Text
    get_string_from_memory a buffer_size mem_read_size =
        if alloc buffer_size then some (read_text mem mem_read_size a) else none

    -- `none` is a comparison with the text at NULL.
    pub spl_detect_device : HtcDevice → Option HtcDevice
    unfolding get_string_from_memory parse_spl_version
    spl_detect_device d = elim (get_string_from_memory 0x1004 24 9) [
      | none ↦ none
      | some spl_version ↦ some (record d {
        type = parse_spl_version spl_version;
        clk = false;
        nand_boot = true;
        cmdline = some [];
      })
    ]

    -- AllocateCopyPool of a text with its end.
    abbrev copy : Text → Option Text
    copy text = if alloc (length text + 1) then some text else none

    pub update_cid : HtcDevice → HtcDevice
    unfolding get_string_from_memory
    update_cid d = elim (get_string_from_memory 0x1ef270 24 8) [
      | none ↦ record d { cid = none }
      | some cid ↦ record d { cid = copy cid }
    ]

    pub update_imei : HtcDevice → HtcDevice
    unfolding get_string_from_memory
    update_imei d = elim (get_string_from_memory 0x1ef260 64 15) [
      | none ↦ record d { imei = none }
      | some imei ↦ record d { imei = copy imei }
    ]

    abbrev update_serial : HtcDevice → HtcDevice
    update_serial d = elim d.imei [
      | none ↦ d
      | some imei ↦ elim d.cid [
        | none ↦ d
        | some cid ↦ record d { serial_number = generate_android_serial alloc cid imei }
      ]
    ]

    abbrev is_unknown : DeviceType → Bool
    is_unknown unknown = true
    is_unknown _ = false

    -- DeviceDetectionDxeInit up to the protocol, with `mSystemMemoryBase` at `base`.
    pub device_detection_dxe_init : ℕ → ℕ → HtcDevice → Option HtcDevice
    unfolding parse_atags spl_detect_device update_imei update_cid
    device_detection_dxe_init n base d = elim (parse_atags n (base + 0x100) d) [
      | none ↦ none
      | some d₁ ↦ elim (if is_unknown d₁.type then spl_detect_device d₁ else some d₁) [
        | none ↦ none
        | some d₂ ↦ some (update_serial (update_cid (update_imei d₂)))
      ]
    ]
