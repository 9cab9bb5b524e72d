-- ===== src/Detection/Tags.antt =====
-- The tag walk against the list of tags that the memory holds.
use htc_leo_pkg.Prelude.{
  ℕ, zero, suc, ◌+◌, ◌*◌, ◌%◌, ◌^◌, ◌≤◌, ◌≡◌, ◌≢◌, arith, List, [], ◌∷◌, some, not, ◌==◌, length,
  ==_ne, if-false, ◌∙◌, ◌⊎◌, inl, inr, ap, refl, Option, none, Bool, true, false, ◌||◌, Bool-cases,
  if◌then◌else◌,
}
use htc_leo_pkg.Detection.Strings.{Text, read_text, word_at}
use htc_leo_pkg.Detection.{
  HtcDevice, atag_none, atag_core, apply_tag, detect_clk, atags_detect_device, atag_loop,
  parse_atags,
}

-- A tag with its text.
pub record Tag : Type 0 where
  pub kind : ℕ
  pub text : Text

-- The code's step on the tags one after the other.
abbrev apply_all : List Tag → HtcDevice → HtcDevice
apply_all [] d = d
apply_all (tag ∷ tags) d = apply_all tags (apply_tag tag.kind tag.text d)

-- A tag of this kind is there.
abbrev pub has_tag : ℕ → List Tag → Bool
has_tag kind [] = false
has_tag kind (tag ∷ tags) = (tag.kind == kind) || has_tag kind tags

-- The text of the last command line, with the tags after it.
abbrev pub or_first : Tag → List Tag → Option (Text × List Tag) → Option (Text × List Tag)
or_first tag tags none = if tag.kind == 0x54410009 then some (tag.text, tags) else none
or_first tag tags (some found) = some found

abbrev pub last_cmdline : List Tag → Option (Text × List Tag)
last_cmdline [] = none
last_cmdline (tag ∷ tags) = or_first tag tags (last_cmdline tags)

-- What some tags say of the phone, given their last command line.
abbrev pub said_with : Option (Text × List Tag) → List Tag → HtcDevice → HtcDevice
said_with none tags d = record d {
  clk = d.clk || has_tag 0x004b4c63 tags;
  nand_boot = d.nand_boot || has_tag 0x4c47414d tags;
}
said_with (some (cmdline, rest)) tags d = record d {
  type = atags_detect_device cmdline;
  clk = detect_clk (some cmdline) || has_tag 0x004b4c63 rest;
  nand_boot = d.nand_boot || has_tag 0x4c47414d tags;
  cmdline = some cmdline;
}

abbrev pub said : List Tag → HtcDevice → HtcDevice
said tags d = said_with (last_cmdline tags) tags d

or_true : (b : Bool) → (b || true) ≡ true
or_true true = refl
or_true false = refl

or_false : (b : Bool) → (b || false) ≡ b
or_false true = refl
or_false false = refl

-- The first tag, and what the others say then.
said_step :
    (o : Option (Text × List Tag)) (tag : Tag) (tags : List Tag) (d : HtcDevice)
    → said_with o tags (apply_tag tag.kind tag.text d)
      ≡ said_with (or_first tag tags o) (tag ∷ tags) d
unfolding apply_tag
said_step none tag tags d = elim (Bool-cases (tag.kind == 0x54410009)) [
  | inl c ↦ let k : tag.kind ≡ 0x54410009 = ground (arith, c) in rw k refl
  | inr c ↦ elim (Bool-cases (tag.kind == 0x004b4c63)) [
    | inl l ↦ let k : tag.kind ≡ 0x004b4c63 = ground (arith, l) in rw k (rw (or_true d.clk) refl)
    | inr l ↦ elim (Bool-cases (tag.kind == 0x4c47414d)) [
      | inl n ↦
          let k : tag.kind ≡ 0x4c47414d = ground (arith, n) in rw k (rw (or_true d.nand_boot) refl)
      | inr n ↦ rw c (rw l (rw n refl))
    ]
  ]
]
said_step (some (cmdline, rest)) tag tags d = elim (Bool-cases (tag.kind == 0x54410009)) [
  | inl c ↦ let k : tag.kind ≡ 0x54410009 = ground (arith, c) in rw k refl
  | inr c ↦ elim (Bool-cases (tag.kind == 0x004b4c63)) [
    | inl l ↦ let k : tag.kind ≡ 0x004b4c63 = ground (arith, l) in rw k refl
    | inr l ↦ elim (Bool-cases (tag.kind == 0x4c47414d)) [
      | inl n ↦
          let k : tag.kind ≡ 0x4c47414d = ground (arith, n) in rw k (rw (or_true d.nand_boot) refl)
      | inr n ↦ rw c (rw l (rw n refl))
    ]
  ]
]

said_nothing : (d : HtcDevice) → d ≡ said [] d
said_nothing d = rw (or_false d.clk) (rw (or_false d.nand_boot) refl)

apply_all-said : (tags : List Tag) (d : HtcDevice) → apply_all tags d ≡ said tags d
apply_all-said [] d = said_nothing d
apply_all-said (tag ∷ tags) d =
    apply_all-said tags (apply_tag tag.kind tag.text d) ∙ said_step (last_cmdline tags) tag tags d

module _ (mem : ℕ → ℕ) (len : ℕ) where
  -- The memory from `a` on holds the tags and an end: ATAG_NONE, or a size of 0 where the walk is
  -- cut off. A tag's size in words leads to the next.
  abbrev pub HasTags : ℕ → List Tag → Type 0
  HasTags a [] = (word_at mem (a + 4) ≡ atag_none) ⊎ (word_at mem a ≡ 0)
  HasTags a (tag ∷ tags) =
      (word_at mem a ≢ 0)
      × (word_at mem (a + 4) ≢ atag_none)
      × (word_at mem (a + 4) ≡ tag.kind)
      × (read_text mem len (a + 8) ≡ tag.text)
      × HasTags ((a + word_at mem a * 4) % 2 ^ 32) tags

  atag_loop_lem :
      (n a : ℕ) (tags : List Tag) (d : HtcDevice)
      → HasTags a tags
      → length tags ≤ n
      → atag_loop mem len (suc n) a d ≡ some (apply_all tags d)
  unfolding atag_loop
  atag_loop_lem n a [] d (inl e) h = ground arith
  atag_loop_lem n a [] d (inr e) h = ground arith
  atag_loop_lem zero a (tag ∷ tags) d t h = absurd (omega arith)
  atag_loop_lem (suc n) a (tag ∷ tags) d (p, q, kind, text, t) h =
      let next = (a + word_at mem a * 4) % 2 ^ 32 in
      rw (==_ne _ _ p) (
        rw (==_ne _ _ q) (
          rw kind
            (rw text (atag_loop_lem n next tags (apply_tag tag.kind tag.text d) t (omega arith)))))

  -- On memory that starts with ATAG_CORE and holds some tags, up to ATAG_NONE or a tag of size 0,
  -- ParseAtags ends after one pass for each tag and one more. The last command line gives the command
  -- line and the type of the phone, and both stay if there is none. The clock mark is set if the last
  -- command line has it or an ATAG_CLK comes after it; without a command line, an ATAG_CLK sets it.
  -- An ATAG_MAGLDR_BOOT anywhere marks the boot from NAND. All else of the phone stays.
  pub parse_atags_lem :
      (n start : ℕ) (tags : List Tag) (d : HtcDevice)
      → word_at mem (start + 4) ≡ atag_core
      → HasTags start tags
      → length tags ≤ n
      → parse_atags mem len (suc n) start d ≡ some (said tags d)
  unfolding parse_atags
  parse_atags_lem n start tags d core t h =
      if-false {b = not (word_at mem (start + 4) == atag_core)} _ _ (ground (arith, core))
      ∙ (atag_loop_lem n start tags d t h ∙ ap some (apply_all-said tags d))
