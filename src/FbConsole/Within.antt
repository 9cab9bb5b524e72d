-- ===== src/FbConsole/Within.antt =====
-- What the console draws stays on the screen, and a write always ends.
use htc_leo_pkg.Prelude.{
  ℕ, ◌+◌, ◌-◌, ◌*◌, ◌/◌, ◌<◌, ◌≤◌, ◌≡◌, refl, ap, ◌∙◌, arith, List, [], ◌∷◌, some, Bool, true,
  false, ◌==◌, ◌||◌, ◌&&◌, length, All, Bool-cases, if-true, if-false, inl, inr,
}
use htc_leo_pkg.FbConsole.{
  Glyph, FbConsole, restore, yellow, common_msg, scale_factor, g_width, g_height, g_bpp, font_width,
  font_height, paint, paint_loop, put_chars, serial_port_initialize, serial_port_write,
  serial_port_write_critical, fb_con_put_char_with_factor,
}

-- The last byte of the last row of the glyph is a byte of the frame buffer.
abbrev pub IsOnScreen : Glyph → Type 0
IsOnScreen g =
    g.pixels + (font_height - 1) * (g_width * (g_bpp / 8)) + font_width * (g_bpp / 8)
    ≤ g_width * g_height * (g_bpp / 8)

-- The state of a console that has been initialised.
pub record IsConsole (c : FbConsole) : Type 0 where
  pub columns : c.max_x ≡ 80
  pub rows : c.max_y ≡ 66
  pub x_in : c.x < 80
  pub y_in : c.y < 65
  pub is_ready : c.initialized ≡ true
  pub on_screen : All IsOnScreen c.screen

paint-IsConsole :
    (ch : ℕ) (uninit : Bool) (c : FbConsole)
    → IsConsole c
    → IsConsole (paint ch common_msg scale_factor uninit c).1
unfolding paint
paint-IsConsole ch uninit c v = record {
  columns = ground (arith, v.columns);
  rows = ground (arith, v.rows);
  x_in = ground (arith, v.columns, v.x_in);
  y_in = ground (arith, v.rows, v.y_in);
  is_ready = ground (arith, v.is_ready);
  on_screen =
      let shown : c.y * 23040 + c.x * 1 * 24 + 11 * 1920 + 20 ≤ 1536000 =
        omega (arith, v.x_in, v.y_in) in
      ground (arith, v.on_screen, shown);
}

-- Only the bottom row makes a second pass.
paint_again :
    (ch : ℕ) (uninit : Bool) (c : FbConsole)
    → IsConsole c
    → (paint ch common_msg scale_factor uninit c).0 ≡ true
    → ((paint ch common_msg scale_factor uninit c).1.x ≡ 0)
      × ((paint ch common_msg scale_factor uninit c).1.y ≡ 0)
unfolding paint
paint_again ch uninit c v h = (ground arith, ground arith)

paint_at_top :
    (ch : ℕ) (uninit : Bool) (c : FbConsole)
    → IsConsole c
    → c.x ≡ 0
    → c.y ≡ 0
    → (paint ch common_msg scale_factor uninit c).0 ≡ false
unfolding paint
paint_at_top ch uninit c v hx hy = ground (arith, v.columns, v.rows)

-- The interrupt flag after some characters: a line feed leaves interrupts enabled where the
-- uninitialised variable is set.
abbrev pub has_newline : List ℕ → Bool
has_newline [] = false
has_newline (ch ∷ buffer) = (ch == 10) || has_newline buffer

abbrev pub flag_after : Bool → List ℕ → Bool → Bool
flag_after uninit buffer flag = flag || (uninit && has_newline buffer)

paint_flag :
    (ch : ℕ) (uninit : Bool) (c : FbConsole)
    → (paint ch common_msg scale_factor uninit c).1.interrupts
      ≡ flag_after uninit (ch ∷ []) c.interrupts
unfolding paint
paint_flag ch uninit c = ground arith

flag_twice :
    (uninit : Bool) (buffer : List ℕ) (flag : Bool)
    → flag_after uninit buffer (flag_after uninit buffer flag) ≡ flag_after uninit buffer flag
flag_twice uninit buffer flag = ground arith

flag_cons :
    (uninit : Bool) (ch : ℕ) (buffer : List ℕ) (flag : Bool)
    → flag_after uninit buffer (flag_after uninit (ch ∷ []) flag)
      ≡ flag_after uninit (ch ∷ buffer) flag
flag_cons uninit ch buffer flag = ground arith

put_char_lem :
    (ch : ℕ) (uninit : Bool) (c : FbConsole)
    → IsConsole c
    → (c' : FbConsole) × IsConsole c'
      × (c'.interrupts ≡ flag_after uninit (ch ∷ []) c.interrupts)
      × (fb_con_put_char_with_factor 2 ch common_msg scale_factor uninit c ≡ some c')
unfolding fb_con_put_char_with_factor paint_loop
put_char_lem ch uninit c v =
    let c₁ = (paint ch common_msg scale_factor uninit c).1 in
    let v₁ = paint-IsConsole ch uninit c v in
    let c₂ = (paint ch common_msg scale_factor uninit c₁).1 in
    elim (Bool-cases (paint ch common_msg scale_factor uninit c).0) [
      | inl again ↦
          let top = paint_again ch uninit c v again in
          let stays = paint_at_top ch uninit c₁ v₁ top.0 top.1 in
          (
            c₂,
            paint-IsConsole ch uninit c₁ v₁,
            paint_flag ch uninit c₁
                ∙ ap (flag_after uninit (ch ∷ [])) (paint_flag ch uninit c)
                ∙ flag_twice uninit (ch ∷ []) c.interrupts,
            if-true _ _ v.is_ready ∙ if-true _ _ again ∙ if-false _ _ stays,
          )
      | inr done ↦ (c₁, v₁, paint_flag ch uninit c, if-true _ _ v.is_ready ∙ if-false _ _ done)
    ]

put_chars_lem :
    (uninit : Bool) (buffer : List ℕ) (c : FbConsole)
    → IsConsole c
    → (c' : FbConsole) × IsConsole c'
      × (c'.interrupts ≡ flag_after uninit buffer c.interrupts)
      × (put_chars 2 uninit buffer c ≡ some c')
unfolding put_chars
put_chars_lem uninit [] c v = (c, v, ground arith, refl)
put_chars_lem uninit (ch ∷ buffer) c v =
    let (c₁, v₁, i₁, e₁) = put_char_lem ch uninit c v in
    let (c₂, v₂, i₂, e₂) = put_chars_lem uninit buffer c₁ v₁ in
    (
      c₂,
      v₂,
      i₂ ∙ ap (flag_after uninit buffer) i₁ ∙ flag_cons uninit ch buffer c.interrupts,
      rw (e₁, put_chars) e₂,
    )

-- The colour and the interrupt flag are not among what makes a console.
recoloured :
    (c : FbConsole) (flag : Bool) (color : ℕ)
    → IsConsole c
    → IsConsole (record c { interrupts = flag; foreground = color })
recoloured c flag color v = record {
  columns = v.columns;
  rows = v.rows;
  x_in = v.x_in;
  y_in = v.y_in;
  is_ready = v.is_ready;
  on_screen = v.on_screen;
}

restore_lem :
    (saved flag : Bool) (c : FbConsole)
    → IsConsole c
    → c.interrupts ≡ flag
    → IsConsole (restore saved c) × ((restore saved c).interrupts ≡ saved || flag)
restore_lem true flag c v e = (recoloured c true c.foreground v, refl)
restore_lem false flag c v e = (v, e)

pub serial_port_initialize-IsConsole :
    (c : FbConsole) → c.initialized ≡ false → c.screen ≡ [] → IsConsole (serial_port_initialize c).1
unfolding serial_port_initialize
serial_port_initialize-IsConsole c h e = record {
  columns = ground arith;
  rows = ground arith;
  x_in = ground arith;
  y_in = ground arith;
  is_ready = ground arith;
  on_screen = ground arith;
}

-- A write of any length returns, with each character done in two passes at most, and gives the number
-- of its characters. Its glyphs lie wholly in the frame buffer. Interrupts are left as they were, but
-- for a buffer with a line feed while the uninitialised variable is set: it leaves them enabled.
pub serial_port_write_lem :
    (uninit : Bool) (buffer : List ℕ) (c : FbConsole)
    → IsConsole c
    → (c' : FbConsole) × IsConsole c'
      × (c'.interrupts ≡ flag_after uninit buffer c.interrupts)
      × (serial_port_write 2 uninit buffer c ≡ some (length buffer, c'))
unfolding serial_port_write
serial_port_write_lem uninit buffer c v =
    let off = recoloured c false c.foreground v in
    let (c₁, v₁, i₁, e₁) = put_chars_lem uninit buffer (record c { interrupts = false }) off in
    let after = restore_lem c.interrupts (flag_after uninit buffer false) c₁ v₁ i₁ in
    (restore c.interrupts c₁, after.0, after.1, rw (e₁, serial_port_write) refl)

-- A critical write does the same in yellow, and puts the colour back.
pub serial_port_write_critical_lem :
    (uninit : Bool) (buffer : List ℕ) (c : FbConsole)
    → IsConsole c
    → (c' : FbConsole) × IsConsole c'
      × (c'.interrupts ≡ flag_after uninit buffer c.interrupts)
      × (c'.foreground ≡ c.foreground)
      × (serial_port_write_critical 2 uninit buffer c ≡ some (length buffer, c'))
unfolding serial_port_write_critical
serial_port_write_critical_lem uninit buffer c v =
    let off = recoloured c false yellow v in
    let (c₁, v₁, i₁, e₁) =
      put_chars_lem uninit buffer (record c { interrupts = false; foreground = yellow }) off in
    let back = record c₁ { foreground = c.foreground } in
    let after =
      restore_lem c.interrupts (flag_after uninit buffer false) back
        (recoloured c₁ c₁.interrupts c.foreground v₁) i₁ in
    (
      restore c.interrupts back,
      after.0,
      after.1,
      ground arith,
      rw (e₁, serial_port_write_critical) refl,
    )
