-- ===== src/Menu/Options/Visible.antt =====
-- The visible options as a list of their own: what is drawn, counted and looked up of the array.
use htc_leo_pkg.Prelude.{
  ℕ, zero, suc, ◌+◌, ◌<◌, ◌≡◌, refl, ap, sym, ◌∙◌, arith, List, [], ◌∷◌, true, false, ◌==◌,
  if◌then◌else◌, get_elem?, length, Bool-cases, inl, inr, if-true, if-false, ==_ne, ◌≢◌,
}
use htc_leo_pkg.Menu.Options.{MenuEntry, Line, active_count, draw_lines, real_from}

abbrev pub visible : List MenuEntry → List MenuEntry
visible [] = []
visible (e ∷ options) = if e.is_active then (e ∷ visible options) else visible options

pub active_count_lem : (options : List MenuEntry) → active_count options ≡ length (visible options)
unfolding active_count
active_count_lem [] = refl
active_count_lem (e ∷ options) = ground (arith, active_count_lem options)

-- The lines of some entries, numbered from `n`.
abbrev pub numbered : ℕ → ℕ → List MenuEntry → List Line
numbered selected n [] = []
numbered selected n (e ∷ entries) =
    record { number = n + 1; name = e.name; is_selected = n == selected }
    ∷ numbered selected (n + 1) entries

pub draw_lines_lem :
    (options : List MenuEntry) (selected n : ℕ)
    → draw_lines selected n options ≡ numbered selected n (visible options)
unfolding draw_lines
draw_lines_lem [] selected n = refl
draw_lines_lem (e ∷ options) selected n =
    let line : Line = record { number = n + 1; name = e.name; is_selected = n == selected } in
    elim (Bool-cases e.is_active) [
      | inl on ↦ rw (on, draw_lines) (ap (line ∷◌) (draw_lines_lem options selected (n + 1)))
      | inr off ↦ rw (off, draw_lines) (draw_lines_lem options selected n)
    ]

visible_on :
    (e : MenuEntry) (options : List MenuEntry)
    → e.is_active ≡ true
    → visible (e ∷ options) ≡ e ∷ visible options
visible_on e options on = if-true _ _ on

visible_off :
    (e : MenuEntry) (options : List MenuEntry)
    → e.is_active ≡ false
    → visible (e ∷ options) ≡ visible options
visible_off e options off = if-false _ _ off

module _ (e : MenuEntry) (options : List MenuEntry) (i count v : ℕ) where
  real_skipped :
      e.is_active ≡ false → real_from (e ∷ options) i count v ≡ real_from options (i + 1) count v
  unfolding real_from
  real_skipped off = rw (off, real_from) refl

  real_here : e.is_active ≡ true → count ≡ v → real_from (e ∷ options) i count v ≡ i
  unfolding real_from
  real_here on here = rw (on, real_from) (ground (arith, here))

  real_passed :
      e.is_active ≡ true
      → count ≢ v
      → real_from (e ∷ options) i count v ≡ real_from options (i + 1) (count + 1) v
  unfolding real_from
  real_passed on later = rw (on, real_from) (rw (==_ne count v later) refl)

real_on :
    (e : MenuEntry) (options : List MenuEntry) (i count j v : ℕ)
    → ((i count j v : ℕ)
        → v ≡ count + j
        → j < length (visible options)
        → (k : ℕ) × (real_from options i count v ≡ i + k)
          × (get_elem? options k ≡ get_elem? (visible options) j))
    → v ≡ count + j
    → e.is_active ≡ true
    → j < length (visible (e ∷ options))
    → (k : ℕ) × (real_from (e ∷ options) i count v ≡ i + k)
      × (get_elem? (e ∷ options) k ≡ get_elem? (visible (e ∷ options)) j)
real_on e options i count zero v ih ev on h = (
  0,
  real_here e options i count v on (omega arith) ∙ omega arith,
  ap (λ l. get_elem? l 0) (sym (visible_on e options on)),
)
real_on e options i count (suc j) v ih ev on h =
    let longer : suc j < suc (length (visible options)) =
      rw⁻¹ (ap length (visible_on e options on)) h in
    let rest = ih (i + 1) (count + 1) j v (omega arith) (omega arith) in
    (
      suc rest.0,
      real_passed e options i count v on (omega arith) ∙ (rest.1 ∙ omega arith),
      rest.2 ∙ ap (λ l. get_elem? l (suc j)) (sym (visible_on e options on)),
    )

-- The array index of the `j`-th visible entry, counted from entry `i` on.
pub real_from_lem :
    (options : List MenuEntry) (i count j v : ℕ)
    → v ≡ count + j
    → j < length (visible options)
    → (k : ℕ) × (real_from options i count v ≡ i + k)
      × (get_elem? options k ≡ get_elem? (visible options) j)
real_from_lem [] i count j v ev h = absurd (omega arith)
real_from_lem (e ∷ options) i count j v ev h = elim (Bool-cases e.is_active) [
  | inr off ↦
      let shorter : j < length (visible options) = rw⁻¹ (visible_off e options off) h in
      let rest = real_from_lem options (i + 1) count j v ev shorter in
      (
        suc rest.0,
        real_skipped e options i count v off ∙ (rest.1 ∙ omega arith),
        rest.2 ∙ ap (λ l. get_elem? l j) (sym (visible_off e options off)),
      )
  | inl on ↦ real_on e options i count j v (real_from_lem options) ev on h
]
