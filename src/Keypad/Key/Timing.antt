-- ===== src/Keypad/Key/Timing.antt =====
-- A key polled again and again: what one press reports, and how often a held key reports.
use htc_leo_pkg.Prelude.{
  ℕ, suc, ◌+◌, ◌*◌, ◌%◌, ◌^◌, ◌<◌, ◌≤◌, ◌≡◌, refl, ap, ap₂, ◌∙◌, arith, List, [], ◌∷◌, ◌++◌, map,
  Bool, true, false, not, ◌&&◌, ◌||◌, if◌then◌else◌,
}
use htc_leo_pkg.Keypad.Queue.{KeyData}
use htc_leo_pkg.Keypad.Key.{
  released, pressed, KeyContext, KeyMaps, key_step, key_held, key_let_go, lib_key_update_key_status,
  ms2ns, lib_key_initialize_key_context,
}
use htc_leo_pkg.Keypad.Key.Machine.{IsInStep}

abbrev pub hold : ℕ → Bool × ℕ
hold delta = (true, delta)

abbrev pub total : List ℕ → ℕ
total [] = 0
total (d ∷ ds) = d + total ds

module _ {S : Type 0} (push : KeyData → S → S) where
  -- The polls of one key, each with whether it is down and the time since the last.
  abbrev pub run_key : List (Bool × ℕ) → KeyContext × KeyMaps × S → KeyContext × KeyMaps × S
  run_key [] c = c
  run_key (e ∷ es) c = run_key es (lib_key_update_key_status push c.0 e.0 e.1 (c.1, c.2))

  abbrev pressed_key : KeyData → ℕ → Bool → Bool → KeyContext
  pressed_key key time r l = record {
    key_data = key;
    time = time;
    state = pressed;
    is_repeat = r;
    is_longpress = l;
  }

  abbrev released_key : KeyData → KeyContext
  released_key key = record {
    key_data = key;
    time = 0;
    state = released;
    is_repeat = false;
    is_longpress = false;
  }

  -- A run goes on the same from an equal key and an equal queue.
  run_from :
      (es : List (Bool × ℕ)) {c c' ctx : KeyContext} (maps : KeyMaps) {s s' q : S}
      → c ≡ c'
      → s ≡ s'
      → ((run_key es (c', maps, s')).0 ≡ ctx) × ((run_key es (c', maps, s')).2 ≡ q)
      → ((run_key es (c, maps, s)).0 ≡ ctx) × ((run_key es (c, maps, s)).2 ≡ q)
  run_from es maps p q h =
      let e = ap₂ (λ (c : KeyContext) (s : S). run_key es (c, maps, s)) p q in
      (
        ap (λ (t : KeyContext × KeyMaps × S). t.0) e ∙ h.0,
        ap (λ (t : KeyContext × KeyMaps × S). t.2) e ∙ h.1,
      )

  short_hold :
      (key : KeyData) (time d : ℕ) (maps : KeyMaps) (s : S)
      → time + d < ms2ns 500
      → let r =
          lib_key_update_key_status push (pressed_key key time false false) true d (maps, s) in
        (r.0 ≡ pressed_key key (time + d) false false) × (r.2 ≡ s)
  unfolding lib_key_update_key_status key_step key_held
  short_hold key time d maps s h = ground arith

  let_go_twice :
      (key : KeyData) (time d₁ d₂ : ℕ) (maps : KeyMaps) (s : S)
      → let r =
          run_key ((false, d₁) ∷ (false, d₂) ∷ []) (pressed_key key time false false, maps, s) in
        (r.0 ≡ released_key key) × (r.2 ≡ push key s)
  unfolding lib_key_update_key_status key_step key_let_go
  let_go_twice key time d₁ d₂ maps s = (refl, refl)

  short_press :
      (key : KeyData) (time : ℕ) (ds : List ℕ) (d₁ d₂ : ℕ) (maps : KeyMaps) (s : S)
      → time + total ds < ms2ns 500
      → let r =
          run_key
            (map hold ds ++ ((false, d₁) ∷ (false, d₂) ∷ []))
            (pressed_key key time false false, maps, s) in
        (r.0 ≡ released_key key) × (r.2 ≡ push key s)
  short_press key time [] d₁ d₂ maps s h = let_go_twice key time d₁ d₂ maps s
  short_press key time (d ∷ ds) d₁ d₂ maps s h =
      let (c, e) = short_hold key time d maps s (omega arith) in
      let rest = map hold ds ++ ((false, d₁) ∷ (false, d₂) ∷ []) in
      run_from rest _ c e (short_press key (time + d) ds d₁ d₂ _ s (omega arith))

  press :
      (ctx : KeyContext) (d : ℕ) (maps : KeyMaps) (s : S)
      → IsInStep ctx
      → ctx.state ≡ released
      → let r = lib_key_update_key_status push ctx true d (maps, s) in
        (r.0 ≡ pressed_key ctx.key_data 0 false false) × (r.2 ≡ s)
  unfolding lib_key_update_key_status key_step
  press ctx d maps s v e = ground arith

  -- A key that is pressed, held for less than half a second over any number of polls, and let go
  -- for two polls, reports itself exactly once and is released again.
  pub tap_reports_once :
      (ctx : KeyContext) (d₀ : ℕ) (ds : List ℕ) (d₁ d₂ : ℕ) (maps : KeyMaps) (s : S)
      → IsInStep ctx
      → ctx.state ≡ released
      → total ds < ms2ns 500
      → let r =
          run_key (hold d₀ ∷ map hold ds ++ ((false, d₁) ∷ (false, d₂) ∷ [])) (ctx, maps, s) in
        (r.0 ≡ record lib_key_initialize_key_context { key_data = ctx.key_data })
        × (r.2 ≡ push ctx.key_data s)
  unfolding lib_key_initialize_key_context
  tap_reports_once ctx d₀ ds d₁ d₂ maps s v e h =
      let (c, q) = press ctx d₀ maps s v e in
      let rest = map hold ds ++ ((false, d₁) ∷ (false, d₂) ∷ []) in
      run_from rest _ c q (short_press ctx.key_data 0 ds d₁ d₂ _ s (omega arith))

-- The keys that were reported, counted.
abbrev pub count_key : KeyData → ℕ → ℕ
count_key key n = suc n

-- What the reports so far and the running time of a held key come to; a combo leaves no time to
-- charge, since nothing is reported after it.
abbrev Charge : KeyContext → ℕ → ℕ → Type 0
Charge ctx n elapsed =
    ((not ctx.is_repeat || ctx.is_longpress) ≡ true)
    × (ms2ns 200 * n + (if ctx.is_longpress && not ctx.is_repeat then 0 else ctx.time) ≤ elapsed)

held-Charge :
    (key : KeyData) (time : ℕ) (r l : Bool) (d : ℕ) (maps : KeyMaps) (n elapsed : ℕ)
    → Charge (pressed_key count_key key time r l) n elapsed
    → let t = key_held count_key (pressed_key count_key key ((time + d) % 2 ^ 64) r l) maps n in
      (t.0.state ≡ pressed) × Charge t.0 t.1 (elapsed + d)
unfolding key_held
held-Charge key time true true d maps n elapsed h = ground arith
held-Charge key time true false d maps n elapsed h = absurd (cc h.0)
held-Charge key time false true d maps n elapsed h = ground arith
held-Charge key time false false d maps n elapsed h = ground arith

update-Charge :
    (ctx : KeyContext) (d : ℕ) (maps : KeyMaps) (n elapsed : ℕ)
    → ctx.state ≡ pressed
    → Charge ctx n elapsed
    → let t = lib_key_update_key_status count_key ctx true d (maps, n) in
      (t.0.state ≡ pressed) × Charge t.0 t.2 (elapsed + d)
unfolding lib_key_update_key_status key_step
update-Charge ctx d maps n elapsed e h =
    rw e (held-Charge ctx.key_data ctx.time ctx.is_repeat ctx.is_longpress d _ n elapsed h)

held_rate :
    (ds : List ℕ) (ctx : KeyContext) (maps : KeyMaps) (n elapsed : ℕ)
    → ctx.state ≡ pressed
    → Charge ctx n elapsed
    → ms2ns 200 * (run_key count_key (map hold ds) (ctx, maps, n)).2 ≤ elapsed + total ds
held_rate [] ctx maps n elapsed e h = omega arith
held_rate (d ∷ ds) ctx maps n elapsed e h =
    let (e', h') = update-Charge ctx d maps n elapsed e h in
    let t = lib_key_update_key_status count_key ctx true d (maps, n) in
    omega (arith, held_rate ds t.0 t.1 t.2 (elapsed + d) e' h')

-- A key held down from its first poll reports at most once per 200 ms of the time it was held,
-- whichever combos it takes part in.
pub held_key_rate :
    (ctx : KeyContext) (d₀ : ℕ) (ds : List ℕ) (maps : KeyMaps)
    → IsInStep ctx
    → ctx.state ≡ released
    → ms2ns 200 * (run_key count_key (map hold (d₀ ∷ ds)) (ctx, maps, 0)).2 ≤ total ds
held_key_rate ctx d₀ ds maps v e =
    let (c, q) = press count_key ctx d₀ maps 0 v e in
    let r = lib_key_update_key_status count_key ctx true d₀ (maps, 0) in
    omega (
      arith,
      held_rate ds r.0 r.1 r.2 0 (ap (λ (c : KeyContext). c.state) c)
          (rw (c, q) (refl, omega arith)),
    )
