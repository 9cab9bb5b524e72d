-- ===== src/Menu/Options/Selection.antt =====
-- The selection stays on a visible option, and Return calls the function of the option drawn there.
use htc_leo_pkg.Prelude.{
  ℕ, zero, suc, ◌+◌, ◌≤◌, ◌<◌, ◌≡◌, refl, ap, ◌∙◌, arith, List, [], ◌∷◌, Option, none, some, Bool,
  true, false, ◌==◌, if-elim, get_elem?, length, get_elem?-inside, length-set, set,
}
use htc_leo_pkg.Keypad.Console.{InputKey}
use htc_leo_pkg.Menu.Options.{
  Function, MenuEntry, Menu, reboot_menu_entry, main_entries, put_entries, fill_disabled,
  reboot_entries, disabled_entry, fill_menu, get_active_menu_entry_length, draw_menu, main_menu,
  get_real_index_from_visible_index, reboot_menu, call, select, handle_key_input, menu_pass,
  run_entry, is_null,
}
use htc_leo_pkg.Menu.Options.Visible.{visible, active_count_lem, real_from_lem}

-- What holds between two passes of the loop.
pub record IsMenu (m : Menu) : Type 0 where
  pub twelve : length m.menu_options ≡ 12
  pub selected_in : m.selected_index < length (visible m.menu_options)

visible-le : (options : List MenuEntry) → length (visible options) ≤ length options
visible-le [] = omega arith
visible-le (e ∷ options) = ground (arith, visible-le options)

length-put_entries :
    (i : ℕ) (es options : List MenuEntry) → length (put_entries i es options) ≡ length options
length-put_entries i [] options = refl
length-put_entries i (e ∷ es) options =
    length-put_entries (i + 1) es (set options i e) ∙ length-set options i e

length-fill_disabled :
    (n i : ℕ) (options : List MenuEntry) → length (fill_disabled n i options) ≡ length options
length-fill_disabled zero i options = refl
length-fill_disabled (suc n) i options =
    length-fill_disabled n (i + 1) (set options i disabled_entry)
    ∙ length-set options i disabled_entry

abbrev rebooted : Bool → List MenuEntry → List MenuEntry
rebooted clk options = fill_disabled 9 3 (put_entries 0 (reboot_entries clk) options)

-- An array of two entries or more has a visible one in the reboot menu, "Reboot".
rebooted-visible :
    (clk : Bool) (options : List MenuEntry)
    → 2 ≤ length options
    → 0 < length (visible (rebooted clk options))
rebooted-visible clk [] h = absurd (omega arith)
rebooted-visible clk (a ∷ []) h = absurd (omega arith)
rebooted-visible true (a ∷ b ∷ options) h = omega arith
rebooted-visible false (a ∷ b ∷ options) h = omega arith

filled-visible :
    (options : List MenuEntry)
    → 1 ≤ length options
    → 0 < length (visible (put_entries 0 main_entries options))
filled-visible [] h = absurd (omega arith)
filled-visible (a ∷ options) h = omega arith

main_menu-IsMenu : (m : Menu) → IsMenu m → IsMenu (main_menu m)
unfolding main_menu fill_menu
main_menu-IsMenu m v = record {
  twelve = length-put_entries 0 main_entries m.menu_options ∙ v.twelve;
  selected_in = filled-visible m.menu_options (omega (arith, v.twelve));
}

reboot_menu-IsMenu : (clk : Bool) (m : Menu) → IsMenu m → IsMenu (reboot_menu clk m)
unfolding reboot_menu
reboot_menu-IsMenu clk m v = record {
  twelve =
      length-fill_disabled 9 3 (put_entries 0 (reboot_entries clk) m.menu_options)
      ∙ length-put_entries 0 (reboot_entries clk) m.menu_options
      ∙ v.twelve;
  selected_in = rebooted-visible clk m.menu_options (omega (arith, v.twelve));
}

-- The selection moved to another visible option.
moved :
    (m : Menu) (i : ℕ)
    → IsMenu m
    → i < length (visible m.menu_options)
    → IsMenu (record m { selected_index = i })
moved m i v h = record { twelve = v.twelve; selected_in = h }

module _ (clk : Bool) (run : Function → Menu → Menu)
    (keeps : (f : Function) (m : Menu) → IsMenu m → IsMenu (run f m)) where
  call-IsMenu : (f : Function) (m : Menu) → IsMenu m → IsMenu (call clk run f m)
  unfolding call
  call-IsMenu reboot_menu_entry m v = reboot_menu-IsMenu clk m v
  call-IsMenu f m v = keeps f m v

  select_lem :
      (m : Menu)
      → IsMenu m
      → (e : MenuEntry) × (get_elem? (visible m.menu_options) m.selected_index ≡ some e)
        × (select clk run m ≡ some (run_entry clk run e m))
  unfolding select get_real_index_from_visible_index
  select_lem m v =
      let (k, p, q) =
        real_from_lem m.menu_options 0 0 m.selected_index m.selected_index (omega arith)
          v.selected_in in
      let (e, h) = get_elem?-inside (visible m.menu_options) m.selected_index v.selected_in in
      let found : get_elem? m.menu_options (get_real_index_from_visible_index m.selected_index m)
          ≡ some e =
        ap (get_elem? m.menu_options) (p ∙ omega arith) ∙ (q ∙ h) in
      (e, h, rw (found, select) refl)

  -- A step that ends, in a menu.
  abbrev pub Keeps : Option (Option Function × Menu) → Type 0
  Keeps none = ⊥
  Keeps (some r) = IsMenu r.1

  select-Keeps : (m : Menu) → IsMenu m → Keeps (select clk run m)
  select-Keeps m v =
      let (e, _, s) = select_lem m v in
      rw s (
        if-elim (λ (r : Option Function × Menu). IsMenu r.1) (is_null e.function) (λ h. v)
          (λ h. call-IsMenu e.function m v))

  handle_key_input-Keeps :
      (key : Option InputKey) (m : Menu)
      → IsMenu m
      → m.menu_option_count ≡ length (visible m.menu_options)
      → Keeps (handle_key_input clk run key m)
  unfolding handle_key_input
  handle_key_input-Keeps none m v n = v
  handle_key_input-Keeps (some key) m v n =
      let few = visible-le m.menu_options in
      if-elim Keeps (key.scan_code == 5) (λ _. main_menu-IsMenu m v)
        (λ _.
          if-elim Keeps (key.scan_code == 1)
            (λ _. moved m _ v (ground (arith, v.selected_in, v.twelve, few, n)))
            (λ _.
              if-elim Keeps (key.scan_code == 2)
                (λ _. moved m _ v (ground (arith, v.selected_in, v.twelve, few, n)))
                (λ _.
                  if-elim Keeps (key.scan_code == 23) (λ _. v)
                    (λ _.
                      if-elim Keeps (key.unicode_char == 13) (λ _. select-Keeps m v) (λ _. v)))))

  -- Drawing the menu and handling any key, or none, ends with the selection on a visible option again:
  -- the options are twelve and one of them at least is visible. The functions of the options must keep
  -- this, and RebootMenu does.
  pub menu_pass-Keeps :
      (key : Option InputKey) (m : Menu) → IsMenu m → Keeps (menu_pass clk run key m)
  unfolding menu_pass draw_menu get_active_menu_entry_length
  menu_pass-Keeps key m v =
      handle_key_input-Keeps key (draw_menu m).1
        (record { twelve = v.twelve; selected_in = v.selected_in })
        (active_count_lem m.menu_options)
