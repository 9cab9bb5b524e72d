-- ===== src/Menu/Options/Tests.antt =====
-- Runs of the main menu, whose functions leave it alone.
use htc_leo_pkg.Prelude.{refl, arith, [], ◌∷◌, some, false, true, replicate}
use htc_leo_pkg.Keypad.Console.{InputKey}
use htc_leo_pkg.Menu.Options.{Function, MenuEntry, Menu, null, disabled_entry, menu_pass}
use htc_leo_pkg.Menu.Options.Selection.{IsMenu, Keeps, menu_pass-Keeps}

abbrev entry : MenuEntry
entry = record { name = 65 ∷ []; is_active = true; function = null }

-- Twelve options, the first and the third visible, the third selected.
abbrev two_visible : Menu
two_visible = record {
  menu_options = entry ∷ disabled_entry ∷ entry ∷ replicate 9 disabled_entry;
  menu_option_count = 2;
  selected_index = 1;
}

two_visible-IsMenu : IsMenu two_visible
two_visible-IsMenu = record { twelve = refl; selected_in = omega arith }

abbrev idle : Function → Menu → Menu
idle f m = m

abbrev down : InputKey
down = record { scan_code = 2; unicode_char = 0 }

menu_pass-Keeps_example :
    Keeps false idle (λ f m v. v) (menu_pass false idle (some down) two_visible)
menu_pass-Keeps_example =
    menu_pass-Keeps false idle (λ f m v. v) (some down) two_visible two_visible-IsMenu
