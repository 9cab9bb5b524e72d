-- ===== src/Menu/Options.antt =====
-- The list of the menu's options: QSD8250Pkg/Application/HtcLeoMenuApp/menu.c and menu.h. What is
-- printed of an option is the line that draw_menu gives.
pub mod Visible
pub mod Selection
mod Tests
use htc_leo_pkg.Prelude.{
  ℕ, zero, suc, ◌+◌, ◌-◌, ◌%◌, ◌^◌, List, [], ◌∷◌, Option, none, some, Bool, true, false, not, ◌==◌,
  if◌then◌else◌, get_elem?, set, length,
}
use htc_leo_pkg.Keypad.Console.{InputKey}

-- The functions of the options; `null` is a NULL pointer.
pub data Function : Type 0 where
  null boot_default boot_android_kernel start_tetris start_shell dump_dmesg : Function
  dump_memory_2_sdcard reboot_menu_entry exit_menu set_clk_boot reset_cold reset_shutdown : Function
  null_function : Function

pub record MenuEntry : Type 0 where
  pub name : List ℕ
  pub is_active : Bool
  pub function : Function

abbrev pub max_options_count : ℕ
max_options_count = 12

-- The globals of menu.c.
pub record Menu : Type 0 where
  pub menu_options : List MenuEntry
  pub menu_option_count : ℕ
  pub selected_index : ℕ

-- Assignments to `MenuOptions[Index++]`.
abbrev put_entries : ℕ → List MenuEntry → List MenuEntry → List MenuEntry
put_entries index [] options = options
put_entries index (e ∷ entries) options = put_entries (index + 1) entries (set options index e)

abbrev main_entries : List MenuEntry
main_entries =
    (record {
      name = 66 ∷ 111 ∷ 111 ∷ 116 ∷ 32 ∷ 100 ∷ 101 ∷ 102 ∷ 97 ∷ 117 ∷ 108 ∷ 116 ∷ [];
      is_active = true;
      function = boot_default;
    })
    ∷ (record {
      name = 66 ∷ 111 ∷ 111 ∷ 116 ∷ 32 ∷ 65 ∷ 110 ∷ 100 ∷ 114 ∷ 111 ∷ 105 ∷ 100 ∷ [];
      is_active = false;
      function = boot_android_kernel;
    })
    ∷ (record {
      name = 80 ∷ 108 ∷ 97 ∷ 121 ∷ 32 ∷ 84 ∷ 101 ∷ 116 ∷ 114 ∷ 105 ∷ 115 ∷ [];
      is_active = true;
      function = start_tetris;
    })
    ∷ (record {
      name = 69 ∷ 70 ∷ 73 ∷ 32 ∷ 83 ∷ 104 ∷ 101 ∷ 108 ∷ 108 ∷ [];
      is_active = true;
      function = start_shell;
    })
    ∷ (record {
      name =
          68 ∷ 117 ∷ 109 ∷ 112 ∷ 32 ∷ 68 ∷ 77 ∷ 69 ∷ 83 ∷ 71 ∷ 32 ∷ 116 ∷ 111 ∷ 32 ∷ 115 ∷ 100 ∷ 99
          ∷ 97 ∷ 114 ∷ 100 ∷ [];
      is_active = true;
      function = dump_dmesg;
    })
    ∷ (record {
      name =
          68 ∷ 117 ∷ 109 ∷ 112 ∷ 32 ∷ 77 ∷ 101 ∷ 109 ∷ 111 ∷ 114 ∷ 121 ∷ 32 ∷ 116 ∷ 111 ∷ 32 ∷ 115
          ∷ 100 ∷ 99 ∷ 97 ∷ 114 ∷ 100 ∷ [];
      is_active = true;
      function = dump_memory_2_sdcard;
    })
    ∷ (record {
      name = 82 ∷ 101 ∷ 98 ∷ 111 ∷ 111 ∷ 116 ∷ 32 ∷ 77 ∷ 101 ∷ 110 ∷ 117 ∷ [];
      is_active = true;
      function = reboot_menu_entry;
    })
    ∷ (record { name = 69 ∷ 120 ∷ 105 ∷ 116 ∷ []; is_active = true; function = exit_menu })
    ∷ []

pub fill_menu : Menu → Menu
fill_menu m = record m { menu_options = put_entries 0 main_entries m.menu_options }

pub active_count : List MenuEntry → ℕ
active_count [] = 0
active_count (e ∷ options) =
    if e.is_active then suc (active_count options) else active_count options

pub get_active_menu_entry_length : Menu → ℕ
unfolding active_count
get_active_menu_entry_length m = active_count m.menu_options

-- A line of the menu: its number, its name, and whether it is drawn as selected.
pub record Line : Type 0 where
  pub number : ℕ
  pub name : List ℕ
  pub is_selected : Bool

pub draw_lines : ℕ → ℕ → List MenuEntry → List Line
draw_lines selected visible_index [] = []
draw_lines selected visible_index (e ∷ options) =
    let rest = draw_lines selected visible_index options in
    let line : Line = record {
      number = visible_index + 1;
      name = e.name;
      is_selected = visible_index == selected;
    } in
    let more = draw_lines selected (visible_index + 1) options in
    if not e.is_active then rest else (line ∷ more)

pub draw_menu : Menu → List Line × Menu
unfolding draw_lines get_active_menu_entry_length
draw_menu m = (
  draw_lines m.selected_index 0 m.menu_options,
  record m { menu_option_count = get_active_menu_entry_length m },
)

pub main_menu : Menu → Menu
unfolding fill_menu
main_menu m = fill_menu (record m { selected_index = 0 })

-- The loop from entry `i` with the active ones counted so far; -1 is 2 ^ 32 - 1.
pub real_from : List MenuEntry → ℕ → ℕ → ℕ → ℕ
real_from [] i count visible_index = 2 ^ 32 - 1
real_from (e ∷ options) i count visible_index =
    let skipped = real_from options (i + 1) count visible_index in
    let passed = real_from options (i + 1) (count + 1) visible_index in
    if not e.is_active then skipped else if count == visible_index then i else passed

pub get_real_index_from_visible_index : ℕ → Menu → ℕ
unfolding real_from
get_real_index_from_visible_index visible_index m = real_from m.menu_options 0 0 visible_index

abbrev disabled_entry : MenuEntry
disabled_entry = record { name = []; is_active = false; function = null_function }

-- The `do` loop from `index`, with `left` passes to go.
abbrev fill_disabled : ℕ → ℕ → List MenuEntry → List MenuEntry
fill_disabled zero index options = options
fill_disabled (suc left) index options =
    fill_disabled left (index + 1) (set options index disabled_entry)

-- `clk` is mDevice->cLK.
abbrev reboot_entries : Bool → List MenuEntry
reboot_entries clk =
    (record {
      name = 82 ∷ 101 ∷ 98 ∷ 111 ∷ 111 ∷ 116 ∷ 32 ∷ 116 ∷ 111 ∷ 32 ∷ 67 ∷ 76 ∷ 75 ∷ [];
      is_active = clk;
      function = set_clk_boot;
    })
    ∷ (record {
      name = 82 ∷ 101 ∷ 98 ∷ 111 ∷ 111 ∷ 116 ∷ [];
      is_active = true;
      function = reset_cold;
    })
    ∷ (record {
      name = 83 ∷ 104 ∷ 117 ∷ 116 ∷ 100 ∷ 111 ∷ 119 ∷ 110 ∷ [];
      is_active = true;
      function = reset_shutdown;
    })
    ∷ []

pub reboot_menu : Bool → Menu → Menu
reboot_menu clk m = record {
  menu_options = fill_disabled 9 3 (put_entries 0 (reboot_entries clk) m.menu_options);
  menu_option_count = m.menu_option_count;
  selected_index = 0;
}

abbrev is_null : Function → Bool
is_null null = true
is_null f = false

-- `run` is what the functions other than RebootMenu do to the menu.
module _ (clk : Bool) (run : Function → Menu → Menu) where
  pub call : Function → Menu → Menu
  unfolding reboot_menu
  call reboot_menu_entry m = reboot_menu clk m
  call f m = run f m

  -- Return on an option: the function that it calls, and the menu.
  abbrev pub run_entry : MenuEntry → Menu → Option Function × Menu
  run_entry e m = if is_null e.function then (none, m) else (some e.function, call e.function m)

  -- `none` is an access past the options.
  pub select : Menu → Option (Option Function × Menu)
  unfolding call get_real_index_from_visible_index
  select m =
      elim (get_elem? m.menu_options (get_real_index_from_visible_index m.selected_index m)) [
        | none ↦ none
        | some e ↦ some (run_entry e m)
      ]

  -- `key` is `none` for EFI_NOT_READY. SCAN_HOME is 5, SCAN_UP 1, SCAN_DOWN 2, SCAN_ESC 23 and
  -- CHAR_CARRIAGE_RETURN 13; the other keys only print.
  pub handle_key_input : Option InputKey → Menu → Option (Option Function × Menu)
  unfolding main_menu select
  handle_key_input none m = some (none, m)
  handle_key_input (some key) m =
      let last = (m.menu_option_count + 2 ^ 32 - 1) % 2 ^ 32 in
      let selected = select m in
      if key.scan_code == 5
      then some (none, main_menu m)
      else if key.scan_code == 1
      then some (
        none,
        record m { selected_index = if m.selected_index == 0 then last else m.selected_index - 1 },
      )
      else if key.scan_code == 2
      then some (
        none,
        record m { selected_index = if m.selected_index == last then 0 else m.selected_index + 1 },
      )
      else if key.scan_code == 23
      then some (none, m)
      else if key.unicode_char == 13
      then selected
      else some (none, m)

  -- One pass of the loop of ShellAppMain.
  pub menu_pass : Option InputKey → Menu → Option (Option Function × Menu)
  unfolding draw_menu handle_key_input
  menu_pass key m = handle_key_input key (draw_menu m).1
