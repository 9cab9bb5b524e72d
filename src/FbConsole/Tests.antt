-- ===== src/FbConsole/Tests.antt =====
-- Writes on a console that has just been initialised.
use htc_leo_pkg.Prelude.{◌≡◌, refl, [], ◌∷◌, some, true, false}
use htc_leo_pkg.FbConsole.{FbConsole, serial_port_initialize, serial_port_write}
use htc_leo_pkg.FbConsole.Within.{
  IsConsole, flag_after, serial_port_initialize-IsConsole, serial_port_write_lem,
}

abbrev at_start : FbConsole
at_start = record {
  x = 0;
  y = 0;
  max_x = 0;
  max_y = 0;
  foreground = 0;
  background = 0;
  initialized = false;
  interrupts = false;
  screen = [];
}

abbrev fresh : FbConsole
fresh = (serial_port_initialize at_start).1

serial_port_write_lem_example :
    (c' : FbConsole) × IsConsole c'
    × (c'.interrupts ≡ flag_after true (72 ∷ 10 ∷ []) fresh.interrupts)
    × (serial_port_write 2 true (72 ∷ 10 ∷ []) fresh ≡ some (2, c'))
serial_port_write_lem_example =
    serial_port_write_lem true (72 ∷ 10 ∷ []) fresh
      (serial_port_initialize-IsConsole at_start refl refl)
