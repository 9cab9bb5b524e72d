-- ===== src/Tetris/Core.antt =====
-- The game around the board, QSD8250Pkg/Application/TetrisApp/Core.c. What is printed is left out.
pub mod Level
use htc_leo_pkg.Prelude.{
  ℕ, ◌+◌, ◌-◌, ◌*◌, ◌/◌, ◌%◌, ◌^◌, Option, none, some, Bool, true, false, not, ◌&&◌, ◌||◌, ◌==◌,
  leb, if◌then◌else◌,
}
use htc_leo_pkg.Tetris.Board.{Board}
use htc_leo_pkg.Tetris.Moves.{
  rotate_piece, move_piece_left, move_piece_right, move_piece_down, drop_piece,
}
use htc_leo_pkg.Keypad.Console.{InputKey}

pub data GameState : Type 0 where
  waiting_for_start running paused over exit : GameState

pub record Core : Type 0 where
  pub game_state : GameState
  pub board : Board
  pub tick_counter : ℕ

abbrev is_running : GameState → Bool
is_running s = elim s [ running ↦ true | _ ↦ false ]

abbrev is_waiting : GameState → Bool
is_waiting s = elim s [ waiting_for_start ↦ true | _ ↦ false ]

abbrev is_paused : GameState → Bool
is_paused s = elim s [ paused ↦ true | _ ↦ false ]

-- An int, truncated towards zero when it is divided.
pub reset_tick_counter : Core → Core
reset_tick_counter c =
    let level = c.board.level in
    record c {
      tick_counter =
          if leb level 11
          then 35 * (11 - level) / 10
          else (2 ^ 32 - 35 * (level - 11) / 10) % 2 ^ 32;
    }

pub timer_callback : Core → Core
timer_callback c =
    if is_running c.game_state && not (c.tick_counter == 0)
    then record c { tick_counter = c.tick_counter - 1 }
    else c

pub toggle_pause : Core → Core
toggle_pause c = record c { game_state = if is_paused c.game_state then running else paused }

pub game_over : Core → Core
game_over c = record c { game_state = over }

pub start_game : Core → Core
start_game c = record c { game_state = running }

abbrev with_board : Core → Option Board → Option Core
with_board c none = none
with_board c (some b) = some (record c { board = b })

-- A step down, with the counter reset when the piece has landed, or always.
abbrev step_down : Bool → Core → Option (Bool × Board) → Option Core
step_down always c none = none
step_down always c (some (moved, b)) =
    let c' = record c { board = b } in
    some (if always || not moved then reset_tick_counter c' else c')

abbrev when_running : Core → Option Core → Option Core
when_running c r = if is_running c.game_state then r else some c

abbrev reset_after : Option Core → Option Core
reset_after none = none
reset_after (some c) = some (reset_tick_counter c)

-- SCAN_HOME, SCAN_UP, SCAN_DOWN, SCAN_ESC, then CHAR_CARRIAGE_RETURN, CHAR_TAB and CHAR_BACKSPACE.
-- `m` and `n` are the fuels of the drop and of the line removal.
abbrev on_key : ℕ → ℕ → InputKey → Core → Option Core
on_key m n key c =
    if key.scan_code == 5
    then when_running c (reset_after (with_board c (drop_piece m n c.board)))
    else if key.scan_code == 1
    then when_running c (some (record c { board = move_piece_left c.board }))
    else if key.scan_code == 2
    then when_running c (some (record c { board = move_piece_right c.board }))
    else if key.scan_code == 23
    then some (record c { game_state = exit })
    else if key.unicode_char == 13
    then when_running c (step_down false c (move_piece_down n c.board))
    else if key.unicode_char == 9
    then when_running c (some (record c { board = rotate_piece c.board }))
    else if key.unicode_char == 8
    then some (if is_running c.game_state || is_paused c.game_state then toggle_pause c else c)
    else some c

-- `none` as a key is EFI_NOT_READY; other errors are ASSERTed away.
pub handle_input : ℕ → ℕ → Option InputKey → Core → Option Core
unfolding reset_tick_counter toggle_pause
handle_input m n none c = some c
handle_input m n (some key) c =
    if is_waiting c.game_state then some (start_game c) else on_key m n key c

pub draw_window : ℕ → Core → Option Core
draw_window n c =
    let c' = if is_running c.game_state && c.board.blocked then game_over c else c in
    if c'.tick_counter == 0 then step_down true c' (move_piece_down n c'.board) else some c'
