-- ===== src/Tetris/Tests.antt =====
-- Runs of the game with a one-cell piece.
use htc_leo_pkg.Prelude.{ℕ, ◌≤◌, ◌≡◌, refl, arith, [], ◌∷◌, false, replicate}
use htc_leo_pkg.Keypad.Console.{InputKey}
use htc_leo_pkg.Tetris.Piece.{Piece}
use htc_leo_pkg.Tetris.Board.{Board, place_piece}
use htc_leo_pkg.Tetris.Board.Within.{IsWithin}
use htc_leo_pkg.Tetris.Moves.{
  mark_own, mark_empty, rotate_piece, move_piece_left, move_piece_right, drop_piece,
}
use htc_leo_pkg.Tetris.Moves.Within.{moves-IsWithin}
use htc_leo_pkg.Tetris.Moves.Drop.{IsFall, IsLowest, falls, with_bonus, drop_piece_lem}
use htc_leo_pkg.Tetris.Core.{Core, running}

abbrev dot : Piece
dot = record {
  bodies = replicate 4 (record { x = 1; y = 1 } ∷ []);
  rotation = 3;
  color = 14;
  pos = record { x = 0; y = 5 };
}

abbrev empty_board : Board
empty_board = record {
  next_piece = dot;
  active_piece = dot;
  fields = replicate 22 (replicate 10 0);
  blocked = false;
  level = 1;
  lines = 0;
  score = 0;
  previous_value = 7;
}

moves-IsWithin_example :
    IsWithin (move_piece_left empty_board).active_piece
    × IsWithin (move_piece_right empty_board).active_piece
    × IsWithin (rotate_piece empty_board).active_piece
moves-IsWithin_example = moves-IsWithin empty_board refl (omega arith)

drop_piece_lem_example :
    (h : ℕ) × (b' : Board) × (h ≤ 22)
    × IsLowest h empty_board
    × (b' ≡ mark_own (mark_empty (falls h empty_board)))
    × IsFall h empty_board b'
    × (drop_piece 22 41 empty_board ≡ with_bonus h (place_piece 41 b'))
drop_piece_lem_example = drop_piece_lem 41 empty_board refl refl

abbrev game : Core
game = record { game_state = running; board = empty_board; tick_counter = 0 }

abbrev home_key : InputKey
home_key = record { scan_code = 5; unicode_char = 0 }
