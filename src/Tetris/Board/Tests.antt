-- ===== src/Tetris/Board/Tests.antt =====
-- A board with one full line.
use htc_leo_pkg.Prelude.{
  ℕ, zero, suc, ◌+◌, ◌-◌, ◌*◌, ◌^◌, ◌≡◌, refl, List, [], ◌∷◌, ◌++◌, some, false, All, replicate,
  if◌then◌else◌, ◌==◌,
}
use htc_leo_pkg.Tetris.Piece.{Point, Piece}
use htc_leo_pkg.Tetris.Board.{Board, check_and_remove_lines, line_is_full}
use htc_leo_pkg.Tetris.Board.Lines.{rev_onto}
use htc_leo_pkg.Tetris.Board.Removal.{Wide, fulls, kept, check_and_remove_lines_lem}

abbrev empty_row : List ℕ
empty_row = replicate 10 0

abbrev origin : Point
origin = record { x = 4; y = 0 }

abbrev square : Piece
square = record {
  bodies = replicate 4 (origin ∷ []);
  rotation = 0;
  color = 14;
  pos = record { x = 0; y = 5 };
}

abbrev one_full : List (List ℕ)
one_full = replicate 10 3 ∷ replicate 19 empty_row

abbrev played : Board
played = record {
  next_piece = square;
  active_piece = square;
  fields = empty_row ∷ empty_row ∷ rev_onto one_full [];
  blocked = false;
  level = 1;
  lines = 2;
  score = 300;
  previous_value = 7;
}

empty_rows-Wide : (n : ℕ) → All Wide (replicate n empty_row)
empty_rows-Wide zero = tt
empty_rows-Wide (suc n) = (refl, empty_rows-Wide n)

one_full-lines : fulls one_full ≡ 1
unfolding line_is_full
one_full-lines = refl

check_and_remove_lines_lem_example :
    let c = fulls one_full in
    check_and_remove_lines 41 played
    ≡ some (record played {
      fields = empty_row ∷ empty_row ∷ rev_onto (kept one_full ++ replicate c empty_row) [];
      lines = 2 + c;
      score = if c == 0 then 300 else 300 + 100 * 2 ^ (c - 1) + 50 * 1;
    })
unfolding line_is_full
check_and_remove_lines_lem_example =
    check_and_remove_lines_lem played empty_row empty_row one_full refl refl refl
      (refl, empty_rows-Wide 19) refl
