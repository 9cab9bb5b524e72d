-- ===== src/Tetris/Board/Level.antt =====
-- No operation of the board changes the level.
use htc_leo_pkg.Prelude.{ℕ, ◌≡◌, refl, List, Option, none, some, if-elim}
use htc_leo_pkg.Tetris.Board.{
  Board, mark_fields_occupied_by_piece, draw_fields_occupied_by_piece, check_and_remove_lines,
  finish, remove_lines, load_next_piece, place_piece, is_game_over,
}

-- The level of a result, if there is one.
abbrev pub HasLevel : ℕ → Option Board → Type 0
HasLevel l none = Unit
HasLevel l (some b) = b.level ≡ l

pub mark-level : (color : ℕ) (b : Board) → (mark_fields_occupied_by_piece color b).level ≡ b.level
unfolding mark_fields_occupied_by_piece
mark-level color b = refl

pub draw-level : (color : ℕ) (b : Board) → (draw_fields_occupied_by_piece color b).level ≡ b.level
unfolding draw_fields_occupied_by_piece
draw-level color b = refl

remove-HasLevel : (n : ℕ) (b : Board) → HasLevel b.level (check_and_remove_lines n b)
unfolding check_and_remove_lines
remove-HasLevel n b = go (remove_lines n 21 0 b.fields)
  where
    go : (r : Option (ℕ × List (List ℕ))) → HasLevel b.level (finish b r)
    go none = tt
    go (some r) = refl

load-HasLevel :
    (l : ℕ) (r : Option Board)
    → HasLevel l r
    → HasLevel l (elim r [ none ↦ none | some b' ↦ some (load_next_piece b') ])
unfolding load_next_piece
load-HasLevel l none h = tt
load-HasLevel l (some b) h = h

pub place-HasLevel : (n : ℕ) (b : Board) → HasLevel b.level (place_piece n b)
unfolding place_piece
place-HasLevel n b =
    if-elim (HasLevel b.level) (is_game_over b) (λ e. refl)
      (λ e. load-HasLevel b.level (check_and_remove_lines n b) (remove-HasLevel n b))
