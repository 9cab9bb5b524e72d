-- ===== src/Tetris/Board/Within.antt =====
-- When a piece is on the board, and what a possible move says of it.
use htc_leo_pkg.Prelude.{
  ℕ, ◌≡◌, refl, arith, List, [], ◌∷◌, Bool, true, false, ◌&&◌, ltb, if◌then◌else◌,
}
use htc_leo_pkg.Tetris.Piece.{Point, Piece, add32, body}
use htc_leo_pkg.Tetris.Board.{
  Board, board_height, board_width, is_move_possible, mark_fields_occupied_by_piece,
  draw_fields_occupied_by_piece, possible_at,
}

abbrev pub cells_within : Piece → List Point → Bool
cells_within p [] = true
cells_within p (c ∷ cs) =
    if ltb (add32 c.x p.pos.x) board_width && ltb (add32 c.y p.pos.y) board_height
    then cells_within p cs
    else false

-- Every cell of the piece is one of the 22 by 10 fields.
abbrev pub IsWithin : Piece → Type 0
IsWithin p = cells_within p (body p) ≡ true

abbrev pub shifted : ℕ → ℕ → Piece → Piece
shifted dx dy p = record p { pos = record { x = add32 p.pos.x dx; y = add32 p.pos.y dy } }

possible-cells :
    (p : Piece) (fields : List (List ℕ)) (dx dy : ℕ) (cs : List Point)
    → possible_at p fields dx dy cs ≡ true
    → cells_within (shifted dx dy p) cs ≡ true
unfolding possible_at
possible-cells p fields dx dy [] h = refl
possible-cells p fields dx dy (c ∷ cs) h = ground (arith, possible-cells p fields dx dy cs)

-- A move that is possible leads to a place on the board.
pub possible-IsWithin :
    (b : Board) (dx dy : ℕ)
    → is_move_possible b dx dy ≡ true
    → IsWithin (shifted dx dy b.active_piece)
unfolding is_move_possible
possible-IsWithin b dx dy h = possible-cells b.active_piece b.fields dx dy (body b.active_piece) h

-- Marking and drawing do not touch the pieces.
pub mark-pieces :
    (color : ℕ) (b : Board)
    → let b' = mark_fields_occupied_by_piece color b in
      (b'.active_piece ≡ b.active_piece) × (b'.next_piece ≡ b.next_piece)
unfolding mark_fields_occupied_by_piece
mark-pieces color b = (refl, refl)

pub draw-pieces :
    (color : ℕ) (b : Board)
    → let b' = draw_fields_occupied_by_piece color b in
      (b'.active_piece ≡ b.active_piece) × (b'.next_piece ≡ b.next_piece)
unfolding draw_fields_occupied_by_piece
draw-pieces color b = (refl, refl)
