-- ===== src/Tetris/Moves.antt =====
-- The moves of the active piece, QSD8250Pkg/Application/TetrisApp/Board.c.
pub mod Within
pub mod Drop
pub mod Level
use htc_leo_pkg.Prelude.{
  ℕ, zero, suc, ◌+◌, ◌-◌, ◌*◌, ◌^◌, Option, none, some, Bool, true, false, not, if◌then◌else◌,
}
use htc_leo_pkg.Tetris.Piece.{Point, Piece, add32, rotate_cw, rotate_ccw}
use htc_leo_pkg.Tetris.Board.{
  Board, empty_field, is_move_possible, mark_fields_occupied_by_piece,
  draw_fields_occupied_by_piece, place_piece,
}

abbrev pub mark_empty : Board → Board
mark_empty b = mark_fields_occupied_by_piece empty_field b

abbrev pub mark_own : Board → Board
mark_own b = mark_fields_occupied_by_piece b.active_piece.color b

abbrev draw_black : Board → Board
draw_black b = draw_fields_occupied_by_piece 0 b

abbrev draw_own : Board → Board
draw_own b = draw_fields_occupied_by_piece b.active_piece.color b

abbrev turn : (Piece → Piece) → Board → Board
turn f b = record b { active_piece = f b.active_piece }

pub rotate_piece : Board → Board
rotate_piece b =
    let turned = turn rotate_cw (mark_empty b) in
    let back = turn rotate_ccw turned in
    if not (is_move_possible turned 0 0)
    then mark_own back
    else draw_own (turn rotate_cw (draw_black back))

abbrev pub shifted : ℕ → ℕ → Piece → Piece
shifted dx dy p = record p { pos = record { x = add32 p.pos.x dx; y = add32 p.pos.y dy } }

-- Erase the piece, move it, draw it again.
abbrev pub redrawn : ℕ → ℕ → Board → Board
redrawn dx dy b = draw_own (turn (shifted dx dy) (draw_black b))

abbrev move_aside : ℕ → Board → Board
move_aside dx b =
    let b' = mark_empty b in mark_own (if is_move_possible b' dx 0 then redrawn dx 0 b' else b')

-- -1 is 2 ^ 32 - 1.
pub move_piece_left : Board → Board
move_piece_left b = move_aside (2 ^ 32 - 1) b

pub move_piece_right : Board → Board
move_piece_right b = move_aside 1 b

-- `n` is the fuel of the line removal.
pub move_piece_down : ℕ → Board → Option (Bool × Board)
move_piece_down n b =
    let b' = mark_empty b in
    if is_move_possible b' 0 1
    then some (true, redrawn 0 1 b')
    else elim (place_piece n (mark_own b')) [ none ↦ none | some placed ↦ some (false, placed) ]

-- The loop of dropPiece on fuel, with the height so far; `none` is a loop that is still going.
pub drop_loop : ℕ → ℕ → ℕ → Board → Option (ℕ × Board)
unfolding move_piece_down
drop_loop zero n height b = none
drop_loop (suc m) n height b = elim (move_piece_down n b) [
  | none ↦ none
  | some (moved, b') ↦
      let rest = drop_loop m n (height + 1) b' in if moved then rest else some (height, b')
]

pub drop_piece : ℕ → ℕ → Board → Option Board
unfolding drop_loop
drop_piece m n b = elim (drop_loop m n 0 b) [
  | none ↦ none
  | some (height, b') ↦ some (record b' { score = b'.score + 2 * height })
]
