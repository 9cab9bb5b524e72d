-- ===== src/Tetris/Board.antt =====
-- The board, QSD8250Pkg/Application/TetrisApp/Board.c. What is printed is left out; the field array,
-- which drawing writes too, is a list of rows.
pub mod Lines
pub mod Removal
pub mod Within
pub mod Level
mod Tests
use htc_leo_pkg.Prelude.{
  ℕ, zero, suc, ◌+◌, ◌-◌, ◌*◌, ◌%◌, ◌^◌, List, [], ◌∷◌, Option, none, some, Bool, true, false, not,
  ◌&&◌, ◌||◌, ◌==◌, leb, ltb, if◌then◌else◌, get_or, set,
}
use htc_leo_pkg.Tetris.Piece.{Point, Piece, add32, body, rand, randomize, rotate_cw, rotate_ccw}

abbrev pub board_height : ℕ
board_height = 22

abbrev pub invisible_rows_count : ℕ
invisible_rows_count = 2

abbrev pub board_width : ℕ
board_width = 10

-- EMPTY_FIELD is EFI_BLACK.
abbrev pub empty_field : ℕ
empty_field = 0

-- `previous_value` is the generator's static of Piece.c.
pub record Board : Type 0 where
  pub next_piece : Piece
  pub active_piece : Piece
  pub fields : List (List ℕ)
  pub blocked : Bool
  pub level : ℕ
  pub lines : ℕ
  pub score : ℕ
  pub previous_value : ℕ

abbrev Fields : Type 0
Fields = List (List ℕ)

abbrev pub field_at : Fields → ℕ → ℕ → ℕ
field_at fields y x = get_or (get_or fields y []) x 0

abbrev pub put_field : Fields → ℕ → ℕ → ℕ → Fields
put_field fields y x color = set fields y (set (get_or fields y []) x color)

-- `v < 0` of an int.
abbrev is_negative : ℕ → Bool
is_negative v = leb (2 ^ 31) v

possible_at : Piece → Fields → ℕ → ℕ → List Point → Bool
possible_at p fields x y [] = true
possible_at p fields x y (c ∷ cs) =
    let fx = add32 (add32 c.x p.pos.x) x in
    let fy = add32 (add32 c.y p.pos.y) y in
    let rest = possible_at p fields x y cs in
    if is_negative fx
      || leb board_width fx
      || is_negative fy
      || leb board_height fy
      || not (field_at fields fy fx == empty_field)
    then false
    else rest

pub is_move_possible : Board → ℕ → ℕ → Bool
unfolding possible_at
is_move_possible b x y = possible_at b.active_piece b.fields x y (body b.active_piece)

mark_at : Piece → ℕ → List Point → Fields → Fields
mark_at p color [] fields = fields
mark_at p color (c ∷ cs) fields =
    mark_at p color cs (put_field fields (add32 c.y p.pos.y) (add32 c.x p.pos.x) color)

pub mark_fields_occupied_by_piece : ℕ → Board → Board
unfolding mark_at
mark_fields_occupied_by_piece color b = record b {
  fields = mark_at b.active_piece color (body b.active_piece) b.fields;
}

abbrev pub redraw_field : ℕ → ℕ → ℕ → Fields → Fields
redraw_field x y color fields =
    if leb invisible_rows_count y && not (is_negative y) then put_field fields y x color else fields

draw_at : Piece → ℕ → List Point → Fields → Fields
draw_at p color [] fields = fields
draw_at p color (c ∷ cs) fields =
    draw_at p color cs (redraw_field (add32 c.x p.pos.x) (add32 c.y p.pos.y) color fields)

pub draw_fields_occupied_by_piece : ℕ → Board → Board
unfolding draw_at
draw_fields_occupied_by_piece color b = record b {
  fields = draw_at b.active_piece color (body b.active_piece) b.fields;
}

-- The loop that looks for an empty field, from column `j` with `left` columns to go.
pub line_is_full : ℕ → ℕ → List ℕ → Bool
line_is_full zero j row = true
line_is_full (suc left) j row =
    let rest = line_is_full left (j + 1) row in
    if get_or row j 0 == empty_field then false else rest

-- The loop that blackens line `i`.
pub black_line : ℕ → ℕ → ℕ → Fields → Fields
black_line zero j i fields = fields
black_line (suc left) j i fields = black_line left (j + 1) i (redraw_field j i 0 fields)

-- The loop that copies line `j - 1` to line `j`.
pub copy_line : ℕ → ℕ → ℕ → Fields → Fields
copy_line zero k j fields = fields
copy_line (suc left) k j fields =
    copy_line left (k + 1) j (redraw_field k j (field_at fields (j - 1) k) fields)

-- The loop over `j` from `i` down to 1.
pub shift_lines : ℕ → Fields → Fields
unfolding copy_line
shift_lines zero fields = fields
shift_lines (suc j) fields = shift_lines j (copy_line board_width 0 (suc j) fields)

-- The outer loop from line `i` with the lines removed so far, on fuel; `none` is a loop that is still
-- going. A removed line leaves `i` where it is.
pub remove_lines : ℕ → ℕ → ℕ → Fields → Option (ℕ × Fields)
unfolding line_is_full black_line shift_lines
remove_lines zero i counter fields = none
remove_lines (suc n) i counter fields =
    let removed =
      remove_lines n i (suc counter) (shift_lines i (black_line board_width 0 i fields)) in
    let kept = remove_lines n (i - 1) counter fields in
    if ltb i invisible_rows_count
    then some (counter, fields)
    else if line_is_full board_width 0 (get_or fields i [])
    then removed
    else kept

-- The lines and the score after the loop: `LINE_CLEAR_SCORE << (counter - 1)` and the level bonus.
abbrev pub finish : Board → Option (ℕ × Fields) → Option Board
finish b none = none
finish b (some (counter, fields)) = some (record b {
  fields = fields;
  lines = b.lines + counter;
  score = if counter == 0 then b.score else b.score + 100 * 2 ^ (counter - 1) + 50 * b.level;
})

pub check_and_remove_lines : ℕ → Board → Option Board
check_and_remove_lines n b = finish b (remove_lines n (board_height - 1) 0 b.fields)

over_at : Piece → List Point → Bool
over_at p [] = false
over_at p (c ∷ cs) =
    let rest = over_at p cs in
    let y = add32 c.y p.pos.y in if is_negative y || ltb y invisible_rows_count then true else rest

pub is_game_over : Board → Bool
unfolding over_at
is_game_over b = over_at b.active_piece (body b.active_piece)

pub load_next_piece : Board → Board
load_next_piece b =
    let value = rand b.previous_value in
    record b {
      active_piece = record b.next_piece { pos = record { x = 4; y = 0 } };
      next_piece = randomize value b.active_piece;
      previous_value = value;
    }

pub place_piece : ℕ → Board → Option Board
unfolding is_game_over check_and_remove_lines load_next_piece
place_piece n b =
    if is_game_over b
    then some (record b { blocked = true })
    else elim (check_and_remove_lines n b) [ none ↦ none | some b' ↦ some (load_next_piece b') ]
