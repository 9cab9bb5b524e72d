-- ===== src/Tetris/Moves/Within.antt =====
-- The active piece stays on the board.
use htc_leo_pkg.Prelude.{
  ℕ, ◌-◌, ◌^◌, ◌<◌, ◌≡◌, refl, ap, sym, ◌∙◌, arith, not, if◌then◌else◌, if-elim, List, [], ◌∷◌,
}
use htc_leo_pkg.Tetris.Piece.{Point, Piece, body, rotate_cw, rotate_ccw}
use htc_leo_pkg.Tetris.Piece.Turns.{ccw-cw}
use htc_leo_pkg.Tetris.Board.{Board, is_move_possible}
use htc_leo_pkg.Tetris.Board.Within.{
  IsWithin, cells_within, shifted, possible-IsWithin, mark-pieces, draw-pieces,
}
use htc_leo_pkg.Tetris.Moves.{
  rotate_piece, move_piece_left, move_piece_right, redrawn, mark_empty, draw_black, turn,
  move_aside,
}

pub redrawn-piece :
    (dx dy : ℕ) (b : Board) → (redrawn dx dy b).active_piece ≡ shifted dx dy b.active_piece
redrawn-piece dx dy b =
    (draw-pieces _ (turn (shifted dx dy) (draw_black b))).0 ∙ ap (shifted dx dy) (draw-pieces 0 b).0

aside-IsWithin :
    (dx : ℕ) (b : Board) → IsWithin b.active_piece → IsWithin (move_aside dx b).active_piece
aside-IsWithin dx b h =
    let b' = mark_empty b in
    let same = (mark-pieces 0 b).0 in
    let after = if is_move_possible b' dx 0 then redrawn dx 0 b' else b' in
    rw (mark-pieces after.active_piece.color after).0 (
      if-elim (λ (t : Board). IsWithin t.active_piece) (is_move_possible b' dx 0)
        (λ e. rw (redrawn-piece dx 0 b') (possible-IsWithin b' dx 0 e)) (λ e. rw same h))

unshifted : (p : Piece) (cs : List Point) → cells_within (shifted 0 0 p) cs ≡ cells_within p cs
unshifted p [] = refl
unshifted p (c ∷ cs) = ground (arith, unshifted p cs)

rotate-IsWithin :
    (b : Board)
    → IsWithin b.active_piece
    → b.active_piece.rotation < 4
    → IsWithin (rotate_piece b).active_piece
unfolding rotate_piece
rotate-IsWithin b h r =
    let turned = turn rotate_cw (mark_empty b) in
    let back = turn rotate_ccw turned in
    let same = (mark-pieces 0 b).0 in
    let is_back : back.active_piece ≡ b.active_piece =
      ap (λ (p : Piece). rotate_ccw (rotate_cw p)) same ∙ ccw-cw b.active_piece r in
    let drawn = turn rotate_cw (draw_black back) in
    let is_turned : drawn.active_piece ≡ turned.active_piece =
      ap rotate_cw ((draw-pieces 0 back).0 ∙ (is_back ∙ sym same)) in
    if-elim (λ (t : Board). IsWithin t.active_piece) (not (is_move_possible turned 0 0))
      (λ e. rw ((mark-pieces back.active_piece.color back).0, is_back) h)
      (λ e.
        rw ((draw-pieces drawn.active_piece.color drawn).0, is_turned)
          (sym (unshifted turned.active_piece (body turned.active_piece))
            ∙ possible-IsWithin turned 0 0 (ground arith)))

-- Moving the active piece left or right, or turning it, keeps all of its cells on the board.
pub moves-IsWithin :
    (b : Board)
    → IsWithin b.active_piece
    → b.active_piece.rotation < 4
    → IsWithin (move_piece_left b).active_piece
      × IsWithin (move_piece_right b).active_piece
      × IsWithin (rotate_piece b).active_piece
unfolding move_piece_left move_piece_right
moves-IsWithin b h r =
    (aside-IsWithin (2 ^ 32 - 1) b h, aside-IsWithin 1 b h, rotate-IsWithin b h r)
