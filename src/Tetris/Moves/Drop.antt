-- ===== src/Tetris/Moves/Drop.antt =====
-- Dropping a piece ends.
use htc_leo_pkg.Prelude.{
  ℕ, zero, suc, ◌+◌, ◌*◌, ◌%◌, ◌^◌, ◌<◌, ◌≤◌, ◌≡◌, refl, ap, sym, ◌∙◌, arith, Option, none, some,
  Bool, true, false, Bool-cases, Option-cases, inl, inr, List, [], ◌∷◌,
}
use htc_leo_pkg.Tetris.Piece.{Point, Piece, add32, body}
use htc_leo_pkg.Tetris.Board.{Board, is_move_possible, place_piece}
use htc_leo_pkg.Tetris.Board.Within.{
  IsWithin, cells_within, shifted, possible-IsWithin, mark-pieces,
}
use htc_leo_pkg.Tetris.Moves.{move_piece_down, drop_loop, drop_piece, redrawn, mark_empty, mark_own}
use htc_leo_pkg.Tetris.Moves.Within.{redrawn-piece}

-- The line of a piece's first cell.
abbrev first_y : Piece → List Point → ℕ
first_y p [] = 0
first_y p (c ∷ cs) = add32 c.y p.pos.y

abbrev pub has_cells : List Point → Bool
has_cells [] = false
has_cells (c ∷ cs) = true

within_first :
    (p : Piece) (cs : List Point)
    → has_cells cs ≡ true
    → cells_within p cs ≡ true
    → first_y p cs < 22
within_first p [] h v = absurd (cc h)
within_first p (c ∷ cs) h v = ground arith

fall_first :
    (p : Piece) (cs : List Point)
    → has_cells cs ≡ true
    → cells_within p cs ≡ true
    → first_y (shifted 0 1 p) cs ≡ suc (first_y p cs)
fall_first p [] h v = absurd (cc h)
fall_first p (c ∷ cs) h v = ground arith

-- Where the fall ends, for the result of placing the piece there.
abbrev pub landed : ℕ → Option Board → Option (ℕ × Board)
landed height none = none
landed height (some b) = some (height, b)

abbrev fallen : Board → Board
fallen b = redrawn 0 1 (mark_empty b)

fallen-piece : (b : Board) → (fallen b).active_piece ≡ shifted 0 1 b.active_piece
fallen-piece b = redrawn-piece 0 1 (mark_empty b) ∙ ap (shifted 0 1) (mark-pieces 0 b).0

marked : (b : Board) → (mark_own (mark_empty b)).active_piece ≡ b.active_piece
marked b = (mark-pieces _ (mark_empty b)).0 ∙ (mark-pieces 0 b).0

down_moves :
    (n : ℕ) (b : Board)
    → is_move_possible (mark_empty b) 0 1 ≡ true
    → move_piece_down n b ≡ some (true, fallen b)
unfolding move_piece_down
down_moves n b e = rw (move_piece_down, e) refl

drop_moves :
    (m n height : ℕ) (b : Board)
    → is_move_possible (mark_empty b) 0 1 ≡ true
    → drop_loop (suc m) n height b ≡ drop_loop m n (height + 1) (fallen b)
unfolding drop_loop
drop_moves m n height b e = rw (drop_loop, down_moves n b e) refl

drop_lands :
    (m n height : ℕ) (b : Board)
    → is_move_possible (mark_empty b) 0 1 ≡ false
    → drop_loop (suc m) n height b ≡ landed height (place_piece n (mark_own (mark_empty b)))
unfolding drop_loop move_piece_down
drop_lands m n height b e = elim (Option-cases (place_piece n (mark_own (mark_empty b)))) [
  | inl p ↦ rw (drop_loop, move_piece_down, e, p) refl
  | inr (q, p) ↦ rw (drop_loop, move_piece_down, e, p) refl
]

-- The piece is the same, `h` lines lower.
abbrev pub IsFall : ℕ → Board → Board → Type 0
IsFall h b b' =
    (body b'.active_piece ≡ body b.active_piece)
    × (b'.active_piece.pos.y % 2 ^ 32 ≡ (b.active_piece.pos.y + h) % 2 ^ 32)

-- The board when the piece has gone `k` lines down, drawn again at each.
abbrev pub falls : ℕ → Board → Board
falls zero b = b
falls (suc k) b = falls k (fallen b)

-- The line below is free for the piece, its own cells apart.
abbrev pub can_fall : Board → Bool
can_fall b = is_move_possible (mark_empty b) 0 1

-- The piece can go `h` lines down, and no further.
abbrev pub IsLowest : ℕ → Board → Type 0
IsLowest h b = ((k : ℕ) → k < h → can_fall (falls k b) ≡ true) × (can_fall (falls h b) ≡ false)

lower : (h : ℕ) (b : Board) → can_fall b ≡ true → IsLowest h (fallen b) → IsLowest (suc h) b
lower h b e (free, stop) = (λ (k : ℕ) (l : k < suc h). first k l, stop)
  where
    first : (k : ℕ) → k < suc h → can_fall (falls k b) ≡ true
    first zero l = e
    first (suc k) l = free k (omega arith)

drop_loop_lem :
    (m n height : ℕ) (b : Board)
    → IsWithin b.active_piece
    → has_cells (body b.active_piece) ≡ true
    → 22 ≤ m + first_y b.active_piece (body b.active_piece)
    → (h : ℕ) × (b' : Board) × (h ≤ m)
      × IsLowest h b
      × (b' ≡ mark_own (mark_empty (falls h b)))
      × IsFall h b b'
      × (drop_loop m n height b ≡ landed (height + h) (place_piece n b'))
drop_loop_lem zero n height b v c h =
    absurd (omega (arith, within_first b.active_piece (body b.active_piece) c v))
drop_loop_lem (suc m) n height b v c h = elim (Bool-cases (is_move_possible (mark_empty b) 0 1)) [
  | inl e ↦
      let p = fallen-piece b in
      let reached : IsWithin (shifted 0 1 b.active_piece) =
        ap (λ (p : Piece). cells_within (shifted 0 1 p) (body p)) (sym (mark-pieces 0 b).0)
        ∙ possible-IsWithin (mark_empty b) 0 1 e in
      let step = fall_first b.active_piece (body b.active_piece) c v in
      let (k, b', le, low_k, same, (bodies, low), run) =
        drop_loop_lem m n (height + 1) (fallen b) (rw p reached) (rw p c)
          (rw p (omega (arith, step))) in
      (
        suc k,
        b',
        omega arith,
        lower k b e low_k,
        same,
        (bodies ∙ ap body p, omega (arith, low, ap (λ (q : Piece). q.pos.y) p)),
        drop_moves m n height b e
            ∙ (run ∙ ap (λ (t : ℕ). landed t (place_piece n b')) (omega arith)),
      )
  | inr e ↦ (
    0,
    mark_own (mark_empty b),
    omega arith,
    (λ (k : ℕ) (l : k < 0). absurd (omega arith), e),
    refl,
    (ap body (marked b), omega (arith, ap (λ (q : Piece). q.pos.y) (marked b))),
    drop_lands m n height b e
        ∙ ap (λ (t : ℕ). landed t (place_piece n (mark_own (mark_empty b)))) (omega arith),
  )
]

-- The board with the bonus for a fall of `height` lines.
abbrev pub with_bonus : ℕ → Option Board → Option Board
with_bonus height none = none
with_bonus height (some b) = some (record b { score = b.score + 2 * height })

bonus :
    (m n h : ℕ) (b b' : Board)
    → drop_loop m n 0 b ≡ landed (0 + h) (place_piece n b')
    → drop_piece m n b ≡ with_bonus h (place_piece n b')
unfolding drop_piece
bonus m n h b b' e = elim (Option-cases (place_piece n b')) [
  | inl p ↦ rw (drop_piece, e, p) refl
  | inr (q, p) ↦
      rw (drop_piece, e, p)
        (ap (λ (k : ℕ). some (record q { score = q.score + 2 * k })) (omega arith))
]

-- Dropping a piece that is on the board ends within 22 passes: the piece goes down line by line, at
-- most 22, while the line below is free for it and no further; the same piece is placed there, on the
-- board where its own cells are marked again, and the score has twice the height of the fall more
-- than the placing gives.
pub drop_piece_lem :
    (n : ℕ) (b : Board)
    → IsWithin b.active_piece
    → has_cells (body b.active_piece) ≡ true
    → (h : ℕ) × (b' : Board) × (h ≤ 22)
      × IsLowest h b
      × (b' ≡ mark_own (mark_empty (falls h b)))
      × IsFall h b b'
      × (drop_piece 22 n b ≡ with_bonus h (place_piece n b'))
drop_piece_lem n b v c =
    let (h, b', le, low, same, fall, run) = drop_loop_lem 22 n 0 b v c (omega arith) in
    (h, b', le, low, same, fall, bonus 22 n h b b' run)
