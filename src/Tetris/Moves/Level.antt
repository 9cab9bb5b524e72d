-- ===== src/Tetris/Moves/Level.antt =====
-- No move changes the level.
use htc_leo_pkg.Prelude.{
  ℕ, zero, suc, ◌+◌, ◌*◌, ◌≡◌, refl, ◌∙◌, Option, none, some, Bool, true, false, not, if◌then◌else◌,
  if-elim,
}
use htc_leo_pkg.Tetris.Piece.{rotate_cw, rotate_ccw}
use htc_leo_pkg.Tetris.Board.{Board, is_move_possible, place_piece}
use htc_leo_pkg.Tetris.Board.Level.{HasLevel, mark-level, draw-level, place-HasLevel}
use htc_leo_pkg.Tetris.Moves.{
  rotate_piece, move_piece_left, move_piece_right, move_piece_down, drop_loop, drop_piece, redrawn,
  mark_empty, mark_own, draw_black, turn, shifted, move_aside,
}

redrawn-level : (dx dy : ℕ) (b : Board) → (redrawn dx dy b).level ≡ b.level
redrawn-level dx dy b = draw-level _ (turn (shifted dx dy) (draw_black b)) ∙ draw-level 0 b

aside-level : (dx : ℕ) (b : Board) → (move_aside dx b).level ≡ b.level
aside-level dx b =
    let b' = mark_empty b in
    let after = if is_move_possible b' dx 0 then redrawn dx 0 b' else b' in
    mark-level after.active_piece.color after
    ∙ (if-elim (λ (t : Board). t.level ≡ b'.level) (is_move_possible b' dx 0)
          (λ e. redrawn-level dx 0 b') (λ e. refl)
        ∙ mark-level 0 b)

pub aside_moves-level :
    (b : Board) → (move_piece_left b).level ≡ b.level × (move_piece_right b).level ≡ b.level
unfolding move_piece_left move_piece_right
aside_moves-level b = (aside-level _ b, aside-level 1 b)

pub rotate_piece-level : (b : Board) → (rotate_piece b).level ≡ b.level
unfolding rotate_piece
rotate_piece-level b =
    let turned = turn rotate_cw (mark_empty b) in
    let back = turn rotate_ccw turned in
    let drawn = turn rotate_cw (draw_black back) in
    if-elim (λ (t : Board). t.level ≡ b.level) (not (is_move_possible turned 0 0))
      (λ e. mark-level back.active_piece.color back ∙ mark-level 0 b)
      (λ e. draw-level drawn.active_piece.color drawn ∙ (draw-level 0 back ∙ mark-level 0 b))

-- The level of what a step down gives.
abbrev pub StepLevel : ℕ → Option (Bool × Board) → Type 0
StepLevel l none = Unit
StepLevel l (some r) = r.1.level ≡ l

pub move_piece_down-StepLevel : (n : ℕ) (b : Board) → StepLevel b.level (move_piece_down n b)
unfolding move_piece_down
move_piece_down-StepLevel n b =
    let b' = mark_empty b in
    let own = mark-level b'.active_piece.color b' ∙ mark-level 0 b in
    if-elim (StepLevel b.level) (is_move_possible b' 0 1)
      (λ e. redrawn-level 0 1 b' ∙ mark-level 0 b)
      (λ e. go (place_piece n (mark_own b')) own (place-HasLevel n (mark_own b')))
  where
    go :
        {l k : ℕ} (r : Option Board)
        → k ≡ l
        → HasLevel k r
        → StepLevel l (elim r [ none ↦ none | some placed ↦ some (false, placed) ])
    go none e h = tt
    go (some q) e h = h ∙ e

abbrev LoopLevel : ℕ → Option (ℕ × Board) → Type 0
LoopLevel l none = Unit
LoopLevel l (some r) = r.1.level ≡ l

drop_loop-LoopLevel :
    (m n height l : ℕ) (b : Board) → b.level ≡ l → LoopLevel l (drop_loop m n height b)
unfolding drop_loop
drop_loop-LoopLevel zero n height l b h = tt
drop_loop-LoopLevel (suc m) n height l b h =
    go (move_piece_down n b) (λ b' e. drop_loop-LoopLevel m n (height + 1) l b' e)
      (move_piece_down-StepLevel n b)
  where
    go :
        (r : Option (Bool × Board))
        → ((b' : Board) → b'.level ≡ l → LoopLevel l (drop_loop m n (height + 1) b'))
        → StepLevel b.level r
        → LoopLevel l (elim r [
          | none ↦ none
          | some (moved, b') ↦
              let rest = drop_loop m n (height + 1) b' in if moved then rest else some (height, b')
        ])
    go none rest s = tt
    go (some (true, b')) rest s = rest b' (s ∙ h)
    go (some (false, b')) rest s = s ∙ h

pub drop_piece-HasLevel : (m n : ℕ) (b : Board) → HasLevel b.level (drop_piece m n b)
unfolding drop_piece
drop_piece-HasLevel m n b = go (drop_loop m n 0 b) (drop_loop-LoopLevel m n 0 b.level b refl)
  where
    go :
        (r : Option (ℕ × Board))
        → LoopLevel b.level r
        → HasLevel b.level (elim r [
          | none ↦ none
          | some (height, b') ↦ some (record b' { score = b'.score + 2 * height })
        ])
    go none h = tt
    go (some r) h = h
