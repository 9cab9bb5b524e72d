-- ===== src/Tetris/Piece/Turns.antt =====
-- Turning a piece back.
use htc_leo_pkg.Prelude.{ℕ, ◌<◌, ◌≡◌, ap, arith}
use htc_leo_pkg.Tetris.Piece.{Piece, rotate_cw, rotate_ccw}

pub ccw-cw : (p : Piece) → p.rotation < 4 → rotate_ccw (rotate_cw p) ≡ p
unfolding rotate_ccw rotate_cw
ccw-cw p h = ap (λ (r : ℕ). record p { rotation = r }) (ground arith)
