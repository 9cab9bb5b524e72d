-- ===== src/Tetris/Core/Level.antt =====
-- The level never rises, and time passes only while the game runs.
use htc_leo_pkg.Prelude.{
  ℕ, ◌≡◌, refl, ap, Option, none, some, Bool, true, false, not, ◌&&◌, ◌||◌, ◌==◌, if◌then◌else◌,
  if-elim,
}
use mathlib.Core.Path.{subst}
use htc_leo_pkg.Keypad.Console.{InputKey}
use htc_leo_pkg.Tetris.Board.{Board}
use htc_leo_pkg.Tetris.Board.Level.{HasLevel}
use htc_leo_pkg.Tetris.Moves.{move_piece_down, drop_piece}
use htc_leo_pkg.Tetris.Moves.Level.{
  StepLevel, aside_moves-level, rotate_piece-level, move_piece_down-StepLevel, drop_piece-HasLevel,
}
use htc_leo_pkg.Tetris.Core.{
  Core, is_running, is_paused, is_waiting, reset_tick_counter, toggle_pause, start_game, game_over,
  with_board, step_down, when_running, reset_after, on_key, handle_input, draw_window,
}

-- The level of a result, if there is one.
abbrev pub AtLevel : ℕ → Option Core → Type 0
AtLevel l none = Unit
AtLevel l (some c) = c.board.level ≡ l

reset-AtLevel : (l : ℕ) (r : Option Core) → AtLevel l r → AtLevel l (reset_after r)
unfolding reset_tick_counter
reset-AtLevel l none h = tt
reset-AtLevel l (some c) h = h

board-AtLevel : (l : ℕ) (c : Core) (r : Option Board) → HasLevel l r → AtLevel l (with_board c r)
board-AtLevel l c none h = tt
board-AtLevel l c (some b) h = h

step-AtLevel :
    (l : ℕ) (always : Bool) (c : Core) (r : Option (Bool × Board))
    → StepLevel l r
    → AtLevel l (step_down always c r)
unfolding reset_tick_counter
step-AtLevel l always c none h = tt
step-AtLevel l always c (some (moved, b)) h =
    if-elim (λ (t : Core). t.board.level ≡ l) (always || not moved) (λ e. h) (λ e. h)

running-AtLevel :
    (c : Core) (r : Option Core)
    → AtLevel c.board.level r
    → AtLevel c.board.level (when_running c r)
running-AtLevel c r h =
    if-elim (AtLevel c.board.level) (is_running c.game_state) (λ e. h) (λ e. refl)

on_key-AtLevel : (m n : ℕ) (key : InputKey) (c : Core) → AtLevel c.board.level (on_key m n key c)
unfolding toggle_pause
on_key-AtLevel m n key c =
    let l = c.board.level in
    let b = c.board in
    if-elim (AtLevel l) (key.scan_code == 5)
      (λ e.
        running-AtLevel c _
          (reset-AtLevel l _ (board-AtLevel l c (drop_piece m n b) (drop_piece-HasLevel m n b))))
      (λ e.
        if-elim (AtLevel l) (key.scan_code == 1) (λ e. running-AtLevel c _ (aside_moves-level b).0)
          (λ e.
            if-elim (AtLevel l) (key.scan_code == 2)
              (λ e. running-AtLevel c _ (aside_moves-level b).1)
              (λ e.
                if-elim (AtLevel l) (key.scan_code == 23) (λ e. refl)
                  (λ e.
                    if-elim (AtLevel l) (key.unicode_char == 13)
                      (λ e.
                        running-AtLevel c _
                          (step-AtLevel l false c _ (move_piece_down-StepLevel n b)))
                      (λ e.
                        if-elim (AtLevel l) (key.unicode_char == 9)
                          (λ e. running-AtLevel c _ (rotate_piece-level b))
                          (λ e.
                            if-elim (AtLevel l) (key.unicode_char == 8)
                              (λ e.
                                if-elim (λ (t : Core). t.board.level ≡ l)
                                  (is_running c.game_state || is_paused c.game_state) (λ e. refl)
                                  (λ e. refl))
                              (λ e. refl)))))))

redraw-AtLevel : (n : ℕ) (c : Core) → AtLevel c.board.level (draw_window n c)
unfolding draw_window game_over
redraw-AtLevel n c =
    let c' = if is_running c.game_state && c.board.blocked then game_over c else c in
    let same : c'.board ≡ c.board =
      if-elim (λ (t : Core). t.board ≡ c.board) (is_running c.game_state && c.board.blocked)
        (λ e. refl) (λ e. refl) in
    let level = ap (λ (b : Board). b.level) same in
    if-elim (AtLevel c.board.level) (c'.tick_counter == 0)
      (λ e. step-AtLevel c.board.level true c' (move_piece_down n c'.board) (
        subst (λ (l : ℕ). StepLevel l (move_piece_down n c'.board)) level
          (move_piece_down-StepLevel n c'.board)))
      (λ e. level)

-- Neither a key nor a redraw ever changes the level, whatever the state of the game and however many
-- lines were removed, so that the game stays at the level it was started with.
pub level_fixed :
    (m n : ℕ) (key : Option InputKey) (c : Core)
    → AtLevel c.board.level (handle_input m n key c) × AtLevel c.board.level (draw_window n c)
unfolding handle_input start_game
level_fixed m n none c = (refl, redraw-AtLevel n c)
level_fixed m n (some key) c = (
  if-elim (AtLevel c.board.level) (is_waiting c.game_state) (λ e. refl)
      (λ e. on_key-AtLevel m n key c),
  redraw-AtLevel n c,
)
