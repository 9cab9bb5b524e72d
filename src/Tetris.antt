-- ===== src/Tetris.antt =====
-- The Tetris game of the boot menu, QSD8250Pkg/Application/TetrisApp.
pub mod Piece
pub mod Board
pub mod Moves
pub mod Core
mod Tests
