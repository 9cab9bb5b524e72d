-- ===== src/Tetris/Piece.antt =====
-- Pieces, QSD8250Pkg/Application/TetrisApp/Piece.c and Piece.h. An int is a number modulo 2 ^ 32.
use htc_leo_pkg.Prelude.{ℕ, ◌+◌, ◌-◌, ◌*◌, ◌%◌, ◌^◌, List, [], ◌∷◌, ◌==◌, if◌then◌else◌, get_or}
pub mod Turns

pub record Point : Type 0 where
  pub x : ℕ
  pub y : ℕ

abbrev pub add32 : ℕ → ℕ → ℕ
add32 a b = (a + b) % 2 ^ 32

-- `body` is the list of bodies at `rotation`, where the source keeps a pointer to it.
pub record Piece : Type 0 where
  pub bodies : List (List Point)
  pub rotation : ℕ
  pub color : ℕ
  pub pos : Point

abbrev pub body : Piece → List Point
body p = get_or p.bodies p.rotation []

abbrev at : ℕ → ℕ → Point
at x y = record { x = x; y = y }

-- TETRIMINO_I_BODY and its like, with the colours of the UEFI specification.
abbrev four : Point → Point → Point → Point → List Point
four a b c d = a ∷ b ∷ c ∷ d ∷ []

abbrev tetrimino_i : List (List Point)
tetrimino_i =
    four (at 0 1) (at 1 1) (at 2 1) (at 3 1)
    ∷ four (at 2 0) (at 2 1) (at 2 2) (at 2 3)
    ∷ four (at 0 2) (at 1 2) (at 2 2) (at 3 2)
    ∷ four (at 1 0) (at 1 1) (at 1 2) (at 1 3)
    ∷ []

abbrev tetrimino_j : List (List Point)
tetrimino_j =
    four (at 0 0) (at 0 1) (at 1 1) (at 2 1)
    ∷ four (at 1 2) (at 1 1) (at 1 0) (at 2 0)
    ∷ four (at 0 1) (at 1 1) (at 2 1) (at 2 2)
    ∷ four (at 0 2) (at 1 2) (at 1 1) (at 1 0)
    ∷ []

abbrev tetrimino_l : List (List Point)
tetrimino_l =
    four (at 0 1) (at 1 1) (at 2 1) (at 2 0)
    ∷ four (at 1 2) (at 1 1) (at 1 0) (at 2 2)
    ∷ four (at 0 1) (at 1 1) (at 2 1) (at 0 2)
    ∷ four (at 0 0) (at 1 2) (at 1 1) (at 1 0)
    ∷ []

abbrev tetrimino_o : List (List Point)
tetrimino_o =
    four (at 1 0) (at 1 1) (at 2 0) (at 2 1)
    ∷ four (at 1 0) (at 1 1) (at 2 0) (at 2 1)
    ∷ four (at 1 0) (at 1 1) (at 2 0) (at 2 1)
    ∷ four (at 1 0) (at 1 1) (at 2 0) (at 2 1)
    ∷ []

abbrev tetrimino_s : List (List Point)
tetrimino_s =
    four (at 0 1) (at 1 1) (at 1 0) (at 2 0)
    ∷ four (at 1 0) (at 1 1) (at 2 1) (at 2 2)
    ∷ four (at 0 2) (at 1 2) (at 1 1) (at 2 1)
    ∷ four (at 0 0) (at 0 1) (at 1 1) (at 1 2)
    ∷ []

abbrev tetrimino_t : List (List Point)
tetrimino_t =
    four (at 0 1) (at 1 1) (at 2 1) (at 1 0)
    ∷ four (at 1 0) (at 1 1) (at 1 2) (at 2 1)
    ∷ four (at 0 1) (at 1 1) (at 2 1) (at 1 2)
    ∷ four (at 1 0) (at 1 1) (at 1 2) (at 0 1)
    ∷ []

abbrev tetrimino_z : List (List Point)
tetrimino_z =
    four (at 2 1) (at 1 1) (at 1 0) (at 0 0)
    ∷ four (at 1 2) (at 1 1) (at 2 1) (at 2 0)
    ∷ four (at 2 2) (at 1 2) (at 1 1) (at 0 1)
    ∷ four (at 0 2) (at 0 1) (at 1 1) (at 1 0)
    ∷ []

-- The step of the generator once it has its seed: unsigned arithmetic, and `1 << 31` as an unsigned
-- modulus.
abbrev pub rand : ℕ → ℕ
rand previous_value = (69069 * previous_value + 1) % 2 ^ 32 % 2 ^ 31

abbrev shape : ℕ → List (List Point) × ℕ
shape n =
    if n == 0
    then (tetrimino_i, 11)
    else if n == 1
    then (tetrimino_j, 9)
    else if n == 2
    then (tetrimino_l, 2)
    else if n == 3
    then (tetrimino_o, 14)
    else if n == 4
    then (tetrimino_s, 10)
    else if n == 5
    then (tetrimino_t, 5)
    else (tetrimino_z, 13)

-- The piece, with the generator's value given.
pub randomize : ℕ → Piece → Piece
randomize value p =
    let (bodies, color) = shape (value % 7) in
    record p { bodies = bodies; color = color; rotation = 0 }

pub rotate_cw : Piece → Piece
rotate_cw p = record p { rotation = (p.rotation + 1) % 4 }

pub rotate_ccw : Piece → Piece
rotate_ccw p = record p { rotation = if p.rotation == 0 then 3 else p.rotation - 1 }
