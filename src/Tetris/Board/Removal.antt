-- ===== src/Tetris/Board/Removal.antt =====
-- What removing the full lines leaves of the board.
use htc_leo_pkg.Prelude.{
  ℕ, zero, suc, ◌+◌, ◌-◌, ◌*◌, ◌^◌, ◌<◌, ◌≤◌, ◌≡◌, refl, ap, ap₂, sym, ◌∙◌, arith, List, [], ◌∷◌,
  ◌++◌, some, Bool, true, false, ◌==◌, ltb, if◌then◌else◌, get_or, set, length, replicate, All,
  Bool-cases, inl, inr, append_assoc, length-append,
}
use htc_leo_pkg.Tetris.Board.{
  Board, board_width, black_line, line_is_full, copy_line, shift_lines, remove_lines, finish,
  check_and_remove_lines,
}
use htc_leo_pkg.Tetris.Board.Lines.{
  rev_onto, rows_of, copy_cells, get_or-rev_onto_head, set-rev_onto_head, copy_cells_lem,
  copy_line_lem, copy_line_invisible, black_line_lem,
}

abbrev pub Wide : List ℕ → Type 0
Wide row = length row ≡ board_width

copy_whole :
    (j : ℕ) (fields : List (List ℕ)) (source row : List ℕ)
    → 1 < j
    → j < 2 ^ 31
    → j < length fields
    → get_or fields (j - 1) [] ≡ source
    → get_or fields j [] ≡ row
    → Wide source
    → Wide row
    → copy_line board_width 0 j fields ≡ set fields j source
copy_whole j fields source row h w len above here sw rw' =
    let cells = copy_cells_lem [] source row (sw ∙ sym rw') in
    copy_line_lem board_width 0 j fields h w len
    ∙ (ap₂ (λ (a b : List ℕ). set fields j (copy_cells board_width 0 a b)) above here
        ∙ ap (set fields j) (ap (λ (n : ℕ). copy_cells n 0 source row) (sym rw') ∙ cells))

length-rev_onto : {A : Type 0} (xs ys : List A) → length (rev_onto xs ys) ≡ length xs + length ys
length-rev_onto [] ys = omega arith
length-rev_onto (x ∷ xs) ys = omega (arith, length-rev_onto xs (x ∷ ys))

-- Moving down everything above a line puts the second invisible row on top of the visible ones.
shift_lines_lem :
    (r₀ r₁ row : List ℕ) (upper lower : List (List ℕ))
    → Wide r₁
    → Wide row
    → All Wide upper
    → length upper < 20
    → shift_lines (suc (suc (length upper))) (rows_of r₀ r₁ (row ∷ upper) lower)
      ≡ rows_of r₀ r₁ (upper ++ (r₁ ∷ [])) lower
unfolding shift_lines
shift_lines_lem r₀ r₁ row [] lower w₁ w ws n =
    ap (shift_lines 1) (
      copy_whole 2 (rows_of r₀ r₁ (row ∷ []) lower) r₁ row (omega arith) (omega arith) (omega arith)
        refl refl w₁ w)
    ∙ copy_line_invisible board_width 0 (r₀ ∷ r₁ ∷ r₁ ∷ lower)
shift_lines_lem r₀ r₁ row (x ∷ upper) lower w₁ w ws n =
    let fields = rows_of r₀ r₁ (row ∷ x ∷ upper) lower in
    let j = suc (suc (suc (length upper))) in
    let copied =
      copy_whole j fields x row (omega arith) (omega arith)
        (omega (arith, length-rev_onto upper (x ∷ row ∷ lower)))
        (ap (λ (n : ℕ). get_or fields n []) {y = suc (suc (length upper))} (omega arith)
          ∙ get_or-rev_onto_head upper (row ∷ lower) x [])
        (get_or-rev_onto_head (x ∷ upper) lower row []) ws.0 w in
    let stored =
      ap (λ (l : List (List ℕ)). r₀ ∷ r₁ ∷ l) (set-rev_onto_head (x ∷ upper) lower row x) in
    ap (shift_lines (suc (suc (length upper)))) (copied ∙ stored)
    ∙ shift_lines_lem r₀ r₁ x upper (x ∷ lower) w₁ ws.0 ws.1 (omega arith)

abbrev pub is_full : List ℕ → Bool
is_full row = line_is_full board_width 0 row

abbrev pub fulls : List (List ℕ) → ℕ
fulls [] = 0
fulls (row ∷ rows) = if is_full row then suc (fulls rows) else fulls rows

abbrev pub kept : List (List ℕ) → List (List ℕ)
kept [] = []
kept (row ∷ rows) = if is_full row then kept rows else row ∷ kept rows

fulls-append :
    (rows : List (List ℕ)) (r : List ℕ) → is_full r ≡ false → fulls (rows ++ (r ∷ [])) ≡ fulls rows
fulls-append [] r e = ground arith
fulls-append (row ∷ rows) r e = ground (arith, fulls-append rows r e)

kept-append :
    (rows : List (List ℕ)) (r : List ℕ)
    → is_full r ≡ false
    → kept (rows ++ (r ∷ [])) ≡ kept rows ++ (r ∷ [])
kept-append [] r e = rw e refl
kept-append (row ∷ rows) r e = elim (Bool-cases (is_full row)) [
  | inl f ↦ rw f (kept-append rows r e)
  | inr f ↦ rw f (ap (row ∷◌) (kept-append rows r e))
]

All-append :
    (rows : List (List ℕ)) (r : List ℕ) → All Wide rows → Wide r → All Wide (rows ++ (r ∷ []))
All-append [] r ws w = (w, tt)
All-append (row ∷ rows) r ws w = (ws.0, All-append rows r ws.1 w)

-- The three ways that one pass goes.
pass_end :
    (n counter : ℕ) (fields : List (List ℕ))
    → remove_lines (suc n) 1 counter fields ≡ some (counter, fields)
unfolding remove_lines
pass_end n counter fields = refl

pass_kept :
    (n i counter : ℕ) (fields : List (List ℕ))
    → ltb i 2 ≡ false
    → is_full (get_or fields i []) ≡ false
    → remove_lines (suc n) i counter fields ≡ remove_lines n (i - 1) counter fields
unfolding remove_lines
pass_kept n i counter fields e f = rw (remove_lines, e, f) refl

pass_full :
    (n i counter : ℕ) (fields : List (List ℕ))
    → ltb i 2 ≡ false
    → is_full (get_or fields i []) ≡ true
    → remove_lines (suc n) i counter fields
      ≡ remove_lines n i (suc counter) (shift_lines i (black_line board_width 0 i fields))
unfolding remove_lines
pass_full n i counter fields e f = rw (remove_lines, e, f) refl

-- Blackening the lowest line of the upper part and moving the rest down.
drop_full :
    (r₀ r₁ row : List ℕ) (upper lower : List (List ℕ))
    → Wide r₁
    → All Wide (row ∷ upper)
    → length upper < 20
    → let i = suc (suc (length upper)) in
      shift_lines i (black_line board_width 0 i (rows_of r₀ r₁ (row ∷ upper) lower))
      ≡ rows_of r₀ r₁ (upper ++ (r₁ ∷ [])) lower
drop_full r₀ r₁ row upper lower w₁ (w, ws) n =
    let i = suc (suc (length upper)) in
    let fields = rows_of r₀ r₁ (row ∷ upper) lower in
    let (row', len, e) =
      black_line_lem board_width 0 i fields (omega arith) (omega arith)
        (omega (arith, length-rev_onto upper (row ∷ lower))) in
    let here = get_or-rev_onto_head upper lower row [] in
    let stored = ap (λ (l : List (List ℕ)). r₀ ∷ r₁ ∷ l) (set-rev_onto_head upper lower row row') in
    ap (shift_lines i) (e ∙ stored)
    ∙ shift_lines_lem r₀ r₁ row' upper lower w₁ (len ∙ (ap (length {A = ℕ}) here ∙ w)) ws n

remove_lines_lem :
    (n counter : ℕ) (r₀ r₁ : List ℕ) (upper lower : List (List ℕ))
    → Wide r₁
    → is_full r₁ ≡ false
    → All Wide upper
    → length upper < 21
    → length upper + fulls upper < n
    → remove_lines n (suc (length upper)) counter (rows_of r₀ r₁ upper lower)
      ≡ some (counter + fulls upper, rows_of r₀ r₁ (kept upper ++ replicate (fulls upper) r₁) lower)
remove_lines_lem zero counter r₀ r₁ upper lower w₁ o ws len h = absurd (omega arith)
remove_lines_lem (suc n) counter r₀ r₁ [] lower w₁ o ws len h =
    pass_end n counter (r₀ ∷ r₁ ∷ lower) ∙ ap (λ (c : ℕ). some (c, r₀ ∷ r₁ ∷ lower)) (omega arith)
remove_lines_lem (suc n) counter r₀ r₁ (row ∷ upper) lower w₁ o ws len h =
    let fields = rows_of r₀ r₁ (row ∷ upper) lower in
    let i = suc (suc (length upper)) in
    let here = ap is_full (get_or-rev_onto_head upper lower row []) in
    elim (Bool-cases (is_full row)) [
      | inl f ↦
          let up = upper ++ (r₁ ∷ []) in
          let same = fulls-append upper r₁ o in
          let size : length up ≡ suc (length upper) =
            omega (arith, length-append upper (r₁ ∷ [])) in
          let k : suc (fulls upper) ≡ fulls (row ∷ upper) = ground arith in
          let count : suc counter + fulls up ≡ counter + fulls (row ∷ upper) =
            omega (arith, k, same) in
          let final : kept (row ∷ upper) ++ replicate (fulls (row ∷ upper)) r₁
              ≡ kept upper ++ (r₁ ∷ replicate (fulls upper) r₁) =
            rw f refl in
          let list =
            ap₂ (λ (a : List (List ℕ)) (b : ℕ). a ++ replicate b r₁) (kept-append upper r₁ o) same
            ∙ append_assoc (kept upper) (r₁ ∷ []) (replicate (fulls upper) r₁) in
          let rest =
            remove_lines_lem n (suc counter) r₀ r₁ up lower w₁ o (All-append upper r₁ ws.1 w₁)
              (omega arith) (omega arith) in
          pass_full n i counter fields (ground arith) (here ∙ f)
          ∙ (ap (remove_lines n i (suc counter))
                (drop_full r₀ r₁ row upper lower w₁ ws (omega arith))
              ∙ (ap (λ (j : ℕ). remove_lines n (suc j) (suc counter) (rows_of r₀ r₁ up lower))
                    (sym size)
                  ∙ (rest
                      ∙ ap₂ (λ (c : ℕ) (l : List (List ℕ)). some (c, rows_of r₀ r₁ l lower)) count
                          (list ∙ sym final))))
      | inr f ↦
          let rest =
            remove_lines_lem n counter r₀ r₁ upper (row ∷ lower) w₁ o ws.1 (omega arith)
              (ground arith) in
          pass_kept n i counter fields (ground arith) (here ∙ f)
          ∙ (ap (λ (j : ℕ). remove_lines n j counter fields) (omega arith) ∙ (rest ∙ rw f refl))
    ]

fulls-length : (rows : List (List ℕ)) → fulls rows ≤ length rows
fulls-length [] = omega arith
fulls-length (row ∷ rows) = ground (arith, fulls-length rows)

finish_lem :
    (n : ℕ) (b : Board) (c : ℕ) (fields : List (List ℕ))
    → remove_lines n 21 0 b.fields ≡ some (c, fields)
    → check_and_remove_lines n b
      ≡ some (record b {
        fields = fields;
        lines = b.lines + c;
        score = if c == 0 then b.score else b.score + 100 * 2 ^ (c - 1) + 50 * b.level;
      })
unfolding check_and_remove_lines
finish_lem n b c fields e = ap (finish b) e

-- From 22 rows of 10 fields, the visible ones listed from below, the second invisible row not full:
-- the loops end within 41 passes. Of the visible rows those that are not full stay in their order,
-- moved down; copies of the second invisible row fill up from above; the line count rises by the
-- number of full rows, and the score by 100 doubled for each of them after the first, and by 50
-- times the level, if there is one.
pub check_and_remove_lines_lem :
    (b : Board) (r₀ r₁ : List ℕ) (visible : List (List ℕ))
    → b.fields ≡ r₀ ∷ r₁ ∷ rev_onto visible []
    → length visible ≡ 20
    → Wide r₁
    → All Wide visible
    → is_full r₁ ≡ false
    → let c = fulls visible in
      check_and_remove_lines 41 b
      ≡ some (record b {
        fields = r₀ ∷ r₁ ∷ rev_onto (kept visible ++ replicate c r₁) [];
        lines = b.lines + c;
        score = if c == 0 then b.score else b.score + 100 * 2 ^ (c - 1) + 50 * b.level;
      })
check_and_remove_lines_lem b r₀ r₁ visible e len w₁ ws o =
    finish_lem 41 b (fulls visible)
      (rows_of r₀ r₁ (kept visible ++ replicate (fulls visible) r₁) [])
      (ap₂ (λ (n : ℕ) (f : List (List ℕ)). remove_lines 41 n 0 f) {x = 21} (omega arith) e
        ∙ (remove_lines_lem 41 0 r₀ r₁ visible [] w₁ o ws (omega arith)
              (omega (arith, fulls-length visible))
            ∙ ap
                (λ (c : ℕ).
                  some (c, rows_of r₀ r₁ (kept visible ++ replicate (fulls visible) r₁) []))
                {y = fulls visible} (omega arith)))
