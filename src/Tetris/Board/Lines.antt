-- ===== src/Tetris/Board/Lines.antt =====
-- Copying and blackening a line of the board, as writes of whole rows.
use htc_leo_pkg.Prelude.{
  ℕ, zero, suc, ◌+◌, ◌-◌, ◌^◌, ◌<◌, ◌≡◌, refl, ap, ap₂, sym, ◌∙◌, arith, List, [], ◌∷◌, get_or, set,
  length, length-set, get_or-set_self, get_or-set_ne,
}
use htc_leo_pkg.Tetris.Board.{put_field, field_at, redraw_field, black_line, copy_line}

-- The first list back to front, before the second.
abbrev pub rev_onto : {A : Type 0} → List A → List A → List A
rev_onto [] ys = ys
rev_onto (x ∷ xs) ys = rev_onto xs (x ∷ ys)

get_or-rev_onto :
    {A : Type 0} (xs ys : List A) (k : ℕ) (d : A)
    → get_or (rev_onto xs ys) (length xs + k) d ≡ get_or ys k d
get_or-rev_onto [] ys k d = ap (λ (n : ℕ). get_or ys n d) (omega arith)
get_or-rev_onto (x ∷ xs) ys k d =
    ap (λ (n : ℕ). get_or (rev_onto xs (x ∷ ys)) n d) (omega arith)
    ∙ get_or-rev_onto xs (x ∷ ys) (suc k) d

pub set-rev_onto :
    {A : Type 0} (xs ys : List A) (k : ℕ) (v : A)
    → set (rev_onto xs ys) (length xs + k) v ≡ rev_onto xs (set ys k v)
set-rev_onto [] ys k v = ap (λ (n : ℕ). set ys n v) (omega arith)
set-rev_onto (x ∷ xs) ys k v =
    ap (λ (n : ℕ). set (rev_onto xs (x ∷ ys)) n v) (omega arith)
    ∙ set-rev_onto xs (x ∷ ys) (suc k) v

pub get_or-rev_onto_head :
    {A : Type 0} (xs ys : List A) (y d : A) → get_or (rev_onto xs (y ∷ ys)) (length xs) d ≡ y
get_or-rev_onto_head xs ys y d =
    ap (λ (n : ℕ). get_or (rev_onto xs (y ∷ ys)) n d) (omega arith)
    ∙ get_or-rev_onto xs (y ∷ ys) 0 d

pub set-rev_onto_head :
    {A : Type 0} (xs ys : List A) (y v : A)
    → set (rev_onto xs (y ∷ ys)) (length xs) v ≡ rev_onto xs (v ∷ ys)
set-rev_onto_head xs ys y v =
    ap (λ (n : ℕ). set (rev_onto xs (y ∷ ys)) n v) (omega arith) ∙ set-rev_onto xs (y ∷ ys) 0 v

set-get_or : {A : Type 0} (xs : List A) (i : ℕ) (d : A) → set xs i (get_or xs i d) ≡ xs
set-get_or [] i d = refl
set-get_or (x ∷ xs) zero d = refl
set-get_or (x ∷ xs) (suc i) d = ap (x ∷◌) (set-get_or xs i d)

set-set : {A : Type 0} (xs : List A) (i : ℕ) (v w : A) → set (set xs i v) i w ≡ set xs i w
set-set [] i v w = refl
set-set (x ∷ xs) zero v w = refl
set-set (x ∷ xs) (suc i) v w = ap (x ∷◌) (set-set xs i v w)

-- The rows: two invisible ones, the upper part from below, and the lower part.
abbrev pub rows_of : List ℕ → List ℕ → List (List ℕ) → List (List ℕ) → List (List ℕ)
rows_of r₀ r₁ upper lower = r₀ ∷ r₁ ∷ rev_onto upper lower

-- Copying the cells of `source` one by one over a row of its length.
abbrev pub copy_cells : ℕ → ℕ → List ℕ → List ℕ → List ℕ
copy_cells zero k source row = row
copy_cells (suc left) k source row = copy_cells left (k + 1) source (set row k (get_or source k 0))

pub copy_cells_lem :
    (done source row : List ℕ)
    → length source ≡ length row
    → copy_cells (length row) (length done) (rev_onto done source) (rev_onto done row)
      ≡ rev_onto done source
copy_cells_lem done [] [] e = refl
copy_cells_lem done [] (x ∷ row) e = absurd (omega arith)
copy_cells_lem done (y ∷ source) [] e = absurd (omega arith)
copy_cells_lem done (y ∷ source) (x ∷ row) e =
    let cell = get_or-rev_onto_head done source y 0 in
    let stored =
      ap (λ (v : ℕ). set (rev_onto done (x ∷ row)) (length done) v) cell
      ∙ set-rev_onto_head done row x y in
    ap₂ (λ (n : ℕ) (r : List ℕ). copy_cells (length row) n (rev_onto done (y ∷ source)) r)
      {y = suc (length done)} (omega arith) stored
    ∙ copy_cells_lem (y ∷ done) source row (omega arith)

-- A visible line is drawn by storing its row.
redraw_visible :
    (x y color : ℕ) (fields : List (List ℕ))
    → 1 < y
    → y < 2 ^ 31
    → redraw_field x y color fields ≡ put_field fields y x color
redraw_visible x y color fields h k = ground arith

pub copy_line_lem :
    (left k j : ℕ) (fields : List (List ℕ))
    → 1 < j
    → j < 2 ^ 31
    → j < length fields
    → copy_line left k j fields
      ≡ set fields j (copy_cells left k (get_or fields (j - 1) []) (get_or fields j []))
unfolding copy_line
copy_line_lem zero k j fields h w len = sym (set-get_or fields j [])
copy_line_lem (suc left) k j fields h w len =
    let row' = set (get_or fields j []) k (field_at fields (j - 1) k) in
    let above = get_or-set_ne fields j (j - 1) row' [] (omega arith) in
    let here = get_or-set_self fields j row' [] len in
    ap (copy_line left (k + 1) j) (redraw_visible k j (field_at fields (j - 1) k) fields h w)
    ∙ (copy_line_lem left (k + 1) j (set fields j row') h w
          (omega (arith, length-set fields j row'))
        ∙ (set-set fields j row' _
            ∙ ap₂ (λ (a b : List ℕ). set fields j (copy_cells left (k + 1) a b)) above here))

-- The lines that are not drawn stay.
pub copy_line_invisible : (left k : ℕ) (fields : List (List ℕ)) → copy_line left k 1 fields ≡ fields
unfolding copy_line
copy_line_invisible zero k fields = refl
copy_line_invisible (suc left) k fields = copy_line_invisible left (k + 1) fields

pub black_line_lem :
    (left k j : ℕ) (fields : List (List ℕ))
    → 1 < j
    → j < 2 ^ 31
    → j < length fields
    → (row : List ℕ) × (length row ≡ length (get_or fields j []))
      × (black_line left k j fields ≡ set fields j row)
unfolding black_line
black_line_lem zero k j fields h w len = (get_or fields j [], refl, sym (set-get_or fields j []))
black_line_lem (suc left) k j fields h w len =
    let row' = set (get_or fields j []) k 0 in
    let here = get_or-set_self fields j row' [] len in
    let (row, n, e) =
      black_line_lem left (k + 1) j (set fields j row') h w
        (omega (arith, length-set fields j row')) in
    (
      row,
      n ∙ (ap (length {A = ℕ}) here ∙ length-set (get_or fields j []) k 0),
      ap (black_line left (k + 1) j) (redraw_visible k j 0 fields h w)
          ∙ (e ∙ set-set fields j row' row),
    )
