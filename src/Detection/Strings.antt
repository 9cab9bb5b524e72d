-- ===== src/Detection/Strings.antt =====
-- C strings as lists of characters without the end, as they stand in memory, and the strings that the
-- phones are told apart by.
use htc_leo_pkg.Prelude.{
  ℕ, zero, suc, ◌+◌, ◌*◌, ◌≤◌, ◌≡◌, refl, arith, length, List, [], ◌∷◌, Bool, true, false, ◌==◌,
  ◌&&◌, ◌||◌, if◌then◌else◌,
}

abbrev pub Text : Type 0
Text = List ℕ

abbrev pub word_at : (ℕ → ℕ) → ℕ → ℕ
word_at mem a = mem a + 256 * (mem (a + 1) + 256 * (mem (a + 2) + 256 * mem (a + 3)))

-- The characters from `a` up to the first 0, and at most `n` of them.
pub read_text : (ℕ → ℕ) → ℕ → ℕ → Text
read_text mem zero a = []
read_text mem (suc n) a =
    let rest = read_text mem n (a + 1) in if mem a == 0 then [] else mem a ∷ rest

pub length-read_text : (mem : ℕ → ℕ) (n a : ℕ) → length (read_text mem n a) ≤ n
unfolding read_text
length-read_text mem zero a = omega arith
length-read_text mem (suc n) a = ground (arith, length-read_text mem n (a + 1))

-- AsciiStrCmp with the result 0.
abbrev pub strcmp : Text → Text → Bool
strcmp [] [] = true
strcmp [] (y ∷ ys) = false
strcmp (x ∷ xs) [] = false
strcmp (x ∷ xs) (y ∷ ys) = (x == y) && strcmp xs ys

abbrev is_prefix : Text → Text → Bool
is_prefix [] ys = true
is_prefix (x ∷ xs) [] = false
is_prefix (x ∷ xs) (y ∷ ys) = (x == y) && is_prefix xs ys

-- AsciiStrStr or strstr with a result other than NULL.
abbrev pub strstr : Text → Text → Bool
strstr [] pattern = is_prefix pattern []
strstr (x ∷ xs) pattern = is_prefix pattern (x ∷ xs) || strstr xs pattern

pub strcmp-longer : (xs ys : Text) → suc (length xs) ≤ length ys → strcmp xs ys ≡ false
strcmp-longer [] [] h = absurd (omega arith)
strcmp-longer [] (y ∷ ys) h = refl
strcmp-longer (x ∷ xs) [] h = absurd (omega arith)
strcmp-longer (x ∷ xs) (y ∷ ys) h = ground (arith, strcmp-longer xs ys)

-- "clk="
abbrev pub clk_equals : Text
clk_equals = 99 ∷ 108 ∷ 107 ∷ 61 ∷ []

-- "androidboot.hardware=leo"
abbrev pub hardware_leo : Text
hardware_leo =
    97 ∷ 110 ∷ 100 ∷ 114 ∷ 111 ∷ 105 ∷ 100 ∷ 98 ∷ 111 ∷ 111 ∷ 116 ∷ 46 ∷ 104 ∷ 97 ∷ 114 ∷ 100 ∷ 119
    ∷ 97 ∷ 114 ∷ 101 ∷ 61 ∷ 108 ∷ 101 ∷ 111 ∷ []

-- "androidboot.hardware=schubert"
abbrev pub hardware_schubert : Text
hardware_schubert =
    97 ∷ 110 ∷ 100 ∷ 114 ∷ 111 ∷ 105 ∷ 100 ∷ 98 ∷ 111 ∷ 111 ∷ 116 ∷ 46 ∷ 104 ∷ 97 ∷ 114 ∷ 100 ∷ 119
    ∷ 97 ∷ 114 ∷ 101 ∷ 61 ∷ 115 ∷ 99 ∷ 104 ∷ 117 ∷ 98 ∷ 101 ∷ 114 ∷ 116 ∷ []

-- "board_bravo"
abbrev pub board_bravo : Text
board_bravo = 98 ∷ 111 ∷ 97 ∷ 114 ∷ 100 ∷ 95 ∷ 98 ∷ 114 ∷ 97 ∷ 118 ∷ 111 ∷ []

-- "board_mahimahi"
abbrev pub board_mahimahi : Text
board_mahimahi = 98 ∷ 111 ∷ 97 ∷ 114 ∷ 100 ∷ 95 ∷ 109 ∷ 97 ∷ 104 ∷ 105 ∷ 109 ∷ 97 ∷ 104 ∷ 105 ∷ []

-- "SPL-1.42.HSPL"
abbrev pub leo_hspl_142 : Text
leo_hspl_142 = 83 ∷ 80 ∷ 76 ∷ 45 ∷ 49 ∷ 46 ∷ 52 ∷ 50 ∷ 46 ∷ 72 ∷ 83 ∷ 80 ∷ 76 ∷ []

-- "SPL-1.48.HSPL"
abbrev pub leo_hspl_148 : Text
leo_hspl_148 = 83 ∷ 80 ∷ 76 ∷ 45 ∷ 49 ∷ 46 ∷ 52 ∷ 56 ∷ 46 ∷ 72 ∷ 83 ∷ 80 ∷ 76 ∷ []

-- "SPL-1.66.HSPL"
abbrev pub leo_hspl_166 : Text
leo_hspl_166 = 83 ∷ 80 ∷ 76 ∷ 45 ∷ 49 ∷ 46 ∷ 54 ∷ 54 ∷ 46 ∷ 72 ∷ 83 ∷ 80 ∷ 76 ∷ []

-- "SPL-1.72.HSPL"
abbrev pub leo_hspl_172 : Text
leo_hspl_172 = 83 ∷ 80 ∷ 76 ∷ 45 ∷ 49 ∷ 46 ∷ 55 ∷ 50 ∷ 46 ∷ 72 ∷ 83 ∷ 80 ∷ 76 ∷ []

-- "SPL-2.08.HSPL"
abbrev pub leo_hspl_208 : Text
leo_hspl_208 = 83 ∷ 80 ∷ 76 ∷ 45 ∷ 50 ∷ 46 ∷ 48 ∷ 56 ∷ 46 ∷ 72 ∷ 83 ∷ 80 ∷ 76 ∷ []

-- "HSPL3.1.2250.0"
abbrev pub schubert_hspl_31 : Text
schubert_hspl_31 = 72 ∷ 83 ∷ 80 ∷ 76 ∷ 51 ∷ 46 ∷ 49 ∷ 46 ∷ 50 ∷ 50 ∷ 53 ∷ 48 ∷ 46 ∷ 48 ∷ []
