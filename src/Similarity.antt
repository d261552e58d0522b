-- ===== src/Similarity.antt =====
-- crates/rustmistmcp/src/server/similarity.rs: the edit distance behind the suggestions for an unknown
-- operation, and the comparison of suffixes.
pub mod Rows
pub mod Distances
pub mod Suffixes
mod Examples
use rustmistmcp.Prelude.{
  ℕ, zero, suc, ◌+◌, ◌-◌, min, Bool, true, false, List, [], ◌∷◌, length, Option, none, some, String,
  codes, byte_len, encode_char, ◌==◌, leb, if◌then◌else◌,
}

-- `0..=n`, from `i` on
abbrev pub count_up : ℕ → List ℕ → List ℕ
count_up i [] = i ∷ []
count_up i (b ∷ bs) = i ∷ count_up (i + 1) bs

abbrev pub cost : ℕ → ℕ → ℕ
cost a b = if a == b then 0 else 1

-- The inner loop: the cells of the current row after `left`, from the previous row.
unfoldable pub fill : ℕ → List ℕ → List ℕ → ℕ → List ℕ
fill a [] row left = []
fill a (b ∷ bs) [] left = []
fill a (b ∷ bs) (diagonal ∷ []) left = []
fill a (b ∷ bs) (diagonal ∷ above ∷ row) left =
    let cell = min (min (above + 1) (left + 1)) (diagonal + cost a b) in
    cell ∷ fill a bs (above ∷ row) cell

-- The outer loop, from the i-th row on.
unfoldable pub run_rows : ℕ → List ℕ → List ℕ → List ℕ → List ℕ
run_rows i [] bs row = row
run_rows i (a ∷ as_) bs row = run_rows (i + 1) as_ bs (i ∷ fill a bs row i)

abbrev pub last_cell : List ℕ → ℕ
last_cell [] = 0
last_cell (x ∷ []) = x
last_cell (x ∷ y ∷ row) = last_cell (y ∷ row)

-- `levenshtein_distance` of two lower-case texts, as code points
unfoldable pub levenshtein_distance : List ℕ → List ℕ → ℕ
levenshtein_distance [] b = length b
levenshtein_distance (x ∷ a) [] = length (x ∷ a)
levenshtein_distance (x ∷ a) (y ∷ b) = last_cell (run_rows 1 (x ∷ a) (y ∷ b) (count_up 0 (y ∷ b)))

-- `&s[n..]`: what is left after `n` bytes; nothing where the slice panics, inside a character.
unfoldable pub slice_from : ℕ → List ℕ → Option (List ℕ)
slice_from zero cs = some cs
slice_from (suc n) [] = none
slice_from (suc n) (c ∷ cs) =
    let rest = slice_from (suc n - length (encode_char c)) cs in
    if leb (length (encode_char c)) (suc n) then rest else none

-- The last five bytes of a lower-case text, or all of a shorter one.
unfoldable pub suffix_of : String → Option (List ℕ)
suffix_of s = if leb 5 (byte_len s) then slice_from (byte_len s - 5) (codes s) else some (codes s)
