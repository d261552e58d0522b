-- ===== src/Similarity/Rows.antt =====
-- The rolling rows compute the recursive edit distance.
use rustmistmcp.Prelude.{ℕ, suc, ◌+◌, ◌≡◌, refl, ap, ◌∙◌, List, [], ◌∷◌, length, min, arith}
use rustmistmcp.Similarity.{count_up, cost, fill, run_rows, last_cell, levenshtein_distance}

-- The distance of two lists by their first entries: `step` is the row of `a` over that of the rest.
abbrev pub step : ℕ → (List ℕ → ℕ) → ℕ → List ℕ → ℕ
step a below n [] = n
step a below n (b ∷ y) = min (min (below (b ∷ y) + 1) (step a below n y + 1)) (below y + cost a b)

abbrev pub distance : List ℕ → List ℕ → ℕ
distance [] y = length y
distance (a ∷ x) y = step a (distance x) (suc (length x)) y

-- Entries moved one by one onto a list, which reverses them.
abbrev pub onto : List ℕ → List ℕ → List ℕ
onto [] x = x
onto (a ∷ rest) x = onto rest (a ∷ x)

-- The distances to the prefixes of a text, the prefix before them reversed.
abbrev cells : List ℕ → List ℕ → List ℕ → List ℕ
cells x before [] = []
cells x before (b ∷ rest) = distance x (b ∷ before) ∷ cells x (b ∷ before) rest

fill-cells :
    (a : ℕ) (x before rest : List ℕ)
    → fill a rest (distance x before ∷ cells x before rest) (distance (a ∷ x) before)
      ≡ cells (a ∷ x) before rest
unfolding fill
fill-cells a x before [] = refl
fill-cells a x before (b ∷ rest) =
    ap (λ later. distance (a ∷ x) (b ∷ before) ∷ later) (fill-cells a x (b ∷ before) rest)

run_rows-cells :
    (rest x b : List ℕ)
    → run_rows (suc (length x)) rest b (distance x [] ∷ cells x [] b)
      ≡ distance (onto rest x) [] ∷ cells (onto rest x) [] b
unfolding run_rows
run_rows-cells [] x b = refl
run_rows-cells (a ∷ rest) x b =
    ap (λ row. run_rows (suc (length x) + 1) rest b (suc (length x) ∷ row)) (fill-cells a x [] b)
    ∙ ap (λ i. run_rows i rest b (distance (a ∷ x) [] ∷ cells (a ∷ x) [] b)) (omega arith)
    ∙ run_rows-cells rest (a ∷ x) b

pub distance-nil : (x : List ℕ) → distance x [] ≡ length x
distance-nil [] = refl
distance-nil (a ∷ x) = omega arith

last_cell-cells :
    (x before rest : List ℕ)
    → last_cell (distance x before ∷ cells x before rest) ≡ distance x (onto rest before)
last_cell-cells x before [] = refl
last_cell-cells x before (b ∷ rest) = last_cell-cells x (b ∷ before) rest

count_up-cells :
    (before rest : List ℕ)
    → count_up (length before) rest ≡ distance [] before ∷ cells [] before rest
count_up-cells before [] = refl
count_up-cells before (b ∷ rest) =
    ap (λ later. length before ∷ later)
      (ap (λ n. count_up n rest) (omega arith) ∙ count_up-cells (b ∷ before) rest)

pub length-onto : (b x : List ℕ) → length (onto b x) ≡ length b + length x
length-onto [] x = omega arith
length-onto (a ∷ b) x = omega (arith, length-onto b (a ∷ x))

-- The distance by rolling rows is the recursive edit distance, on the texts read from their ends.
pub levenshtein-distance :
    (a b : List ℕ) → levenshtein_distance a b ≡ distance (onto a []) (onto b [])
unfolding levenshtein_distance
levenshtein-distance [] b = omega (arith, length-onto b [])
levenshtein-distance (x ∷ a) [] =
    omega (arith, distance-nil (onto (x ∷ a) []), length-onto (x ∷ a) [])
levenshtein-distance (x ∷ a) (y ∷ b) =
    ap (λ row. last_cell (run_rows 1 (x ∷ a) (y ∷ b) row)) (count_up-cells [] (y ∷ b))
    ∙ ap last_cell (run_rows-cells (x ∷ a) [] (y ∷ b))
    ∙ last_cell-cells (onto (x ∷ a) []) [] (y ∷ b)
