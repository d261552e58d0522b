-- ===== src/Similarity/Examples.antt =====
-- Distances of names, and a name whose suffix begins inside a character.
use rustmistmcp.Prelude.{ℕ, ◌-◌, ◌≡◌, ◌≤◌, refl, ◌↔◌, List, [], none, codes, byte_len}
use rustmistmcp.Similarity.{levenshtein_distance, fill, run_rows, slice_from, suffix_of}
use rustmistmcp.Similarity.Rows.{distance, onto, levenshtein-distance}
use rustmistmcp.Similarity.Suffixes.{SplitsAt, suffix_of_iff}

kitten_sitting : levenshtein_distance (codes "kitten") (codes "sitting") ≡ 3
unfolding levenshtein_distance fill run_rows
kitten_sitting = refl

levenshtein-distance_example :
    levenshtein_distance (codes "kitten") (codes "sitting")
    ≡ distance (onto (codes "kitten") []) (onto (codes "sitting") [])
levenshtein-distance_example = levenshtein-distance (codes "kitten") (codes "sitting")

accent_panics : suffix_of "aéaaaa" ≡ none
unfolding suffix_of slice_from
accent_panics = refl

suffix_of_iff_example : (suffix_of "aéaaaa" ≡ none) ↔ (
    (5 ≤ byte_len "aéaaaa")
    × (¬ ((rest : List ℕ) × SplitsAt (byte_len "aéaaaa" - 5) (codes "aéaaaa") rest)))
suffix_of_iff_example = suffix_of_iff "aéaaaa"
