-- ===== src/Similarity/Distances.antt =====
-- The edit distance is a distance: nothing apart from equal texts, and the same both ways.
use rustmistmcp.Prelude.{ℕ, ◌≡◌, refl, ap, sym, ◌∙◌, ◌↔◌, List, [], ◌∷◌, length, arith}
use rustmistmcp.Similarity.{cost, levenshtein_distance}
use rustmistmcp.Similarity.Rows.{distance, onto, distance-nil, length-onto, levenshtein-distance}

cost_comm : (a b : ℕ) → cost a b ≡ cost b a
cost_comm a b = ground arith

distance_comm : (x y : List ℕ) → distance x y ≡ distance y x
distance_comm [] y = sym (distance-nil y)
distance_comm (a ∷ x) [] = distance-nil (a ∷ x)
distance_comm (a ∷ x) (b ∷ y) =
    omega
      (arith, distance_comm x (b ∷ y), distance_comm (a ∷ x) y, distance_comm x y, cost_comm a b)

distance_self : (x : List ℕ) → distance x x ≡ 0
distance_self [] = refl
distance_self (a ∷ x) = ground (arith, distance_self x)

distance_zero : (x y : List ℕ) → distance x y ≡ 0 → x ≡ y
distance_zero [] [] h = refl
distance_zero [] (b ∷ y) h = ground arith
distance_zero (a ∷ x) [] h = ground arith
distance_zero (a ∷ x) (b ∷ y) h = ground (arith, distance_zero x y)

onto_injective : (a b x y : List ℕ) → onto a x ≡ onto b y → length a ≡ length b → (a ≡ b) × (x ≡ y)
onto_injective [] [] x y h same = (refl, h)
onto_injective [] (d ∷ b) x y h same = absurd (omega arith)
onto_injective (c ∷ a) [] x y h same = absurd (omega arith)
onto_injective (c ∷ a) (d ∷ b) x y h same =
    let (rest, first) = onto_injective a b (c ∷ x) (d ∷ y) h (omega (arith, same)) in
    (cc (rest, first), cc first)

same_length : (a b : List ℕ) → onto a [] ≡ onto b [] → length a ≡ length b
same_length a b h = omega (arith, length-onto a [], length-onto b [], ap (λ x. length x) h)

-- The distance of two texts is 0 exactly where they are equal, and it is the same both ways: what the
-- suggestions leave out at distance 0 is the unknown name itself, up to case.
pub levenshtein_zero_iff :
    (a b : List ℕ)
    → ((levenshtein_distance a b ≡ 0) ↔ (a ≡ b))
      × (levenshtein_distance a b ≡ levenshtein_distance b a)
levenshtein_zero_iff a b = (
  (
    λ h.
        let same = distance_zero (onto a []) (onto b []) (sym (levenshtein-distance a b) ∙ h) in
        (onto_injective a b [] [] same (same_length a b same)).0,
    λ same.
        levenshtein-distance a b
        ∙ ap (λ y. distance (onto a []) (onto y [])) (sym same)
        ∙ distance_self (onto a []),
  ),
  levenshtein-distance a b ∙ distance_comm (onto a []) (onto b []) ∙ sym (levenshtein-distance b a),
)
