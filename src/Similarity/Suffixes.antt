-- ===== src/Similarity/Suffixes.antt =====
-- The suffix that is compared, and where taking it panics.
use rustmistmcp.Prelude.{
  ℕ, zero, suc, ◌+◌, ◌-◌, ◌≡◌, ◌≤◌, refl, ap, sym, ◌∙◌, ◌↔◌, inl, inr, true, List, [], ◌∷◌, ◌++◌,
  length, none, some, String, codes, byte_len, encode_char, arith, leb, leb→le, Bool-cases,
  Option-cases,
}
use rustmistmcp.Similarity.{slice_from, suffix_of}

-- The number of bytes of a text, by its code points.
abbrev pub size : List ℕ → ℕ
size [] = 0
size (c ∷ cs) = length (encode_char c) + size cs

-- A character ends where the slice begins.
abbrev pub SplitsAt : ℕ → List ℕ → List ℕ → Type 0
SplitsAt n cs rest = (before : List ℕ) × (cs ≡ before ++ rest) × (size before ≡ n)

some-ne-none : {A : Type 0} {a : A} → some a ≡ none → ⊥
some-ne-none h = cc

le→leb : (a b : ℕ) → a ≤ b → leb a b ≡ true
le→leb a b h = ground arith

slice_from_sound : (n : ℕ) (cs rest : List ℕ) → slice_from n cs ≡ some rest → SplitsAt n cs rest
unfolding slice_from
slice_from_sound zero cs rest e = ([], ground (arith, e), refl)
slice_from_sound (suc n) [] rest e = cc
slice_from_sound (suc n) (c ∷ cs) rest e =
    elim (Bool-cases (leb (length (encode_char c)) (suc n))) [
      | inr inside ↦ absurd (ground (arith, e, inside))
      | inl whole ↦
          let (before, same, counted) =
            slice_from_sound (suc n - length (encode_char c)) cs rest
              (rw (whole, slice_from) at e) in
          (
            c ∷ before,
            ap (λ later. c ∷ later) same,
            omega (arith, leb→le (length (encode_char c)) (suc n) whole, counted),
          )
    ]

encode_char-nonempty : (c : ℕ) → 1 ≤ length (encode_char c)
encode_char-nonempty c = ground arith

slice_from-append :
    (n : ℕ) (before rest : List ℕ) → size before ≡ n → slice_from n (before ++ rest) ≡ some rest
unfolding slice_from
slice_from-append zero [] rest e = refl
slice_from-append (suc n) [] rest e = absurd (omega arith)
slice_from-append zero (c ∷ before) rest e = absurd (omega (arith, e, encode_char-nonempty c))
slice_from-append (suc n) (c ∷ before) rest e =
    let whole : leb (length (encode_char c)) (suc n) ≡ true = le→leb _ _ (omega (arith, e)) in
    rw (whole, slice_from)
      (slice_from-append (suc n - length (encode_char c)) before rest (omega (arith, e)))

slice_from_iff :
    (n : ℕ) (cs : List ℕ) → (slice_from n cs ≡ none) ↔ (¬ ((rest : List ℕ) × SplitsAt n cs rest))
slice_from_iff n cs = (
  λ panics (rest, (before, same, counted)).
      some-ne-none
        (sym (slice_from-append n before rest counted) ∙ ap (slice_from n) (sym same) ∙ panics),
  λ inside. elim (Option-cases (slice_from n cs)) [
    | inl panics ↦ panics
    | inr (rest, e) ↦ absurd (inside (rest, slice_from_sound n cs rest e))
  ],
)

-- Taking the suffix panics exactly where the text has at least five bytes and no character ends five
-- bytes before its end.
pub suffix_of_iff :
    (s : String)
    → (suffix_of s ≡ none)
      ↔ ((5 ≤ byte_len s) × (¬ ((rest : List ℕ) × SplitsAt (byte_len s - 5) (codes s) rest)))
unfolding suffix_of
suffix_of_iff s = ground (arith, slice_from_iff (byte_len s - 5) (codes s))
