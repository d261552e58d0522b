-- ===== src/Config/Hosts.antt =====
-- The hosts that are accepted: those of `mist.com`.
use rustmistmcp.Prelude.{
  ℕ, ◌≡◌, refl, ap, sym, ◌∙◌, ◌⊎◌, inl, inr, true, List, [], ◌∷◌, ◌++◌, map, String, codes, arith,
  Bool-cases, ◌==◌, ==_iff, ◌≢◌, All, subst, false,
}
use rustmistmcp.Config.{
  lower_ascii, same_codes, eq_ignore_ascii_case, add_to_first, split_at, are_regional,
  is_mist_regional_host, no_codes,
}

pub same_codes_sound : (xs ys : List ℕ) → same_codes xs ys ≡ true → xs ≡ ys
same_codes_sound [] [] h = refl
same_codes_sound [] (d ∷ ds) h = ground arith
same_codes_sound (c ∷ cs) [] h = ground arith
same_codes_sound (c ∷ cs) (d ∷ ds) h = ground (arith, same_codes_sound cs ds)

-- A text in lower case, as code points.
abbrev pub lower : List ℕ → List ℕ
lower cs = map lower_ascii cs

-- The labels with a dot between each two.
abbrev pub joined : List (List ℕ) → List ℕ
joined [] = []
joined (label ∷ []) = label
joined (label ∷ next ∷ labels) = label ++ (b'.' ∷ joined (next ∷ labels))

joined-add_to_first :
    (c : ℕ) (labels : List (List ℕ)) → joined (add_to_first c labels) ≡ c ∷ joined labels
joined-add_to_first c [] = refl
joined-add_to_first c (label ∷ []) = refl
joined-add_to_first c (label ∷ next ∷ labels) = refl

joined-nil :
    (first : List ℕ) (labels : List (List ℕ))
    → joined ([] ∷ first ∷ labels) ≡ b'.' ∷ joined (first ∷ labels)
joined-nil first labels = refl

split_at-cons :
    (cs : List ℕ)
    → (first : List ℕ) × (labels : List (List ℕ)) × (split_at b'.' cs ≡ first ∷ labels)
unfolding split_at
split_at-cons [] = ([], [], refl)
split_at-cons (c ∷ cs) = elim (Bool-cases (c == b'.')) [
  | inl e ↦ ([], split_at b'.' cs, rw (e, split_at) refl)
  | inr e ↦
      let (first, labels, same) = split_at-cons cs in
      (c ∷ first, labels, rw (e, same, split_at) refl)
]

joined-split_at : (cs : List ℕ) → joined (split_at b'.' cs) ≡ cs
unfolding split_at
joined-split_at [] = refl
joined-split_at (c ∷ cs) = elim (Bool-cases (c == b'.')) [
  | inr e ↦
      rw (e, split_at)
        (joined-add_to_first c (split_at b'.' cs) ∙ ap (λ later. c ∷ later) (joined-split_at cs))
  | inl e ↦
      let (first, labels, same) = split_at-cons cs in
      let dot : b'.' ≡ c = sym ((==_iff c b'.').0 e) in
      rw (e, split_at)
        (ap (λ rest. joined ([] ∷ rest)) same
          ∙ ap (λ rest. b'.' ∷ joined rest) (sym same)
          ∙ ap (λ later. b'.' ∷ later) (joined-split_at cs)
          ∙ ap (λ d. d ∷ cs) dot)
]

lower-append : (x y : List ℕ) → lower (x ++ y) ≡ lower x ++ lower y
lower-append [] y = refl
lower-append (c ∷ x) y = ap (λ later. lower_ascii c ∷ later) (lower-append x y)

-- `api.`, a region, and `.mist.com`.
abbrev pub regional : List ℕ → List ℕ
regional region = codes "api" ++ (b'.' ∷ region ++ (b'.' ∷ codes "mist" ++ (b'.' ∷ codes "com")))

four_labels :
    (first region third last : List ℕ)
    → lower first ≡ codes "api"
    → lower third ≡ codes "mist"
    → lower last ≡ codes "com"
    → lower (joined (first ∷ region ∷ third ∷ last ∷ [])) ≡ regional (lower region)
four_labels first region third last e1 e2 e3 =
    rw (lower-append, lower-append, lower-append, e1, e2, e3) refl

-- The code points of a label: no dot among them.
abbrev pub HasNoDot : List ℕ → Type 0
HasNoDot cs = All (λ c. c ≢ b'.') cs

split_at-HasNoDot : (cs : List ℕ) → All HasNoDot (split_at b'.' cs)
unfolding split_at
split_at-HasNoDot [] = (tt, tt)
split_at-HasNoDot (c ∷ cs) = elim (Bool-cases (c == b'.')) [
  | inl e ↦ rw (e, split_at) (tt, split_at-HasNoDot cs)
  | inr e ↦
      let (first, labels, same) = split_at-cons cs in
      let (plain, later) = subst (All HasNoDot) same (split_at-HasNoDot cs) in
      let other : c ≢ b'.' = λ dot. ground (arith, e, dot) in
      rw (e, same, split_at) ((other, plain), later)
]

lower_ascii-dot : (c : ℕ) → c ≢ b'.' → lower_ascii c ≢ b'.'
lower_ascii-dot c h = λ e. ground (arith, h, e)

lower-HasNoDot : (cs : List ℕ) → HasNoDot cs → HasNoDot (lower cs)
lower-HasNoDot [] h = tt
lower-HasNoDot (c ∷ cs) (first, h) = (lower_ascii-dot c first, lower-HasNoDot cs h)

-- One label that is not empty.
abbrev pub IsRegion : List ℕ → Type 0
IsRegion region = (region ≢ []) × HasNoDot region

lower-IsRegion : (cs : List ℕ) → no_codes cs ≡ false → HasNoDot cs → IsRegion (lower cs)
lower-IsRegion [] h plain = absurd (ground arith)
lower-IsRegion (c ∷ cs) h plain = (λ e. cc, lower-HasNoDot (c ∷ cs) plain)

are_regional_sound :
    (labels : List (List ℕ))
    → All HasNoDot labels
    → are_regional labels ≡ true
    → (region : List ℕ) × IsRegion region × (lower (joined labels) ≡ regional region)
are_regional_sound (first ∷ region ∷ third ∷ last ∷ []) (a, (plain, more)) h = (
  lower region,
  lower-IsRegion region (ground arith) plain,
  four_labels first region third last
      (same_codes_sound (lower first) (lower (codes "api")) (ground arith))
      (same_codes_sound (lower third) (lower (codes "mist")) (ground arith))
      (same_codes_sound (lower last) (lower (codes "com")) (ground arith)),
)
are_regional_sound [] plain h = ground arith
are_regional_sound (a ∷ []) plain h = ground arith
are_regional_sound (a ∷ b ∷ []) plain h = ground arith
are_regional_sound (a ∷ b ∷ c ∷ []) plain h = ground arith
are_regional_sound (a ∷ b ∷ c ∷ d ∷ e ∷ more) plain h = ground arith

-- Up to case, `api.mist.com`, or `api.`, a region and `.mist.com`.
abbrev pub IsMistHost : String → Type 0
IsMistHost host =
    (lower (codes host) ≡ codes "api.mist.com")
    ⊎ ((region : List ℕ) × IsRegion region × (lower (codes host) ≡ regional region))

-- A host that is accepted is, up to case, `api.mist.com`, or `api.`, a region and `.mist.com`, where the
-- region is one label that is not empty.
pub is_mist_regional_host_sound :
    (host : String) → is_mist_regional_host host ≡ true → IsMistHost host
unfolding is_mist_regional_host
is_mist_regional_host_sound host h =
    elim (Bool-cases (eq_ignore_ascii_case (codes host) "api.mist.com")) [
      | inl global ↦
          inl (same_codes_sound (lower (codes host)) (lower (codes "api.mist.com")) global)
      | inr other ↦
          let labels : are_regional (split_at b'.' (codes host)) ≡ true =
            ground (arith, h, other) in
          let (region, is_region, same) =
            are_regional_sound (split_at b'.' (codes host)) (split_at-HasNoDot (codes host))
              labels in
          inr (region, is_region, ap lower (sym (joined-split_at (codes host))) ∙ same)
    ]
