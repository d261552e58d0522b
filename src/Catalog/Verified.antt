-- ===== src/Catalog/Verified.antt =====
-- What a catalogue that passes its checks has.
use rustmistmcp.Prelude.{
  ℕ, ◌≡◌, ◌≢◌, ◌⊎◌, inl, inr, Bool, true, false, not, ◌&&◌, List, [], ◌∷◌, All, Option, none, some,
  String, ok, arith, eq_iff, Option-cases, codes, all, is_empty, sym, ap, ◌∙◌, >>-eq-ok_iff,
}
use rustmistmcp.Config.{split_at}
use rustmistmcp.Catalog.{
  ordinary_read, privileged_read, VerificationPolicy, no_verification, api_acknowledged,
  follow_up_read, MistOperation,
}
use rustmistmcp.Catalog.Checked.{
  projection, check_follow_up, check_policy, validate_verification, strip_prefix, has_code,
  safe_segment, safe_path, no_codes,
}

-- A catalogued `GET` is read after the operation, and its answer compared with the request.
abbrev pub HasFollowUp : (String → Option MistOperation) → MistOperation → Type 0
HasFollowUp operation_of o =
    (id : String) × (follow_up : MistOperation) × (o.follow_up_operation_id ≡ some id)
    × (operation_of id ≡ some follow_up)
    × (follow_up.method ≡ "GET")
    × (o.verification_predicate ≡ some projection)

-- Only a read may go without a verification; another operation has a follow-up, or a reason.
abbrev pub IsVerified :
    (String → Option MistOperation) → MistOperation → VerificationPolicy → Type 0
IsVerified operation_of o no_verification =
    ((o.action ≡ ordinary_read) ⊎ (o.action ≡ privileged_read)) × (o.follow_up_operation_id ≡ none)
IsVerified operation_of o follow_up_read = HasFollowUp operation_of o
IsVerified operation_of o api_acknowledged =
    (o.follow_up_operation_id ≡ none)
    × (reason : String) × (o.verification_reason ≡ some reason)
    × (reason ≢ "")

not-empty : (s : String) → is_empty s ≡ false → s ≢ ""
not-empty s h same = ground (arith, sym h ∙ ap is_empty same)

module _ (operation_of : String → Option MistOperation) where
  check_follow_up_sound :
      (o : MistOperation)
      → o.verification_predicate ≡ some projection
      → check_follow_up operation_of o ≡ ok tt
      → HasFollowUp operation_of o
  unfolding check_follow_up
  check_follow_up_sound o predicate h = elim (Option-cases o.follow_up_operation_id) [
    | inl e ↦ absurd (ground (arith, e, h))
    | inr (id, e) ↦ elim (Option-cases (operation_of id)) [
      | inl e2 ↦ absurd (ground (arith, e, e2, h))
      | inr (follow_up, e2) ↦
          (id, follow_up, e, e2, ground (arith, e, e2, h, eq_iff follow_up.method "GET"), predicate)
    ]
  ]

  check_policy_sound :
      (o : MistOperation) (policy : VerificationPolicy)
      → check_policy operation_of o policy ≡ ok tt
      → IsVerified operation_of o policy
  unfolding check_policy
  check_policy_sound o no_verification h = ground arith
  check_policy_sound o follow_up_read h = elim (Option-cases o.verification_predicate) [
    | inl e ↦ absurd (ground (arith, e, h))
    | inr (t, e) ↦
        let predicate : o.verification_predicate ≡ some projection =
          ground (arith, e, h, eq_iff t projection) in
        let followed : check_follow_up operation_of o ≡ ok tt = ground (arith, e, h) in
        check_follow_up_sound o predicate followed
  ]
  check_policy_sound o api_acknowledged h = elim (Option-cases o.verification_reason) [
    | inl e ↦ absurd (ground (arith, e, h))
    | inr (reason, e) ↦
        (ground (arith, e, h), reason, e, λ same. not-empty reason (ground (arith, e, h)) same)
  ]

  -- In a catalogue that passes, only a read goes without a verification; every other operation names a
  -- catalogued `GET` whose answer is compared with the request, or gives a reason why it has none.
  pub validate_verification_sound :
      (operations : List MistOperation)
      → validate_verification operation_of operations ≡ ok tt
      → All (λ o. IsVerified operation_of o o.verification) operations
  unfolding validate_verification
  validate_verification_sound [] h = tt
  validate_verification_sound (o ∷ operations) h =
      let (first, rest) =
        (>>-eq-ok_iff (check_policy operation_of o o.verification)
            (validate_verification operation_of operations) (λ e. e, λ e. e) (λ e. e, λ e. e)).0
          h in
      (check_policy_sound o o.verification first, validate_verification_sound operations rest)

-- A segment that is neither empty nor a step within the path.
abbrev pub IsPlain : List ℕ → Type 0
IsPlain segment = (segment ≢ []) × (segment ≢ codes ".") × (segment ≢ codes "..")

safe_segment-IsPlain : (segment : List ℕ) → safe_segment segment ≡ true → IsPlain segment
unfolding safe_segment
safe_segment-IsPlain [] h = absurd (ground arith)
safe_segment-IsPlain (c ∷ cs) h = (
  λ e. cc,
  λ e. ground (arith, sym h ∙ ap safe_segment e),
  λ e. ground (arith, sym h ∙ ap safe_segment e),
)

both : (a b : Bool) → (a && b) ≡ true → (a ≡ true) × (b ≡ true)
both a b h = ground arith

all-IsPlain : (segments : List (List ℕ)) → all safe_segment segments ≡ true → All IsPlain segments
all-IsPlain [] h = tt
all-IsPlain (segment ∷ segments) h =
    let (first, later) = both (safe_segment segment) (all safe_segment segments) h in
    (safe_segment-IsPlain segment first, all-IsPlain segments later)

path_parts :
    (rest path : List ℕ)
    → (not (no_codes rest)
        && not (has_code b'?' path)
        && not (has_code b'#' path)
        && all safe_segment (split_at b'/' rest))
      ≡ true
    → (all safe_segment (split_at b'/' rest) ≡ true)
      × (has_code b'?' path ≡ false)
      × (has_code b'#' path ≡ false)
path_parts rest path h = ground arith

-- A path that passes stands under `/api/v1/`, has no query and no fragment, and none of its segments is
-- empty or a step to the same or the upper level.
pub safe_path_sound :
    (path : String)
    → safe_path path ≡ true
    → (rest : List ℕ) × (strip_prefix (codes "/api/v1/") (codes path) ≡ some rest)
      × All IsPlain (split_at b'/' rest)
      × (has_code b'?' (codes path) ≡ false)
      × (has_code b'#' (codes path) ≡ false)
unfolding safe_path
safe_path_sound path h = elim (Option-cases (strip_prefix (codes "/api/v1/") (codes path))) [
  | inl e ↦ absurd (ground (arith, e, h))
  | inr (rest, e) ↦
      let (plain, query, fragment) = path_parts rest (codes path) (rw (e, safe_path) at h) in
      (rest, e, all-IsPlain (split_at b'/' rest) plain, query, fragment)
]
