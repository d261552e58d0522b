-- ===== src/Grant/Valid.antt =====
-- What a grant that passes `validate` looks like.
use text.Mathlib.TextLemmas.{cons-ne-nil}
use rustmistmcp.Prelude.{
  ◌≤◌, ◌≡◌, ◌≢◌, refl, ◌↔◌, inl, inr, Bool, true, false, List, [], ◌∷◌, String, ok, arith, any,
  length, byte_len, codes, contains_char, eq_iff, str_eq, All, In, Result-cases, subst, is_empty,
}
use rustmistmcp.Catalog.{MistCapability, same_capability}
use rustmistmcp.Target.{MistTarget, parse, subject, target_error}
use rustmistmcp.Target.Subject.{IsCanonical, parse-subject, parse_sound, subject-inj}
use rustmistmcp.Grant.{
  MistGrant, same_target, is_whitespace, collect_set, validate_list, validate_subjects,
  is_bad_operation_id, validate_operation_ids, validate,
}

pub same_target_iff : (a b : MistTarget) → (same_target a b ≡ true) ↔ (a ≡ b)
same_target_iff a b = ground (arith, eq_iff a.id b.id)

pub same_capability_iff : (a b : MistCapability) → (same_capability a b ≡ true) ↔ (a ≡ b)
same_capability_iff a b = ground arith

-- No entry stands in the list twice.
abbrev pub IsDistinct : {A : Type 0} → List A → Type 0
IsDistinct [] = Unit
IsDistinct (x ∷ xs) = (¬ In x xs) × IsDistinct xs

module _ {A : Type 0} (same : A → A → Bool)
    (same_iff : (a b : A) → (same a b ≡ true) ↔ (a ≡ b)) where
  any_iff : (x : A) (xs : List A) → (any (same x) xs ≡ true) ↔ In x xs
  any_iff x [] = ground arith
  any_iff x (y ∷ xs) = ground (arith, same_iff x y, any_iff x xs)

  length-collect_set-le : (xs : List A) → length (collect_set same xs) ≤ length xs
  unfolding collect_set
  length-collect_set-le [] = omega arith
  length-collect_set-le (x ∷ xs) = ground (arith, length-collect_set-le xs)

  any_congr : (x y : A) (xs : List A) → x ≡ y → any (same x) xs ≡ any (same y) xs
  any_congr x y xs e = rw e

  any-collect_set : (x : A) (xs : List A) → any (same x) (collect_set same xs) ≡ any (same x) xs
  unfolding collect_set
  any-collect_set x [] = refl
  any-collect_set x (y ∷ xs) = ground (
    arith,
    same_iff x y,
    any-collect_set x xs,
    any-collect_set y xs,
    any_congr x y (collect_set same xs),
  )

  collect_set_iff : (xs : List A) → (length (collect_set same xs) ≡ length xs) ↔ IsDistinct xs
  unfolding collect_set
  collect_set_iff [] = ground arith
  collect_set_iff (x ∷ xs) =
      ground
        (arith, any-collect_set x xs, any_iff x xs, collect_set_iff xs, length-collect_set-le xs)

-- One to 256 entries, none of them twice.
abbrev pub IsAllowlist : {A : Type 0} → List A → Type 0
IsAllowlist xs = (1 ≤ length xs) × (length xs ≤ 256) × IsDistinct xs

module _ {A : Type 0} (same : A → A → Bool)
    (same_iff : (a b : A) → (same a b ≡ true) ↔ (a ≡ b)) where
  validate_list_iff :
      (name : String) (xs : List A) → (validate_list same name xs ≡ ok tt) ↔ IsAllowlist xs
  unfolding validate_list
  validate_list_iff name xs = ground (arith, collect_set_iff same same_iff xs)

-- Non-empty, at most 256 bytes, no null and no whitespace.
abbrev pub IsOperationId : String → Type 0
IsOperationId s =
    (s ≢ "")
    × (byte_len s ≤ 256)
    × (contains_char 0 s ≡ false)
    × (any is_whitespace (codes s) ≡ false)

pub is_empty_iff : (s : String) → (is_empty s ≡ true) ↔ (s ≡ "")
is_empty_iff String.[] = ground arith
is_empty_iff (String.◌∷◌ c s) = (λ e. cc, λ e. absurd (cons-ne-nil c s e))

bad-IsOperationId_iff : (s : String) → (is_bad_operation_id s ≡ false) ↔ IsOperationId s
unfolding is_bad_operation_id
bad-IsOperationId_iff s = ground (arith, is_empty_iff s)

validate_operation_ids_iff :
    (xs : List String) → (validate_operation_ids xs ≡ ok tt) ↔ All IsOperationId xs
unfolding validate_operation_ids
validate_operation_ids_iff [] = ground arith
validate_operation_ids_iff (s ∷ xs) =
    ground (arith, bad-IsOperationId_iff s, validate_operation_ids_iff xs)

validate_subjects_iff : (xs : List MistTarget) → (validate_subjects xs ≡ ok tt) ↔ All IsCanonical xs
unfolding validate_subjects
validate_subjects_iff [] = ground arith
validate_subjects_iff (t ∷ xs) = elim (Result-cases (parse (subject t))) [
  | inl (u, e) ↦
      let (canonical, same) = parse_sound (subject t) u e in
      let known : IsCanonical t = subst IsCanonical (subject-inj u t same) canonical in
      ground (arith, e, known, validate_subjects_iff xs)
  | inr (target_error m, e) ↦ ground (arith, e, parse-subject t)
]

pub record IsValid (g : MistGrant) : Type 0 where
  pub operations : IsAllowlist g.allowed_operations
  pub actions : IsAllowlist g.actions
  pub subjects : IsAllowlist g.subjects
  pub canonical : All IsCanonical g.subjects
  pub operation_ids : All IsOperationId g.allowed_operations

-- `validate` accepts exactly the grants whose three lists hold one to 256 distinct values, whose
-- subjects are canonical, and whose operation identifiers are well formed.
pub validate_iff : (g : MistGrant) → (validate g ≡ ok tt) ↔ IsValid g
unfolding validate
validate_iff g = ground (
  arith,
  validate_list_iff str_eq eq_iff "allowed_operations" g.allowed_operations,
  validate_list_iff same_capability same_capability_iff "actions" g.actions,
  validate_list_iff same_target same_target_iff "subjects" g.subjects,
  validate_subjects_iff g.subjects,
  validate_operation_ids_iff g.allowed_operations,
)
