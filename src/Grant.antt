-- ===== src/Grant.antt =====
-- crates/rustmistmcp-core/src/grant.rs: a token's exact write authority.
pub mod Authority
pub mod Valid
mod Examples
use rustmistmcp.Prelude.{
  ℕ, ◌≤◌, Bool, true, false, not, ◌&&◌, ◌||◌, List, [], ◌∷◌, Option, none, some, String, Result, ok,
  err, any, ◌>>=◌, ◌>>◌, refuse_if, map_err, leb, ltb, ◌==◌, if◌then◌else◌, length, byte_len, codes,
  str_eq, append_text, is_empty, contains_char, contains_text,
}
use rustmistmcp.Catalog.{MistAction, same_capability}
use rustmistmcp.Target.{
  MistTarget, MistTargetKind, org, site, MistTargetError, target_error, parse, subject,
}

-- `GrantError::Invalid` of the crate mecmcp_auth.
pub data GrantError : Type 0 where
  invalid : String → GrantError

pub record MistGrant : Type 0 where
  pub allowed_operations : List String
  pub actions : List MistAction
  pub subjects : List MistTarget

abbrev pub same_kind : MistTargetKind → MistTargetKind → Bool
same_kind org org = true
same_kind site site = true
same_kind _ _ = false

abbrev pub same_target : MistTarget → MistTarget → Bool
same_target a b = same_kind a.kind b.kind && str_eq a.id b.id

unfoldable pub allows_operation : MistGrant → String → Bool
allows_operation g operation_id = any (λ allowed. str_eq allowed operation_id) g.allowed_operations

unfoldable pub allows_target : MistGrant → MistTarget → Bool
allows_target g target = any (λ allowed. same_target allowed target) g.subjects

unfoldable pub allows_action : MistGrant → MistAction → Bool
allows_action g action = any (λ allowed. same_capability allowed action) g.actions

unfoldable pub allows_subject : MistGrant → String → Bool
unfolding allows_target
allows_subject g s = elim (parse s) [ ok target ↦ allows_target g target | err e ↦ false ]

abbrev pub max_grant_values : ℕ
max_grant_values = 256

abbrev pub max_operation_id_len : ℕ
max_operation_id_len = 256

-- `char::is_whitespace`: the code points with the property White_Space.
abbrev pub is_whitespace : ℕ → Bool
is_whitespace c =
    (leb 9 c && leb c 13)
    || c == 0x20
    || c == 0x85
    || c == 0xA0
    || c == 0x1680
    || (leb 0x2000 c && leb c 0x200A)
    || c == 0x2028
    || c == 0x2029
    || c == 0x202F
    || c == 0x205F
    || c == 0x3000

-- `collect::<BTreeSet<_>>()`: each value once.
unfoldable pub collect_set {ℓ} : {A : Type ℓ} → (A → A → Bool) → List A → List A
collect_set same [] = []
collect_set same (x ∷ xs) =
    let rest = collect_set same xs in if any (same x) rest then rest else x ∷ rest

unfoldable pub validate_list {ℓ} :
    {A : Type ℓ} → (A → A → Bool) → String → List A → Result GrantError (Unit {0})
validate_list same name values = do
  refuse_if (length values == 0 || ltb max_grant_values (length values))
      (invalid (append_text name " must contain 1-256 values"))
  refuse_if (not (length (collect_set same values) == length values))
      (invalid (append_text name " must not contain duplicates"))

-- The loop over the subjects: each is parsed back from its own spelling.
unfoldable pub validate_subjects : List MistTarget → Result GrantError (Unit {0})
validate_subjects [] = ok tt
validate_subjects (s ∷ rest) = elim (parse (subject s)) [
  | ok _ ↦ validate_subjects rest
  | err (target_error message) ↦
      err (invalid (append_text "subjects must be canonical Mist targets: " message))
]

unfoldable pub is_bad_operation_id : String → Bool
is_bad_operation_id s =
    is_empty s
    || ltb max_operation_id_len (byte_len s)
    || contains_char 0 s
    || any is_whitespace (codes s)

unfoldable pub validate_operation_ids : List String → Result GrantError (Unit {0})
unfolding is_bad_operation_id
validate_operation_ids [] = ok tt
validate_operation_ids (s ∷ rest) =
    let later = validate_operation_ids rest in
    if is_bad_operation_id s
    then err (
        invalid
          "operation IDs must be non-empty, at most 256 bytes, and contain no whitespace or null bytes")
    else later

unfoldable pub validate : MistGrant → Result GrantError (Unit {0})
validate g = do
  validate_list str_eq "allowed_operations" g.allowed_operations
  validate_list same_capability "actions" g.actions
  validate_list same_target "subjects" g.subjects
  validate_subjects g.subjects
  validate_operation_ids g.allowed_operations
