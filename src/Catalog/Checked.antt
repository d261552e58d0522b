-- ===== src/Catalog/Checked.antt =====
-- crates/rustmistmcp-core/src/catalog.rs: the checks of a record's path, media and digests, and of the
-- verification of every record.
use rustmistmcp.Prelude.{
  ℕ, Bool, true, false, not, ◌&&◌, ◌||◌, List, [], ◌∷◌, Option, none, some, String, Result, ok, err,
  ◌>>◌, str_eq, append_text, if◌then◌else◌, codes, bytes, byte_len, all, any, leb, ◌==◌, is_empty,
  ◌>>=◌, refuse_if, ok_or,
}
use rustmistmcp.Config.{split_at, same_codes}
use rustmistmcp.Json.{Value}
use rustmistmcp.Catalog.{
  MistAction, ordinary_read, privileged_read, create, update, delete, execute, VerificationPolicy,
  no_verification, api_acknowledged, follow_up_read, CatalogError, invalid, MistOperation,
}

-- `str::strip_prefix`
abbrev pub strip_prefix : List ℕ → List ℕ → Option (List ℕ)
strip_prefix [] cs = some cs
strip_prefix (p ∷ ps) [] = none
strip_prefix (p ∷ ps) (c ∷ cs) = if p == c then strip_prefix ps cs else none

abbrev pub is_alphabetic : ℕ → Bool
is_alphabetic c = (leb b'a' c && leb c b'z') || (leb b'A' c && leb c b'Z')

abbrev pub is_word : ℕ → Bool
is_word c = is_alphabetic c || (leb b'0' c && leb c b'9') || c == b'_'

-- A name in braces, after the opening one: letters, digits and underscores up to the closing brace.
abbrev pub closes : List ℕ → Bool
closes [] = false
closes (c ∷ []) = c == b'}'
closes (c ∷ d ∷ cs) = is_word c && closes (d ∷ cs)

abbrev starts_name : List ℕ → Bool
starts_name [] = false
starts_name (c ∷ cs) = is_alphabetic c

abbrev pub ends_brace : List ℕ → Bool
ends_brace [] = false
ends_brace (c ∷ []) = c == b'}'
ends_brace (c ∷ d ∷ cs) = ends_brace (d ∷ cs)

abbrev pub has_code : ℕ → List ℕ → Bool
has_code c cs = any (λ d. d == c) cs

-- A segment is a parameter in braces, or a text without braces.
abbrev pub is_literal : List ℕ → Bool
is_literal cs = not (has_code b'{' cs) && not (has_code b'}' cs)

unfoldable pub safe_segment : List ℕ → Bool
safe_segment [] = false
safe_segment (c ∷ cs) =
    if same_codes (c ∷ cs) (codes ".") || same_codes (c ∷ cs) (codes "..")
    then false
    else if c == b'{' && ends_brace cs
    then starts_name cs && closes cs
    else is_literal (c ∷ cs)

abbrev pub no_codes : List ℕ → Bool
no_codes [] = true
no_codes (c ∷ cs) = false

unfoldable pub safe_path : String → Bool
safe_path path = elim (strip_prefix (codes "/api/v1/") (codes path)) [
  | none ↦ false
  | some rest ↦
      not (no_codes rest)
      && not (has_code b'?' (codes path))
      && not (has_code b'#' (codes path))
      && all safe_segment (split_at b'/' rest)
]

abbrev first_of : List (List ℕ) → Option (List ℕ)
first_of [] = none
first_of (label ∷ labels) = some label

-- The scope of a path, as code points.
unfoldable pub scope_for_path : String → Option (List ℕ)
scope_for_path path = elim (strip_prefix (codes "/api/v1/") (codes path)) [
  | none ↦ none
  | some rest ↦ first_of (split_at b'/' rest)
]

abbrev other_media : String → Bool
other_media m = not (str_eq m "application/json") && not (str_eq m "multipart/form-data")

abbrev pub keys : List (String × Value) → List String
keys [] = []
keys ((k, v) ∷ m) = k ∷ keys m

unfoldable pub canonical_request_media : List (String × Value) → Result CatalogError (List String)
canonical_request_media schemas =
    if any other_media (keys schemas)
    then err (invalid "unsupported request media")
    else ok (keys schemas)

abbrev is_hex : ℕ → Bool
is_hex c = (leb b'0' c && leb c b'9') || (leb b'a' c && leb c b'f')

unfoldable pub is_lower_hex_digest : String → Bool
is_lower_hex_digest value = byte_len value == 64 && all is_hex (bytes value)

abbrev is_read : MistAction → Bool
is_read ordinary_read = true
is_read privileged_read = true
is_read create = false
is_read update = false
is_read delete = false
is_read execute = false

abbrev is_absent : Option String → Bool
is_absent none = true
is_absent (some s) = false

abbrev pub is_text : String → Option String → Bool
is_text s none = false
is_text s (some t) = str_eq t s

abbrev is_reason : Option String → Bool
is_reason none = false
is_reason (some s) = not (is_empty s)

abbrev pub projection : String
projection = "request_projection_equals_response"

abbrev policy_error : MistOperation → CatalogError
policy_error o = invalid (append_text "invalid verification policy for " o.operation_id)

-- The follow-up of an operation exists, and is a `GET`.
unfoldable pub check_follow_up :
    (String → Option MistOperation) → MistOperation → Result CatalogError (Unit {0})
check_follow_up operation_of o = do
  id ←
      ok_or o.follow_up_operation_id
        (invalid (append_text "missing follow-up read for " o.operation_id))
  follow_up ←
      ok_or (operation_of id) (invalid (append_text "unknown follow-up read for " o.operation_id))
  refuse_if (not (str_eq follow_up.method "GET"))
      (invalid (append_text "non-read follow-up for " o.operation_id))

unfoldable pub check_policy :
    (String → Option MistOperation)
    → MistOperation
    → VerificationPolicy
    → Result CatalogError (Unit {0})
check_policy operation_of o no_verification =
    refuse_if
      (not (
        is_read o.action
        && is_absent o.follow_up_operation_id
        && is_absent o.verification_predicate
        && is_absent o.verification_reason))
      (policy_error o)
check_policy operation_of o follow_up_read =
    if is_absent o.verification_reason && is_text projection o.verification_predicate
    then check_follow_up operation_of o
    else err (policy_error o)
check_policy operation_of o api_acknowledged =
    refuse_if
      (not (
        is_absent o.follow_up_operation_id
        && is_absent o.verification_predicate
        && is_reason o.verification_reason))
      (policy_error o)

-- The loop over the operations; `operation_of` is the lookup in the index.
unfoldable pub validate_verification :
    (String → Option MistOperation) → List MistOperation → Result CatalogError (Unit {0})
validate_verification operation_of [] = ok tt
validate_verification operation_of (o ∷ os) =
    check_policy operation_of o o.verification >> validate_verification operation_of os
