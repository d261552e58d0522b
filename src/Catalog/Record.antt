-- ===== src/Catalog/Record.antt =====
-- crates/rustmistmcp-core/src/catalog.rs: `validate_operation`, the checks of one record. The entries of
-- a `BTreeMap` stand in the order of their keys.
use rustmistmcp.Prelude.{
  ℕ, Bool, true, false, not, ◌&&◌, ◌||◌, List, [], ◌∷◌, Option, none, some, String, Result,
  append_text, if◌then◌else◌, codes, bytes, all, ltb, ◌==◌, refuse_if, ◌>>=◌, ◌>>◌, str_eq,
  is_empty,
}
use rustmistmcp.Config.{same_codes}
use rustmistmcp.Json.{Value, obj}
use rustmistmcp.Catalog.{
  CatalogError, invalid, MistOperation, TargetSelector, no_target, org_target, site_target,
  msp_target, same_capability, same_pagination,
}
use rustmistmcp.Catalog.Derived.{
  targets_for_path, method_allows_action, transport_for_media, pagination_for_parameters,
}
use rustmistmcp.Catalog.Checked.{
  safe_path, scope_for_path, canonical_request_media, is_lower_hex_digest, keys,
}
use rustmistmcp.Catalog.ToolName.{tool_name}

-- `a < b` of two texts, as bytes
abbrev pub is_before : List ℕ → List ℕ → Bool
is_before xs [] = false
is_before [] (b ∷ ys) = true
is_before (a ∷ xs) (b ∷ ys) = ltb a b || (a == b && is_before xs ys)

abbrev pub is_next : Option String → String → Bool
is_next none key = true
is_next (some previous) key = is_before (bytes previous) (bytes key)

abbrev pub is_scope : Option (List ℕ) → String → Bool
is_scope none scope = false
is_scope (some label) scope = same_codes label (codes scope)

abbrev selector_rank : TargetSelector → ℕ
selector_rank no_target = 0
selector_rank org_target = 1
selector_rank site_target = 2
selector_rank msp_target = 3

abbrev pub same_selectors : List TargetSelector → List TargetSelector → Bool
same_selectors [] [] = true
same_selectors [] (t ∷ ts) = false
same_selectors (s ∷ ss) [] = false
same_selectors (s ∷ ss) (t ∷ ts) = selector_rank s == selector_rank t && same_selectors ss ts

abbrev pub same_texts : List String → List String → Bool
same_texts [] [] = true
same_texts [] (t ∷ ts) = false
same_texts (s ∷ ss) [] = false
same_texts (s ∷ ss) (t ∷ ts) = str_eq s t && same_texts ss ts

-- A `BTreeSet` of texts: in their order, each one once.
abbrev insert_text : String → List String → List String
insert_text s [] = s ∷ []
insert_text s (t ∷ ts) =
    let rest = insert_text s ts in
    if str_eq s t then t ∷ ts else if is_before (bytes s) (bytes t) then s ∷ t ∷ ts else t ∷ rest

abbrev insert_texts : List String → List String → List String
insert_texts [] set = set
insert_texts (s ∷ ss) set = insert_text s (insert_texts ss set)

unfoldable pub response_media : List (String × List (String × Value)) → List String
response_media [] = []
response_media ((status, media) ∷ responses) = insert_texts (keys media) (response_media responses)

abbrev no_texts : List String → Bool
no_texts [] = true
no_texts (s ∷ ss) = false

-- `Value::is_object`
abbrev is_object : Value → Bool
is_object (obj fs) = true
is_object _ = false

abbrev are_objects : List (String × Value) → Bool
are_objects [] = true
are_objects ((k, v) ∷ m) = is_object v && are_objects m

abbrev have_objects : List (String × List (String × Value)) → Bool
have_objects [] = true
have_objects ((status, media) ∷ responses) = are_objects media && have_objects responses

abbrev is_method : String → Bool
is_method m =
    str_eq m "GET" || str_eq m "POST" || str_eq m "PUT" || str_eq m "PATCH" || str_eq m "DELETE"

-- The conditions before the name of the tool is derived.
unfoldable pub has_place : Option String → MistOperation → Bool
has_place previous_key o =
    is_next previous_key o.operation_key
    && safe_path o.path
    && str_eq o.operation_key (append_text o.method (append_text " " o.path))
    && is_scope (scope_for_path o.path) o.scope

-- Those between the name and the media.
unfoldable pub has_class : List ℕ → MistOperation → Bool
has_class name o =
    same_codes name (codes o.tool)
    && is_method o.method
    && same_capability o.capability o.action
    && not (is_empty o.classification_reason)
    && is_lower_hex_digest o.classification_source_fingerprint
    && method_allows_action o.method o.action
    && same_selectors o.target_selectors (targets_for_path o.path)

unfoldable pub has_media : List String → MistOperation → Bool
has_media media o =
    same_texts o.request_media_types media
    && not (o.request_body_required && no_texts o.request_media_types)

-- Those after the transport.
unfoldable pub has_schemas : String → MistOperation → Bool
has_schemas transport o =
    str_eq o.transport transport
    && same_pagination o.pagination (pagination_for_parameters o.parameters)
    && same_texts (response_media o.responses) o.response_media_types
    && all (λ p. is_object p.schema) o.parameters
    && are_objects o.request_schemas
    && have_objects o.responses

unfoldable pub validate_operation :
    (List ℕ → String) → MistOperation → Option String → Result CatalogError (Unit {0})
validate_operation quoted o previous_key = do
  let failure = invalid (append_text "invalid operation record: " o.operation_id)
  refuse_if (not (has_place previous_key o)) failure
  name ← tool_name quoted o.operation_id
  refuse_if (not (has_class name o)) failure
  media ← canonical_request_media o.request_schemas
  refuse_if (not (has_media media o)) failure
  transport ← transport_for_media o.request_media_types
  refuse_if (not (has_schemas transport o)) failure
  refuse_if (not (is_lower_hex_digest o.source_fingerprint))
      (invalid (append_text "invalid source fingerprint syntax: " o.operation_id))
