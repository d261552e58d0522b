-- ===== src/Catalog/Derived.antt =====
-- crates/rustmistmcp-core/src/catalog.rs: the fields of an operation record that follow from others,
-- and are compared with what the record says.
use rustmistmcp.Prelude.{
  Bool, true, false, ◌&&◌, ◌||◌, List, [], ◌∷◌, String, Result, ok, err, str_eq, contains_str,
  contains_text, if◌then◌else◌,
}
use rustmistmcp.Catalog.{
  MistAction, ordinary_read, privileged_read, create, update, delete, execute, TargetSelector,
  no_target, org_target, site_target, msp_target, PaginationMode, no_pages, page_limit,
  search_after, CatalogError, invalid, MistParameter,
}

-- `if found { targets.push(target) }`, with the targets that are pushed later
abbrev push_if : Bool → TargetSelector → List TargetSelector → List TargetSelector
push_if found target later = if found then target ∷ later else later

-- `if targets.is_empty() { targets.push(TargetSelector::None) }`
abbrev or_no_target : List TargetSelector → List TargetSelector
or_no_target [] = no_target ∷ []
or_no_target (t ∷ ts) = t ∷ ts

unfoldable pub targets_for_path : String → List TargetSelector
targets_for_path path = or_no_target (
    push_if (contains_str "{org_id}" path) org_target (
      push_if (contains_str "{site_id}" path) site_target
        (push_if (contains_str "{msp_id}" path) msp_target [])))

abbrev by_get : MistAction → Bool
by_get ordinary_read = true
by_get privileged_read = true
by_get create = false
by_get update = true
by_get delete = false
by_get execute = true

abbrev by_put : MistAction → Bool
by_put ordinary_read = false
by_put privileged_read = false
by_put create = false
by_put update = true
by_put delete = false
by_put execute = true

abbrev by_delete : MistAction → Bool
by_delete ordinary_read = false
by_delete privileged_read = false
by_delete create = false
by_delete update = false
by_delete delete = true
by_delete execute = false

abbrev by_post : MistAction → Bool
by_post ordinary_read = false
by_post privileged_read = false
by_post create = true
by_post update = true
by_post delete = true
by_post execute = true

unfoldable pub method_allows_action : String → MistAction → Bool
method_allows_action method action =
    if str_eq method "GET"
    then by_get action
    else if str_eq method "PUT" || str_eq method "PATCH"
    then by_put action
    else if str_eq method "DELETE"
    then by_delete action
    else if str_eq method "POST"
    then by_post action
    else false

unfoldable pub transport_for_media : List String → Result CatalogError String
transport_for_media [] = ok "none"
transport_for_media (media ∷ []) =
    if str_eq media "application/json"
    then ok "json"
    else if str_eq media "multipart/form-data"
    then ok "multipart"
    else err (invalid "unsupported request-media combination")
transport_for_media (json ∷ multipart ∷ []) =
    if str_eq json "application/json" && str_eq multipart "multipart/form-data"
    then ok "content_type_select"
    else err (invalid "unsupported request-media combination")
transport_for_media (a ∷ b ∷ c ∷ rest) = err (invalid "unsupported request-media combination")

-- The names of the query parameters; a name twice counts once for what is asked of them.
unfoldable pub query_names : List MistParameter → List String
query_names [] = []
query_names (p ∷ ps) =
    let rest = query_names ps in if str_eq p.location "query" then p.name ∷ rest else rest

unfoldable pub pagination_for_parameters : List MistParameter → PaginationMode
pagination_for_parameters ps =
    if contains_text (query_names ps) "search_after"
    then search_after
    else if contains_text (query_names ps) "page" || contains_text (query_names ps) "limit"
    then page_limit
    else no_pages
