-- ===== src/Catalog/Selected.antt =====
-- What the derived fields of an operation record mean for the calls that it serves.
use rustmistmcp.Prelude.{
  ◌≡◌, refl, ◌↔◌, ◌⊎◌, inl, inr, true, List, [], ◌∷◌, String, arith, eq_iff, contains_str, In,
}
use rustmistmcp.ExecuteClass.Partition.{contains_text_iff}
use rustmistmcp.Catalog.{
  MistAction, ordinary_read, privileged_read, create, update, delete, execute, TargetSelector,
  no_target, org_target, site_target, msp_target, PaginationMode, no_pages, page_limit,
  search_after, MistParameter,
}
use rustmistmcp.Catalog.Derived.{
  targets_for_path, method_allows_action, query_names, pagination_for_parameters,
}

-- The methods by which an action can be done.
abbrev pub CanDo : String → MistAction → Type 0
CanDo method ordinary_read = method ≡ "GET"
CanDo method privileged_read = method ≡ "GET"
CanDo method create = method ≡ "POST"
CanDo method update = (method ≡ "GET") ⊎ (method ≡ "PUT") ⊎ (method ≡ "PATCH") ⊎ (method ≡ "POST")
CanDo method delete = (method ≡ "DELETE") ⊎ (method ≡ "POST")
CanDo method execute = (method ≡ "GET") ⊎ (method ≡ "PUT") ⊎ (method ≡ "PATCH") ⊎ (method ≡ "POST")

pub allowed_sound :
    (method : String) (action : MistAction)
    → method_allows_action method action ≡ true
    → CanDo method action
unfolding method_allows_action
allowed_sound method ordinary_read h = ground (
  arith,
  eq_iff method "GET",
  eq_iff method "PUT",
  eq_iff method "PATCH",
  eq_iff method "DELETE",
  eq_iff method "POST",
)
allowed_sound method privileged_read h = ground (
  arith,
  eq_iff method "GET",
  eq_iff method "PUT",
  eq_iff method "PATCH",
  eq_iff method "DELETE",
  eq_iff method "POST",
)
allowed_sound method create h = ground (
  arith,
  eq_iff method "GET",
  eq_iff method "PUT",
  eq_iff method "PATCH",
  eq_iff method "DELETE",
  eq_iff method "POST",
)
allowed_sound method update h = ground (
  arith,
  eq_iff method "GET",
  eq_iff method "PUT",
  eq_iff method "PATCH",
  eq_iff method "DELETE",
  eq_iff method "POST",
)
allowed_sound method delete h = ground (
  arith,
  eq_iff method "GET",
  eq_iff method "PUT",
  eq_iff method "PATCH",
  eq_iff method "DELETE",
  eq_iff method "POST",
)
allowed_sound method execute h = ground (
  arith,
  eq_iff method "GET",
  eq_iff method "PUT",
  eq_iff method "PATCH",
  eq_iff method "DELETE",
  eq_iff method "POST",
)

allowed_complete :
    (method : String) (action : MistAction)
    → CanDo method action
    → method_allows_action method action ≡ true
unfolding method_allows_action
allowed_complete method ordinary_read h = rw h refl
allowed_complete method privileged_read h = rw h refl
allowed_complete method create h = rw h refl
allowed_complete method update (inl h) = rw h refl
allowed_complete method update (inr (inl h)) = rw h refl
allowed_complete method update (inr (inr (inl h))) = rw h refl
allowed_complete method update (inr (inr (inr h))) = rw h refl
allowed_complete method delete (inl h) = rw h refl
allowed_complete method delete (inr h) = rw h refl
allowed_complete method execute (inl h) = rw h refl
allowed_complete method execute (inr (inl h)) = rw h refl
allowed_complete method execute (inr (inr (inl h))) = rw h refl
allowed_complete method execute (inr (inr (inr h))) = rw h refl

-- Reads are done by GET alone, creations by POST alone, deletions by DELETE or POST, and updates and
-- executions by every method but DELETE.
pub method_allows_action_iff :
    (method : String) (action : MistAction)
    → (method_allows_action method action ≡ true) ↔ CanDo method action
method_allows_action_iff method action =
    (allowed_sound method action, allowed_complete method action)

-- The query parameters that set each mode.
abbrev pub IsMode : List MistParameter → PaginationMode → Type 0
IsMode ps search_after = In "search_after" (query_names ps)
IsMode ps page_limit =
    (¬ In "search_after" (query_names ps))
    × (In "page" (query_names ps) ⊎ In "limit" (query_names ps))
IsMode ps no_pages =
    (¬ In "search_after" (query_names ps))
    × (¬ In "page" (query_names ps))
    × (¬ In "limit" (query_names ps))

-- An operation is paged by `search_after` exactly when it has that query parameter, by page and limit
-- when it has one of these and not the former, and otherwise not at all.
pub pagination_for_parameters_iff :
    (ps : List MistParameter) (mode : PaginationMode)
    → (pagination_for_parameters ps ≡ mode) ↔ IsMode ps mode
unfolding pagination_for_parameters
pagination_for_parameters_iff ps mode = ground (
  arith,
  contains_text_iff (query_names ps) "search_after",
  contains_text_iff (query_names ps) "page",
  contains_text_iff (query_names ps) "limit",
)

abbrev pub Holds : String → String → Type 0
Holds name template = contains_str name template ≡ true

-- The placeholders of a template with a single selector.
abbrev pub IsOnly : TargetSelector → String → Type 0
IsOnly no_target template =
    (¬ Holds "{org_id}" template) × (¬ Holds "{site_id}" template) × (¬ Holds "{msp_id}" template)
IsOnly org_target template =
    Holds "{org_id}" template × (¬ Holds "{site_id}" template) × (¬ Holds "{msp_id}" template)
IsOnly site_target template =
    (¬ Holds "{org_id}" template) × Holds "{site_id}" template × (¬ Holds "{msp_id}" template)
IsOnly msp_target template =
    (¬ Holds "{org_id}" template) × (¬ Holds "{site_id}" template) × Holds "{msp_id}" template

-- A path template has one selector exactly when it has that placeholder and neither of the others; no
-- target when it has none of them.
pub targets_for_path_iff :
    (template : String) (selector : TargetSelector)
    → (targets_for_path template ≡ selector ∷ []) ↔ IsOnly selector template
unfolding targets_for_path
targets_for_path_iff template no_target = ground arith
targets_for_path_iff template org_target = ground arith
targets_for_path_iff template site_target = ground arith
targets_for_path_iff template msp_target = ground arith
