-- ===== src/Sites.antt =====
-- crates/rustmistmcp/src/site_discovery.rs, and the site map of
-- crates/rustmistmcp/src/server/mod.rs: which sites belong to which organization.
pub mod Bounds
pub mod Merged
mod Examples
use mathlib.Core.Option
use rustmistmcp.Prelude.{
  ℕ, zero, suc, ◌+◌, ◌-◌, Bool, true, false, not, ◌&&◌, ◌||◌, List, [], ◌∷◌, Option, none, some,
  String, Result, ok, err, ◌>>=◌, ◌>>◌, refuse_if, map_err, is_err, any, ltb, leb, str_eq, length,
  if◌then◌else◌, contains_text,
}
use rustmistmcp.Prelude.Maps
use rustmistmcp.Json.{Value, arr, num, unsigned, Items, nil, cons, count_items, get_key, as_str}
use rustmistmcp.Target.{org_target, site_target}
use rustmistmcp.Error.{MistError, invalid_response}
use rustmistmcp.Request.{MistRequest, MistResponse, MistResponseBody, json, text, binary, empty}

abbrev pub list_org_sites_operation : String
list_org_sites_operation = "listOrgSites"

abbrev pub page_limit : ℕ
page_limit = 100

abbrev pub max_pages_per_org : ℕ
max_pages_per_org = 64

abbrev pub max_total_sites : ℕ
max_total_sites = 4096

pub data OrgDiscoveryError : Type 0 where
  mist : MistError → OrgDiscoveryError
  http_status : ℕ → OrgDiscoveryError
  not_an_array : OrgDiscoveryError

pub data OrgOutcome : Type 0 where
  complete truncated : OrgOutcome

-- Site identifiers with the organization of each.
abbrev pub SiteMap : Type 0
SiteMap = List (String × String)

pub record SiteDiscovery : Type 0 where
  pub sites : SiteMap
  pub incomplete_orgs : List String

-- `site.get("id").and_then(as_str)`
abbrev pub site_id_of : Value → Option String
site_id_of site = elim (get_key "id" site) [ none ↦ none | some v ↦ as_str v ]

-- The loop over one page: its map at the end, and whether the cap stopped it.
unfoldable pub insert_page : String → Items → SiteMap → SiteMap × OrgOutcome
insert_page org_id nil sites = (sites, complete)
insert_page org_id (cons site rest) sites =
    let skipped = insert_page org_id rest sites in
    elim (site_id_of site) [
      | none ↦ skipped
      | some site_id ↦
          let inserted = insert_page org_id rest (Maps.insert site_id org_id sites) in
          if is_err (site_target site_id)
          then skipped
          else if leb max_total_sites (length sites) && not (Maps.contains_key site_id sites)
          then (sites, truncated)
          else inserted
    ]

abbrev pub is_success : ℕ → Bool
is_success code = leb 200 code && ltb code 300

-- `let MistResponseBody::Json(Value::Array(page_sites)) = &response.body`
abbrev pub as_page : MistResponseBody → Result OrgDiscoveryError Items
as_page (json (arr sites)) = ok sites
as_page _ = err not_an_array

unfoldable pub page_request : String → ℕ → MistRequest
page_request org_id page = record {
  operation_id = list_org_sites_operation;
  path = ("org_id", org_id) ∷ [];
  query = ("limit", num (unsigned page_limit)) ∷ ("page", num (unsigned page)) ∷ [];
  json = none;
  cursor = none;
}

-- The client, and the checks of requests and responses (Request.Checks and Request.Responses).
module _ (validate_request : MistRequest → Result MistError MistRequest)
    (execute : MistRequest → Result MistError MistResponse)
    (validate_response : MistResponse → Result MistError MistResponse) where
  -- One page, up to its list of sites.
  unfoldable pub fetch_page : String → ℕ → Result OrgDiscoveryError Items
  fetch_page org_id page = do
    request ← map_err mist (validate_request (page_request org_id page))
    response ← map_err mist (execute request)
    refuse_if (not (str_eq response.operation_id list_org_sites_operation)) (
        mist (
          invalid_response list_org_sites_operation
            "response operation does not match request operation"))
    checked ← map_err mist (validate_response response)
    refuse_if (not (is_success checked.status)) (http_status checked.status)
    as_page checked.body

  -- What a page leads to: the next one, or the end of the loop. `next` is the rest of the loop.
  unfoldable pub after_page :
      (SiteMap → SiteMap × Result OrgDiscoveryError OrgOutcome)
      → Items
      → SiteMap × OrgOutcome
      → SiteMap × Result OrgDiscoveryError OrgOutcome
  after_page next page (sites, truncated) = (sites, ok truncated)
  after_page next page (sites, complete) =
      let later = next sites in
      if ltb (count_items page) page_limit then (sites, ok complete) else later

  -- The loop over the pages, of which `left` are left.
  unfoldable pub discover_pages :
      ℕ → ℕ → String → SiteMap → SiteMap × Result OrgDiscoveryError OrgOutcome
  discover_pages zero page org_id sites = (sites, ok complete)
  discover_pages (suc left) page org_id sites = elim (fetch_page org_id page) [
    | err e ↦ (sites, err e)
    | ok items ↦
        after_page (λ found. discover_pages left (suc page) org_id found) items
          (insert_page org_id items sites)
  ]

  unfoldable pub discover_org_sites :
      String → SiteMap → SiteMap × Result OrgDiscoveryError OrgOutcome
  discover_org_sites org_id sites = discover_pages max_pages_per_org 1 org_id sites

  -- `Ok(Complete)` leaves the set of incomplete organizations as it is.
  abbrev pub is_complete : Result OrgDiscoveryError OrgOutcome → Bool
  is_complete (ok complete) = true
  is_complete (ok truncated) = false
  is_complete (err e) = false

  -- The loop over the organizations, from what is found so far.
  unfoldable pub discover_from : List String → SiteMap → List String → SiteDiscovery
  discover_from [] sites incomplete = record { sites = sites; incomplete_orgs = incomplete }
  discover_from (org_id ∷ orgs) sites incomplete =
      let (found, outcome) = discover_org_sites org_id sites in
      discover_from orgs found (if is_complete outcome then incomplete else org_id ∷ incomplete)

  unfoldable pub discover_sites : List String → SiteDiscovery
  discover_sites allowed_orgs = discover_from allowed_orgs [] []

-- The loop that keeps the previous entries of the incomplete organizations.
unfoldable pub keep_previous : List String → SiteMap → SiteMap → SiteMap
keep_previous incomplete [] sites = sites
keep_previous incomplete ((site_id, org_id) ∷ previous) sites =
    keep_previous incomplete previous
      (if contains_text incomplete org_id then Maps.insert site_id org_id sites else sites)

unfoldable pub merge_refresh : SiteDiscovery → SiteMap → SiteMap
merge_refresh d previous =
    let kept =
      keep_previous d.incomplete_orgs previous
        (Maps.retain (λ org_id. not (contains_text d.incomplete_orgs org_id)) d.sites) in
    if leb 1 (length d.incomplete_orgs) then kept else d.sites

-- `MistServerError::InvalidOrganization`
pub data MistServerError : Type 0 where
  invalid_organization : MistServerError

abbrev pub is_bad_site : List String → String × String → Bool
is_bad_site allowed_orgs (site_id, org_id) =
    is_err (site_target site_id)
    || is_err (org_target org_id)
    || not (contains_text allowed_orgs org_id)

unfoldable pub validate_sites : SiteMap → List String → Result MistServerError (Unit {0})
validate_sites sites allowed_orgs =
    refuse_if (ltb max_total_sites (length sites) || any (is_bad_site allowed_orgs) sites)
      invalid_organization

-- `replace_sites`: the map in force after it, and its answer.
unfoldable pub replace_sites :
    List String → SiteMap → SiteMap → SiteMap × Result MistServerError (Unit {0})
replace_sites allowed_orgs current sites = elim (validate_sites sites allowed_orgs) [
  | ok _ ↦ (sites, ok tt)
  | err e ↦ (current, err e)
]

-- One turn of `spawn_refresh_loop`, with what the client answers in this turn.
unfoldable pub refresh :
    (MistRequest → Result MistError MistRequest)
    → (MistResponse → Result MistError MistResponse)
    → List String
    → SiteMap
    → (MistRequest → Result MistError MistResponse)
    → SiteMap
refresh validate_request validate_response allowed_orgs current execute =
    (replace_sites allowed_orgs current (
      merge_refresh (discover_sites validate_request execute validate_response allowed_orgs)
        current)).0

-- Turn after turn.
unfoldable pub refresh_all :
    (MistRequest → Result MistError MistRequest)
    → (MistResponse → Result MistError MistResponse)
    → List String
    → SiteMap
    → List (MistRequest → Result MistError MistResponse)
    → SiteMap
refresh_all validate_request validate_response allowed_orgs current [] = current
refresh_all validate_request validate_response allowed_orgs current (execute ∷ later) =
    refresh_all validate_request validate_response allowed_orgs
      (refresh validate_request validate_response allowed_orgs current execute) later
