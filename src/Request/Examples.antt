-- ===== src/Request/Examples.antt =====
-- A request for the sites of an organization, against a catalog of that one operation.
use rustmistmcp.Prelude.{
  ◌≡◌, refl, ◌↔◌, true, false, [], ◌∷◌, Option, none, some, String, ok, str_eq, if◌then◌else◌,
}
use rustmistmcp.Json.{obj, arr, end, nil}
use rustmistmcp.Catalog.{
  MistParameter, MistOperation, ordinary_read, org_target, page_limit, no_verification,
}
use rustmistmcp.Request.{MistRequest, MistResponse, json, validate_value_bounds}
use rustmistmcp.Request.Bounded.{IsBounded, validate_value_bounds_iff}
use rustmistmcp.Request.Checks.{Judge, show_status, validate_request}
use rustmistmcp.Request.Accepted.{IsAccepted, validate_request_iff}

abbrev pub org_parameter : MistParameter
org_parameter = record { name = "org_id"; location = "path"; required = true; schema = obj end }

abbrev pub list_org_sites : MistOperation
list_org_sites = record {
  operation_key = "GET /api/v1/orgs/{org_id}/sites";
  operation_id = "listOrgSites";
  tool = "mist_list_org_sites";
  method = "GET";
  path = "/api/v1/orgs/{org_id}/sites";
  scope = "orgs";
  summary = "";
  openapi_tags = [];
  capability = ordinary_read;
  action = ordinary_read;
  classification_reason = "read";
  classification_source_fingerprint = "";
  parameters = org_parameter ∷ [];
  target_selectors = org_target ∷ [];
  request_media_types = [];
  request_schemas = [];
  request_body_required = false;
  response_media_types = "application/json" ∷ [];
  responses = ("200", ("application/json", obj end) ∷ []) ∷ [];
  pagination = page_limit;
  verification = no_verification;
  follow_up_operation_id = none;
  verification_predicate = none;
  verification_reason = none;
  transport = "none";
  source_fingerprint = "";
}

abbrev pub catalog : String → Option MistOperation
catalog id = if str_eq id "listOrgSites" then some list_org_sites else none

abbrev pub any_value : Judge
any_value operation slot schema value direction = some none

abbrev ask : MistRequest
ask = record {
  operation_id = "listOrgSites";
  path = ("org_id", "00000000-0000-0000-0000-00000000000a") ∷ [];
  query = [];
  json = none;
  cursor = none;
}

abbrev pub answer : MistResponse
answer = record {
  operation_id = "listOrgSites";
  status = 200;
  body = json (arr nil);
  cursor = none;
  page = none;
}

status_text : show_status 404 ≡ "404"
unfolding show_status
status_text = refl

validate_value_bounds_iff_example :
    (validate_value_bounds (arr nil) 0 ≡ ok tt) ↔ IsBounded 0 (arr nil)
validate_value_bounds_iff_example = validate_value_bounds_iff (arr nil)

validate_request_iff_example :
    (validate_request any_value catalog "https://api.mist.com/" ask ≡ ok ask) ↔ (
      ◌≡◌ {A = MistRequest} ask ask
      × ((operation : MistOperation) × IsAccepted any_value catalog "https://api.mist.com/" ask
            operation))
validate_request_iff_example =
    validate_request_iff any_value catalog "https://api.mist.com/" ask ask
