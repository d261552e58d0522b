-- ===== src/Access/Examples.antt =====
-- Reads of one organization's sites by an agent and by a human, under a grant.
use rustmistmcp.Prelude.{
  ◌≡◌, refl, ◌↔◌, ◌⊎◌, true, false, [], ◌∷◌, Option, none, some, String, ok, contains_str,
}
use rustmistmcp.Prelude.Maps
use rustmistmcp.Prelude.{List}
use rustmistmcp.Json.{Value, arr, nil}
use rustmistmcp.Target
use rustmistmcp.Target.{MistTarget, MistTargetKind, is_canonical_uuid, scan_uuid, subject}
use rustmistmcp.Catalog.{ordinary_read, privileged_read, page_limit}
use rustmistmcp.Grant.{MistGrant, allows_operation, allows_action, allows_target}
use rustmistmcp.Request.{
  validate_request_bounds, validate_path_values, validate_query_names, validate_query_values,
  validate_body_value, validate_response_bounds, validate_value_bounds,
}
use rustmistmcp.Request.Checks.{
  show_status, validate_request, validate_parameters, validate_parameter_set,
  validate_parameter_list, validate_parameter, validate_schema, validate_json_body, first_extra,
  declared_names,
}
use rustmistmcp.Request.Responses.{
  validate_response, validate_response_body, check_body, check_json, try_schemas, json_schemas,
}
use rustmistmcp.Request.Examples.{list_org_sites, catalog, any_value, answer}
use rustmistmcp.Access.{
  ActorType, agent, CallerCtx, call_priority_for, target_for, authorize_grant, validate_page_limit,
  unconfigured,
}
use rustmistmcp.Access.Dispatch.{
  CatalogRead, Handler, ReadEnvelope, denied, admit, request_of, from_response, conclude, send,
  dispatch_admitted, dispatch_catalogued_read,
}
use rustmistmcp.Access.Authorized.{IsAdmitted, IsAuthorized, only_request, admit_iff, sent_iff}
use rustmistmcp.Pagination.{MistCursor}
use rustmistmcp.Access.Continue.{InvokeReadArgs, invoke_dispatcher}
use rustmistmcp.Access.Resumed.{Continues, continued_sent}
use rustmistmcp.Access.Answers.{Answered, answer_sound}

abbrev pub lab_id : String
lab_id = "00000000-0000-0000-0000-00000000000a"

abbrev lab : MistTarget
lab = record { kind = MistTargetKind.org; id = lab_id }

abbrev grant : MistGrant
grant = record {
  allowed_operations = "listOrgSites" ∷ [];
  actions = ordinary_read ∷ [];
  subjects = lab ∷ [];
}

abbrev pub caller : ActorType → Option CallerCtx
caller actor = some (record { token_name = "ops"; actor_type = actor; grant = some grant })

abbrev pub handler : Handler
handler = record {
  operation_of = catalog;
  origin = "https://api.mist.com/";
  allowed_orgs = lab_id ∷ [];
  sites = [];
  judge = any_value;
  response_len = λ r. some 100;
  cursor_len = λ c. some 100;
  encode_cursor = λ c. none;
  authorize_call = λ c tool subject. none;
  execute_as = λ r priority. ok answer;
  budget_status = none;
  redact = λ v. v;
  unknown_text = λ id capability. "unknown";
  converts = λ envelope. true;
}

abbrev read : CatalogRead
read = record {
  tool = "invoke_mist_read";
  operation_id = "listOrgSites";
  path = ("org_id", lab_id) ∷ [];
  query = [];
  cursor = none;
  capability = ordinary_read;
  redact_output = true;
}

abbrev privileged : CatalogRead
privileged = record {
  tool = "invoke_mist_privileged_read";
  operation_id = "listOrgSites";
  path = ("org_id", lab_id) ∷ [];
  query = [];
  cursor = none;
  capability = privileged_read;
  redact_output = true;
}

wrong_class_denied :
    (dispatch_catalogued_read handler privileged none).outcome ≡ denied "capability"
unfolding dispatch_catalogued_read admit target_for Maps.get Target.org_target is_canonical_uuid
    scan_uuid
wrong_class_denied = refl

abbrev envelope : ReadEnvelope
envelope = record {
  operation_id = "listOrgSites";
  target = some "org/00000000-0000-0000-0000-00000000000a";
  status = 200;
  content_type = "application/json";
  data_value = arr nil;
  next_cursor = none;
  page = none;
  truncated = false;
  budget_remaining = none;
}

read_answered : (dispatch_catalogued_read handler read (caller agent)).answer ≡ ok envelope
unfolding dispatch_catalogued_read admit target_for Maps.get Target.org_target is_canonical_uuid
    scan_uuid authorize_grant allows_operation allows_action allows_target unconfigured subject
    validate_page_limit dispatch_admitted send conclude from_response request_of call_priority_for
    validate_request validate_request_bounds validate_path_values validate_query_names
    validate_query_values validate_body_value validate_parameters validate_parameter_set
    validate_parameter_list validate_parameter validate_schema validate_json_body first_extra
    declared_names validate_response show_status validate_response_bounds validate_value_bounds
    validate_response_body check_body check_json try_schemas json_schemas contains_str
read_answered = refl

admit_iff_example :
    (admit handler read (caller agent) ≡ ok (list_org_sites, some lab))
    ↔ IsAdmitted handler read (caller agent) list_org_sites (some lab)
admit_iff_example = admit_iff handler read (caller agent) list_org_sites (some lab)

sent_iff_example :
    (IsAuthorized handler read (caller agent)
      × ((dispatch_catalogued_read handler read (caller agent)).sent
          ≡ only_request read (caller agent)))
    ⊎ ((¬ IsAuthorized handler read (caller agent))
        × ((dispatch_catalogued_read handler read (caller agent)).sent ≡ []))
sent_iff_example = sent_iff handler read (caller agent)

answer_sound_example : Answered handler read (caller agent) envelope
answer_sound_example = answer_sound handler read (caller agent) envelope read_answered

abbrev held : MistCursor
held = record {
  operation_id = "listOrgSites";
  origin = "https://api.mist.com/";
  mode = page_limit;
  value = "2";
  context = some (record { path = ("org_id", lab_id) ∷ []; query = []; target = some lab });
}

abbrev decode_held : String → Option MistCursor
decode_held encoded = some held

abbrev next_page : InvokeReadArgs
next_page = record {
  operation_id = "listOrgSites";
  path = none;
  query = none;
  cursor = some "7b7d";
}

continued_sent_example :
    (◌≡◌ {A = Option (List (String × String))} none none
      × ◌≡◌ {A = Option (List (String × Value))} none none
      × Continues handler decode_held "invoke_mist_read" ordinary_read
          (caller agent)
          next_page
          "7b7d")
    ⊎ ((invoke_dispatcher handler decode_held "invoke_mist_read" ordinary_read
          (caller agent)
          next_page).sent
        ≡ [])
continued_sent_example =
    continued_sent handler decode_held "invoke_mist_read" ordinary_read (caller agent) next_page
      "7b7d" refl
