-- ===== src/Catalog/Examples.antt =====
-- Derived fields of the listing of an organization's sites.
use rustmistmcp.Prelude.{
  true, replace_from, append_text, contains_codes, ◌≡◌, refl, [], ◌∷◌, contains_str,
}
use rustmistmcp.Json.{null, obj, end}
use rustmistmcp.Catalog.{create, org_target, site_target, MistParameter}
use rustmistmcp.Catalog.Derived.{
  pagination_for_parameters, query_names, targets_for_path, method_allows_action,
  transport_for_media,
}
use rustmistmcp.Prelude.{
  ok, false, String, Option, none, some, List, ℕ, codes, All, if◌then◌else◌, str_eq,
}
use rustmistmcp.Prelude.{◌++◌}
use rustmistmcp.Config.{split_at}
use rustmistmcp.Catalog.{MistOperation, update, follow_up_read}
use rustmistmcp.Catalog.Selected.{CanDo}
use rustmistmcp.Catalog.Record.{
  validate_operation, has_place, has_class, has_media, has_schemas, response_media,
}
use rustmistmcp.Catalog.Valid.{validate_operation_sound}
use rustmistmcp.Catalog.Checked.{
  scope_for_path, is_lower_hex_digest, canonical_request_media, safe_path, safe_segment,
  strip_prefix, has_code, validate_verification, check_policy, check_follow_up, projection,
}
use rustmistmcp.Catalog.ToolName.{tool_name, split_words, join_words, to_lowercase}
use rustmistmcp.Catalog.Named.{letters, letters-tool_name}
use rustmistmcp.Catalog.Verified.{IsVerified, IsPlain, validate_verification_sound, safe_path_sound}
use rustmistmcp.Request.Examples.{list_org_sites}

abbrev page : MistParameter
page = record { name = "page"; location = "query"; required = false; schema = null }

both_selectors :
    targets_for_path "/api/v1/orgs/{org_id}/sites/{site_id}" ≡ org_target ∷ site_target ∷ []
unfolding targets_for_path contains_str
both_selectors = refl

mixed_media :
    transport_for_media ("application/json" ∷ "multipart/form-data" ∷ []) ≡ ok "content_type_select"
unfolding transport_for_media
mixed_media = refl

creation_by_get : method_allows_action "GET" create ≡ false
unfolding method_allows_action
creation_by_get = refl

safe_path_sound_example :
    (rest : List ℕ) × (strip_prefix (codes "/api/v1/") (codes "/api/v1/orgs/{org_id}/sites")
      ≡ some rest)
    × All IsPlain (split_at b'/' rest)
    × (has_code b'?' (codes "/api/v1/orgs/{org_id}/sites") ≡ false)
    × (has_code b'#' (codes "/api/v1/orgs/{org_id}/sites") ≡ false)
unfolding safe_path safe_segment split_at
safe_path_sound_example = safe_path_sound "/api/v1/orgs/{org_id}/sites" refl

-- The lookup in a catalogue of the one operation.
abbrev operation_of : String → Option MistOperation
operation_of id = if str_eq id "listOrgSites" then some list_org_sites else none

-- A write whose answer is compared with a later read.
abbrev checked_write : MistOperation
checked_write = record list_org_sites {
  operation_id = "updateOrgSites";
  method = "PUT";
  action = update;
  verification = follow_up_read;
  follow_up_operation_id = some "listOrgSites";
  verification_predicate = some projection;
}

validate_verification_sound_example :
    All (λ o. IsVerified operation_of o o.verification) (list_org_sites ∷ checked_write ∷ [])
unfolding validate_verification check_policy check_follow_up
validate_verification_sound_example =
    validate_verification_sound operation_of (list_org_sites ∷ checked_write ∷ []) refl

letters-tool_name_example :
    letters (codes "mist_get_site_wifi_stats")
    ≡ codes "mist" ++ to_lowercase (codes "getSiteWiFiStats")
unfolding tool_name replace_from split_words join_words
letters-tool_name_example =
    letters-tool_name (λ name. "") "getSiteWiFiStats" (codes "mist_get_site_wifi_stats") refl

abbrev digest : String
digest = "22f55432535ab38f6c0539392a729b8fd515a9ccae9df693fbd4ff23d40b8fac"

-- The listing with all its derived fields.
abbrev whole_record : MistOperation
whole_record = record list_org_sites {
  classification_source_fingerprint = digest;
  parameters =
      record { name = "page"; location = "query"; required = false; schema = obj end } ∷ [];
  source_fingerprint = digest;
}

validate_operation_sound_example :
    (whole_record.operation_key
      ≡ append_text whole_record.method (append_text " " whole_record.path))
    × (safe_path whole_record.path ≡ true)
    × CanDo whole_record.method whole_record.action
    × (whole_record.target_selectors ≡ targets_for_path whole_record.path)
    × (transport_for_media whole_record.request_media_types ≡ ok whole_record.transport)
    × (letters (codes whole_record.tool)
        ≡ codes "mist" ++ to_lowercase (codes whole_record.operation_id))
unfolding validate_operation has_place has_class has_media has_schemas tool_name replace_from
    split_words join_words safe_path safe_segment split_at scope_for_path is_lower_hex_digest
    method_allows_action targets_for_path contains_str contains_codes canonical_request_media
    transport_for_media pagination_for_parameters query_names response_media
validate_operation_sound_example =
    validate_operation_sound (λ name. "") whole_record (some "GET /api/v1/orgs/{org_id}") refl
