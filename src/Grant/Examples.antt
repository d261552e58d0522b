-- ===== src/Grant/Examples.antt =====
-- A grant of one read on one organization.
use rustmistmcp.Prelude.{◌≡◌, refl, ◌↔◌, true, [], ◌∷◌, ok, is_err}
use rustmistmcp.Catalog.{ordinary_read}
use rustmistmcp.Target.{
  MistTarget, org, is_canonical_uuid, scan_uuid, split_once, parse, parse_parts, org_target,
  subject,
}
use rustmistmcp.Grant.{
  MistGrant, collect_set, validate_list, validate_subjects, is_bad_operation_id,
  validate_operation_ids, validate,
}
use rustmistmcp.Grant.Valid.{IsValid, validate_iff}

abbrev lab : MistTarget
lab = record { kind = org; id = "00000000-0000-0000-0000-00000000000a" }

abbrev reader : MistGrant
reader = record {
  allowed_operations = "listOrgSites" ∷ [];
  actions = ordinary_read ∷ [];
  subjects = lab ∷ [];
}

abbrev repeated : MistGrant
repeated = record {
  allowed_operations = "listOrgSites" ∷ "listOrgSites" ∷ [];
  actions = ordinary_read ∷ [];
  subjects = lab ∷ [];
}

reader_accepted : validate reader ≡ ok tt
unfolding validate validate_list collect_set validate_subjects validate_operation_ids
    is_bad_operation_id subject parse parse_parts split_once org_target is_canonical_uuid scan_uuid
reader_accepted = refl

repeated_refused : is_err (validate repeated) ≡ true
unfolding validate validate_list collect_set
repeated_refused = refl

validate_iff_example : (validate reader ≡ ok tt) ↔ IsValid reader
validate_iff_example = validate_iff reader
