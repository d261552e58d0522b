-- ===== src/WanWrite.antt =====
-- crates/rustmistmcp/src/server/wan_write.rs: write targets, the patches that are refused, and the
-- merge of a patch onto the object as read.
pub mod Targets
pub mod Refusals
pub mod Merge
pub mod Authority
mod Examples
use rustmistmcp.Prelude.{
  Bool, true, false, Option, none, some, String, Result, ok, err, ◌>>=◌, ◌>>◌, if◌then◌else◌,
  contains_str,
}
use rustmistmcp.Json.{
  Value, null, bool, num, str, arr, obj, Items, nil, cons, Fields, end, field, get, insert, remove,
  contains_key, is_null,
}
use rustmistmcp.Wan.{WanObject, network, service, service_policy, gateway_template, device_profile}

pub data WriteVerb : Type 0 where
  create update : WriteVerb

pub record WriteTarget : Type 0 where
  pub write_operation_id : String
  pub read_operation_id : String
  pub id_path_name : String
  pub privileged : Bool

abbrev target : String → String → String → Bool → WriteTarget
target write read id_name privileged = record {
  write_operation_id = write;
  read_operation_id = read;
  id_path_name = id_name;
  privileged = privileged;
}

unfoldable pub write_target : WanObject → WriteVerb → WriteTarget
write_target network create = target "createOrgNetwork" "getOrgNetwork" "network_id" false
write_target network update = target "updateOrgNetwork" "getOrgNetwork" "network_id" false
write_target service create = target "createOrgService" "getOrgService" "service_id" false
write_target service update = target "updateOrgService" "getOrgService" "service_id" false
write_target service_policy create =
    target "createOrgServicePolicy" "getOrgServicePolicy" "servicepolicy_id" false
write_target service_policy update =
    target "updateOrgServicePolicy" "getOrgServicePolicy" "servicepolicy_id" false
write_target gateway_template create =
    target "createOrgGatewayTemplate" "getOrgGatewayTemplate" "gatewaytemplate_id" true
write_target gateway_template update =
    target "updateOrgGatewayTemplate" "getOrgGatewayTemplate" "gatewaytemplate_id" true
write_target device_profile create =
    target "createOrgDeviceProfile" "getOrgDeviceProfile" "deviceprofile_id" true
write_target device_profile update =
    target "updateOrgDeviceProfile" "getOrgDeviceProfile" "deviceprofile_id" true

pub data PatchError : Type 0 where
  mist_configured redaction_placeholder : PatchError

abbrev pub placeholder : String
placeholder = "[REDACTED]"

unfoldable mutual
  pub reject_redaction_placeholder : Value → Result PatchError (Unit {0})
  reject_redaction_placeholder (str value) =
      if contains_str placeholder value then err redaction_placeholder else ok tt
  reject_redaction_placeholder (obj fs) = reject_placeholder_fields fs
  reject_redaction_placeholder (arr vs) = reject_placeholder_items vs
  reject_redaction_placeholder _ = ok tt

  pub reject_placeholder_fields : Fields → Result PatchError (Unit {0})
  reject_placeholder_fields end = ok tt
  reject_placeholder_fields (field k v fs) =
      reject_redaction_placeholder v >> reject_placeholder_fields fs

  pub reject_placeholder_items : Items → Result PatchError (Unit {0})
  reject_placeholder_items nil = ok tt
  reject_placeholder_items (cons v vs) =
      reject_redaction_placeholder v >> reject_placeholder_items vs

abbrev pub authority_key : String
authority_key = "mist_configured"

unfoldable mutual
  pub reject_config_authority : Value → Result PatchError (Unit {0})
  reject_config_authority (obj fs) =
      if contains_key authority_key fs then err mist_configured else reject_authority_fields fs
  reject_config_authority (arr vs) = reject_authority_items vs
  reject_config_authority _ = ok tt

  pub reject_authority_fields : Fields → Result PatchError (Unit {0})
  reject_authority_fields end = ok tt
  reject_authority_fields (field k v fs) = reject_config_authority v >> reject_authority_fields fs

  pub reject_authority_items : Items → Result PatchError (Unit {0})
  reject_authority_items nil = ok tt
  reject_authority_items (cons v vs) = reject_config_authority v >> reject_authority_items vs

-- The entries that a merge starts from: the object's, or none.
abbrev pub base_fields : Value → Fields
base_fields (obj fs) = fs
base_fields _ = end

-- One entry of a patch. `merge` merges the entry's value onto a value that stands at its key.
unfoldable pub merge_entry : (Value → Value) → Fields → String → Value → Fields
merge_entry merge merged k value = if is_null value then remove k merged else elim (get k merged) [
  | some existing ↦ insert k (merge existing) merged
  | none ↦ insert k value merged
]

-- `merge_patch before patch`, and the loop over the patch's entries.
unfoldable mutual
  pub merge_patch : Value → Value → Value
  merge_patch before (obj patch) = obj (merge_fields (base_fields before) patch)
  merge_patch before patch = patch

  pub merge_fields : Fields → Fields → Fields
  merge_fields merged end = merged
  merge_fields merged (field k value patch) =
      merge_fields (merge_entry (λ existing. merge_patch existing value) merged k value) patch
