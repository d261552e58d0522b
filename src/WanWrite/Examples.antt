-- ===== src/WanWrite/Examples.antt =====
-- Patches at concrete values.
use rustmistmcp.Prelude.{◌≡◌, ◌≢◌, refl, true, none, some, ok, arith, contains_str, eq_iff}
use rustmistmcp.Json.{null, bool, str, obj, Fields, end, field, get, insert, get_key}
use rustmistmcp.WanWrite.{
  authority_key, merge_entry, merge_patch, reject_redaction_placeholder, reject_config_authority,
}
use rustmistmcp.WanWrite.Merge.{expected, get-merge_patch}
use rustmistmcp.WanWrite.Authority.{
  authority_at, nested_null, null_removes_authority, merge_not_idempotent,
}

abbrev rename : Fields
rename = field "name" (str "edge") end

abbrev lan : Fields
lan = field "name" (str "lan") (field "vlan_id" (str "10") end)

abbrev port : Fields
port = field "port" (obj (field "mist_configured" (bool true) end)) end

rename_shows_all : reject_redaction_placeholder (obj rename) ≡ ok tt
unfolding reject_redaction_placeholder contains_str
rename_shows_all = refl

renamed :
    merge_patch (obj lan) (obj rename)
    ≡ obj (field "name" (str "edge") (field "vlan_id" (str "10") end))
unfolding merge_patch merge_entry get insert
renamed = refl

get-merge_patch_example :
    (after : Fields) × (merge_patch (obj lan) (obj rename) ≡ obj after)
    × (get "vlan_id" after ≡ expected (get "vlan_id" lan) (get "vlan_id" rename))
unfolding get
get-merge_patch_example = get-merge_patch "vlan_id" (obj lan) rename (refl, tt)

null_removes_authority_example :
    (reject_config_authority (obj (field "port" null end)) ≡ ok tt)
    × (authority_at "port" (merge_patch (obj port) (obj (field "port" null end))) ≡ none)
unfolding get
null_removes_authority_example =
    null_removes_authority "port" port (bool true) (ground (arith, eq_iff "port" authority_key))
      refl

merge_not_idempotent_example :
    (get_key "ip" (merge_patch (obj lan) (obj (nested_null "ip" "mask")))
      ≡ some (obj (field "mask" null end)))
    × (merge_patch
          (merge_patch (obj lan) (obj (nested_null "ip" "mask")))
          (obj (nested_null "ip" "mask"))
        ≢ merge_patch (obj lan) (obj (nested_null "ip" "mask")))
unfolding get
merge_not_idempotent_example = merge_not_idempotent "ip" "mask" lan refl
