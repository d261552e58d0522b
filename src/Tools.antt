-- ===== src/Tools.antt =====
-- crates/rustmistmcp/src/server/mod.rs: the named tools, each a read of the catalogue, and the split of
-- their arguments.
pub mod Table
pub mod Split
pub mod Calls
mod Examples
use rustmistmcp.Prelude.{
  ℕ, Bool, true, false, List, [], ◌∷◌, Option, none, some, String, Result, ok, err, ◌>>=◌, ok_or,
  map_err, contains_text, if◌then◌else◌,
}
use rustmistmcp.Prelude.Maps
use rustmistmcp.Json.{Value, null, bool, num, str, arr, obj, Fields, end, field, as_str, is_null}
use rustmistmcp.Catalog.{MistCapability, ordinary_read, privileged_read}
use rustmistmcp.Wan
use rustmistmcp.Wan.{
  WanScope, StatsMode, Resolved, resolve_scope, SleImpact, AppSource, site_apps, catalog_apps,
  WanObject, network, service, service_policy, gateway_template, device_profile, get_config,
  object_id_name,
}
use rustmistmcp.Access.{CallerCtx, MistCallError, invalid_target, ambiguous_scope}
use rustmistmcp.Access.Dispatch.{
  CatalogRead, Handler, Reply, call_error, failed, dispatch_catalogued_read,
}

abbrev pub known_tools : List String
known_tools =
    "apply_mist_change_set" ∷ "approve_mist_change_set" ∷ "get_mist_change_set" ∷ "get_mist_device"
    ∷ "get_mist_device_stats" ∷ "get_mist_insight" ∷ "get_mist_operation_schema" ∷ "get_mist_org"
    ∷ "get_mist_rrm" ∷ "get_mist_self" ∷ "get_mist_site" ∷ "get_mist_sle" ∷ "get_mist_sle_impact"
    ∷ "get_mist_wan_config" ∷ "get_mist_wan_edge_stats" ∷ "invoke_mist_privileged_read"
    ∷ "invoke_mist_read" ∷ "list_mist_alarm_definitions" ∷ "list_mist_applications"
    ∷ "list_mist_orgs" ∷ "list_mist_rogues" ∷ "list_mist_sites" ∷ "list_mist_sle_metrics"
    ∷ "list_mist_upgrades" ∷ "list_mist_wan_config" ∷ "list_mist_wan_edges" ∷ "list_mist_wlans"
    ∷ "plan_mist_change" ∷ "search_mist_alarms" ∷ "search_mist_audit_logs" ∷ "search_mist_bgp_peers"
    ∷ "search_mist_clients" ∷ "search_mist_events" ∷ "search_mist_inventory"
    ∷ "search_mist_operations" ∷ "search_mist_peer_paths" ∷ "search_mist_service_path_events"
    ∷ "search_mist_tunnels" ∷ "troubleshoot_mist" ∷ []

-- Tools that a wildcard scope leaves out.
abbrev pub restricted_tools : List String
restricted_tools =
    "apply_mist_change_set" ∷ "approve_mist_change_set" ∷ "get_mist_change_set" ∷ "get_mist_device"
    ∷ "get_mist_self" ∷ "get_mist_wan_config" ∷ "invoke_mist_privileged_read"
    ∷ "list_mist_wan_config" ∷ "list_mist_wlans" ∷ "plan_mist_change" ∷ "search_mist_audit_logs"
    ∷ []

-- What a named tool passes to `dispatch_named`.
pub record NamedRead : Type 0 where
  pub tool : String
  pub operation_id : String
  pub path_names : List String
  pub capability : MistCapability

abbrev pub named : String → String → List String → MistCapability → NamedRead
named tool operation_id path_names capability = record {
  tool = tool;
  operation_id = operation_id;
  path_names = path_names;
  capability = capability;
}

abbrev pub get_mist_device : NamedRead
get_mist_device =
    named "get_mist_device" "getSiteDevice" ("site_id" ∷ "device_id" ∷ []) privileged_read

abbrev pub get_mist_device_stats : NamedRead
get_mist_device_stats =
    named "get_mist_device_stats" "getSiteDeviceStats" ("site_id" ∷ "device_id" ∷ []) ordinary_read

abbrev pub get_mist_insight : NamedRead
get_mist_insight = named "get_mist_insight" "getSiteInsightMetrics" ("site_id" ∷ []) ordinary_read

abbrev pub get_mist_rrm : NamedRead
get_mist_rrm = named "get_mist_rrm" "getSiteCurrentChannelPlanning" ("site_id" ∷ []) ordinary_read

abbrev pub get_mist_self : NamedRead
get_mist_self = named "get_mist_self" "getSelf" ([]) privileged_read

abbrev pub get_mist_site : NamedRead
get_mist_site = named "get_mist_site" "getSiteInfo" ("site_id" ∷ []) ordinary_read

abbrev pub get_mist_sle : NamedRead
get_mist_sle =
    named "get_mist_sle" "getSiteSleSummaryTrend" ("site_id" ∷ "scope" ∷ "scope_id" ∷ "metric" ∷ [])
      ordinary_read

abbrev pub list_mist_rogues : NamedRead
list_mist_rogues = named "list_mist_rogues" "listSiteRogueAPs" ("site_id" ∷ []) ordinary_read

abbrev pub list_mist_sites : NamedRead
list_mist_sites = named "list_mist_sites" "listOrgSites" ("org_id" ∷ []) ordinary_read

abbrev pub list_mist_sle_metrics : NamedRead
list_mist_sle_metrics =
    named "list_mist_sle_metrics" "listSiteSlesMetrics" ("site_id" ∷ "scope" ∷ "scope_id" ∷ [])
      ordinary_read

abbrev pub list_mist_upgrades : NamedRead
list_mist_upgrades =
    named "list_mist_upgrades" "listSiteDeviceUpgrades" ("site_id" ∷ []) ordinary_read

abbrev pub list_mist_wlans : NamedRead
list_mist_wlans = named "list_mist_wlans" "listSiteWlans" ("site_id" ∷ []) privileged_read

abbrev pub list_mist_alarm_definitions : NamedRead
list_mist_alarm_definitions =
    named "list_mist_alarm_definitions" "listAlarmDefinitions" ([]) ordinary_read

abbrev pub search_mist_audit_logs : NamedRead
search_mist_audit_logs =
    named "search_mist_audit_logs" "listOrgAuditLogs" ("org_id" ∷ []) privileged_read

abbrev pub search_mist_clients : NamedRead
search_mist_clients =
    named "search_mist_clients" "searchSiteWirelessClients" ("site_id" ∷ []) ordinary_read

abbrev pub search_mist_events : NamedRead
search_mist_events =
    named "search_mist_events" "searchSiteSystemEvents" ("site_id" ∷ []) ordinary_read

abbrev pub search_mist_inventory : NamedRead
search_mist_inventory =
    named "search_mist_inventory" "searchOrgInventory" ("org_id" ∷ []) ordinary_read

abbrev pub troubleshoot_mist : NamedRead
troubleshoot_mist =
    named "troubleshoot_mist" "listSiteTroubleshootCalls" ("site_id" ∷ []) ordinary_read

abbrev pub named_resolved : String → Resolved → MistCapability → NamedRead
named_resolved tool r capability = named tool r.operation_id r.path_names capability

abbrev pub get_mist_sle_impact : SleImpact → NamedRead
get_mist_sle_impact impact =
    named_resolved "get_mist_sle_impact" (Wan.sle_impact impact) ordinary_read

-- Per device where a device is given.
abbrev pub get_mist_wan_edge_stats : Bool → NamedRead
get_mist_wan_edge_stats per_device =
    named_resolved "get_mist_wan_edge_stats" (Wan.wan_edge_stats per_device) ordinary_read

unfoldable pub list_mist_applications :
    AppSource → StatsMode → Option String → Result MistCallError NamedRead
list_mist_applications site_apps mode none = err ambiguous_scope
list_mist_applications site_apps mode (some site_id) =
    ok
      (named_resolved "list_mist_applications" (Wan.list_applications site_apps mode) ordinary_read)
list_mist_applications catalog_apps mode site_id = ok (
    named_resolved "list_mist_applications" (Wan.list_applications catalog_apps mode) ordinary_read)

abbrev pub scope_of : Option String → Option String → Result MistCallError WanScope
scope_of org_id site_id = map_err (λ e. ambiguous_scope) (resolve_scope org_id site_id)

-- Gateway templates and device profiles are privileged.
abbrev pub config_capability : WanObject → MistCapability
config_capability gateway_template = privileged_read
config_capability device_profile = privileged_read
config_capability network = ordinary_read
config_capability service = ordinary_read
config_capability service_policy = ordinary_read

unfoldable pub list_mist_wan_config :
    WanObject → Option String → Option String → Result MistCallError NamedRead
list_mist_wan_config object org_id site_id = scope_of org_id site_id >>= λ scope. ok (
    named_resolved "list_mist_wan_config" (Wan.list_config object scope) (config_capability object))

unfoldable pub list_mist_wan_edges : Option String → Option String → Result MistCallError NamedRead
list_mist_wan_edges org_id site_id = scope_of org_id site_id >>= λ scope.
    ok (named_resolved "list_mist_wan_edges" (Wan.wan_edges scope) ordinary_read)

unfoldable pub search_mist_alarms :
    StatsMode → Option String → Option String → Result MistCallError NamedRead
search_mist_alarms mode org_id site_id = scope_of org_id site_id >>= λ scope.
    ok (named_resolved "search_mist_alarms" (Wan.alarms scope mode) ordinary_read)

unfoldable pub search_mist_bgp_peers :
    StatsMode → Option String → Option String → Result MistCallError NamedRead
search_mist_bgp_peers mode org_id site_id = scope_of org_id site_id >>= λ scope.
    ok (named_resolved "search_mist_bgp_peers" (Wan.bgp_peers scope mode) ordinary_read)

abbrev pub search_mist_peer_paths : StatsMode → NamedRead
search_mist_peer_paths mode =
    named_resolved "search_mist_peer_paths" (Wan.peer_paths mode) ordinary_read

abbrev pub search_mist_service_path_events : StatsMode → NamedRead
search_mist_service_path_events mode =
    named_resolved "search_mist_service_path_events" (Wan.service_path_events mode) ordinary_read

abbrev pub search_mist_tunnels : StatsMode → NamedRead
search_mist_tunnels mode = named_resolved "search_mist_tunnels" (Wan.tunnels mode) ordinary_read

-- The maps of the path and of the query.
abbrev pub NamedMaps : Type 0
NamedMaps = List (String × String) × List (String × Value)

-- The loop over the arguments: null is left out, a name of the path has to be a text.
unfoldable pub split_args :
    List String
    → List (String × String)
    → List (String × Value)
    → Fields
    → Result MistCallError NamedMaps
split_args names path query end = ok (path, query)
split_args names path query (field name value args) = elim (is_null value) [
  | true ↦ split_args names path query args
  | false ↦ elim (contains_text names name) [
    | false ↦ split_args names path (Maps.insert name value query) args
    | true ↦ elim (as_str value) [
      | none ↦ err invalid_target
      | some text ↦ split_args names (Maps.insert name text path) query args
    ]
  ]
]

unfoldable pub named_maps : Value → List String → Result MistCallError NamedMaps
named_maps (obj args) names = split_args names [] [] args
named_maps null names = err invalid_target
named_maps (bool b) names = err invalid_target
named_maps (num n) names = err invalid_target
named_maps (str s) names = err invalid_target
named_maps (arr vs) names = err invalid_target

abbrev pub named_read : NamedRead → NamedMaps → CatalogRead
named_read n (path, query) = record {
  tool = n.tool;
  operation_id = n.operation_id;
  path = path;
  query = query;
  cursor = none;
  capability = n.capability;
  redact_output = true;
}

abbrev pub not_dispatched : MistCallError → Reply
not_dispatched e = record { sent = []; outcome = failed e; answer = err (call_error e) }

unfoldable pub dispatch_named : Handler → NamedRead → Value → Option CallerCtx → Reply
dispatch_named h n args caller = elim (named_maps args n.path_names) [
  | err e ↦ not_dispatched e
  | ok maps ↦ dispatch_catalogued_read h (named_read n maps) caller
]

-- The two tools that make their read themselves.
abbrev pub get_mist_org : String → CatalogRead
get_mist_org org_id = record {
  tool = "get_mist_org";
  operation_id = "getOrg";
  path = ("org_id", org_id) ∷ [];
  query = [];
  cursor = none;
  capability = ordinary_read;
  redact_output = true;
}

abbrev pub get_mist_wan_config : WanObject → String → String → CatalogRead
get_mist_wan_config object org_id object_id = record {
  tool = "get_mist_wan_config";
  operation_id = (get_config object).operation_id;
  path = ("org_id", org_id) ∷ (object_id_name object, object_id) ∷ [];
  query = [];
  cursor = none;
  capability = config_capability object;
  redact_output = true;
}
