-- ===== src/Wan.antt =====
-- crates/rustmistmcp/src/server/wan.rs: the selectors of the WAN edge tools, each resolved to one
-- catalogued operation.
pub mod Selectors
use rustmistmcp.Prelude.{
  Bool, true, false, List, [], ◌∷◌, Option, none, some, String, Result, ok, err, if◌then◌else◌,
}

pub data WanScope : Type 0 where
  org site : WanScope

pub data StatsMode : Type 0 where
  records count : StatsMode

pub record Resolved : Type 0 where
  pub operation_id : String
  pub path_names : List String

pub data ScopeError : Type 0 where
  scope_error : ScopeError

unfoldable pub resolve_scope : Option String → Option String → Result ScopeError WanScope
resolve_scope (some org_id) none = ok org
resolve_scope none (some site_id) = ok site
resolve_scope none none = err scope_error
resolve_scope (some org_id) (some site_id) = err scope_error

abbrev resolved : String → List String → Resolved
resolved operation_id path_names = record { operation_id = operation_id; path_names = path_names }

unfoldable pub wan_edges : WanScope → Resolved
wan_edges org = resolved "searchOrgDevices" ("org_id" ∷ [])
wan_edges site = resolved "searchSiteDevices" ("site_id" ∷ [])

unfoldable pub wan_edge_stats : Bool → Resolved
wan_edge_stats per_device =
    if per_device
    then resolved "getSiteInsightMetricsForGateway" ("site_id" ∷ "device_id" ∷ [])
    else resolved "getSiteGatewayMetrics" ("site_id" ∷ [])

unfoldable pub tunnels : StatsMode → Resolved
tunnels records = resolved "searchOrgTunnelsStats" ("org_id" ∷ [])
tunnels count = resolved "countOrgTunnelsStats" ("org_id" ∷ [])

unfoldable pub peer_paths : StatsMode → Resolved
peer_paths records = resolved "searchOrgPeerPathStats" ("org_id" ∷ [])
peer_paths count = resolved "countOrgPeerPathStats" ("org_id" ∷ [])

unfoldable pub bgp_peers : WanScope → StatsMode → Resolved
bgp_peers org records = resolved "searchOrgBgpStats" ("org_id" ∷ [])
bgp_peers org count = resolved "countOrgBgpStats" ("org_id" ∷ [])
bgp_peers site records = resolved "searchSiteBgpStats" ("site_id" ∷ [])
bgp_peers site count = resolved "countSiteBgpStats" ("site_id" ∷ [])

unfoldable pub alarms : WanScope → StatsMode → Resolved
alarms org records = resolved "searchOrgAlarms" ("org_id" ∷ [])
alarms org count = resolved "countOrgAlarms" ("org_id" ∷ [])
alarms site records = resolved "searchSiteAlarms" ("site_id" ∷ [])
alarms site count = resolved "countSiteAlarms" ("site_id" ∷ [])

unfoldable pub service_path_events : StatsMode → Resolved
service_path_events records = resolved "searchSiteServicePathEvents" ("site_id" ∷ [])
service_path_events count = resolved "countSiteServicePathEvents" ("site_id" ∷ [])

pub data SleImpact : Type 0 where
  gateways applications summary : SleImpact

abbrev sle_operation : SleImpact → String
sle_operation gateways = "listSiteSleImpactedGateways"
sle_operation applications = "listSiteSleImpactedApplications"
sle_operation summary = "getSiteSleImpactSummary"

unfoldable pub sle_impact : SleImpact → Resolved
sle_impact impact =
    resolved (sle_operation impact) ("site_id" ∷ "scope" ∷ "scope_id" ∷ "metric" ∷ [])

pub data AppSource : Type 0 where
  site_apps catalog_apps : AppSource

unfoldable pub list_applications : AppSource → StatsMode → Resolved
list_applications site_apps records = resolved "listSiteApps" ("site_id" ∷ [])
list_applications site_apps count = resolved "countSiteApps" ("site_id" ∷ [])
list_applications catalog_apps mode = resolved "listGatewayApplications" []

pub data WanObject : Type 0 where
  network service service_policy gateway_template device_profile : WanObject

unfoldable pub list_config : WanObject → WanScope → Resolved
list_config network org = resolved "listOrgNetworks" ("org_id" ∷ [])
list_config service org = resolved "listOrgServices" ("org_id" ∷ [])
list_config service_policy org = resolved "listOrgServicePolicies" ("org_id" ∷ [])
list_config gateway_template org = resolved "listOrgGatewayTemplates" ("org_id" ∷ [])
list_config device_profile org = resolved "listOrgDeviceProfiles" ("org_id" ∷ [])
list_config network site = resolved "listSiteNetworksDerived" ("site_id" ∷ [])
list_config service site = resolved "listSiteServicesDerived" ("site_id" ∷ [])
list_config service_policy site = resolved "listSiteServicePoliciesDerived" ("site_id" ∷ [])
list_config gateway_template site = resolved "listSiteGatewayTemplatesDerived" ("site_id" ∷ [])
list_config device_profile site = resolved "listSiteDeviceProfilesDerived" ("site_id" ∷ [])

unfoldable pub get_config : WanObject → Resolved
get_config network = resolved "getOrgNetwork" ("org_id" ∷ "network_id" ∷ [])
get_config service = resolved "getOrgService" ("org_id" ∷ "service_id" ∷ [])
get_config service_policy = resolved "getOrgServicePolicy" ("org_id" ∷ "servicepolicy_id" ∷ [])
get_config gateway_template =
    resolved "getOrgGatewayTemplate" ("org_id" ∷ "gatewaytemplate_id" ∷ [])
get_config device_profile = resolved "getOrgDeviceProfile" ("org_id" ∷ "deviceprofile_id" ∷ [])

unfoldable pub object_id_name : WanObject → String
object_id_name network = "network_id"
object_id_name service = "service_id"
object_id_name service_policy = "servicepolicy_id"
object_id_name gateway_template = "gatewaytemplate_id"
object_id_name device_profile = "deviceprofile_id"
