-- ===== src/Tools/Table.antt =====
-- The table of the named tools.
use rustmistmcp.Prelude.{Bool, Option, String, Result, ok, ◌≡◌, ◌⊎◌, true, contains_text, ◌>>=◌}
use rustmistmcp.Catalog.{MistCapability, ordinary_read, privileged_read}
use rustmistmcp.Wan.{WanObject, StatsMode, SleImpact, AppSource}
use rustmistmcp.Access.{MistCallError}
use rustmistmcp.Access.Dispatch.{CatalogRead}
use rustmistmcp.Wan
use rustmistmcp.Tools
use rustmistmcp.Tools.{
  NamedRead, known_tools, restricted_tools, list_mist_applications, list_mist_wan_config,
  list_mist_wan_edges, search_mist_alarms, search_mist_bgp_peers,
}

-- A call of a tool that makes one read, with the arguments that choose its operation.
pub data NamedCall : Type 0 where
  call_get_mist_device call_get_mist_device_stats call_get_mist_insight call_get_mist_rrm
        call_get_mist_self call_get_mist_site call_get_mist_sle call_list_mist_rogues
        call_list_mist_sites call_list_mist_sle_metrics call_list_mist_upgrades call_list_mist_wlans
        call_list_mist_alarm_definitions call_search_mist_audit_logs call_search_mist_clients
        call_search_mist_events call_search_mist_inventory call_troubleshoot_mist :
      NamedCall
  call_get_mist_org : String → NamedCall
  call_get_mist_wan_config : WanObject → String → String → NamedCall
  call_get_mist_sle_impact : SleImpact → NamedCall
  call_get_mist_wan_edge_stats : Bool → NamedCall
  call_list_mist_applications : AppSource → StatsMode → Option String → NamedCall
  call_list_mist_wan_config : WanObject → Option String → Option String → NamedCall
  call_list_mist_wan_edges : Option String → Option String → NamedCall
  call_search_mist_alarms : StatsMode → Option String → Option String → NamedCall
  call_search_mist_bgp_peers : StatsMode → Option String → Option String → NamedCall
  call_search_mist_peer_paths : StatsMode → NamedCall
  call_search_mist_service_path_events : StatsMode → NamedCall
  call_search_mist_tunnels : StatsMode → NamedCall

-- The read of a tool: one whose arguments are split by `dispatch_named`, or one that the tool makes.
pub data ToolRead : Type 0 where
  by_arguments : NamedRead → ToolRead
  by_itself : CatalogRead → ToolRead

abbrev pub tool_of : ToolRead → String
tool_of (by_arguments n) = n.tool
tool_of (by_itself read) = read.tool

abbrev pub capability_of : ToolRead → MistCapability
capability_of (by_arguments n) = n.capability
capability_of (by_itself read) = read.capability

abbrev by_scope : Result MistCallError NamedRead → Result MistCallError ToolRead
by_scope found = found >>= λ n. ok (by_arguments n)

abbrev pub read_of_call : NamedCall → Result MistCallError ToolRead
read_of_call call_get_mist_device = ok (by_arguments Tools.get_mist_device)
read_of_call call_get_mist_device_stats = ok (by_arguments Tools.get_mist_device_stats)
read_of_call call_get_mist_insight = ok (by_arguments Tools.get_mist_insight)
read_of_call call_get_mist_rrm = ok (by_arguments Tools.get_mist_rrm)
read_of_call call_get_mist_self = ok (by_arguments Tools.get_mist_self)
read_of_call call_get_mist_site = ok (by_arguments Tools.get_mist_site)
read_of_call call_get_mist_sle = ok (by_arguments Tools.get_mist_sle)
read_of_call call_list_mist_rogues = ok (by_arguments Tools.list_mist_rogues)
read_of_call call_list_mist_sites = ok (by_arguments Tools.list_mist_sites)
read_of_call call_list_mist_sle_metrics = ok (by_arguments Tools.list_mist_sle_metrics)
read_of_call call_list_mist_upgrades = ok (by_arguments Tools.list_mist_upgrades)
read_of_call call_list_mist_wlans = ok (by_arguments Tools.list_mist_wlans)
read_of_call call_list_mist_alarm_definitions = ok (by_arguments Tools.list_mist_alarm_definitions)
read_of_call call_search_mist_audit_logs = ok (by_arguments Tools.search_mist_audit_logs)
read_of_call call_search_mist_clients = ok (by_arguments Tools.search_mist_clients)
read_of_call call_search_mist_events = ok (by_arguments Tools.search_mist_events)
read_of_call call_search_mist_inventory = ok (by_arguments Tools.search_mist_inventory)
read_of_call call_troubleshoot_mist = ok (by_arguments Tools.troubleshoot_mist)
read_of_call (call_get_mist_sle_impact impact) =
    ok (by_arguments (Tools.get_mist_sle_impact impact))
read_of_call (call_get_mist_wan_edge_stats per_device) =
    ok (by_arguments (Tools.get_mist_wan_edge_stats per_device))
read_of_call (call_list_mist_applications source mode site_id) =
    by_scope (Tools.list_mist_applications source mode site_id)
read_of_call (call_list_mist_wan_config object org_id site_id) =
    by_scope (Tools.list_mist_wan_config object org_id site_id)
read_of_call (call_list_mist_wan_edges org_id site_id) =
    by_scope (Tools.list_mist_wan_edges org_id site_id)
read_of_call (call_search_mist_alarms mode org_id site_id) =
    by_scope (Tools.search_mist_alarms mode org_id site_id)
read_of_call (call_search_mist_bgp_peers mode org_id site_id) =
    by_scope (Tools.search_mist_bgp_peers mode org_id site_id)
read_of_call (call_search_mist_peer_paths mode) =
    ok (by_arguments (Tools.search_mist_peer_paths mode))
read_of_call (call_search_mist_service_path_events mode) =
    ok (by_arguments (Tools.search_mist_service_path_events mode))
read_of_call (call_search_mist_tunnels mode) = ok (by_arguments (Tools.search_mist_tunnels mode))
read_of_call (call_get_mist_org org_id) = ok (by_itself (Tools.get_mist_org org_id))
read_of_call (call_get_mist_wan_config object org_id object_id) =
    ok (by_itself (Tools.get_mist_wan_config object org_id object_id))

-- The tool is known, and it is restricted where its read is privileged.
abbrev pub IsListed : ToolRead → Type 0
IsListed n =
    (contains_text known_tools (tool_of n) ≡ true)
    × ((capability_of n ≡ ordinary_read)
        ⊎ ((capability_of n ≡ privileged_read)
            × (contains_text restricted_tools (tool_of n) ≡ true)))
