-- ===== src/Wan/Selectors.antt =====
-- The selectors name different operations for different choices, and the path that fits the scope.
use rustmistmcp.Prelude.{
  ◌≡◌, refl, sym, ap, ◌∙◌, ◌↔◌, List, [], ◌∷◌, Option, none, some, String, str_eq, ok,
  if◌then◌else◌,
}
use rustmistmcp.Wan.{
  WanScope, org, site, StatsMode, records, count, resolve_scope, wan_edges, bgp_peers, alarms,
  WanObject, network, service, service_policy, gateway_template, device_profile, list_config,
}

-- The first choice whose name is the given one: a way back from an operation to its selectors.
unfoldable pub find_choice : {A : Type 0} → (A → String) → String → List A → Option A
find_choice name s [] = none
find_choice name s (a ∷ rest) = if str_eq (name a) s then some a else find_choice name s rest

pub some-inj : {A : Type 0} (a b : A) → some a ≡ some b → a ≡ b
some-inj a b e = cc

abbrev pub all_objects : List WanObject
all_objects = network ∷ service ∷ service_policy ∷ gateway_template ∷ device_profile ∷ []

abbrev scope_choices : List (WanObject × WanScope)
scope_choices =
    (network, org)
    ∷ (service, org)
    ∷ (service_policy, org)
    ∷ (gateway_template, org)
    ∷ (device_profile, org)
    ∷ (network, site)
    ∷ (service, site)
    ∷ (service_policy, site)
    ∷ (gateway_template, site)
    ∷ (device_profile, site)
    ∷ []

abbrev listing : WanObject × WanScope → String
listing (object, scope) = (list_config object scope).operation_id

find-list_config :
    (object : WanObject) (scope : WanScope)
    → find_choice listing (listing (object, scope)) scope_choices ≡ some (object, scope)
unfolding find_choice list_config
find-list_config network org = refl
find-list_config network site = refl
find-list_config service org = refl
find-list_config service site = refl
find-list_config service_policy org = refl
find-list_config service_policy site = refl
find-list_config gateway_template org = refl
find-list_config gateway_template site = refl
find-list_config device_profile org = refl
find-list_config device_profile site = refl

-- No two listings share an operation: the operation determines the object type and the scope.
pub list_config-inj :
    (a b : WanObject × WanScope)
    → (list_config a.0 a.1).operation_id ≡ (list_config b.0 b.1).operation_id
    → a ≡ b
list_config-inj (o, s) (o', s') e = some-inj _ _ (
    sym (find-list_config o s)
    ∙ ap (λ w. find_choice listing w scope_choices) e
    ∙ find-list_config o' s')

-- The identifier that a scope puts into the path.
abbrev pub scope_name : WanScope → String
scope_name org = "org_id"
scope_name site = "site_id"

wan_edges_path : (scope : WanScope) → (wan_edges scope).path_names ≡ scope_name scope ∷ []
unfolding wan_edges
wan_edges_path org = refl
wan_edges_path site = refl

bgp_peers_path :
    (scope : WanScope) (mode : StatsMode)
    → (bgp_peers scope mode).path_names ≡ scope_name scope ∷ []
unfolding bgp_peers
bgp_peers_path org records = refl
bgp_peers_path org count = refl
bgp_peers_path site records = refl
bgp_peers_path site count = refl

alarms_path :
    (scope : WanScope) (mode : StatsMode) → (alarms scope mode).path_names ≡ scope_name scope ∷ []
unfolding alarms
alarms_path org records = refl
alarms_path org count = refl
alarms_path site records = refl
alarms_path site count = refl

list_config_path :
    (object : WanObject) (scope : WanScope)
    → (list_config object scope).path_names ≡ scope_name scope ∷ []
unfolding list_config
list_config_path network org = refl
list_config_path network site = refl
list_config_path service org = refl
list_config_path service site = refl
list_config_path service_policy org = refl
list_config_path service_policy site = refl
list_config_path gateway_template org = refl
list_config_path gateway_template site = refl
list_config_path device_profile org = refl
list_config_path device_profile site = refl

-- Every tool that takes a scope carries exactly that scope's identifier in the path, whatever else
-- is chosen.
pub scoped_path_names :
    (scope : WanScope) (mode : StatsMode) (object : WanObject)
    → ((wan_edges scope).path_names ≡ scope_name scope ∷ [])
      × ((bgp_peers scope mode).path_names ≡ scope_name scope ∷ [])
      × ((alarms scope mode).path_names ≡ scope_name scope ∷ [])
      × ((list_config object scope).path_names ≡ scope_name scope ∷ [])
scoped_path_names scope mode object = (
  wan_edges_path scope,
  bgp_peers_path scope mode,
  alarms_path scope mode,
  list_config_path object scope,
)

abbrev pub Given : Option String → Type 0
Given o = (id : String) × (o ≡ some id)

-- A scope is resolved exactly when one of the two identifiers is given and the other is not, and it
-- is the scope of the one that is.
pub resolve_scope_iff :
    (org_id site_id : Option String)
    → ((resolve_scope org_id site_id ≡ ok org) ↔ (Given org_id × (site_id ≡ none)))
      × ((resolve_scope org_id site_id ≡ ok site) ↔ ((org_id ≡ none) × Given site_id))
unfolding resolve_scope
resolve_scope_iff none none = ((λ e. cc, λ g. cc), (λ e. cc, λ g. cc))
resolve_scope_iff none (some s) = ((λ e. cc, λ g. cc), (λ e. (refl, (s, refl)), λ g. refl))
resolve_scope_iff (some o) none = ((λ e. ((o, refl), refl), λ g. refl), (λ e. cc, λ g. cc))
resolve_scope_iff (some o) (some s) = ((λ e. cc, λ g. cc (g.1)), (λ e. cc, λ g. cc (g.0)))
