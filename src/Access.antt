-- ===== src/Access.antt =====
-- crates/rustmistmcp/src/server/mod.rs: the checks that stand before a catalogued read.
pub mod Dispatch
pub mod Guards
pub mod Authorized
pub mod Answers
pub mod Continue
pub mod Resumed
pub mod Examples
use rustmistmcp.Prelude.{
  ℕ, Bool, true, false, not, ◌&&◌, ◌||◌, List, [], ◌∷◌, Option, none, some, String, Result, ok, err,
  ◌>>=◌, ◌>>◌, refuse_if, map_err, ok_or, any, leb, codes, is_prefix, str_eq, append_text,
  if◌then◌else◌, contains_text, ◌==◌,
}
use rustmistmcp.Prelude.Maps
use rustmistmcp.RateLimit.{CallPriority, standard, reserved}
use rustmistmcp.Json.{Value, as_u64}
use rustmistmcp.Target
use rustmistmcp.Target.{MistTarget, MistTargetError, subject}
use rustmistmcp.Catalog.{
  MistCapability, ordinary_read, privileged_read, create, update, delete, execute, same_capability,
  TargetSelector, no_target, org_target, site_target, msp_target, MistOperation,
}
use rustmistmcp.Grant.{MistGrant, allows_operation, allows_action, allows_target}
use rustmistmcp.Error.{MistError}

-- `mecmcp_auth::ActorType`, and what a caller's context carries of it.
pub data ActorType : Type 0 where
  human agent unknown : ActorType

pub record CallerCtx : Type 0 where
  pub token_name : String
  pub actor_type : ActorType
  pub grant : Option MistGrant

pub data MistCallError : Type 0 where
  unknown_operation wrong_capability authorization organization_not_configured :
      String → MistCallError
  lacks_grant msp_target_unsupported invalid_target invalid_limit : MistCallError
  invalid_search ambiguous_scope : MistCallError
  mist : MistError → MistCallError

abbrev pub is_human : ActorType → Bool
is_human human = true
is_human agent = false
is_human unknown = false

unfoldable pub call_priority_for : Option CallerCtx → CallPriority
call_priority_for none = standard
call_priority_for (some caller) = if is_human caller.actor_type then reserved else standard

-- `ok_or(InvalidTarget).and_then(MistTarget::..).map(Some)`
abbrev pub target_from :
    (String → Result MistTargetError MistTarget)
    → Option String
    → Result MistCallError (Option MistTarget)
target_from make none = err invalid_target
target_from make (some id) = elim (make id) [ ok t ↦ ok (some t) | err e ↦ err invalid_target ]

abbrev pub is_msp : TargetSelector → Bool
is_msp msp_target = true
is_msp no_target = false
is_msp org_target = false
is_msp site_target = false

-- The last two arms of the `match` on the selectors.
abbrev pub refuse_selectors : List TargetSelector → Result MistCallError (Option MistTarget)
refuse_selectors selectors =
    if any is_msp selectors then err msp_target_unsupported else err invalid_target

unfoldable pub target_for :
    List TargetSelector → List (String × String) → Result MistCallError (Option MistTarget)
target_for (no_target ∷ []) path = ok none
target_for (org_target ∷ []) path = target_from Target.org_target (Maps.get "org_id" path)
target_for (site_target ∷ []) path = target_from Target.site_target (Maps.get "site_id" path)
target_for (msp_target ∷ []) path = refuse_selectors (msp_target ∷ [])
target_for [] path = refuse_selectors []
target_for (s ∷ t ∷ selectors) path = refuse_selectors (s ∷ t ∷ selectors)

-- `target.is_some_and(|target| !grant.allows_target(target))`
abbrev pub is_foreign : MistGrant → Option MistTarget → Bool
is_foreign g none = false
is_foreign g (some t) = not (allows_target g t)

-- What a caller without a grant may do.
abbrev pub without_grant : MistCapability → Result MistCallError (Unit {0})
without_grant action = refuse_if (not (same_capability action ordinary_read)) lacks_grant

abbrev pub with_grant :
    Option MistGrant → String → MistCapability → Option MistTarget → Result MistCallError (Unit {0})
with_grant none operation_id action target = without_grant action
with_grant (some g) operation_id action target =
    refuse_if
      (not (allows_operation g operation_id) || not (allows_action g action) || is_foreign g target)
      lacks_grant

unfoldable pub authorize_grant :
    Option CallerCtx → String → MistCapability → Option MistTarget → Result MistCallError (Unit {0})
authorize_grant none operation_id action target = without_grant action
authorize_grant (some caller) operation_id action target =
    with_grant caller.grant operation_id action target

abbrev pub is_page_limit : Option ℕ → Bool
is_page_limit none = false
is_page_limit (some n) = leb 1 n && leb n 100

unfoldable pub validate_page_limit : List (String × Value) → Result MistCallError (Unit {0})
validate_page_limit query = elim (Maps.get "limit" query) [
  | none ↦ ok tt
  | some limit ↦ refuse_if (not (is_page_limit (as_u64 limit))) invalid_limit
]

abbrev pub starts_with : String → String → Bool
starts_with prefix s = is_prefix (codes prefix) (codes s)

-- The check of a site's parent organization in the site map.
abbrev pub parent_reason : List String → String → Option String → Option String
parent_reason allowed_orgs id none = some (
    append_text "site " (
      append_text id
        " is not known (requires org_id for site queries, or the site's parent org in the allowlist)"))
parent_reason allowed_orgs id (some org_id) =
    if not (contains_text allowed_orgs org_id)
    then some (
        append_text "site " (
          append_text id (
            append_text "'s parent organization "
              (append_text org_id " is not in the configured allowlist"))))
    else none

-- Why a target is outside the configuration; nothing where it is inside.
unfoldable pub unconfigured :
    List String → List (String × String) → Option MistTarget → Option String
unconfigured allowed_orgs sites none = none
unconfigured allowed_orgs sites (some t) =
    if starts_with "org/" (subject t)
    then if not (contains_text allowed_orgs t.id)
      then some
          (append_text "organization " (append_text t.id " is not in the configured allowlist"))
      else none
    else if starts_with "site/" (subject t)
    then parent_reason allowed_orgs t.id (Maps.get t.id sites)
    else some "the target is neither an organization nor a site"
