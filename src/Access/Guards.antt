-- ===== src/Access/Guards.antt =====
-- What each check of a read lets through.
use text.Mathlib.TextLemmas.{cons-append}
use rustmistmcp.Prelude.{
  ℕ, ◌≤◌, ◌≡◌, refl, ◌↔◌, ◌⊎◌, inl, inr, true, false, not, List, [], ◌∷◌, Option, none, some,
  String, Result, ok, refuse_if, arith, In, append_text,
}
use rustmistmcp.Prelude.Maps
use rustmistmcp.ExecuteClass.Partition.{contains_text_iff}
use rustmistmcp.RateLimit.{reserved}
use rustmistmcp.Json.{Value, as_u64}
use rustmistmcp.Target
use rustmistmcp.Target.{
  MistTarget, MistTargetKind, org, site, kind_prefix, subject, is_canonical_uuid,
}
use rustmistmcp.Catalog.{
  MistCapability, ordinary_read, TargetSelector, no_target, org_target, site_target, msp_target,
}
use rustmistmcp.Grant.{MistGrant}
use rustmistmcp.Grant.Valid.{same_capability_iff}
use rustmistmcp.Grant.Authority.{allows_target_iff, allows_operation_iff, allows_action_iff}
use rustmistmcp.Access
use rustmistmcp.Access.{
  ActorType, human, CallerCtx, is_human, call_priority_for, target_for, target_from, is_foreign,
  with_grant, authorize_grant, validate_page_limit, is_page_limit, starts_with, unconfigured,
  parent_reason, lacks_grant, MistCallError, invalid_target,
}

-- A call draws on the reserve exactly when the caller is a verified human.
pub call_priority_for_iff :
    (caller : Option CallerCtx)
    → (call_priority_for caller ≡ reserved)
      ↔ ((c : CallerCtx) × (caller ≡ some c) × (c.actor_type ≡ human))
unfolding call_priority_for
call_priority_for_iff none = (λ e. cc, λ (c, e, h). cc)
call_priority_for_iff (some c) = (λ e. (c, refl, ground arith), λ (d, e, h). ground (arith, e, h))

abbrev pub Allows : MistGrant → String → MistCapability → Option MistTarget → Type 0
Allows g operation_id action none = In operation_id g.allowed_operations × In action g.actions
Allows g operation_id action (some t) =
    In operation_id g.allowed_operations × In action g.actions × In t g.subjects

-- The grant lists the operation, its class and its target; without a grant only ordinary reads are
-- allowed.
abbrev pub GrantAllows : Option MistGrant → String → MistCapability → Option MistTarget → Type 0
GrantAllows none operation_id action target = action ≡ ordinary_read
GrantAllows (some g) operation_id action target = Allows g operation_id action target

abbrev pub MayCall : Option CallerCtx → String → MistCapability → Option MistTarget → Type 0
MayCall none operation_id action target = action ≡ ordinary_read
MayCall (some caller) operation_id action target =
    GrantAllows caller.grant operation_id action target

with_grant_iff :
    (grant : Option MistGrant) (operation_id : String) (action : MistCapability)
    (target : Option MistTarget)
    → (with_grant grant operation_id action target ≡ ok tt)
      ↔ GrantAllows grant operation_id action target
with_grant_iff none operation_id action target =
    ground (arith, same_capability_iff action ordinary_read)
with_grant_iff (some g) operation_id action none =
    ground (arith, allows_operation_iff g operation_id, allows_action_iff g action)
with_grant_iff (some g) operation_id action (some t) =
    ground (
      arith,
      allows_operation_iff g operation_id,
      allows_action_iff g action,
      allows_target_iff g t,
    )

-- The grant check passes exactly for an ordinary read by a caller without a grant, and for a call
-- whose operation, class and target the caller's grant lists.
pub authorize_grant_iff :
    (caller : Option CallerCtx) (operation_id : String) (action : MistCapability)
    (target : Option MistTarget)
    → (authorize_grant caller operation_id action target ≡ ok tt)
      ↔ MayCall caller operation_id action target
unfolding authorize_grant
authorize_grant_iff none operation_id action target =
    ground (arith, same_capability_iff action ordinary_read)
authorize_grant_iff (some caller) operation_id action target =
    with_grant_iff caller.grant operation_id action target

-- The query asks for no page size, or for one from 1 to 100.
abbrev pub HasPageLimit : Option Value → Type 0
HasPageLimit none = Unit
HasPageLimit (some limit) = (n : ℕ) × (as_u64 limit ≡ some n) × (1 ≤ n) × (n ≤ 100)

page_limit_iff :
    (o : Option ℕ) → (is_page_limit o ≡ true) ↔ ((n : ℕ) × (o ≡ some n) × (1 ≤ n) × (n ≤ 100))
page_limit_iff none = (λ e. cc, λ (n, e, low, high). cc)
page_limit_iff (some m) =
    (λ e. (m, refl, ground arith, ground arith), λ (n, e, low, high). ground (arith, e, low, high))

-- The page limit passes exactly when it is absent or a number from 1 to 100.
pub validate_page_limit_iff :
    (query : List (String × Value))
    → (validate_page_limit query ≡ ok tt) ↔ HasPageLimit (Maps.get "limit" query)
unfolding validate_page_limit
validate_page_limit_iff query = limit_iff (Maps.get "limit" query)
  where
    limit_iff :
        (o : Option Value)
        → (elim o as (λ x. Result MistCallError (Unit {0})) [
          | none ↦ ok tt
          | some limit ↦ refuse_if (not (is_page_limit (as_u64 limit))) Access.invalid_limit
        ]
            ≡ ok tt)
          ↔ HasPageLimit o
    limit_iff none = ground arith
    limit_iff (some limit) = ground (arith, page_limit_iff (as_u64 limit))

-- An organization of the allowlist, or a site whose organization, by the site map, is one.
abbrev pub InProfile : List String → List (String × String) → MistTargetKind → String → Type 0
InProfile allowed sites org id = In id allowed
InProfile allowed sites site id =
    (org_id : String) × (Maps.get id sites ≡ some org_id) × In org_id allowed

abbrev pub IsConfigured : List String → List (String × String) → Option MistTarget → Type 0
IsConfigured allowed sites none = Unit
IsConfigured allowed sites (some t) = InProfile allowed sites t.kind t.id

parent_iff :
    (allowed : List String) (id : String) (parent : Option String)
    → (parent_reason allowed id parent ≡ none)
      ↔ ((org_id : String) × (parent ≡ some org_id) × In org_id allowed)
parent_iff allowed id none = (λ e. cc, λ (o, e, h). cc)
parent_iff allowed id (some o) = (
  λ e. (o, refl, ground (arith, contains_text_iff allowed o)),
  λ (p, e, h). ground (arith, contains_text_iff allowed o, contains_text_iff allowed p, e, h),
)

org_prefix : (id : String) → starts_with "org/" (append_text "org/" id) ≡ true
org_prefix id = rw (cons-append, cons-append, cons-append, cons-append) refl

site_org_prefix : (id : String) → starts_with "org/" (append_text "site/" id) ≡ false
site_org_prefix id = rw cons-append refl

site_prefix : (id : String) → starts_with "site/" (append_text "site/" id) ≡ true
site_prefix id = rw (cons-append, cons-append, cons-append, cons-append, cons-append) refl

configured_kind :
    (allowed : List String) (sites : List (String × String)) (k : MistTargetKind) (id : String)
    → (unconfigured allowed sites (some (record { kind = k; id = id })) ≡ none)
      ↔ InProfile allowed sites k id
unfolding unconfigured subject
configured_kind allowed sites org id = ground (arith, org_prefix id, contains_text_iff allowed id)
configured_kind allowed sites site id =
    ground (arith, site_org_prefix id, site_prefix id, parent_iff allowed id (Maps.get id sites))

-- A target is within the configuration exactly when it is an organization of the allowlist, or a site
-- that the site map places in one.
pub unconfigured_iff :
    (allowed : List String) (sites : List (String × String)) (target : Option MistTarget)
    → (unconfigured allowed sites target ≡ none) ↔ IsConfigured allowed sites target
unfolding unconfigured
unconfigured_iff allowed sites none = ground arith
unconfigured_iff allowed sites (some t) = configured_kind allowed sites t.kind t.id

-- The target is of the kind, and its identifier is the canonical one that the path has at the name.
abbrev pub NamedBy : MistTargetKind → String → List (String × String) → Option MistTarget → Type 0
NamedBy kind name path target =
    (id : String) × (Maps.get name path ≡ some id)
    × (is_canonical_uuid id ≡ true)
    × (target ≡ some (record { kind = kind; id = id }))

-- What `target_for` gives: no target, the organization or the site of the path.
abbrev pub IsTargetOf : List TargetSelector → List (String × String) → Option MistTarget → Type 0
IsTargetOf selectors path target =
    ((selectors ≡ no_target ∷ []) × (target ≡ none))
    ⊎ ((selectors ≡ org_target ∷ []) × NamedBy org "org_id" path target)
    ⊎ ((selectors ≡ site_target ∷ []) × NamedBy site "site_id" path target)

org_from :
    (path : List (String × String)) (found : Option String) (target : Option MistTarget)
    → Maps.get "org_id" path ≡ found
    → target_from Target.org_target found ≡ ok target
    → NamedBy org "org_id" path target
unfolding Target.org_target
org_from path none target e h = cc
org_from path (some id) target e h = (id, e, ground arith, ground arith)

site_from :
    (path : List (String × String)) (found : Option String) (target : Option MistTarget)
    → Maps.get "site_id" path ≡ found
    → target_from Target.site_target found ≡ ok target
    → NamedBy site "site_id" path target
unfolding Target.site_target
site_from path none target e h = cc
site_from path (some id) target e h = (id, e, ground arith, ground arith)

-- A target that is derived is the one that the operation's only selector and the path name: MSP
-- operations, several selectors and identifiers that are not canonical give none.
pub target_for_sound :
    (selectors : List TargetSelector) (path : List (String × String)) (target : Option MistTarget)
    → target_for selectors path ≡ ok target
    → IsTargetOf selectors path target
unfolding target_for
target_for_sound (no_target ∷ []) path target h = ground arith
target_for_sound (org_target ∷ []) path target h =
    inr (inl (refl, org_from path (Maps.get "org_id" path) target refl h))
target_for_sound (site_target ∷ []) path target h =
    inr (inr (refl, site_from path (Maps.get "site_id" path) target refl h))
target_for_sound (msp_target ∷ []) path target h = ground arith
target_for_sound [] path target h = ground arith
target_for_sound (s ∷ t ∷ selectors) path target h = ground arith
