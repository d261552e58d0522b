-- ===== src/Sites/Bounds.antt =====
-- The bounds of a discovered map, and of the map in force.
use rustmistmcp.Prelude.{
  ℕ, zero, suc, ◌≤◌, ◌<◌, ◌≡◌, refl, ◌↔◌, ◌⊎◌, inl, inr, true, false, List, [], ◌∷◌, String, Result,
  ok, arith, any, is_err, length, All, In, Option-cases, Result-cases,
}
use rustmistmcp.Prelude.Maps
use rustmistmcp.Prelude.Maps.{length-insert, insert-All}
use rustmistmcp.ExecuteClass.Partition.{contains_text_iff}
use rustmistmcp.Json.{Items, nil, cons}
use rustmistmcp.Target.{org_target, site_target, is_canonical_uuid}
use rustmistmcp.Error.{MistError}
use rustmistmcp.Request.{MistRequest, MistResponse}
use rustmistmcp.Sites.{
  SiteMap, OrgOutcome, complete, truncated, OrgDiscoveryError, site_id_of, insert_page, fetch_page,
  after_page, discover_pages, discover_org_sites, discover_from, discover_sites, max_pages_per_org,
  is_bad_site, validate_sites, replace_sites, merge_refresh, refresh, refresh_all,
}

-- A canonical site of a canonical organization that the configuration allows.
abbrev pub IsEntry : List String → String × String → Type 0
IsEntry allowed (site_id, org_id) =
    (is_canonical_uuid site_id ≡ true) × (is_canonical_uuid org_id ≡ true) × In org_id allowed

-- At most 4096 of them.
abbrev pub IsSiteMap : List String → SiteMap → Type 0
IsSiteMap allowed sites = (length sites ≤ 4096) × All (IsEntry allowed) sites

site_target_iff : (s : String) → (is_err (site_target s) ≡ false) ↔ (is_canonical_uuid s ≡ true)
unfolding site_target
site_target_iff s = ground arith

org_target_iff : (s : String) → (is_err (org_target s) ≡ false) ↔ (is_canonical_uuid s ≡ true)
unfolding org_target
org_target_iff s = ground arith

bad_site_iff :
    (allowed : List String) (e : String × String)
    → (is_bad_site allowed e ≡ false) ↔ IsEntry allowed e
bad_site_iff allowed (s, o) =
    ground (arith, site_target_iff s, org_target_iff o, contains_text_iff allowed o)

any_bad_iff :
    (allowed : List String) (sites : SiteMap)
    → (any (is_bad_site allowed) sites ≡ false) ↔ All (IsEntry allowed) sites
any_bad_iff allowed [] = ground arith
any_bad_iff allowed (e ∷ sites) = ground (arith, bad_site_iff allowed e, any_bad_iff allowed sites)

-- A map is accepted exactly when it has at most 4096 sites, every one canonical, of a canonical
-- organization that the configuration allows.
pub validate_sites_iff :
    (sites : SiteMap) (allowed : List String)
    → (validate_sites sites allowed ≡ ok tt) ↔ IsSiteMap allowed sites
unfolding validate_sites
validate_sites_iff sites allowed = ground (arith, any_bad_iff allowed sites)

module _ (allowed : List String) (org_id : String) (known : is_canonical_uuid org_id ≡ true)
    (member : In org_id allowed) where
  insert-IsSiteMap :
      (site_id : String) (sites : SiteMap)
      → is_err (site_target site_id) ≡ false
      → (length sites < 4096) ⊎ (Maps.contains_key site_id sites ≡ true)
      → IsSiteMap allowed sites
      → IsSiteMap allowed (Maps.insert site_id org_id sites)
  insert-IsSiteMap site_id sites canonical room (few, entries) = (
    ground (arith, length-insert site_id org_id sites),
    insert-All (IsEntry allowed) site_id org_id sites
        ((site_target_iff site_id).0 canonical, known, member) entries,
  )

  insert_page-IsSiteMap :
      (page : Items) (sites : SiteMap)
      → IsSiteMap allowed sites
      → IsSiteMap allowed (insert_page org_id page sites).0
  unfolding insert_page
  insert_page-IsSiteMap nil sites h = h
  insert_page-IsSiteMap (cons entry page) sites h = elim (Option-cases (site_id_of entry)) [
    | inl missing ↦ ground (arith, missing, insert_page-IsSiteMap page sites h)
    | inr (site_id, found) ↦ ground (
      arith,
      found,
      insert_page-IsSiteMap page sites h,
      insert-IsSiteMap site_id sites,
      insert_page-IsSiteMap page (Maps.insert site_id org_id sites),
    )
  ]

module _ (validate_request : MistRequest → Result MistError MistRequest)
    (execute : MistRequest → Result MistError MistResponse)
    (validate_response : MistResponse → Result MistError MistResponse) (allowed : List String) where
  after_page-IsSiteMap :
      (next : SiteMap → SiteMap × Result OrgDiscoveryError OrgOutcome) (page : Items)
      (found : SiteMap × OrgOutcome)
      → ((sites : SiteMap) → IsSiteMap allowed sites → IsSiteMap allowed (next sites).0)
      → IsSiteMap allowed found.0
      → IsSiteMap allowed (after_page validate_request execute validate_response next page found).0
  unfolding after_page
  after_page-IsSiteMap next page (sites, truncated) step h = h
  after_page-IsSiteMap next page (sites, complete) step h = ground (arith, step sites h)

  module _ (org_id : String) (known : is_canonical_uuid org_id ≡ true)
      (member : In org_id allowed) where
    discover_pages-IsSiteMap :
        (left page : ℕ) (sites : SiteMap)
        → IsSiteMap allowed sites
        → IsSiteMap allowed
            (discover_pages validate_request execute validate_response left page org_id sites).0
    unfolding discover_pages
    discover_pages-IsSiteMap zero page sites h = h
    discover_pages-IsSiteMap (suc left) page sites h =
        elim (Result-cases (fetch_page validate_request execute validate_response org_id page)) [
          | inl (items, e) ↦
              rw (e, discover_pages)
                (after_page-IsSiteMap
                  (λ found.
                    discover_pages validate_request execute validate_response left (suc page) org_id
                      found)
                  items (insert_page org_id items sites) (discover_pages-IsSiteMap left (suc page))
                  (insert_page-IsSiteMap allowed org_id known member items sites h))
          | inr (failure, e) ↦ rw (e, discover_pages) h
        ]

  discover_from-IsSiteMap :
      (orgs : List String) (sites : SiteMap) (incomplete : List String)
      → All (λ o. (is_canonical_uuid o ≡ true) × In o allowed) orgs
      → IsSiteMap allowed sites
      → IsSiteMap allowed
          (discover_from validate_request execute validate_response orgs sites incomplete).sites
  unfolding discover_from discover_org_sites
  discover_from-IsSiteMap [] sites incomplete g h = h
  discover_from-IsSiteMap (org_id ∷ orgs) sites incomplete ((known, member), g) h =
      discover_from-IsSiteMap orgs _ _ g
        (discover_pages-IsSiteMap org_id known member max_pages_per_org 1 sites h)

  allowed_members :
      (orgs : List String)
      → All (λ o. is_canonical_uuid o ≡ true) orgs
      → ((o : String) → In o orgs → In o allowed)
      → All (λ o. (is_canonical_uuid o ≡ true) × In o allowed) orgs
  allowed_members [] g h = tt
  allowed_members (o ∷ orgs) (known, g) h =
      ((known, h o (inl refl)), allowed_members orgs g (λ p m. h p (inr m)))

  -- Whatever the client answers, the map that one pass over canonical organizations finds is one that
  -- the handler accepts: at most 4096 canonical sites, each of an allowed organization.
  pub validate-discover_sites :
      All (λ o. is_canonical_uuid o ≡ true) allowed
      → validate_sites
          (discover_sites validate_request execute validate_response allowed).sites
          allowed
        ≡ ok tt
  unfolding discover_sites
  validate-discover_sites g =
      (validate_sites_iff (discover_sites validate_request execute validate_response allowed).sites
          allowed).1
        (discover_from-IsSiteMap allowed [] [] (allowed_members allowed g (λ o m. m))
          (omega arith, tt))

replace-IsSiteMap :
    (allowed : List String) (current sites : SiteMap)
    → IsSiteMap allowed current
    → IsSiteMap allowed (replace_sites allowed current sites).0
unfolding replace_sites
replace-IsSiteMap allowed current sites h = elim (Result-cases (validate_sites sites allowed)) [
  | inl (tt, e) ↦ rw (e, replace_sites) ((validate_sites_iff sites allowed).0 e)
  | inr (failure, e) ↦ rw (e, replace_sites) h
]

-- However many turns the refresh loop takes, and whatever the client answers in each, the map in
-- force keeps to the bounds that the constructor checks.
pub refresh_all-IsSiteMap :
    (validate_request : MistRequest → Result MistError MistRequest)
    (validate_response : MistResponse → Result MistError MistResponse) (allowed : List String)
    (current : SiteMap) (turns : List (MistRequest → Result MistError MistResponse))
    → IsSiteMap allowed current
    → IsSiteMap allowed (refresh_all validate_request validate_response allowed current turns)
unfolding refresh_all refresh
refresh_all-IsSiteMap validate_request validate_response allowed current [] h = h
refresh_all-IsSiteMap validate_request validate_response allowed current (execute ∷ later) h =
    refresh_all-IsSiteMap validate_request validate_response allowed
      (refresh validate_request validate_response allowed current execute) later
      (replace-IsSiteMap allowed current
        (merge_refresh (discover_sites validate_request execute validate_response allowed) current)
        h)
