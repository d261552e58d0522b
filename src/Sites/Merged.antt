-- ===== src/Sites/Merged.antt =====
-- What a refresh makes of the previous map.
use rustmistmcp.Prelude.{
  ◌+◌, ap, ◌∙◌, ℕ, zero, suc, ◌≤◌, ◌<◌, ◌≡◌, refl, Bool, false, not, List, [], ◌∷◌, Option, none,
  some, String, Result, ok, err, arith, length, All, contains_text, eq_iff, eq_refl, str_eq,
  if◌then◌else◌,
}
use rustmistmcp.Prelude.Maps
use rustmistmcp.Prelude.Maps.{get-insert, length-insert}
use rustmistmcp.Json.{Items, count_items}
use rustmistmcp.Error.{MistError}
use rustmistmcp.Request.{MistRequest, MistResponse}
use rustmistmcp.Sites.{
  SiteMap, SiteDiscovery, complete, insert_page, fetch_page, after_page, discover_pages,
  discover_org_sites, keep_previous, merge_refresh, invalid_organization, validate_sites,
  replace_sites, max_pages_per_org,
}

-- No site stands twice, as in every `BTreeMap`.
abbrev pub IsMap : SiteMap → Type 0
IsMap [] = Unit
IsMap ((k, v) ∷ m) = (Maps.get k m ≡ none) × IsMap m

-- The organization of a site, where it is one of the incomplete ones, or where it is none of them.
abbrev pub kept : List String → Option String → Option String
kept incomplete none = none
kept incomplete (some o) = if contains_text incomplete o then some o else none

abbrev pub fresh : List String → Option String → Option String
fresh incomplete none = none
fresh incomplete (some o) = if contains_text incomplete o then none else some o

-- The first of two answers that there is.
abbrev pub or_else : Option String → Option String → Option String
or_else (some o) other = some o
or_else none other = other

get-keep_previous :
    (incomplete : List String) (previous sites : SiteMap) (s : String)
    → IsMap previous
    → Maps.get s (keep_previous incomplete previous sites)
      ≡ or_else (kept incomplete (Maps.get s previous)) (Maps.get s sites)
unfolding keep_previous Maps.get
get-keep_previous incomplete [] sites s h = refl
get-keep_previous incomplete ((k, o) ∷ previous) sites s (new, h) = ground (
  arith,
  eq_iff k s,
  get-insert k s o sites,
  get-keep_previous incomplete previous sites s h,
  get-keep_previous incomplete previous (Maps.insert k o sites) s h,
)

get-retain_absent :
    (keep : String → Bool) (sites : SiteMap) (s : String)
    → Maps.get s sites ≡ none
    → Maps.get s (Maps.retain keep sites) ≡ none
unfolding Maps.retain Maps.get
get-retain_absent keep [] s h = refl
get-retain_absent keep ((k, o) ∷ sites) s h = ground (arith, get-retain_absent keep sites s)

get-retain :
    (incomplete : List String) (sites : SiteMap) (s : String)
    → IsMap sites
    → Maps.get s (Maps.retain (λ o. not (contains_text incomplete o)) sites)
      ≡ fresh incomplete (Maps.get s sites)
unfolding Maps.retain Maps.get
get-retain incomplete [] s h = refl
get-retain incomplete ((k, o) ∷ sites) s (new, h) = ground (
  arith,
  eq_iff k s,
  get-retain incomplete sites s h,
  get-retain_absent (λ p. not (contains_text incomplete p)) sites s,
)

fresh_of_none : (o : Option String) → fresh [] o ≡ o
fresh_of_none none = refl
fresh_of_none (some o) = refl

kept_of_none : (o : Option String) → kept [] o ≡ none
kept_of_none none = refl
kept_of_none (some o) = refl

get-merged :
    (sites : SiteMap) (incomplete : List String) (previous : SiteMap) (s : String)
    → IsMap sites
    → IsMap previous
    → Maps.get s (merge_refresh (record { sites = sites; incomplete_orgs = incomplete }) previous)
      ≡ or_else (kept incomplete (Maps.get s previous)) (fresh incomplete (Maps.get s sites))
unfolding merge_refresh
get-merged sites [] previous s g h =
    rw (kept_of_none (Maps.get s previous), fresh_of_none (Maps.get s sites)) refl
get-merged sites (o ∷ os) previous s g h = ground (
  arith,
  get-keep_previous (o ∷ os) previous (Maps.retain (λ p. not (contains_text (o ∷ os) p)) sites) s h,
  get-retain (o ∷ os) sites s g,
)

-- After a refresh a site belongs to the organization that the previous map names, where that one is
-- incomplete; otherwise to the one that was discovered, where that one is complete; otherwise it is
-- unknown.
pub get-merge_refresh :
    (d : SiteDiscovery) (previous : SiteMap) (s : String)
    → IsMap d.sites
    → IsMap previous
    → Maps.get s (merge_refresh d previous)
      ≡ or_else
          (kept d.incomplete_orgs (Maps.get s previous))
          (fresh d.incomplete_orgs (Maps.get s d.sites))
get-merge_refresh d previous s g h = get-merged d.sites d.incomplete_orgs previous s g h

-- A full map, of organizations other than `org_id`.
abbrev pub IsFullWithout : String → SiteMap → Type 0
IsFullWithout org_id sites = (length sites ≡ 4096) × All (λ e. str_eq org_id e.1 ≡ false) sites

retain-All_kept :
    (org_id : String) (sites : SiteMap)
    → All (λ e. str_eq org_id e.1 ≡ false) sites
    → Maps.retain (λ p. not (contains_text (org_id ∷ []) p)) sites ≡ sites
unfolding Maps.retain
retain-All_kept org_id [] h = refl
retain-All_kept org_id ((k, o) ∷ sites) (other, h) =
    ground (arith, other, retain-All_kept org_id sites h)

too_many_refused :
    (allowed : List String) (current sites : SiteMap)
    → 4096 < length sites
    → replace_sites allowed current sites ≡ (current, err invalid_organization)
unfolding replace_sites validate_sites
too_many_refused allowed current sites h = ground arith

-- A discovered map can be as large as the cap allows and be refused all the same: where one
-- organization is incomplete and had a single site that is not in it, the merge has 4097 sites, and
-- the handler keeps the previous map.
pub full_refresh_refused :
    (allowed : List String) (sites : SiteMap) (site_id org_id : String)
    → IsFullWithout org_id sites
    → Maps.get site_id sites ≡ none
    → replace_sites allowed ((site_id, org_id) ∷ []) (
        merge_refresh
          (record { sites = sites; incomplete_orgs = org_id ∷ [] })
          ((site_id, org_id) ∷ []))
      ≡ ((site_id, org_id) ∷ [], err invalid_organization)
unfolding merge_refresh keep_previous
full_refresh_refused allowed sites site_id org_id (full, others) absent =
    too_many_refused allowed ((site_id, org_id) ∷ []) _ (
      ground (
        arith,
        full,
        absent,
        eq_refl org_id,
        retain-All_kept org_id sites others,
        length-insert site_id org_id sites,
      ))

module _ (validate_request : MistRequest → Result MistError MistRequest)
    (execute : MistRequest → Result MistError MistResponse)
    (validate_response : MistResponse → Result MistError MistResponse) (org_id : String)
    (pages : ℕ → Items) (sites : ℕ → SiteMap) where
  pages_without_end :
      (left done : ℕ)
      → ((p : ℕ) → 100 ≤ count_items (pages p))
      → ((p : ℕ)
          → fetch_page validate_request execute validate_response org_id (suc p) ≡ ok (pages p))
      → ((p : ℕ) → insert_page org_id (pages p) (sites p) ≡ (sites (suc p), complete))
      → discover_pages validate_request execute validate_response left
          (suc done)
          org_id
          (sites done)
        ≡ (sites (left + done), ok complete)
  unfolding discover_pages after_page
  pages_without_end zero done n f e =
      let same : done ≡ 0 + done = omega arith in ap (λ k. (sites k, ok complete)) same
  pages_without_end (suc left) done n f e =
      let next : left + suc done ≡ suc left + done = omega arith in
      let later = pages_without_end left (suc done) n f e ∙ ap (λ k. (sites k, ok complete)) next in
      ground (arith, n done, f done, e done, later)

  -- Where every page of a listing is full, without end, and none is stopped by the cap on the sites, an
  -- organization counts as complete, with the sites of exactly its first 64 pages, although the next
  -- page is full too.
  pub endless_pages_complete :
      ((p : ℕ) → 100 ≤ count_items (pages p))
      → ((p : ℕ)
          → fetch_page validate_request execute validate_response org_id (suc p) ≡ ok (pages p))
      → ((p : ℕ) → insert_page org_id (pages p) (sites p) ≡ (sites (suc p), complete))
      → discover_org_sites validate_request execute validate_response org_id (sites 0)
        ≡ (sites 64, ok complete)
  unfolding discover_org_sites
  endless_pages_complete n f e = pages_without_end max_pages_per_org 0 n f e
