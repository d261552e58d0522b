-- ===== src/Sites/Examples.antt =====
-- Discovery with a client that always gives the same answer.
use rustmistmcp.Prelude.{
  ℕ, zero, suc, ◌≡◌, refl, true, false, [], ◌∷◌, none, String, Result, ok, err, arith, length, All,
  str_eq,
}
use rustmistmcp.Prelude.Maps
use rustmistmcp.Json.{null, str, arr, obj, field, end, get, Items, nil, cons, count_items}
use rustmistmcp.Target.{is_canonical_uuid, scan_uuid, site_target}
use rustmistmcp.Error.{MistError}
use rustmistmcp.Request.{MistRequest, MistResponse, json}
use rustmistmcp.Sites.{
  SiteMap, SiteDiscovery, complete, insert_page, page_request, fetch_page, after_page,
  discover_pages, discover_org_sites, discover_from, discover_sites, merge_refresh,
  invalid_organization, validate_sites, replace_sites, refresh_all,
}
use rustmistmcp.Sites.Bounds.{IsSiteMap, validate-discover_sites, refresh_all-IsSiteMap}
use rustmistmcp.Sites.Merged.{
  kept, fresh, or_else, get-merge_refresh, full_refresh_refused, endless_pages_complete,
}

abbrev lab : String
lab = "00000000-0000-0000-0000-00000000000a"

abbrev desk : String
desk = "00000000-0000-0000-0000-0000000000d1"

abbrev as_is : {A : Type 0} → A → Result MistError A
as_is a = ok a

abbrev sites_answer : Items → MistRequest → Result MistError MistResponse
sites_answer items r = ok (record {
  operation_id = "listOrgSites";
  status = 200;
  body = json (arr items);
  cursor = none;
  page = none;
})

abbrev one_desk : Items
one_desk = cons (obj (field "id" (str desk) end)) (cons null nil)

lab_canonical : is_canonical_uuid lab ≡ true
unfolding is_canonical_uuid scan_uuid
lab_canonical = refl

desk_found :
    (discover_sites as_is (sites_answer one_desk) as_is (lab ∷ [])).sites ≡ (desk, lab) ∷ []
unfolding discover_sites discover_from discover_org_sites discover_pages after_page fetch_page
    page_request insert_page get Maps.insert Maps.get site_target is_canonical_uuid scan_uuid
desk_found = refl

validate-discover_sites_example :
    validate_sites (discover_sites as_is (sites_answer one_desk) as_is (lab ∷ [])).sites (lab ∷ [])
    ≡ ok tt
validate-discover_sites_example =
    validate-discover_sites as_is (sites_answer one_desk) as_is (lab ∷ []) (lab_canonical, tt)

refresh_all-IsSiteMap_example :
    IsSiteMap
      (lab ∷ [])
      (refresh_all as_is as_is (lab ∷ []) [] (sites_answer one_desk ∷ sites_answer nil ∷ []))
refresh_all-IsSiteMap_example =
    refresh_all-IsSiteMap as_is as_is (lab ∷ []) [] (sites_answer one_desk ∷ sites_answer nil ∷ [])
      (omega arith, tt)

abbrev moved : SiteDiscovery
moved = record { sites = ("s", "a") ∷ []; incomplete_orgs = "b" ∷ [] }

get-merge_refresh_example :
    Maps.get "s" (merge_refresh moved (("s", "b") ∷ []))
    ≡ or_else
        (kept ("b" ∷ []) (Maps.get "s" (("s", "b") ∷ [])))
        (fresh ("b" ∷ []) (Maps.get "s" (("s", "a") ∷ [])))
unfolding Maps.get
get-merge_refresh_example = get-merge_refresh moved (("s", "b") ∷ []) "s" (refl, tt) (refl, tt)

many : ℕ → SiteMap
many zero = []
many (suc n) = ("s", "a") ∷ many n

length-many : (n : ℕ) → length (many n) ≡ n
unfolding many
length-many zero = refl
length-many (suc n) = omega (arith, length-many n)

many-others : (n : ℕ) → All (λ e. str_eq "b" e.1 ≡ false) (many n)
unfolding many
many-others zero = tt
many-others (suc n) = (refl, many-others n)

get-many : (n : ℕ) → Maps.get "t" (many n) ≡ none
unfolding many Maps.get
get-many zero = refl
get-many (suc n) = get-many n

full_refresh_refused_example :
    replace_sites
      ("a" ∷ "b" ∷ [])
      (("t", "b") ∷ [])
      (merge_refresh (record { sites = many 4096; incomplete_orgs = "b" ∷ [] }) (("t", "b") ∷ []))
    ≡ (("t", "b") ∷ [], err invalid_organization)
full_refresh_refused_example =
    full_refresh_refused ("a" ∷ "b" ∷ []) (many 4096) "t" "b" (length-many 4096, many-others 4096)
      (get-many 4096)

blanks : ℕ → Items
blanks zero = nil
blanks (suc n) = cons null (blanks n)

count-blanks : (n : ℕ) → count_items (blanks n) ≡ n
unfolding blanks
count-blanks zero = refl
count-blanks (suc n) = omega (arith, count-blanks n)

-- Every page is full, and has the desk among its entries.
abbrev desks : Items
desks = cons (obj (field "id" (str desk) end)) (blanks 100)

abbrev known_sites : ℕ → SiteMap
known_sites zero = []
known_sites (suc p) = (desk, lab) ∷ []

insert_page-known :
    (n : ℕ) → insert_page lab (blanks n) ((desk, lab) ∷ []) ≡ ((desk, lab) ∷ [], complete)
unfolding blanks insert_page
insert_page-known zero = refl
insert_page-known (suc n) = insert_page-known n

insert_page-desks :
    (p : ℕ) → insert_page lab desks (known_sites p) ≡ (known_sites (suc p), complete)
unfolding insert_page Maps.insert get blanks site_target is_canonical_uuid scan_uuid
insert_page-desks zero = insert_page-known 100
insert_page-desks (suc p) = insert_page-known 100

endless_pages_complete_example :
    discover_org_sites as_is (sites_answer desks) as_is lab [] ≡ ((desk, lab) ∷ [], ok complete)
unfolding fetch_page
endless_pages_complete_example =
    endless_pages_complete as_is (sites_answer desks) as_is lab (λ p. desks) known_sites
      (λ p. omega (arith, count-blanks 100)) (λ p. refl) insert_page-desks
