-- ===== src/Catalog/Valid.antt =====
-- What a record of the catalogue that passes its checks has.
use rustmistmcp.Prelude.{
  ℕ, ◌≡◌, refl, Bool, true, false, not, List, [], ◌∷◌, ◌++◌, Option, String, Result, ok, err,
  refuse_if, ◌>>=◌, ◌>>◌, codes, sym, ap, ◌∙◌, arith, eq_iff, append_text,
}
use rustmistmcp.Config.Hosts.{same_codes_sound}
use rustmistmcp.Catalog.{
  CatalogError, MistOperation, TargetSelector, no_target, org_target, site_target, msp_target,
}
use rustmistmcp.Catalog.Derived.{targets_for_path, transport_for_media}
use rustmistmcp.Catalog.Selected.{CanDo, allowed_sound}
use rustmistmcp.Catalog.Checked.{safe_path, canonical_request_media}
use rustmistmcp.Catalog.ToolName.{tool_name, to_lowercase}
use rustmistmcp.Catalog.Named.{letters, letters-tool_name}
use rustmistmcp.Catalog.Record.{
  validate_operation, has_place, has_class, has_media, has_schemas, same_selectors,
}

same_selectors_sound : (ss ts : List TargetSelector) → same_selectors ss ts ≡ true → ss ≡ ts
same_selectors_sound [] [] h = refl
same_selectors_sound [] (t ∷ ts) h = ground arith
same_selectors_sound (s ∷ ss) [] h = ground arith
same_selectors_sound (no_target ∷ ss) (no_target ∷ ts) h =
    ap (λ l. no_target ∷ l) (same_selectors_sound ss ts h)
same_selectors_sound (org_target ∷ ss) (org_target ∷ ts) h =
    ap (λ l. org_target ∷ l) (same_selectors_sound ss ts h)
same_selectors_sound (site_target ∷ ss) (site_target ∷ ts) h =
    ap (λ l. site_target ∷ l) (same_selectors_sound ss ts h)
same_selectors_sound (msp_target ∷ ss) (msp_target ∷ ts) h =
    ap (λ l. msp_target ∷ l) (same_selectors_sound ss ts h)
same_selectors_sound (s ∷ ss) (t ∷ ts) h = ground arith

-- A check in a chain that passes, and what comes after it.
checked {ℓ} :
    {A : Type ℓ} (b : Bool) (e : CatalogError) (k : Result CatalogError A) (a : A)
    → (refuse_if (not b) e >> k) ≡ ok a
    → (b ≡ true) × (k ≡ ok a)
checked true e k a h = (refl, h)
checked false e k a h = absurd (ground arith)

then_ok {ℓ κ} :
    {A : Type ℓ} {B : Type κ} (m : Result CatalogError A) (k : A → Result CatalogError B) (b : B)
    → (m >>= k) ≡ ok b
    → (a : A) × (m ≡ ok a) × (k a ≡ ok b)
then_ok (ok a) k b h = (a, refl, h)
then_ok (err e) k b h = absurd (ground arith)

place_sound :
    (previous_key : Option String) (o : MistOperation)
    → has_place previous_key o ≡ true
    → (safe_path o.path ≡ true) × (o.operation_key ≡ append_text o.method (append_text " " o.path))
unfolding has_place
place_sound previous_key o h =
    ground (arith, eq_iff o.operation_key (append_text o.method (append_text " " o.path)))

class_sound :
    (name : List ℕ) (o : MistOperation)
    → has_class name o ≡ true
    → (name ≡ codes o.tool)
      × CanDo o.method o.action
      × (o.target_selectors ≡ targets_for_path o.path)
unfolding has_class
class_sound name o h = (
  same_codes_sound name (codes o.tool) (ground arith),
  allowed_sound o.method o.action (ground arith),
  same_selectors_sound o.target_selectors (targets_for_path o.path) (ground arith),
)

-- A record that passes names its method and its path in its key, its path passes `safe_path`, its method
-- can do its action, its selectors are those of the path, its transport that of its media, and the name
-- of its tool, without its underscores, is `mist` and its identifier in lower case.
pub validate_operation_sound :
    (quoted : List ℕ → String) (o : MistOperation) (previous_key : Option String)
    → validate_operation quoted o previous_key ≡ ok tt
    → (o.operation_key ≡ append_text o.method (append_text " " o.path))
      × (safe_path o.path ≡ true)
      × CanDo o.method o.action
      × (o.target_selectors ≡ targets_for_path o.path)
      × (transport_for_media o.request_media_types ≡ ok o.transport)
      × (letters (codes o.tool) ≡ codes "mist" ++ to_lowercase (codes o.operation_id))
unfolding validate_operation has_schemas
validate_operation_sound quoted o previous_key h =
    let (place, after_place) = checked (has_place previous_key o) _ _ tt h in
    let (name, named, after_name) = then_ok (tool_name quoted o.operation_id) _ tt after_place in
    let (class, after_class) = checked (has_class name o) _ _ tt after_name in
    let (media, medias, after_media) =
      then_ok (canonical_request_media o.request_schemas) _ tt after_class in
    let (fits, after_fits) = checked (has_media media o) _ _ tt after_media in
    let (transport, sent, last) =
      then_ok (transport_for_media o.request_media_types) _ tt after_fits in
    let (schemas, digest) = checked (has_schemas transport o) _ _ tt last in
    let same : o.transport ≡ transport = ground (arith, eq_iff o.transport transport) in
    let (path, key) = place_sound previous_key o place in
    let (tool, can, selectors) = class_sound name o class in
    (
      key,
      path,
      can,
      selectors,
      sent ∙ ap (λ t. ok t) (sym same),
      ap letters (sym tool) ∙ letters-tool_name quoted o.operation_id name named,
    )
