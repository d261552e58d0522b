-- ===== src/WanWrite/Authority.antt =====
-- What an accepted patch can and cannot do to the object that it is merged onto.
use rustmistmcp.Prelude.{
  ◌≡◌, ◌≢◌, refl, Option, none, some, String, arith, ok, Option-cases, inl, inr, eq_refl,
}
use rustmistmcp.Json.{Value, null, obj, Fields, end, field, get, remove, get_key}
use rustmistmcp.Json.Deep.{
  Everywhere, EachField, insert-EachField, remove-EachField, get-Everywhere,
}
use rustmistmcp.WanWrite.{
  authority_key, base_fields, merge_entry, merge_patch, merge_fields, reject_config_authority,
  reject_redaction_placeholder,
}
use rustmistmcp.WanWrite.Refusals.{
  NoPlaceholder, NoAuthority, AnyText, HidesNothing, IsOtherKey, reject_config_authority_iff,
  reject_redaction_placeholder_iff,
}
use rustmistmcp.WanWrite.Merge.{get-merge_patch}

module _ (P Q : String → Type 0) where
  base-EachField : (v : Value) → Everywhere P Q v → EachField P Q (base_fields v)
  base-EachField (obj fs) h = h
  base-EachField _ h = tt

  merge_entry-EachField :
      (merge : Value → Value) (merged : Fields) (k : String) (value : Value)
      → ((old : Value) → Everywhere P Q old → Everywhere P Q (merge old))
      → Q k
      → Everywhere P Q value
      → EachField P Q merged
      → EachField P Q (merge_entry merge merged k value)
  unfolding merge_entry
  merge_entry-EachField merge merged k null keep q p h = remove-EachField P Q k merged h
  merge_entry-EachField merge merged k value keep q p h = elim (Option-cases (get k merged)) [
    | inl absent ↦ rw (absent, merge_entry) (insert-EachField P Q k value merged q p h)
    | inr (old, found) ↦
        rw (found, merge_entry)
          (insert-EachField P Q k (merge old) merged q
            (keep old (get-Everywhere P Q k merged old h found)) h)
  ]

  mutual
    unfolding merge_patch

    merge-Everywhere :
        (patch before : Value)
        → Everywhere P Q before
        → Everywhere P Q patch
        → Everywhere P Q (merge_patch before patch)
    merge-Everywhere (obj patch) before h g =
        merge_fields-EachField patch (base_fields before) (base-EachField before h) g
    merge-Everywhere _ before h g = g

    merge_fields-EachField :
        (patch merged : Fields)
        → EachField P Q merged
        → EachField P Q patch
        → EachField P Q (merge_fields merged patch)
    merge_fields-EachField end merged h g = h
    merge_fields-EachField (field k value patch) merged h (q, p, g) =
        merge_fields-EachField patch
          (merge_entry (λ existing. merge_patch existing value) merged k value)
          (merge_entry-EachField (λ existing. merge_patch existing value) merged k value
            (λ old o. merge-Everywhere value old o p) q p h)
          g

-- Where the object as read shows no placeholder, the merge of an accepted patch has none, at any
-- depth: no secret is overwritten by it.
pub merge-NoPlaceholder :
    (before patch : Value)
    → NoPlaceholder before
    → reject_redaction_placeholder patch ≡ ok tt
    → NoPlaceholder (merge_patch before patch)
merge-NoPlaceholder before patch h accepted =
    merge-Everywhere HidesNothing AnyText patch before h
      ((reject_redaction_placeholder_iff patch).0 accepted)

-- Where the object as read has no key `mist_configured`, the merge of an accepted patch has none, at
-- any depth.
pub merge-NoAuthority :
    (before patch : Value)
    → NoAuthority before
    → reject_config_authority patch ≡ ok tt
    → NoAuthority (merge_patch before patch)
merge-NoAuthority before patch h accepted =
    merge-Everywhere AnyText IsOtherKey patch before h
      ((reject_config_authority_iff patch).0 accepted)

-- `mist_configured` of the object that stands at a key.
abbrev pub authority_at : String → Value → Option Value
authority_at k v = elim (get_key k v) [ none ↦ none | some inner ↦ get_key authority_key inner ]

-- But a patch that deletes the object around it passes the refusal, and takes a nested
-- `mist_configured` away: null at any other key does.
pub null_removes_authority :
    (k : String) (before : Fields) (was : Value)
    → k ≢ authority_key
    → authority_at k (obj before) ≡ some was
    → (reject_config_authority (obj (field k null end)) ≡ ok tt)
      × (authority_at k (merge_patch (obj before) (obj (field k null end))) ≡ none)
unfolding get
null_removes_authority k before was other stood =
    let (after, same, law) = get-merge_patch k (obj before) (field k null end) (refl, tt) in
    (
      (reject_config_authority_iff (obj (field k null end))).1 (other, tt, tt),
      ground (arith, same, law, eq_refl k),
    )

abbrev pub nested_null : String → String → Fields
nested_null k j = field k (obj (field j null end)) end

merge-nested_null :
    (j : String) → merge_patch (obj (field j null end)) (obj (field j null end)) ≡ obj end
unfolding merge_patch merge_entry remove
merge-nested_null j = ground (arith, eq_refl j)

get-nested_null : (k j : String) → get k (nested_null k j) ≡ some (obj (field j null end))
unfolding get
get-nested_null k j = ground (arith, eq_refl k)

-- A null inside a value that is new to the object is written as it is, and deletes nothing: merging
-- such a patch a second time gives another object.
pub merge_not_idempotent :
    (k j : String) (before : Fields)
    → get k before ≡ none
    → (get_key k (merge_patch (obj before) (obj (nested_null k j))) ≡ some (obj (field j null end)))
      × (merge_patch (merge_patch (obj before) (obj (nested_null k j))) (obj (nested_null k j))
          ≢ merge_patch (obj before) (obj (nested_null k j)))
unfolding get
merge_not_idempotent k j before fresh =
    let (once, same, law) = get-merge_patch k (obj before) (nested_null k j) (refl, tt) in
    let (twice, same', law') = get-merge_patch k (obj once) (nested_null k j) (refl, tt) in
    (
      ground (arith, same, law, get-nested_null k j),
      ground (arith, same, law, same', law', get-nested_null k j, merge-nested_null j),
    )
