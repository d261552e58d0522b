-- ===== src/WanWrite/Refusals.antt =====
-- What the two refusals let through, at every depth.
use rustmistmcp.Prelude.{
  ◌≡◌, ◌≢◌, refl, ◌↔◌, false, none, String, eq_iff, arith, ok, contains_str, >>-eq-ok_iff,
}
use rustmistmcp.Json.{Value, str, arr, obj, Items, nil, cons, Fields, end, field, get, contains_key}
use rustmistmcp.Json.Deep.{Everywhere, EachItem, EachField}
use rustmistmcp.WanWrite.{
  placeholder, authority_key, reject_redaction_placeholder, reject_placeholder_fields,
  reject_placeholder_items, reject_config_authority, reject_authority_fields,
  reject_authority_items,
}

abbrev pub AnyText : String → Type 0
AnyText s = Unit

abbrev pub HidesNothing : String → Type 0
HidesNothing s = contains_str placeholder s ≡ false

abbrev pub IsOtherKey : String → Type 0
IsOtherKey k = k ≢ authority_key

-- No string of the value holds the placeholder, at any depth.
abbrev pub NoPlaceholder : Value → Type 0
NoPlaceholder = Everywhere HidesNothing AnyText

-- No object of the value has the key `mist_configured`, at any depth.
abbrev pub NoAuthority : Value → Type 0
NoAuthority = Everywhere AnyText IsOtherKey

mutual
  unfolding reject_redaction_placeholder

  placeholder_iff : (v : Value) → (reject_redaction_placeholder v ≡ ok tt) ↔ NoPlaceholder v
  placeholder_iff (str s) = ground arith
  placeholder_iff (obj fs) = placeholder_fields_iff fs
  placeholder_iff (arr vs) = placeholder_items_iff vs
  placeholder_iff _ = ground arith

  placeholder_fields_iff :
      (fs : Fields) → (reject_placeholder_fields fs ≡ ok tt) ↔ EachField HidesNothing AnyText fs
  placeholder_fields_iff end = ground arith
  placeholder_fields_iff (field k v fs) =
      let (to, from) =
        >>-eq-ok_iff (reject_redaction_placeholder v) (reject_placeholder_fields fs)
          (placeholder_iff v) (placeholder_fields_iff fs) in
      (λ h. (tt, (to h).0, (to h).1), λ (u, p, q). from (p, q))

  placeholder_items_iff :
      (vs : Items) → (reject_placeholder_items vs ≡ ok tt) ↔ EachItem HidesNothing AnyText vs
  placeholder_items_iff nil = ground arith
  placeholder_items_iff (cons v vs) =
      >>-eq-ok_iff (reject_redaction_placeholder v) (reject_placeholder_items vs)
        (placeholder_iff v) (placeholder_items_iff vs)

-- A patch passes the first refusal exactly when no string in it holds the placeholder, at any depth.
pub reject_redaction_placeholder_iff :
    (v : Value) → (reject_redaction_placeholder v ≡ ok tt) ↔ NoPlaceholder v
reject_redaction_placeholder_iff v = placeholder_iff v

authority_obj_iff :
    {P : Type 0} (fs : Fields)
    → ((get authority_key fs ≡ none) × (reject_authority_fields fs ≡ ok tt)) ↔ P
    → (reject_config_authority (obj fs) ≡ ok tt) ↔ P
unfolding reject_config_authority contains_key
authority_obj_iff fs h = ground arith

absent_cons_iff :
    (k : String) (v : Value) (fs : Fields)
    → (get authority_key (field k v fs) ≡ none) ↔ (IsOtherKey k × (get authority_key fs ≡ none))
unfolding get
absent_cons_iff k v fs = ground (arith, eq_iff k authority_key)

reorder_iff :
    {A B K N P R Q : Type 0} → A ↔ (K × N) → B ↔ (P × R) → (N × R) ↔ Q → (A × B) ↔ (K × P × Q)
reorder_iff f g h = ground arith

authority_cons_iff :
    {P Q : Type 0} (k : String) (v : Value) (fs : Fields)
    → (reject_config_authority v ≡ ok tt) ↔ P
    → ((get authority_key fs ≡ none) × (reject_authority_fields fs ≡ ok tt)) ↔ Q
    → ((get authority_key (field k v fs) ≡ none) × (reject_authority_fields (field k v fs) ≡ ok tt))
      ↔ (IsOtherKey k × P × Q)
unfolding reject_config_authority
authority_cons_iff k v fs h g =
    reorder_iff (absent_cons_iff k v fs)
      (>>-eq-ok_iff (reject_config_authority v) (reject_authority_fields fs) h (λ e. e, λ e. e)) g

mutual
  unfolding reject_config_authority get

  authority_iff : (v : Value) → (reject_config_authority v ≡ ok tt) ↔ NoAuthority v
  authority_iff (obj fs) = authority_obj_iff fs (authority_fields_iff fs)
  authority_iff (arr vs) = authority_items_iff vs
  authority_iff (str s) = ground arith
  authority_iff _ = ground arith

  authority_fields_iff :
      (fs : Fields)
      → ((get authority_key fs ≡ none) × (reject_authority_fields fs ≡ ok tt))
        ↔ EachField AnyText IsOtherKey fs
  authority_fields_iff end = (λ h. tt, λ h. (refl, refl))
  authority_fields_iff (field k v fs) =
      authority_cons_iff k v fs (authority_iff v) (authority_fields_iff fs)

  authority_items_iff :
      (vs : Items) → (reject_authority_items vs ≡ ok tt) ↔ EachItem AnyText IsOtherKey vs
  authority_items_iff nil = ground arith
  authority_items_iff (cons v vs) =
      >>-eq-ok_iff (reject_config_authority v) (reject_authority_items vs) (authority_iff v)
        (authority_items_iff vs)

-- A patch passes the second refusal exactly when no object in it has the key `mist_configured`, at
-- any depth.
pub reject_config_authority_iff : (v : Value) → (reject_config_authority v ≡ ok tt) ↔ NoAuthority v
reject_config_authority_iff v = authority_iff v
