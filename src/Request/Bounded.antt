-- ===== src/Request/Bounded.antt =====
-- What the bounds on values and requests let through.
use rustmistmcp.Prelude.{
  ℕ, suc, ◌+◌, ◌≤◌, ◌≡◌, ◌↔◌, max, String, ok, ◌>>◌, refuse_if, arith, >>-eq-ok_iff, byte_len, ltb,
}
use rustmistmcp.Json.{
  Value, null, bool, num, str, arr, obj, Items, nil, cons, Fields, end, field, count_fields,
  count_items,
}
use rustmistmcp.Json.Deep.{Everywhere, EachItem, EachField}
use rustmistmcp.Request.{
  too_deep, validate_value_bounds, validate_item_bounds, validate_field_bounds,
}

-- How deep a value is nested: 0 for a scalar and for an empty array or object.
abbrev mutual
  pub height : Value → ℕ
  height (arr vs) = height_items vs
  height (obj fs) = height_fields fs
  height null = 0
  height (bool b) = 0
  height (num n) = 0
  height (str s) = 0

  pub height_items : Items → ℕ
  height_items nil = 0
  height_items (cons v vs) = max (suc (height v)) (height_items vs)

  pub height_fields : Fields → ℕ
  height_fields end = 0
  height_fields (field k v fs) = max (suc (height v)) (height_fields fs)

-- No array and no object has more than 1024 members, at any depth.
abbrev mutual
  pub IsNarrow : Value → Type 0
  IsNarrow (arr vs) = (count_items vs ≤ 1024) × EachNarrowItem vs
  IsNarrow (obj fs) = (count_fields fs ≤ 1024) × EachNarrowField fs
  IsNarrow null = Unit
  IsNarrow (bool b) = Unit
  IsNarrow (num n) = Unit
  IsNarrow (str s) = Unit

  pub EachNarrowItem : Items → Type 0
  EachNarrowItem nil = Unit
  EachNarrowItem (cons v vs) = IsNarrow v × EachNarrowItem vs

  pub EachNarrowField : Fields → Type 0
  EachNarrowField end = Unit
  EachNarrowField (field k v fs) = IsNarrow v × EachNarrowField fs

abbrev pub IsShortText : String → Type 0
IsShortText s = byte_len s ≤ 32_768

abbrev pub IsShortName : String → Type 0
IsShortName s = byte_len s ≤ 256

-- At most 32 levels from the given depth on, short strings and names, and few members.
abbrev pub IsBounded : ℕ → Value → Type 0
IsBounded depth v = (height v + depth ≤ 32) × Everywhere IsShortText IsShortName v × IsNarrow v

abbrev EachBoundedItem : ℕ → Items → Type 0
EachBoundedItem depth vs =
    (height_items vs + depth ≤ 32) × EachItem IsShortText IsShortName vs × EachNarrowItem vs

abbrev EachBoundedField : ℕ → Fields → Type 0
EachBoundedField depth fs =
    (height_fields fs + depth ≤ 32) × EachField IsShortText IsShortName fs × EachNarrowField fs

-- The steps of the induction, over any description of the parts.
too_deep_iff : (depth : ℕ) → (too_deep depth ≡ ok tt) ↔ (depth ≤ 32)
too_deep_iff depth = ground arith

join_iff :
    {P P' Q Q' : Type 0} (a b depth : ℕ)
    → (((a + suc depth ≤ 32) × P × P') × ((b + depth ≤ 32) × Q × Q'))
      ↔ ((max (suc a) b + depth ≤ 32) × (P × Q) × (P' × Q'))
join_iff a b depth = ground arith

↔_trans : {P Q R : Type 0} → P ↔ Q → Q ↔ R → P ↔ R
↔_trans (f, f') (g, g') = (λ p. g (f p), λ r. f' (g' r))

named_iff :
    {N P P' Q Q' : Type 0} (a b depth : ℕ)
    → (N × (((a + suc depth ≤ 32) × P × P') × ((b + depth ≤ 32) × Q × Q')))
      ↔ ((max (suc a) b + depth ≤ 32) × (N × P × Q) × (P' × Q'))
named_iff a b depth = ground arith

IsShortName-iff :
    (k reason : String) → (refuse_if (ltb 256 (byte_len k)) reason ≡ ok tt) ↔ IsShortName k
IsShortName-iff k reason = ground arith

mutual
  unfolding validate_value_bounds

  value_iff : (v : Value) (depth : ℕ) → (validate_value_bounds v depth ≡ ok tt) ↔ IsBounded depth v
  value_iff null depth = ground arith
  value_iff (bool b) depth = ground arith
  value_iff (num n) depth = ground arith
  value_iff (str s) depth = ground arith
  value_iff (arr vs) depth = ground (arith, items_iff vs depth)
  value_iff (obj fs) depth = ground (arith, fields_iff fs depth)

  items_iff :
      (vs : Items) (depth : ℕ)
      → depth ≤ 32
      → (validate_item_bounds vs (suc depth) ≡ ok tt) ↔ EachBoundedItem depth vs
  items_iff nil depth h = ground arith
  items_iff (cons v vs) depth h =
      ↔_trans
        (>>-eq-ok_iff (validate_value_bounds v (suc depth)) (validate_item_bounds vs (suc depth))
          (value_iff v (suc depth)) (items_iff vs depth h))
        (join_iff (height v) (height_items vs) depth)

  fields_iff :
      (fs : Fields) (depth : ℕ)
      → depth ≤ 32
      → (validate_field_bounds fs (suc depth) ≡ ok tt) ↔ EachBoundedField depth fs
  fields_iff end depth h = ground arith
  fields_iff (field k v fs) depth h =
      ↔_trans
        (>>-eq-ok_iff
          (refuse_if (ltb 256 (byte_len k)) "JSON object keys must not exceed 256 bytes")
          (validate_value_bounds v (suc depth) >> validate_field_bounds fs (suc depth))
          (IsShortName-iff k "JSON object keys must not exceed 256 bytes")
          (>>-eq-ok_iff (validate_value_bounds v (suc depth)) (validate_field_bounds fs (suc depth))
            (value_iff v (suc depth)) (fields_iff fs depth h)))
        (named_iff (height v) (height_fields fs) depth)

-- A value is accepted exactly when it has at most 32 levels, strings of at most 32768 bytes, keys of
-- at most 256 bytes, and at most 1024 members in each of its arrays and objects.
pub validate_value_bounds_iff : (v : Value) → (validate_value_bounds v 0 ≡ ok tt) ↔ IsBounded 0 v
validate_value_bounds_iff v = value_iff v 0
