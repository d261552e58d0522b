-- ===== src/Json.antt =====
-- `serde_json::Value`. An object is its entries in a list: what is modelled here looks keys up,
-- and does not read the order of the entries.
pub mod Entries
pub mod Deep
use rustmistmcp.Prelude.{
  ℕ, suc, Bool, true, false, Option, none, some, String, str_eq, if◌then◌else◌, ◌&&◌, ◌||◌,
}

-- A number as a `u64`, as a negative `i64` (`negative n` is -(n + 1)), or as the text of a float.
pub data Number : Type 0 where
  unsigned negative : ℕ → Number
  float : String → Number

mutual
  pub data Value : Type 0 where
    null : Value
    bool : Bool → Value
    num : Number → Value
    str : String → Value
    arr : Items → Value
    obj : Fields → Value

  pub data Fields : Type 0 where
    end : Fields
    field : String → Value → Fields → Fields

  pub data Items : Type 0 where
    cons : Value → Items → Items
    nil : Items

-- `Map::get`
unfoldable pub get : String → Fields → Option Value
get k end = none
get k (field j v fs) = if str_eq j k then some v else get k fs

-- `Map::insert`
unfoldable pub insert : String → Value → Fields → Fields
insert k v end = field k v end
insert k v (field j w fs) = if str_eq j k then field k v fs else field j w (insert k v fs)

-- `Map::remove`
unfoldable pub remove : String → Fields → Fields
remove k end = end
remove k (field j v fs) = let rest = remove k fs in if str_eq j k then rest else field j v rest

abbrev pub has_value : Option Value → Bool
has_value none = false
has_value (some v) = true

-- `Map::contains_key`
unfoldable pub contains_key : String → Fields → Bool
unfolding get
contains_key k fs = has_value (get k fs)

-- `Map::len` and `Vec::len`
abbrev pub count_fields : Fields → ℕ
count_fields end = 0
count_fields (field k v fs) = suc (count_fields fs)

abbrev pub count_items : Items → ℕ
count_items nil = 0
count_items (cons v vs) = suc (count_items vs)

-- `Value::is_null`
abbrev pub is_null : Value → Bool
is_null null = true
is_null _ = false

-- `Value::as_str`
abbrev pub as_str : Value → Option String
as_str (str s) = some s
as_str _ = none

-- `Value::as_u64`
abbrev pub as_u64 : Value → Option ℕ
as_u64 (num (unsigned n)) = some n
as_u64 _ = none

-- `Value::get` at a key
abbrev pub get_key : String → Value → Option Value
get_key k (obj fs) = get k fs
get_key k _ = none
