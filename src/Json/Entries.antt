-- ===== src/Json/Entries.antt =====
-- The laws of an object's entries.
use rustmistmcp.Prelude.{◌≡◌, refl, none, some, String, str_eq, eq_iff, arith, if◌then◌else◌}
use rustmistmcp.Json.{Value, Fields, end, field, get, insert, remove}

pub get-insert :
    (k j : String) (v : Value) (fs : Fields)
    → get j (insert k v fs) ≡ (if str_eq k j then some v else get j fs)
unfolding get insert
get-insert k j v end = refl
get-insert k j v (field i w fs) =
    ground (arith, eq_iff k j, eq_iff i k, eq_iff i j, get-insert k j v fs)

pub get-remove :
    (k j : String) (fs : Fields) → get j (remove k fs) ≡ (if str_eq k j then none else get j fs)
unfolding get remove
get-remove k j end = ground arith
get-remove k j (field i w fs) =
    ground (arith, eq_iff k j, eq_iff i k, eq_iff i j, get-remove k j fs)

-- No key stands twice, as in every `serde_json::Map`.
abbrev pub IsMap : Fields → Type 0
IsMap end = Unit
IsMap (field k v fs) = (get k fs ≡ none) × IsMap fs
