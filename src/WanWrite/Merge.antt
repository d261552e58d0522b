-- ===== src/WanWrite/Merge.antt =====
-- What a merge gives at each key.
use rustmistmcp.Prelude.{
  ◌≡◌, refl, Option, none, some, String, str_eq, eq_iff, arith, if◌then◌else◌, Option-cases, inl,
  inr,
}
use rustmistmcp.Json.{Value, null, obj, Fields, end, field, get}
use rustmistmcp.Json.Entries.{get-insert, get-remove, IsMap}
use rustmistmcp.WanWrite.{base_fields, merge_entry, merge_patch, merge_fields}

-- What a patch's entry asks for at its own key: nothing is left by `null`; a value is merged onto
-- what stands there, and stands for itself where nothing does.
abbrev pub patched : Option Value → Value → Option Value
patched old null = none
patched none value = some value
patched (some existing) value = some (merge_patch existing value)

-- What stands at a key when the patch is read as a map.
abbrev pub expected : Option Value → Option Value → Option Value
expected old none = old
expected old (some value) = patched old value

get-merge_entry :
    (j k : String) (value : Value) (merged : Fields)
    → get j (merge_entry (λ existing. merge_patch existing value) merged k value)
      ≡ (if str_eq k j then patched (get j merged) value else get j merged)
unfolding merge_entry
get-merge_entry j k null merged = get-remove k j merged
get-merge_entry j k value merged = elim (Option-cases (get k merged)) [
  | inl absent ↦ ground (arith, absent, eq_iff k j, get-insert k j value merged)
  | inr (old, found) ↦
      ground (arith, found, eq_iff k j, get-insert k j (merge_patch old value) merged)
]

get-merge_fields :
    (j : String) (merged patch : Fields)
    → IsMap patch
    → get j (merge_fields merged patch) ≡ expected (get j merged) (get j patch)
unfolding merge_fields get
get-merge_fields j merged end h = refl
get-merge_fields j merged (field k value patch) (fresh, h) = ground (
  arith,
  eq_iff k j,
  get-merge_entry j k value merged,
  get-merge_fields j (merge_entry (λ existing. merge_patch existing value) merged k value) patch h,
)

-- The merged object at every key: what was read where the patch has no such key, nothing where the
-- patch has null, the patch's value where nothing stood there, and otherwise the merge of the two.
pub get-merge_patch :
    (j : String) (before : Value) (patch : Fields)
    → IsMap patch
    → (after : Fields) × (merge_patch before (obj patch) ≡ obj after)
      × (get j after ≡ expected (get j (base_fields before)) (get j patch))
unfolding merge_patch
get-merge_patch j before patch h =
    (merge_fields (base_fields before) patch, refl, get-merge_fields j (base_fields before) patch h)
