-- ===== src/Tools/Examples.antt =====
-- The search of a site's clients, called with a page size.
use rustmistmcp.Prelude.{[], ◌∷◌, ok, ◌≡◌, refl}
use rustmistmcp.Prelude.Maps
use rustmistmcp.Json
use rustmistmcp.Json.{Value, null, str, num, unsigned, obj, Fields, end, field}
use rustmistmcp.Access.Examples.{lab_id}
use rustmistmcp.Tools.{named_maps, split_args, list_mist_sites}

abbrev args : Fields
args = field "org_id" (str lab_id) (field "limit" (num (unsigned 10)) (field "page" null end))

args_split :
    named_maps (obj args) list_mist_sites.path_names
    ≡ ok (("org_id", lab_id) ∷ [], ("limit", num (unsigned 10)) ∷ [])
unfolding named_maps split_args Maps.insert
args_split = refl
