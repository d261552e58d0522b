-- ===== src/Request/BoundedRequests.antt =====
-- What the bounds on a request let through.
use rustmistmcp.Prelude.{
  ◌≤◌, ◌≡◌, ◌≢◌, ◌↔◌, false, List, [], ◌∷◌, Option, none, some, String, Result, ok, err, map_err,
  arith, >>-eq-ok_iff, byte_len, All, length,
}
use rustmistmcp.Json.{Value}
use rustmistmcp.Grant.Valid.{is_empty_iff}
use rustmistmcp.Request.{
  MistRequest, validate_value_bounds, is_bad_name, validate_path_values, validate_query_names,
  bounded_for, validate_query_values, validate_body_value, validate_request_bounds,
}
use rustmistmcp.Request.Bounded.{IsBounded, validate_value_bounds_iff}

-- 1 to 256 bytes
abbrev pub IsName : String → Type 0
IsName s = (s ≢ "") × (byte_len s ≤ 256)

abbrev pub IsPathValue : String × String → Type 0
IsPathValue (name, value) = IsName name × (byte_len value ≤ 32_768)

abbrev pub IsQueryValue : String × Value → Type 0
IsQueryValue (name, value) = IsName name × IsBounded 0 value

abbrev pub IsBoundedBody : Option Value → Type 0
IsBoundedBody none = Unit
IsBoundedBody (some value) = IsBounded 0 value

-- The bounds on everything that a request carries.
pub record IsBoundedRequest (r : MistRequest) : Type 0 where
  pub operation_id : IsName r.operation_id
  pub few_path : length r.path ≤ 8
  pub few_query : length r.query ≤ 64
  pub path : All IsPathValue r.path
  pub query : All IsQueryValue r.query
  pub json : IsBoundedBody r.json

bad-IsName_iff : (s : String) → (is_bad_name s ≡ false) ↔ IsName s
bad-IsName_iff s = ground (arith, is_empty_iff s)

map_err_iff :
    {E F P : Type 0} (f : E → F) (r : Result E (Unit {0}))
    → (r ≡ ok tt) ↔ P
    → (map_err f r ≡ ok tt) ↔ P
map_err_iff f (ok _) h = ground arith
map_err_iff f (err e) h = ground arith

bounded_for_iff : (r : MistRequest) (v : Value) → (bounded_for r v ≡ ok tt) ↔ IsBounded 0 v
unfolding bounded_for
bounded_for_iff r v = map_err_iff _ (validate_value_bounds v 0) (validate_value_bounds_iff v)

path_values_iff :
    (r : MistRequest) (path : List (String × String))
    → (validate_path_values r path ≡ ok tt) ↔ All IsPathValue path
unfolding validate_path_values
path_values_iff r [] = ground arith
path_values_iff r ((name, value) ∷ rest) =
    ground (arith, bad-IsName_iff name, path_values_iff r rest)

abbrev IsQueryName : String × Value → Type 0
IsQueryName (name, value) = IsName name

abbrev IsQueryBounded : String × Value → Type 0
IsQueryBounded (name, value) = IsBounded 0 value

query_names_iff :
    (r : MistRequest) (query : List (String × Value))
    → (validate_query_names r query ≡ ok tt) ↔ All IsQueryName query
unfolding validate_query_names
query_names_iff r [] = ground arith
query_names_iff r ((name, value) ∷ rest) =
    ground (arith, bad-IsName_iff name, query_names_iff r rest)

query_values_iff :
    (r : MistRequest) (query : List (String × Value))
    → (validate_query_values r query ≡ ok tt) ↔ All IsQueryBounded query
unfolding validate_query_values
query_values_iff r [] = ground arith
query_values_iff r ((name, value) ∷ rest) =
    >>-eq-ok_iff (bounded_for r value) (validate_query_values r rest) (bounded_for_iff r value)
      (query_values_iff r rest)

query_iff :
    (query : List (String × Value))
    → (All IsQueryName query × All IsQueryBounded query) ↔ All IsQueryValue query
query_iff [] = ground arith
query_iff ((name, value) ∷ rest) = ground (arith, query_iff rest)

body_iff :
    (r : MistRequest) (body : Option Value)
    → (validate_body_value r body ≡ ok tt) ↔ IsBoundedBody body
unfolding validate_body_value
body_iff r none = ground arith
body_iff r (some value) = bounded_for_iff r value

-- A request is within bounds exactly when its operation and its names have 1 to 256 bytes, it has at
-- most 8 path and 64 query values, and its path values, query values and body are bounded.
pub validate_request_bounds_iff :
    (r : MistRequest) → (validate_request_bounds r ≡ ok tt) ↔ IsBoundedRequest r
unfolding validate_request_bounds
validate_request_bounds_iff r = ground (
  arith,
  bad-IsName_iff r.operation_id,
  path_values_iff r r.path,
  query_names_iff r r.query,
  query_values_iff r r.query,
  query_iff r.query,
  body_iff r r.json,
)
