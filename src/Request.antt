-- ===== src/Request.antt =====
-- crates/rustmistmcp-core/src/request.rs: requests and responses, and the bounds on both.
pub mod Checks
pub mod Responses
pub mod Bounded
pub mod BoundedRequests
pub mod Declared
pub mod Accepted
pub mod Answered
pub mod Examples
use rustmistmcp.Prelude.{
  ℕ, suc, ◌+◌, Bool, true, false, ◌&&◌, ◌||◌, List, [], ◌∷◌, Option, none, some, String, Result, ok,
  err, ◌>>=◌, ◌>>◌, refuse_if, map_err, is_empty, byte_len, ltb, ◌==◌, length, if◌then◌else◌,
}
use rustmistmcp.Json.{
  Value, null, bool, num, str, arr, obj, Items, nil, cons, Fields, end, field, count_fields,
  count_items,
}
use rustmistmcp.Error.{MistError, invalid_request, invalid_response}
use rustmistmcp.Pagination.{MistCursor}

abbrev pub max_operation_id_bytes : ℕ
max_operation_id_bytes = 256

abbrev pub max_path_values : ℕ
max_path_values = 8

abbrev pub max_query_values : ℕ
max_query_values = 64

abbrev pub max_value_depth : ℕ
max_value_depth = 32

abbrev pub max_value_members : ℕ
max_value_members = 1024

abbrev pub max_value_string_bytes : ℕ
max_value_string_bytes = 32_768

abbrev pub max_response_body_bytes : ℕ
max_response_body_bytes = 524_288

abbrev pub max_response_serialized_bytes : ℕ
max_response_serialized_bytes = 1_048_576

pub record MistRequest : Type 0 where
  pub operation_id : String
  pub path : List (String × String)
  pub query : List (String × Value)
  pub json : Option Value
  pub cursor : Option MistCursor

pub data MistResponseBody : Type 0 where
  json : Value → MistResponseBody
  text : String → MistResponseBody
  binary : List ℕ → MistResponseBody
  empty : MistResponseBody

pub record MistPageInfo : Type 0 where
  pub page : Option ℕ
  pub limit : Option ℕ
  pub total : Option ℕ

pub record MistResponse : Type 0 where
  pub operation_id : String
  pub status : ℕ
  pub body : MistResponseBody
  pub cursor : Option MistCursor
  pub page : Option MistPageInfo

-- `invalid` and `invalid_response`
abbrev pub refuse_request : MistRequest → Bool → String → Result MistError (Unit {0})
refuse_request r refused reason = refuse_if refused (invalid_request r.operation_id reason)

abbrev pub refuse_response : MistResponse → Bool → String → Result MistError (Unit {0})
refuse_response r refused reason = refuse_if refused (invalid_response r.operation_id reason)

abbrev pub too_deep : ℕ → Result String (Unit {0})
too_deep depth =
    refuse_if (ltb max_value_depth depth) "JSON value exceeds the Mist input depth bound of 32"

unfoldable mutual
  pub validate_value_bounds : Value → ℕ → Result String (Unit {0})
  validate_value_bounds null depth = too_deep depth
  validate_value_bounds (bool b) depth = too_deep depth
  validate_value_bounds (num n) depth = too_deep depth
  validate_value_bounds (str value) depth =
      too_deep depth
      >> refuse_if (ltb max_value_string_bytes (byte_len value))
          "JSON strings must not exceed 32768 bytes"
  validate_value_bounds (arr values) depth =
      too_deep depth
      >> (refuse_if (ltb max_value_members (count_items values))
            "JSON arrays must not exceed 1024 members"
          >> validate_item_bounds values (suc depth))
  validate_value_bounds (obj values) depth =
      too_deep depth
      >> (refuse_if (ltb max_value_members (count_fields values))
            "JSON objects must not exceed 1024 members"
          >> validate_field_bounds values (suc depth))

  pub validate_item_bounds : Items → ℕ → Result String (Unit {0})
  validate_item_bounds nil depth = ok tt
  validate_item_bounds (cons v vs) depth =
      validate_value_bounds v depth >> validate_item_bounds vs depth

  pub validate_field_bounds : Fields → ℕ → Result String (Unit {0})
  validate_field_bounds end depth = ok tt
  validate_field_bounds (field name v fs) depth =
      refuse_if (ltb max_operation_id_bytes (byte_len name))
        "JSON object keys must not exceed 256 bytes"
      >> (validate_value_bounds v depth >> validate_field_bounds fs depth)

-- `is_empty() || len() > MAX_OPERATION_ID_BYTES`
abbrev pub is_bad_name : String → Bool
is_bad_name name = is_empty name || ltb max_operation_id_bytes (byte_len name)

-- The loop over the path values.
unfoldable pub validate_path_values :
    MistRequest → List (String × String) → Result MistError (Unit {0})
validate_path_values r [] = ok tt
validate_path_values r ((name, value) ∷ rest) =
    refuse_request r (is_bad_name name) "path parameter names must contain 1-256 bytes"
    >> (refuse_request r (ltb max_value_string_bytes (byte_len value))
          "path values must not exceed 32768 bytes"
        >> validate_path_values r rest)

-- The loop over the names of the query.
unfoldable pub validate_query_names :
    MistRequest → List (String × Value) → Result MistError (Unit {0})
validate_query_names r [] = ok tt
validate_query_names r ((name, value) ∷ rest) =
    refuse_request r (is_bad_name name) "query parameter names must contain 1-256 bytes"
    >> validate_query_names r rest

unfoldable pub bounded_for : MistRequest → Value → Result MistError (Unit {0})
bounded_for r value = map_err (invalid_request r.operation_id) (validate_value_bounds value 0)

-- The loop over the values of the query.
unfoldable pub validate_query_values :
    MistRequest → List (String × Value) → Result MistError (Unit {0})
validate_query_values r [] = ok tt
validate_query_values r ((name, value) ∷ rest) = bounded_for r value >> validate_query_values r rest

unfoldable pub validate_body_value : MistRequest → Option Value → Result MistError (Unit {0})
validate_body_value r none = ok tt
validate_body_value r (some value) = bounded_for r value

unfoldable pub validate_request_bounds : MistRequest → Result MistError (Unit {0})
validate_request_bounds r =
    refuse_request r (is_bad_name r.operation_id) "operation ID must contain 1-256 bytes"
    >> (refuse_request r (ltb max_path_values (length r.path))
          "path values exceed the Mist input bound of 8"
        >> (refuse_request r (ltb max_query_values (length r.query))
              "query values exceed the Mist input bound of 64"
            >> (validate_path_values r r.path
                >> (validate_query_names r r.query
                    >> (validate_body_value r r.json >> validate_query_values r r.query)))))

-- `response_len` is the length of the response's JSON, which serde_json writes; nothing if it fails.
module _ (response_len : MistResponse → Option ℕ) where
  unfoldable pub validate_response_bounds : MistResponse → Result MistError (Unit {0})
  validate_response_bounds r = do
    refuse_response r (is_bad_name r.operation_id) "operation ID must contain 1-256 bytes"
    elim r.body [
      | json value ↦ map_err (invalid_response r.operation_id) (validate_value_bounds value 0)
      | text value ↦
          refuse_response r (ltb max_response_body_bytes (byte_len value))
            "text body exceeds the 524288-byte DTO bound"
      | binary value ↦
          refuse_response r (ltb max_response_body_bytes (length value))
            "binary body exceeds the 524288-byte DTO bound"
      | empty ↦ ok tt
    ]
    elim (response_len r) [
      | none ↦ err (invalid_response r.operation_id "response DTO could not be serialized")
      | some n ↦
          refuse_response r (ltb max_response_serialized_bytes n)
            "response exceeds the 1048576-byte serialized DTO bound"
    ]
