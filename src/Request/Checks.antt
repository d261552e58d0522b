-- ===== src/Request/Checks.antt =====
-- crates/rustmistmcp-core/src/request.rs: the checks of requests and responses against the catalog.
-- A map is its entries in the order in which the source iterates over it.
use rustmistmcp.Prelude.{
  ℕ, suc, zero, ◌/◌, ◌%◌, Bool, ◌&&◌, List, [], ◌∷◌, Option, none, some, String, Result, ok, err,
  ◌>>=◌, ◌>>◌, ok_or, any, ltb, ◌==◌, str_eq, if◌then◌else◌, append_text, codes, contains_str,
  is_prefix,
}
use rustmistmcp.Prelude.Maps
use rustmistmcp.Json.{Value, str}
use rustmistmcp.Catalog.{MistParameter, MistOperation}
use rustmistmcp.Error.{MistError, unknown_operation, invalid_request}
use rustmistmcp.Pagination.{MistCursor, validate_for}
use rustmistmcp.Request.{MistRequest, refuse_request, validate_request_bounds}

pub data Direction : Type 0 where
  to_mist from_mist : Direction

pub data SchemaSlot : Type 0 where
  request_body : SchemaSlot
  request_parameter response_body : String → String → SchemaSlot

-- A value against a schema, as the crate jsonschema judges it: no answer where the schema does not
-- compile, and the details of the violation where there is one.
abbrev pub Judge : Type 0
Judge = String → SchemaSlot → Value → Value → Direction → Option (Option String)

abbrev digit : ℕ → String
digit n =
    if n == 0
    then "0"
    else if n == 1
    then "1"
    else if n == 2
    then "2"
    else if n == 3
    then "3"
    else if n == 4
    then "4"
    else if n == 5
    then "5"
    else if n == 6
    then "6"
    else if n == 7
    then "7"
    else if n == 8
    then "8"
    else "9"

-- `u16::to_string`: at most five digits.
unfoldable pub decimal : ℕ → ℕ → String
decimal zero n = ""
decimal (suc fuel) n =
    let before = decimal fuel (n / 10) in
    if ltb n 10 then digit n else append_text before (digit (n % 10))

unfoldable pub show_status : ℕ → String
unfolding decimal
show_status n = decimal 5 n

-- The names of the parameters at one location.
unfoldable pub declared_names : String → List MistParameter → List String
declared_names location [] = []
declared_names location (p ∷ ps) =
    let rest = declared_names location ps in
    if str_eq p.location location then p.name ∷ rest else rest

-- `supplied.difference(&declared).next()`
unfoldable pub first_extra : List String → List String → Option String
first_extra [] declared = none
first_extra (name ∷ names) declared =
    let rest = first_extra names declared in
    if any (λ d. str_eq d name) declared then rest else some name

abbrev pub keys : {V : Type 0} → List (String × V) → List String
keys [] = []
keys ((k, v) ∷ m) = k ∷ keys m

-- A request's path values, as the strings that they are in JSON.
abbrev pub as_values : List (String × String) → List (String × Value)
as_values [] = []
as_values ((k, v) ∷ m) = (k, str v) ∷ as_values m

abbrev pub is_json_media : String → Bool
is_json_media media = is_prefix (codes "application/") (codes media) && contains_str "json" media

abbrev pub is_text_media : String → Bool
is_text_media media = is_prefix (codes "text/") (codes media)

module _ (judge : Judge) where
  unfoldable pub validate_schema :
      MistRequest → String → SchemaSlot → Value → Value → Result MistError (Unit {0})
  validate_schema r operation slot schema value = elim (judge operation slot schema value to_mist) [
    | some none ↦ ok tt
    | some (some details) ↦
        err
          (invalid_request r.operation_id (append_text "value violates catalog schema:\n" details))
    | none ↦ err (invalid_request r.operation_id "catalog schema compilation failed")
  ]

  -- The body of the loop over the parameters, on the value that was found.
  unfoldable pub validate_parameter :
      MistRequest → String → String → MistParameter → Option Value → Result MistError (Unit {0})
  validate_parameter r operation location p none =
      refuse_request r p.required
        (append_text "missing required " (append_text location (append_text " parameter: " p.name)))
  validate_parameter r operation location p (some value) =
      validate_schema r operation (request_parameter location p.name) p.schema value

  unfoldable pub validate_parameter_list :
      MistRequest
      → String
      → String
      → List (String × Value)
      → List MistParameter
      → Result MistError (Unit {0})
  validate_parameter_list r operation location supplied [] = ok tt
  validate_parameter_list r operation location supplied (p ∷ ps) =
      let rest = validate_parameter_list r operation location supplied ps in
      if str_eq p.location location
      then validate_parameter r operation location p (Maps.get p.name supplied) >> rest
      else rest

  unfoldable pub validate_parameter_set :
      MistRequest → MistOperation → String → List (String × Value) → Result MistError (Unit {0})
  validate_parameter_set r operation location supplied =
      elim (first_extra (keys supplied) (declared_names location operation.parameters)) [
        | some extra ↦ err (
            invalid_request r.operation_id
              (append_text "undeclared " (append_text location (append_text " parameter: " extra))))
        | none ↦
            validate_parameter_list r operation.operation_key location supplied operation.parameters
      ]

  unfoldable pub validate_parameters : MistRequest → MistOperation → Result MistError (Unit {0})
  validate_parameters r operation =
      validate_parameter_set r operation "path" (as_values r.path)
      >> validate_parameter_set r operation "query" r.query

  unfoldable pub validate_json_body : MistRequest → MistOperation → Result MistError (Unit {0})
  validate_json_body r operation = elim r.json [
    | none ↦
        refuse_request r operation.request_body_required
          "operation requires an application/json request body"
    | some value ↦ elim (Maps.get "application/json" operation.request_schemas) [
      | none ↦ err (
          invalid_request r.operation_id
            "operation does not declare an application/json request body")
      | some schema ↦ validate_schema r operation.operation_key request_body schema value
    ]
  ]

abbrev pub validate_cursor :
    Option MistCursor → MistOperation → String → Result MistError (Unit {0})
validate_cursor none operation origin = ok tt
validate_cursor (some c) operation origin =
    validate_for c operation.operation_id operation.pagination origin

module _ (judge : Judge) (operation_of : String → Option MistOperation) (origin : String) where
  -- `MistRequest::validate`
  unfoldable pub validate_request : MistRequest → Result MistError MistRequest
  validate_request r = do
    validate_request_bounds r
    operation ← ok_or (operation_of r.operation_id) (unknown_operation r.operation_id)
    validate_parameters judge r operation
    validate_json_body judge r operation
    validate_cursor r.cursor operation origin
    ok r
