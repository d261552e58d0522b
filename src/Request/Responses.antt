-- ===== src/Request/Responses.antt =====
-- crates/rustmistmcp-core/src/request.rs: the checks of a response against the catalog.
use rustmistmcp.Prelude.{
  ℕ, Bool, true, false, List, [], ◌∷◌, ◌++◌, Option, none, some, String, Result, ok, err, ◌>>=◌,
  ◌>>◌, refuse_if, ok_or, map_err, any, not, append_text, if◌then◌else◌,
}
use rustmistmcp.Prelude.Maps
use rustmistmcp.Json.{Value}
use rustmistmcp.Catalog.{MistOperation}
use rustmistmcp.Error.{MistError, unknown_operation, invalid_response}
use rustmistmcp.Request.{
  MistResponse, MistResponseBody, json, text, binary, empty, validate_response_bounds,
}
use rustmistmcp.Request.Checks.{
  Judge, from_mist, response_body, show_status, is_json_media, is_text_media, keys, validate_cursor,
}

-- `responses.iter().filter(is_json_media)`
unfoldable pub json_schemas : List (String × Value) → List (String × Value)
json_schemas [] = []
json_schemas ((media, schema) ∷ rest) =
    let later = json_schemas rest in if is_json_media media then (media, schema) ∷ later else later

-- `join` with an empty line between two messages
abbrev pub join_errors : List String → String
join_errors [] = ""
join_errors (e ∷ []) = e
join_errors (e ∷ f ∷ es) = append_text e (append_text "\n\n" (join_errors (f ∷ es)))

abbrev pub schema_error : String → Option String → String
schema_error media (some details) =
    append_text "Schema for " (append_text media (append_text ":\n" details))
schema_error media none = append_text "Schema for " (append_text media ": compilation failed")

abbrev pub is_empty_body : MistResponseBody → Bool
is_empty_body empty = true
is_empty_body (json v) = false
is_empty_body (text v) = false
is_empty_body (binary v) = false

module _ (judge : Judge) where
  -- The loop over the schemas, which stops at the first that the value passes.
  unfoldable pub try_schemas :
      String → String → Value → List (String × Value) → List String → Result String (Unit {0})
  try_schemas operation_id status value [] [] =
      err "JSON body violates declared response schema (no details available)"
  try_schemas operation_id status value [] (e ∷ es) =
      err (append_text "JSON body violates declared response schema:\n" (join_errors (e ∷ es)))
  try_schemas operation_id status value ((media, schema) ∷ rest) errors =
      elim (judge operation_id (response_body status media) schema value from_mist) [
        | some none ↦ ok tt
        | some (some details) ↦
            try_schemas operation_id status value rest
              (errors ++ schema_error media (some details) ∷ [])
        | none ↦ try_schemas operation_id status value rest (errors ++ schema_error media none ∷ [])
      ]

  unfoldable pub check_json :
      String → String → Value → List (String × Value) → Result String (Unit {0})
  check_json operation_id status value [] = err "JSON body does not match declared response media"
  check_json operation_id status value (s ∷ ss) = try_schemas operation_id status value (s ∷ ss) []

  -- The `match` on the body, where some media is declared.
  unfoldable pub check_body :
      String → String → MistResponseBody → List (String × Value) → Result String (Unit {0})
  check_body operation_id status empty responses = err "declared response media requires a body"
  check_body operation_id status (json value) responses =
      check_json operation_id status value (json_schemas responses)
  check_body operation_id status (text value) responses =
      if any is_text_media (keys responses)
      then ok tt
      else err "text body does not match declared response media"
  check_body operation_id status (binary value) responses =
      if Maps.contains_key "application/octet-stream" responses
      then ok tt
      else err "binary body does not match declared response media"

  unfoldable pub validate_response_body :
      MistResponse → List (String × Value) → Result MistError (Unit {0})
  validate_response_body r [] =
      refuse_if (not (is_empty_body r.body))
        (invalid_response r.operation_id "declared no-content status requires an empty body")
  validate_response_body r (m ∷ ms) =
      map_err (invalid_response r.operation_id)
        (check_body r.operation_id (show_status r.status) r.body (m ∷ ms))

module _ (judge : Judge) (response_len : MistResponse → Option ℕ)
    (operation_of : String → Option MistOperation) (origin : String) where
  -- `MistResponse::validate`
  unfoldable pub validate_response : MistResponse → Result MistError MistResponse
  validate_response r = do
    operation ← ok_or (operation_of r.operation_id) (unknown_operation r.operation_id)
    responses ←
        ok_or (Maps.get (show_status r.status) operation.responses)
          (invalid_response r.operation_id "status is not declared for operation")
    validate_response_bounds response_len r
    validate_response_body judge r responses
    validate_cursor r.cursor operation origin
    ok r
