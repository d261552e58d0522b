-- ===== src/Request/Answered.antt =====
-- What an accepted response body is.
use rustmistmcp.Prelude.{
  ◌≡◌, ◌↔◌, ◌⊎◌, inl, inr, true, List, [], ◌∷◌, ◌++◌, none, some, String, Result, ok, err, arith,
  any, Option-cases, map_err,
}
use rustmistmcp.Prelude.Maps
use rustmistmcp.Json.{Value}
use rustmistmcp.Error
use rustmistmcp.Request.{MistResponse, MistResponseBody, json, text, binary, empty}
use rustmistmcp.Request.Checks.{
  Judge, from_mist, response_body, show_status, is_json_media, is_text_media, keys,
}
use rustmistmcp.Request.Responses.{
  json_schemas, try_schemas, check_json, check_body, is_empty_body, validate_response_body,
  schema_error,
}

module _ (judge : Judge) (operation_id status : String) (value : Value) where
  -- One of the schemas describes the value.
  abbrev pub Passes : List (String × Value) → Type 0
  Passes [] = ⊥
  Passes ((media, schema) ∷ rest) =
      (judge operation_id (response_body status media) schema value from_mist ≡ some none)
      ⊎ Passes rest

  -- One of the schemas of a JSON media type does.
  abbrev pub PassesJson : List (String × Value) → Type 0
  PassesJson [] = ⊥
  PassesJson ((media, schema) ∷ rest) =
      ((is_json_media media ≡ true)
        × (judge operation_id (response_body status media) schema value from_mist ≡ some none))
      ⊎ PassesJson rest

  try_schemas_iff :
      (schemas : List (String × Value)) (errors : List String)
      → (try_schemas judge operation_id status value schemas errors ≡ ok tt) ↔ Passes schemas
  unfolding try_schemas
  try_schemas_iff [] [] = ground arith
  try_schemas_iff [] (e ∷ es) = ground arith
  try_schemas_iff ((media, schema) ∷ rest) errors =
      elim (Option-cases (judge operation_id (response_body status media) schema value from_mist)) [
        | inl e ↦ ground (arith, e, try_schemas_iff rest (errors ++ schema_error media none ∷ []))
        | inr (none, e) ↦ ground (arith, e)
        | inr (some details, e) ↦
            ground
              (arith, e, try_schemas_iff rest (errors ++ schema_error media (some details) ∷ []))
      ]

  json_schemas_iff :
      (responses : List (String × Value)) → Passes (json_schemas responses) ↔ PassesJson responses
  unfolding json_schemas
  json_schemas_iff [] = ground arith
  json_schemas_iff ((media, schema) ∷ rest) = ground (arith, json_schemas_iff rest)

  check_json_iff :
      (schemas : List (String × Value))
      → (check_json judge operation_id status value schemas ≡ ok tt) ↔ Passes schemas
  unfolding check_json
  check_json_iff [] = ground arith
  check_json_iff (s ∷ ss) = try_schemas_iff (s ∷ ss) []

module _ (judge : Judge) where
  -- What a body has to be for the media that are declared for its status.
  abbrev pub BodyAnswers : MistResponse → List (String × Value) → MistResponseBody → Type 0
  BodyAnswers r [] body = body ≡ empty
  BodyAnswers r (m ∷ ms) (json value) =
      PassesJson judge r.operation_id (show_status r.status) value (m ∷ ms)
  BodyAnswers r (m ∷ ms) (text value) = any is_text_media (keys (m ∷ ms)) ≡ true
  BodyAnswers r (m ∷ ms) (binary value) =
      Maps.contains_key "application/octet-stream" (m ∷ ms) ≡ true
  BodyAnswers r (m ∷ ms) empty = ⊥

  check_body_iff :
      (r : MistResponse) (m : String × Value) (ms : List (String × Value)) (body : MistResponseBody)
      → (check_body judge r.operation_id (show_status r.status) body (m ∷ ms) ≡ ok tt)
        ↔ BodyAnswers r (m ∷ ms) body
  unfolding check_body
  check_body_iff r m ms empty = ground arith
  check_body_iff r m ms (text value) = ground arith
  check_body_iff r m ms (binary value) = ground arith
  check_body_iff r m ms (json value) = ground (
    arith,
    check_json_iff judge r.operation_id (show_status r.status) value (json_schemas (m ∷ ms)),
    json_schemas_iff judge r.operation_id (show_status r.status) value (m ∷ ms),
  )

  map_err-ok_iff :
      {E F : Type 0} (f : E → F) (m : Result E (Unit {0})) → (map_err f m ≡ ok tt) ↔ (m ≡ ok tt)
  map_err-ok_iff f (ok _) = ground arith
  map_err-ok_iff f (err e) = ground arith

  empty_body_iff : (b : MistResponseBody) → (is_empty_body b ≡ true) ↔ (b ≡ empty)
  empty_body_iff empty = ground arith
  empty_body_iff (json v) = ground arith
  empty_body_iff (text v) = ground arith
  empty_body_iff (binary v) = ground arith

  -- A response body is accepted exactly when no media is declared and it is empty, or it is JSON that
  -- one schema of a declared JSON media type describes, or text and a text type is declared, or binary
  -- and `application/octet-stream` is.
  pub validate_response_body_iff :
      (r : MistResponse) (responses : List (String × Value))
      → (validate_response_body judge r responses ≡ ok tt) ↔ BodyAnswers r responses r.body
  unfolding validate_response_body
  validate_response_body_iff r [] = ground (arith, empty_body_iff r.body)
  validate_response_body_iff r (m ∷ ms) = ground (
    arith,
    map_err-ok_iff (Error.invalid_response r.operation_id)
        (check_body judge r.operation_id (show_status r.status) r.body (m ∷ ms)),
    check_body_iff r m ms r.body,
  )
