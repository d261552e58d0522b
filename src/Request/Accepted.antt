-- ===== src/Request/Accepted.antt =====
-- What an accepted request is.
use rustmistmcp.Prelude.{
  ◌≡◌, sym, ap, ◌∙◌, ◌↔◌, inl, inr, Option, none, some, String, Result, ok, err, ◌>>=◌, arith,
  Option-cases, Result-cases,
}
use rustmistmcp.Catalog.{MistOperation}
use rustmistmcp.Pagination.{MistCursor}
use rustmistmcp.Pagination.Binding.{validate_for_iff}
use rustmistmcp.Request.{MistRequest, validate_request_bounds}
use rustmistmcp.Request.BoundedRequests.{IsBoundedRequest, validate_request_bounds_iff}
use rustmistmcp.Request.Checks.{
  Judge, as_values, validate_parameters, validate_json_body, validate_cursor, validate_request,
}
use rustmistmcp.Request.Declared.{LocationFits, BodyFits, parameter_set_iff, json_body_iff}

abbrev pub CursorFits : MistOperation → String → Option MistCursor → Type 0
CursorFits operation origin none = Unit
CursorFits operation origin (some c) =
    (c.operation_id ≡ operation.operation_id)
    × (c.origin ≡ origin)
    × (c.mode ≡ operation.pagination)

cursor_iff :
    (cursor : Option MistCursor) (operation : MistOperation) (origin : String)
    → (validate_cursor cursor operation origin ≡ ok tt) ↔ CursorFits operation origin cursor
cursor_iff none operation origin = ground arith
cursor_iff (some c) operation origin =
    validate_for_iff c operation.operation_id operation.pagination origin

checked_unchanged :
    {E A : Type 0} (a b c d : Result E (Unit {0})) (r out : A)
    → (a >>= λ _. b >>= λ _. c >>= λ _. d >>= λ _. ok r) ≡ ok out
    → out ≡ r
checked_unchanged (ok _) (ok _) (ok _) (ok _) r out e = ground arith
checked_unchanged (err e) b c d r out h = cc
checked_unchanged (ok _) (err e) c d r out h = cc
checked_unchanged (ok _) (ok _) (err e) d r out h = cc
checked_unchanged (ok _) (ok _) (ok _) (err e) r out h = cc

module _ (judge : Judge) (operation_of : String → Option MistOperation) (origin : String) where
  -- Bounded, declared where it should be, and bound to its operation.
  pub record IsAccepted (r : MistRequest) (operation : MistOperation) : Type 0 where
    pub known : operation_of r.operation_id ≡ some operation
    pub bounded : IsBoundedRequest r
    pub path : LocationFits judge operation "path" (as_values r.path)
    pub query : LocationFits judge operation "query" r.query
    pub body : BodyFits judge operation r.json
    pub cursor : CursorFits operation origin r.cursor

  known_iff :
      (r : MistRequest) (operation : MistOperation)
      → operation_of r.operation_id ≡ some operation
      → (validate_request judge operation_of origin r ≡ ok r) ↔ IsAccepted r operation
  unfolding validate_request validate_parameters
  known_iff r operation e = ground (
    arith,
    e,
    validate_request_bounds_iff r,
    parameter_set_iff judge r operation "path" (as_values r.path),
    parameter_set_iff judge r operation "query" r.query,
    json_body_iff judge r operation,
    cursor_iff r.cursor operation origin,
  )

  unknown_refused :
      (r out : MistRequest)
      → operation_of r.operation_id ≡ none
      → validate_request judge operation_of origin r ≡ ok out
      → ⊥
  unfolding validate_request
  unknown_refused r out missing e = elim (Result-cases (validate_request_bounds r)) [
    | inl (tt, fine) ↦ ground (arith, missing, fine)
    | inr (bad, failed) ↦ ground (arith, failed)
  ]

  known_unchanged :
      (r out : MistRequest) (operation : MistOperation)
      → operation_of r.operation_id ≡ some operation
      → validate_request judge operation_of origin r ≡ ok out
      → out ≡ r
  unfolding validate_request
  known_unchanged r out operation e h =
      checked_unchanged (validate_request_bounds r) (validate_parameters judge r operation)
        (validate_json_body judge r operation) (validate_cursor r.cursor operation origin) r out
        (ground (arith, e))

  -- `validate` hands out the request that it was given, or none. It does the former exactly when the
  -- catalog has the operation, every bound holds, the path and query values are exactly declared ones
  -- that fit their schemas with none missing that is required, the body fits its schema, and the
  -- cursor is one of this operation and origin.
  pub validate_request_iff :
      (r out : MistRequest)
      → (validate_request judge operation_of origin r ≡ ok out)
        ↔ ((out ≡ r) × ((operation : MistOperation) × IsAccepted r operation))
  validate_request_iff r out = elim (Option-cases (operation_of r.operation_id)) [
    | inl missing ↦ (
      λ h. absurd (unknown_refused r out missing h),
      λ (same, (operation, accepted)). cc (missing, accepted.known),
    )
    | inr (operation, found) ↦ (
      λ h.
          let same = known_unchanged r out operation found h in
          (same, (operation, (known_iff r operation found).0 (h ∙ ap ok same))),
      λ (same, (other, accepted)). (known_iff r other accepted.known).1 accepted ∙ ap ok (sym same),
    )
  ]
