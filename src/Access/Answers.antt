-- ===== src/Access/Answers.antt =====
-- What a read answers.
use rustmistmcp.Prelude.{
  ℕ, ◌≤◌, ◌<◌, ◌≡◌, refl, sym, ap, ◌∙◌, inl, inr, true, List, [], Option, String, subst, err-ne-ok,
  Result, ok, err, arith, eq_iff, Option-cases, Result-cases, if◌then◌else◌,
}
use rustmistmcp.Prelude.Maps
use rustmistmcp.RateLimit.{CallPriority}
use rustmistmcp.Json.{Value}
use rustmistmcp.Target.{MistTarget}
use rustmistmcp.Error.{MistError}
use rustmistmcp.Pagination.{MistCursor}
use rustmistmcp.Catalog.{MistOperation}
use rustmistmcp.Request.{MistRequest, MistResponse}
use rustmistmcp.Request.Checks.{Judge, show_status, validate_request}
use rustmistmcp.Request.Accepted.{validate_request_iff}
use rustmistmcp.Request.Responses.{validate_response}
use rustmistmcp.Sites.{is_success}
use rustmistmcp.Access.{CallerCtx, call_priority_for}
use rustmistmcp.Access.Dispatch.{
  CatalogRead, Handler, ReadEnvelope, call_error, content_of, from_response, conclude,
  attach_context, audited, request_of, dispatch_catalogued_read, dispatch_admitted, send, admit,
}

-- A response that passes its checks is handed on as it is.
pub validate_response-same :
    (judge : Judge) (response_len : MistResponse → Option ℕ)
    (operation_of : String → Option MistOperation) (origin : String) (r out : MistResponse)
    → validate_response judge response_len operation_of origin r ≡ ok out
    → out ≡ r
unfolding validate_response
validate_response-same judge response_len operation_of origin r out passed =
    elim (Option-cases (operation_of r.operation_id)) [
      | inl unknown ↦ ground (arith, unknown)
      | inr (operation, known) ↦
          elim (Option-cases (Maps.get (show_status r.status) operation.responses)) [
            | inl undeclared ↦ ground (arith, known, undeclared)
            | inr (responses, declared) ↦ ground (arith, known, declared)
          ]
    ]

success_bounds : (code : ℕ) → is_success code ≡ true → (200 ≤ code) × (code < 300)
success_bounds code h = ground arith

-- The data of an envelope: the body's, redacted where the read asks for it.
abbrev pub data_of : Handler → CatalogRead → MistResponse → Value
data_of h read r =
    if read.redact_output then h.redact (content_of r.body).1 else (content_of r.body).1

-- What an envelope says of the response that it was made from.
pub record IsAnswer (h : Handler) (read : CatalogRead) (request : MistRequest)
    (response : MistResponse) (envelope : ReadEnvelope) : Type 0 where
  pub same_operation : response.operation_id ≡ request.operation_id
  pub operation_id : envelope.operation_id ≡ request.operation_id
  pub status : envelope.status ≡ response.status
  pub success : (200 ≤ response.status) × (response.status < 300)
  pub data_value : envelope.data_value ≡ data_of h read response

concluded :
    (h : Handler) (read : CatalogRead) (request : MistRequest) (target : Option MistTarget)
    (response checked : MistResponse) (cursor : Option MistCursor) (envelope : ReadEnvelope)
    → validate_response h.judge h.response_len h.operation_of h.origin response ≡ ok checked
    → attach_context h request target checked.cursor ≡ ok cursor
    → conclude h read request target (ok response) ≡ ok envelope
    → (response.operation_id ≡ request.operation_id)
      × (is_success checked.status ≡ true)
      × (envelope ≡ from_response h checked target read.redact_output cursor)
unfolding conclude
concluded h read request target response checked cursor envelope e e2 passed =
    ground (arith, e, e2, eq_iff response.operation_id request.operation_id)

unattached :
    (h : Handler) (read : CatalogRead) (request : MistRequest) (target : Option MistTarget)
    (response checked : MistResponse) (failure : MistError) (envelope : ReadEnvelope)
    → validate_response h.judge h.response_len h.operation_of h.origin response ≡ ok checked
    → attach_context h request target checked.cursor ≡ err failure
    → conclude h read request target (ok response) ≡ ok envelope
    → ⊥
unfolding conclude
unattached h read request target response checked failure envelope e e2 passed =
    ground (arith, e, e2)

unchecked :
    (h : Handler) (read : CatalogRead) (request : MistRequest) (target : Option MistTarget)
    (response : MistResponse) (failure : MistError) (envelope : ReadEnvelope)
    → validate_response h.judge h.response_len h.operation_of h.origin response ≡ err failure
    → conclude h read request target (ok response) ≡ ok envelope
    → ⊥
unfolding conclude
unchecked h read request target response failure envelope e passed = ground (arith, e)

envelope-IsAnswer :
    (h : Handler) (read : CatalogRead) (request : MistRequest) (target : Option MistTarget)
    (response : MistResponse) (cursor : Option MistCursor)
    → response.operation_id ≡ request.operation_id
    → is_success response.status ≡ true
    → IsAnswer h read request response (from_response h response target read.redact_output cursor)
unfolding from_response
envelope-IsAnswer h read request target response cursor same success = record {
  same_operation = same;
  operation_id = same;
  status = refl;
  success = success_bounds response.status success;
  data_value = refl;
}

conclude_sound :
    (h : Handler) (read : CatalogRead) (request : MistRequest) (target : Option MistTarget)
    (response : MistResponse) (envelope : ReadEnvelope)
    → conclude h read request target (ok response) ≡ ok envelope
    → IsAnswer h read request response envelope
conclude_sound h read request target response envelope passed =
    elim (Result-cases
      (validate_response h.judge h.response_len h.operation_of h.origin response)) [
        | inr (failure, e) ↦
            absurd (unchecked h read request target response failure envelope e passed)
        | inl (checked, e) ↦ elim (Result-cases (attach_context h request target checked.cursor)) [
          | inr (failure, e2) ↦
              absurd
                (unattached h read request target response checked failure envelope e e2 passed)
          | inl (cursor, e2) ↦
              let same : checked ≡ response =
                validate_response-same h.judge h.response_len h.operation_of h.origin response
                  checked e in
              let (operation, success, made) =
                concluded h read request target response checked cursor envelope e e2 passed in
              subst (IsAnswer h read request response)
                (ap (λ r. from_response h r target read.redact_output cursor) (sym same) ∙ sym made)
                (envelope-IsAnswer h read request target response cursor operation
                  (ap (λ r. is_success r.status) (sym same) ∙ success))
        ]
      ]

conclude-err :
    (h : Handler) (read : CatalogRead) (request : MistRequest) (target : Option MistTarget)
    (failure : MistError)
    → conclude h read request target (err failure) ≡ err failure
unfolding conclude
conclude-err h read request target failure = refl

audited-answer :
    (h : Handler) (sent : List (MistRequest × CallPriority)) (r : Result MistError ReadEnvelope)
    (envelope : ReadEnvelope)
    → (audited h sent r).answer ≡ ok envelope
    → r ≡ ok envelope
audited-answer h sent (ok e) envelope same = ground arith
audited-answer h sent (err e) envelope same = cc

-- The response that the client gave to a request, where it gave one.
abbrev pub Answered : Handler → CatalogRead → Option CallerCtx → ReadEnvelope → Type 0
Answered h read caller envelope =
    (response : MistResponse) × (h.execute_as (request_of read) (call_priority_for caller)
      ≡ ok response)
    × IsAnswer h read (request_of read) response envelope

concluded_answer :
    (h : Handler) (read : CatalogRead) (caller : Option CallerCtx) (target : Option MistTarget)
    (answered : Result MistError MistResponse) (envelope : ReadEnvelope)
    → h.execute_as (request_of read) (call_priority_for caller) ≡ answered
    → conclude h read (request_of read) target answered ≡ ok envelope
    → Answered h read caller envelope
concluded_answer h read caller target (ok response) envelope e passed =
    (response, e, conclude_sound h read (request_of read) target response envelope passed)
concluded_answer h read caller target (err failure) envelope e passed = absurd (
    err-ne-ok failure envelope
      (sym (conclude-err h read (request_of read) target failure) ∙ passed))

admitted_answer :
    (h : Handler) (read : CatalogRead) (caller : Option CallerCtx) (target : Option MistTarget)
    (envelope : ReadEnvelope)
    → (dispatch_admitted h read caller target).answer ≡ ok envelope
    → Answered h read caller envelope
unfolding dispatch_admitted send
admitted_answer h read caller target envelope passed =
    elim (Result-cases (validate_request h.judge h.operation_of h.origin (request_of read))) [
      | inr (failure, e) ↦ absurd (
          err-ne-ok failure envelope
            (audited-answer h [] (err failure) envelope (rw (e, dispatch_admitted) at passed)))
      | inl (out, e) ↦
          let same : out ≡ request_of read =
            ((validate_request_iff h.judge h.operation_of h.origin (request_of read) out).0 e).0 in
          concluded_answer h read caller target
            (h.execute_as (request_of read) (call_priority_for caller)) envelope refl
            (audited-answer h _ _ envelope (rw (e ∙ ap ok same, dispatch_admitted) at passed))
    ]

-- A read that answers with data hands on the client's response to its request, sent with its caller's
-- priority: the response was to the same operation, with a status from 200 to 299, and the data is its
-- body, redacted where the read asks for it.
pub answer_sound :
    (h : Handler) (read : CatalogRead) (caller : Option CallerCtx) (envelope : ReadEnvelope)
    → (dispatch_catalogued_read h read caller).answer ≡ ok envelope
    → Answered h read caller envelope
unfolding dispatch_catalogued_read
answer_sound h read caller envelope passed = elim (Result-cases (admit h read caller)) [
  | inr (refusal, e) ↦
      absurd
        (err-ne-ok (call_error refusal.error) envelope (rw (e, dispatch_catalogued_read) at passed))
  | inl ((operation, target), e) ↦
      admitted_answer h read caller target envelope (rw (e, dispatch_catalogued_read) at passed)
]
