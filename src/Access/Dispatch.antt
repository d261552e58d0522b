-- ===== src/Access/Dispatch.antt =====
-- crates/rustmistmcp/src/server/mod.rs: `dispatch_catalogued_read`, with the requests that it sends
-- and the outcome that it audits.
use rustmistmcp.Prelude.{
  ℕ, Bool, true, false, not, ◌&&◌, ◌||◌, List, [], ◌∷◌, Option, none, some, String, Result, ok, err,
  ◌>>=◌, ◌>>◌, refuse_if, map_err, ok_or, ◌==◌, str_eq, append_text, if◌then◌else◌,
}
use rustmistmcp.RateLimit.{CallPriority, BudgetStatus}
use rustmistmcp.Json.{Value, null, str, arr, num, unsigned, Items, nil, cons}
use rustmistmcp.Target.{MistTarget, subject}
use rustmistmcp.Catalog.{
  MistCapability, ordinary_read, privileged_read, create, update, delete, execute, same_capability,
  MistOperation,
}
use rustmistmcp.Error.{MistError, invalid_response, rate_limited, endpoint_retired, service}
use rustmistmcp.Pagination.{MistCursor, with_request_context}
use rustmistmcp.Request.{
  MistRequest, MistResponse, MistResponseBody, json, text, binary, empty, MistPageInfo,
}
use rustmistmcp.Request.Checks.{Judge, decimal, validate_request}
use rustmistmcp.Request.Responses.{validate_response}
use rustmistmcp.Sites.{is_success}
use rustmistmcp.Access.{
  CallerCtx, MistCallError, unknown_operation, wrong_capability, authorization,
  organization_not_configured, mist, call_priority_for, target_for, authorize_grant,
  validate_page_limit, unconfigured,
}

pub record CatalogRead : Type 0 where
  pub tool : String
  pub operation_id : String
  pub path : List (String × String)
  pub query : List (String × Value)
  pub cursor : Option MistCursor
  pub capability : MistCapability
  pub redact_output : Bool

pub record ReadEnvelope : Type 0 where
  pub operation_id : String
  pub target : Option String
  pub status : ℕ
  pub content_type : String
  pub data_value : Value
  pub next_cursor : Option String
  pub page : Option MistPageInfo
  pub truncated : Bool
  pub budget_remaining : Option BudgetStatus

-- The handler's configuration, and the code outside the repository that it calls: the caller's scope
-- check of mecmcp_auth, the client, the redaction of mecmcp_redact, serde_json's and hex's encodings,
-- and jsonschema. `unknown_text` is the message with its suggestions (similarity.rs).
pub record Handler : Type 0 where
  pub operation_of : String → Option MistOperation
  pub origin : String
  pub allowed_orgs : List String
  pub sites : List (String × String)
  pub judge : Judge
  pub response_len : MistResponse → Option ℕ
  pub cursor_len : MistCursor → Option ℕ
  pub encode_cursor : MistCursor → Option String
  pub authorize_call : Option CallerCtx → String → Option String → Option String
  pub execute_as : MistRequest → CallPriority → Result MistError MistResponse
  pub budget_status : Option BudgetStatus
  pub redact : Value → Value
  pub unknown_text : String → MistCapability → String
  pub converts : ReadEnvelope → Bool

-- What the audit record of a call says: `deny`, `fail` or success; a result that is not
-- converted within its bounds is audited as a failure.
pub data AuditOutcome : Type 0 where
  denied : String → AuditOutcome
  failed : MistCallError → AuditOutcome
  succeeded conversion_failed : AuditOutcome

-- An error of the call, or a result that `tool_result` of mecmcp does not convert within its bounds.
pub data ReadFailure : Type 0 where
  call_error : MistCallError → ReadFailure
  unconverted : ReadFailure

pub record Refusal : Type 0 where
  pub outcome : AuditOutcome
  pub error : MistCallError

-- The requests that were sent, the audited outcome, and the answer.
pub record Reply : Type 0 where
  pub sent : List (MistRequest × CallPriority)
  pub outcome : AuditOutcome
  pub answer : Result ReadFailure ReadEnvelope

-- `audit.deny(reason)` and `audit.fail(&error)`, with the error that is returned.
abbrev pub deny : String → MistCallError → Refusal
deny reason error = record { outcome = denied reason; error = error }

abbrev pub fail : MistCallError → Refusal
fail error = record { outcome = failed error; error = error }

abbrev pub no_caller : Option CallerCtx → Bool
no_caller none = true
no_caller (some c) = false

abbrev pub subject_of : Option MistTarget → Option String
subject_of none = none
subject_of (some t) = some (subject t)

-- `Err(reason)` where there is a reason.
abbrev pub refuse_for : Option String → (String → Refusal) → Result Refusal (Unit {0})
refuse_for none refusal = ok tt
refuse_for (some reason) refusal = err (refusal reason)

abbrev debug_capability : MistCapability → String
debug_capability ordinary_read = "OrdinaryRead"
debug_capability privileged_read = "PrivilegedRead"
debug_capability create = "Create"
debug_capability update = "Update"
debug_capability delete = "Delete"
debug_capability execute = "Execute"

abbrev dispatcher_name : MistCapability → String
dispatcher_name ordinary_read = "invoke_mist_read"
dispatcher_name privileged_read = "invoke_mist_privileged_read"
dispatcher_name create = "(no read dispatcher available for this operation)"
dispatcher_name update = "(no read dispatcher available for this operation)"
dispatcher_name delete = "(no read dispatcher available for this operation)"
dispatcher_name execute = "(no read dispatcher available for this operation)"

abbrev capability_text : String → MistOperation → String
capability_text operation_id operation = append_text "operation " (
    append_text operation_id (
      append_text " exists but is classified as " (
        append_text (debug_capability operation.capability) (
          append_text " (method " (
            append_text operation.method (
              append_text "); use "
                (append_text (dispatcher_name operation.capability) " to invoke it")))))))

-- The checks up to the request itself.
unfoldable pub admit :
    Handler → CatalogRead → Option CallerCtx → Result Refusal (MistOperation × Option MistTarget)
admit h read caller = do
  operation ←
      ok_or (h.operation_of read.operation_id)
        (fail (unknown_operation (h.unknown_text read.operation_id read.capability)))
  target ← map_err (deny "target") (target_for operation.target_selectors read.path)
  refuse_if
      (not (str_eq operation.method "GET")
        || not (same_capability operation.capability read.capability))
      (deny "capability" (wrong_capability (capability_text read.operation_id operation)))
  refuse_if (no_caller caller && same_capability operation.capability privileged_read)
      (deny "caller" (authorization "privileged Mist reads require authenticated caller context"))
  refuse_for (h.authorize_call caller read.tool (subject_of target))
      (λ reason. deny "scope" (authorization reason))
  map_err (deny "grant") (authorize_grant caller read.operation_id operation.capability target)
  refuse_for (unconfigured h.allowed_orgs h.sites target)
      (λ reason. deny "profile" (organization_not_configured reason))
  map_err fail (validate_page_limit read.query)
  ok (operation, target)

unfoldable pub request_of : CatalogRead → MistRequest
request_of read = record {
  operation_id = read.operation_id;
  path = read.path;
  query = read.query;
  json = none;
  cursor = read.cursor;
}

unfoldable pub status_error : MistResponse → MistError
status_error r =
    if r.status == 429
    then rate_limited none
    else if r.status == 410
    then endpoint_retired r.operation_id
    else service (append_text "Mist API returned HTTP " (decimal 5 r.status))

abbrev is_none : Option ℕ → Bool
is_none none = true
is_none (some n) = false

-- `page.filter(|page| !page.is_empty())`
abbrev pub clear_page : Option MistPageInfo → Option MistPageInfo
clear_page none = none
clear_page (some p) = if is_none p.page && is_none p.limit && is_none p.total then none else some p

abbrev byte_values : List ℕ → Items
byte_values [] = nil
byte_values (b ∷ bs) = cons (num (unsigned b)) (byte_values bs)

abbrev pub content_of : MistResponseBody → String × Value
content_of (json value) = ("application/json", value)
content_of (text value) = ("text/plain; charset=utf-8", str value)
content_of (binary value) = ("application/octet-stream", arr (byte_values value))
content_of empty = ("application/octet-stream", null)

abbrev next_cursor_of : Handler → Option MistCursor → Option String
next_cursor_of h none = none
next_cursor_of h (some c) = h.encode_cursor c

-- `ReadEnvelope::from_response`
unfoldable pub from_response :
    Handler → MistResponse → Option MistTarget → Bool → Option MistCursor → ReadEnvelope
from_response h r target redact_output cursor =
    let (content_type, value) = content_of r.body in
    record {
      operation_id = r.operation_id;
      target = subject_of target;
      status = r.status;
      content_type = content_type;
      data_value = if redact_output then h.redact value else value;
      next_cursor = next_cursor_of h cursor;
      page = clear_page r.page;
      truncated = false;
      budget_remaining = h.budget_status;
    }

abbrev pub attach_context :
    Handler
    → MistRequest
    → Option MistTarget
    → Option MistCursor
    → Result MistError (Option MistCursor)
attach_context h request target none = ok none
attach_context h request target (some c) =
    with_request_context h.cursor_len c request.path request.query target >>= λ bound.
    ok (some bound)

-- From the client's answer to the envelope.
unfoldable pub conclude :
    Handler
    → CatalogRead
    → MistRequest
    → Option MistTarget
    → Result MistError MistResponse
    → Result MistError ReadEnvelope
conclude h read request target answered = do
  response ← answered
  refuse_if (not (str_eq response.operation_id request.operation_id))
      (invalid_response request.operation_id "response operation does not match request operation")
  checked ← validate_response h.judge h.response_len h.operation_of h.origin response
  refuse_if (not (is_success checked.status)) (status_error checked)
  cursor ← attach_context h request target checked.cursor
  ok (from_response h checked target read.redact_output cursor)

-- `audited_tool_result`, and the answer of an error.
abbrev pub audited :
    Handler → List (MistRequest × CallPriority) → Result MistError ReadEnvelope → Reply
audited h sent (ok envelope) = record {
  sent = sent;
  outcome = if h.converts envelope then succeeded else conversion_failed;
  answer = if h.converts envelope then ok envelope else err unconverted;
}
audited h sent (err e) = record {
  sent = sent;
  outcome = failed (mist e);
  answer = err (call_error (mist e));
}

abbrev pub refused : Refusal → Reply
refused r = record { sent = []; outcome = r.outcome; answer = err (call_error r.error) }

-- The request is sent with the caller's priority.
unfoldable pub send :
    Handler → CatalogRead → Option CallerCtx → Option MistTarget → MistRequest → Reply
send h read caller target request =
    audited h ((request, call_priority_for caller) ∷ [])
      (conclude h read request target (h.execute_as request (call_priority_for caller)))

unfoldable pub dispatch_admitted :
    Handler → CatalogRead → Option CallerCtx → Option MistTarget → Reply
dispatch_admitted h read caller target =
    elim (validate_request h.judge h.operation_of h.origin (request_of read)) [
      | err e ↦ audited h [] (err e)
      | ok request ↦ send h read caller target request
    ]

unfoldable pub dispatch_catalogued_read : Handler → CatalogRead → Option CallerCtx → Reply
dispatch_catalogued_read h read caller = elim (admit h read caller) [
  | err r ↦ refused r
  | ok (operation, target) ↦ dispatch_admitted h read caller target
]
