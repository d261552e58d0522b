-- ===== src/Client/Sends.antt =====
-- crates/rustmistmcp-core/src/client.rs: the sends of a call with their retries, and its response.
use rustmistmcp.Prelude.{
  ℕ, zero, suc, ◌+◌, ◌*◌, ◌^◌, ◌%◌, min, true, false, not, List, [], ◌∷◌, Option, none, some,
  String, Result, ok, err, ◌>>=◌, ◌>>◌, ok_or, map_err, refuse_if, leb, ◌==◌, if◌then◌else◌,
  append_text, str_eq,
}
use rustmistmcp.Json.{Value}
use rustmistmcp.RateLimit
use rustmistmcp.RateLimit.{
  RateLimitBudget, BudgetStatus, BudgetExhausted, CallPriority, Clock, try_acquire,
}
use rustmistmcp.Error.{
  MistError, unknown_operation, invalid_request, rate_limited, endpoint_retired, service,
  budget_exhausted,
}
use rustmistmcp.Request.{MistRequest, MistResponse, MistResponseBody, json, text, binary, empty}
use rustmistmcp.Client.{
  get, post, put, patch, delete, HttpResponse, Method, HttpRequest, HttpMistClient, build_url,
  header_number,
}
use rustmistmcp.Client.Pages.{parse_page_info, derive_next_cursor}

unfoldable pub method_of : String → String → Result MistError Method
method_of operation_id name =
    if str_eq name "GET"
    then ok get
    else if str_eq name "POST"
    then ok post
    else if str_eq name "PUT"
    then ok put
    else if str_eq name "PATCH"
    then ok patch
    else if str_eq name "DELETE"
    then ok delete
    else err (invalid_request operation_id (append_text "unsupported HTTP method: " name))

-- The waits between the sends, the newest first, and how the loop ended.
pub record Sent : Type 0 where
  pub waits : List ℕ
  pub outcome : Result MistError HttpResponse

-- `200 * 2u64.pow(retries_used)` milliseconds, on 64 bits
abbrev pub backoff : ℕ → ℕ
backoff retries_used = (200 * (2 ^ retries_used % 2 ^ 64)) % 2 ^ 64

abbrev pub or_else : Option ℕ → ℕ → ℕ
or_else none n = n
or_else (some m) n = m

-- `Retry-After` in milliseconds, or the backoff, and no more than the ceiling.
unfoldable pub wait_before : HttpMistClient → ℕ → Option ℕ → ℕ
wait_before c retries_used none = min (backoff retries_used) c.max_retry_wait
wait_before c retries_used (some seconds) = min (seconds * 1000) c.max_retry_wait

abbrev ended : List ℕ → Result MistError HttpResponse → Option Sent
ended waits outcome = some (record { waits = waits; outcome = outcome })

-- One round of the loop: the request is built, given the secret, and sent.
unfoldable pub send_once : HttpMistClient → ℕ → HttpRequest → Result MistError HttpResponse
send_once c retries_used request = do
  refuse_if (not (c.accepts_url request.method request.url))
      (service "failed to build HTTP request")
  refuse_if (not (c.takes_secret request.method request.url)) (service "failed to set auth header")
  map_err (λ message. service (append_text "HTTP request failed: " message))
      (c.send retries_used request)

-- The loop over the sends, on fuel; nothing where the fuel is spent.
unfoldable pub send_loop : HttpMistClient → HttpRequest → ℕ → ℕ → List ℕ → Option Sent
send_loop c request zero retries_used waits = none
send_loop c request (suc fuel) retries_used waits = elim (send_once c retries_used request) [
  | err e ↦ ended waits (err e)
  | ok response ↦ elim (not (response.status == 429)) [
    | true ↦ ended waits (ok response)
    | false ↦ elim (leb c.max_429_retries retries_used) [
      | true ↦ ended waits (err (rate_limited (header_number response "Retry-After")))
      | false ↦
          send_loop c request fuel (retries_used + 1)
            (wait_before c retries_used (header_number response "Retry-After") ∷ waits)
    ]
  ]
]

-- A loop without fuel, for `max_429_retries` and one more send.
unfoldable pub send_all : HttpMistClient → HttpRequest → Option Sent
send_all c request = send_loop c request (suc c.max_429_retries) 0 []

-- `from_slice`, `from_utf8`, or the bytes.
unfoldable pub decode_body : HttpMistClient → List ℕ → MistResponseBody
decode_body c [] = empty
decode_body c (b ∷ bs) = elim (c.from_slice (b ∷ bs)) [
  | some value ↦ json value
  | none ↦ elim (c.from_utf8 (b ∷ bs)) [ some t ↦ text t | none ↦ binary (b ∷ bs) ]
]

-- The response of the last send, as the caller gets it.
unfoldable pub response_of :
    HttpMistClient → MistRequest → HttpResponse → Result MistError MistResponse
response_of c request r =
    if r.status == 410
    then err (endpoint_retired request.operation_id)
    else ok (record {
      operation_id = request.operation_id;
      status = r.status;
      body = decode_body c r.body;
      cursor = derive_next_cursor c request.operation_id (decode_body c r.body) (parse_page_info r);
      page = parse_page_info r;
    })

-- `serde_json::to_vec` of the body, where there is one.
unfoldable pub body_bytes : HttpMistClient → Option Value → Result MistError (Option (List ℕ))
body_bytes c none = ok none
body_bytes c (some body) = elim (c.to_vec body) [
  | none ↦ err (service "failed to serialize request body")
  | some bytes ↦ ok (some bytes)
]

-- The request that is sent, or the reason why none is.
unfoldable pub prepare_request : HttpMistClient → MistRequest → Result MistError HttpRequest
prepare_request c request = do
  url ← build_url c request.operation_id request.path request.query request.cursor
  operation ← ok_or (c.catalog request.operation_id) (unknown_operation request.operation_id)
  method ← method_of request.operation_id operation.method
  body ← body_bytes c request.json
  ok (record { method = method; url = url; body = body })

-- A call: the waits between its sends, its answer, and the budget after it.
pub record Call : Type 0 where
  pub budget : RateLimitBudget
  pub sends : Option Sent
  pub answer : Option (Result MistError MistResponse)

abbrev pub answer_of : HttpMistClient → MistRequest → Sent → Result MistError MistResponse
answer_of c request sent = sent.outcome >>= response_of c request

abbrev pub exhausted : BudgetStatus → MistError
exhausted s = budget_exhausted s.used s.hourly_limit s.human_reserve

abbrev pub not_sent : RateLimitBudget → MistError → Call
not_sent b e = record { budget = b; sends = none; answer = some (err e) }

abbrev pub sent_call : HttpMistClient → MistRequest → RateLimitBudget → Option Sent → Call
sent_call c request b none = record { budget = b; sends = none; answer = none }
sent_call c request b (some sent) = record {
  budget = b;
  sends = some sent;
  answer = some (answer_of c request sent);
}

abbrev pub send_prepared :
    HttpMistClient → MistRequest → RateLimitBudget → Result MistError HttpRequest → Call
send_prepared c request b (err e) = not_sent b e
send_prepared c request b (ok prepared) = sent_call c request b (send_all c prepared)

-- The budget is charged first, once for all sends. `again` is the clock of the status in the error.
unfoldable pub execute_as :
    HttpMistClient → RateLimitBudget → Clock → Clock → MistRequest → CallPriority → Call
execute_as c b clock again request priority =
    let (charged, granted) = try_acquire b priority clock in
    elim granted [
      | err refusal ↦
          let (after, status) = RateLimit.status charged again in not_sent after (exhausted status)
      | ok left ↦ send_prepared c request charged (prepare_request c request)
    ]
