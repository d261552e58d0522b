-- ===== src/Client/Charged.antt =====
-- A call is charged once, before it is sent, and it is always answered.
use rustmistmcp.Prelude.{
  Bool-cases, ◌≢◌, ◌==◌, ==_iff, arith, ◌≡◌, refl, ap, ◌⊎◌, inl, inr, none, some, Result, ok, err,
  Result-cases,
}
use rustmistmcp.RateLimit
use rustmistmcp.RateLimit.{
  RateLimitBudget, BudgetStatus, BudgetExhausted, CallPriority, Clock, CallWindow, try_acquire,
  charge, cap, reset_if_elapsed, status_locked, standard_cap,
}
use rustmistmcp.Error.{MistError, endpoint_retired}
use rustmistmcp.Request.{MistRequest, MistResponse}
use rustmistmcp.Client.{HttpMistClient, HttpRequest, HttpResponse}
use rustmistmcp.Client.Sends.{
  Sent, Call, decode_body, response_of, prepare_request, answer_of, send_prepared, sent_call,
  exhausted, execute_as,
}
use rustmistmcp.Client.Pages.{parse_page_info, derive_next_cursor}
use rustmistmcp.Client.Retries.{IsEnded, send_all-Ends}

module _ (c : HttpMistClient) (b : RateLimitBudget) (clock again : Clock) (request : MistRequest)
    (priority : CallPriority) where
  -- The budget has no room: nothing is sent, and the answer says what is used.
  abbrev pub IsRefused : Call → Type 0
  IsRefused call =
      (refusal : BudgetExhausted) × ((try_acquire b priority clock).1 ≡ err refusal)
      × (call.sends ≡ none)
      × (call.answer
          ≡ some (err (exhausted (RateLimit.status (try_acquire b priority clock).0 again).1)))

  -- The budget is charged, and the request cannot be built.
  abbrev pub IsUnsent : Call → Type 0
  IsUnsent call =
      (e : MistError) × (prepare_request c request ≡ err e)
      × (call.sends ≡ none)
      × (call.answer ≡ some (err e))

  -- The answer to the end of the loop: its error; the error of a retired operation for the status 410;
  -- or the last response, with its status and its body decoded.
  abbrev pub IsAnswered : Sent → Result MistError MistResponse → Type 0
  IsAnswered sent answer =
      ((e : MistError) × (sent.outcome ≡ err e) × (answer ≡ err e))
      ⊎ ((r : HttpResponse) × (sent.outcome ≡ ok r)
          × (((r.status ≡ 410) × (answer ≡ err (endpoint_retired request.operation_id)))
              ⊎ ((out : MistResponse) × (answer ≡ ok out)
                  × (r.status ≢ 410)
                  × (out.operation_id ≡ request.operation_id)
                  × (out.status ≡ r.status)
                  × (out.body ≡ decode_body c r.body))))

  abbrev handed_on : HttpResponse → MistResponse
  handed_on r = record {
    operation_id = request.operation_id;
    status = r.status;
    body = decode_body c r.body;
    cursor = derive_next_cursor c request.operation_id (decode_body c r.body) (parse_page_info r);
    page = parse_page_info r;
  }

  answer_of-IsAnswered : (sent : Sent) → IsAnswered sent (answer_of c request sent)
  unfolding response_of
  answer_of-IsAnswered sent = elim (Result-cases sent.outcome) [
    | inr (failure, e) ↦ inl (failure, e, rw e refl)
    | inl (r, e) ↦ elim (Bool-cases (r.status == 410)) [
      | inl retired ↦
          inr (r, e, inl ((==_iff r.status 410).0 retired, rw (e, retired, response_of) refl))
      | inr other ↦ inr (
        r,
        e,
        inr (
          handed_on r,
          rw (e, other, response_of) refl,
          λ same. ground (arith, other, same),
          refl,
          refl,
          refl,
        ),
      )
    ]
  ]

  -- The request is sent until the loop ends, and answered by its error or its last response.
  abbrev pub IsSent : Call → Type 0
  IsSent call =
      (prepared : HttpRequest) × (sent : Sent) × (answer : Result MistError MistResponse)
      × (prepare_request c request ≡ ok prepared)
      × IsEnded c prepared sent
      × IsAnswered sent answer
      × (call.sends ≡ some sent)
      × (call.answer ≡ some answer)

  prepared-cases :
      (charged : RateLimitBudget) (prepared : Result MistError HttpRequest)
      → prepare_request c request ≡ prepared
      → ((send_prepared c request charged prepared).budget ≡ charged)
        × (IsUnsent (send_prepared c request charged prepared)
            ⊎ IsSent (send_prepared c request charged prepared))
  prepared-cases charged (err e) same = (refl, inl (e, same, refl, refl))
  prepared-cases charged (ok prepared) same =
      let (sent, found, ended) = send_all-Ends c prepared in
      (
        ap (λ f. (sent_call c request charged f).budget) found,
        inr (
          prepared,
          sent,
          answer_of c request sent,
          same,
          ended,
          answer_of-IsAnswered sent,
          ap (λ f. (sent_call c request charged f).sends) found,
          ap (λ f. (sent_call c request charged f).answer) found,
        ),
      )

  -- A call is refused where the budget has no room, and then nothing is sent. Otherwise the budget is
  -- charged once, however often the request is sent and even where it cannot be built, and the call is
  -- answered by the error of building it, by the error that the loop ends with, by the error of a
  -- retired operation where the last status is 410, or by the last response, with its status and body.
  pub execute_as-cases :
      IsRefused (execute_as c b clock again request priority)
      ⊎ ((left : BudgetStatus) × ((try_acquire b priority clock).1 ≡ ok left)
          × ((execute_as c b clock again request priority).budget
              ≡ (try_acquire b priority clock).0)
          × (IsUnsent (execute_as c b clock again request priority)
              ⊎ IsSent (execute_as c b clock again request priority)))
  unfolding execute_as
  execute_as-cases = elim (Result-cases (try_acquire b priority clock).1) [
    | inr (refusal, e) ↦ inl (refusal, e, rw (e, execute_as) refl, rw (e, execute_as) refl)
    | inl (left, e) ↦
        let (kept, sent) =
          prepared-cases (try_acquire b priority clock).0 (prepare_request c request) refl in
        inr (left, e, rw (e, execute_as) kept, rw (e, execute_as) sent)
  ]
