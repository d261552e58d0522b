-- ===== src/Access/Authorized.antt =====
-- A request leaves the server only for an authorized read, and then exactly once.
use rustmistmcp.Prelude.{
  ◌≡◌, refl, sym, ap, ◌∙◌, ◌↔◌, ◌⊎◌, inl, inr, false, List, [], ◌∷◌, Option, none, some, String,
  Result, ok, err, map_err, err-ne-ok, arith, eq_iff, Option-cases, Result-cases,
}
use rustmistmcp.Prelude.Maps
use rustmistmcp.RateLimit.{CallPriority}
use rustmistmcp.Target.{MistTarget}
use rustmistmcp.Catalog.{privileged_read, MistOperation}
use rustmistmcp.Grant.Valid.{same_capability_iff}
use rustmistmcp.Error.{MistError}
use rustmistmcp.Request.{MistRequest}
use rustmistmcp.Request.Checks.{validate_request}
use rustmistmcp.Request.Accepted.{validate_request_iff}
use rustmistmcp.Access.{
  CallerCtx, MistCallError, call_priority_for, target_for, authorize_grant, validate_page_limit,
  unconfigured,
}
use rustmistmcp.Access.Guards.{
  MayCall, HasPageLimit, IsConfigured, authorize_grant_iff, validate_page_limit_iff,
  unconfigured_iff,
}
use rustmistmcp.Access.Dispatch.{
  CatalogRead, Handler, Refusal, ReadEnvelope, no_caller, subject_of, refuse_for, admit, deny, fail,
  request_of, conclude, audited, send, dispatch_admitted, dispatch_catalogued_read,
}

-- Everything that a read has to satisfy before its request is made.
pub record IsAdmitted (h : Handler) (read : CatalogRead) (caller : Option CallerCtx)
    (operation : MistOperation) (target : Option MistTarget) : Type 0 where
  pub known : h.operation_of read.operation_id ≡ some operation
  pub targeted : target_for operation.target_selectors read.path ≡ ok target
  pub method : operation.method ≡ "GET"
  pub capability : operation.capability ≡ read.capability
  pub authenticated : operation.capability ≡ privileged_read → no_caller caller ≡ false
  pub scope : h.authorize_call caller read.tool (subject_of target) ≡ none
  pub grant : MayCall caller read.operation_id operation.capability target
  pub profile : IsConfigured h.allowed_orgs h.sites target
  pub page_limit : HasPageLimit (Maps.get "limit" read.query)

refuse_for_iff :
    (o : Option String) (refusal : String → Refusal) → (refuse_for o refusal ≡ ok tt) ↔ (o ≡ none)
refuse_for_iff none refusal = ground arith
refuse_for_iff (some reason) refusal = ground arith

map_err_ok_iff :
    {E F A : Type 0} (f : E → F) (m : Result E A) (a : A) → (map_err f m ≡ ok a) ↔ (m ≡ ok a)
map_err_ok_iff f (ok b) a = ground arith
map_err_ok_iff f (err e) a = ground arith

known_admit_iff :
    (h : Handler) (read : CatalogRead) (caller : Option CallerCtx) (operation : MistOperation)
    (target : Option MistTarget)
    → h.operation_of read.operation_id ≡ some operation
    → target_for operation.target_selectors read.path ≡ ok target
    → (admit h read caller ≡ ok (operation, target)) ↔ IsAdmitted h read caller operation target
unfolding admit
known_admit_iff h read caller operation target e1 e2 = ground (
  arith,
  e1,
  e2,
  eq_iff operation.method "GET",
  same_capability_iff operation.capability read.capability,
  same_capability_iff operation.capability privileged_read,
  refuse_for_iff (h.authorize_call caller read.tool (subject_of target)),
  refuse_for_iff (unconfigured h.allowed_orgs h.sites target),
  unconfigured_iff h.allowed_orgs h.sites target,
  authorize_grant_iff caller read.operation_id operation.capability target,
  map_err_ok_iff (deny "grant")
      (authorize_grant caller read.operation_id operation.capability target) tt,
  map_err_ok_iff fail (validate_page_limit read.query) tt,
  validate_page_limit_iff read.query,
)

same_admitted :
    (h : Handler) (read : CatalogRead) (caller : Option CallerCtx) (operation : MistOperation)
    (target : Option MistTarget) (out : MistOperation × Option MistTarget)
    → h.operation_of read.operation_id ≡ some operation
    → target_for operation.target_selectors read.path ≡ ok target
    → admit h read caller ≡ ok out
    → (operation, target) ≡ out
unfolding admit
same_admitted h read caller operation target out e1 e2 passed = ground (arith, e1, e2)

unknown_not_admitted :
    (h : Handler) (read : CatalogRead) (caller : Option CallerCtx)
    (out : MistOperation × Option MistTarget)
    → h.operation_of read.operation_id ≡ none
    → admit h read caller ≡ ok out
    → ⊥
unfolding admit
unknown_not_admitted h read caller out e passed = ground (arith, e)

untargeted_not_admitted :
    (h : Handler) (read : CatalogRead) (caller : Option CallerCtx) (operation : MistOperation)
    (failure : MistCallError) (out : MistOperation × Option MistTarget)
    → h.operation_of read.operation_id ≡ some operation
    → target_for operation.target_selectors read.path ≡ err failure
    → admit h read caller ≡ ok out
    → ⊥
unfolding admit
untargeted_not_admitted h read caller operation failure out e1 e2 passed = ground (arith, e1, e2)

admitted_known :
    (h : Handler) (read : CatalogRead) (caller : Option CallerCtx) (operation : MistOperation)
    (target : Option MistTarget)
    → admit h read caller ≡ ok (operation, target)
    → (h.operation_of read.operation_id ≡ some operation)
      × (target_for operation.target_selectors read.path ≡ ok target)
admitted_known h read caller operation target passed =
    elim (Option-cases (h.operation_of read.operation_id)) [
      | inl unknown ↦ absurd (unknown_not_admitted h read caller (operation, target) unknown passed)
      | inr (found, e1) ↦ elim (Result-cases (target_for found.target_selectors read.path)) [
        | inr (failure, e2) ↦
            absurd
              (untargeted_not_admitted h read caller found failure (operation, target) e1 e2 passed)
        | inl (derived, e2) ↦
            let same = same_admitted h read caller found derived (operation, target) e1 e2 passed in
            (cc (same, e1), cc (same, e2))
      ]
    ]

-- The checks pass exactly for a known `GET` operation of the tool's class, whose target the path
-- names and the configuration has, by a caller whose scope and grant allow it (an authenticated one
-- where the read is privileged), with a page limit from 1 to 100 if any.
pub admit_iff :
    (h : Handler) (read : CatalogRead) (caller : Option CallerCtx) (operation : MistOperation)
    (target : Option MistTarget)
    → (admit h read caller ≡ ok (operation, target)) ↔ IsAdmitted h read caller operation target
admit_iff h read caller operation target = (
  λ passed.
      let (e1, e2) = admitted_known h read caller operation target passed in
      (known_admit_iff h read caller operation target e1 e2).0 passed,
  λ admitted.
      (known_admit_iff h read caller operation target admitted.known admitted.targeted).1 admitted,
)

audited-sent :
    (h : Handler) (sent : List (MistRequest × CallPriority)) (r : Result MistError ReadEnvelope)
    → (audited h sent r).sent ≡ sent
audited-sent h sent (ok e) = refl
audited-sent h sent (err e) = refl

-- The request and the priority with which a read is sent.
abbrev pub only_request : CatalogRead → Option CallerCtx → List (MistRequest × CallPriority)
only_request read caller = (request_of read, call_priority_for caller) ∷ []

abbrev pub IsAuthorized : Handler → CatalogRead → Option CallerCtx → Type 0
IsAuthorized h read caller =
    (operation : MistOperation) × (target : Option MistTarget) × IsAdmitted h read caller operation
      target
    × (validate_request h.judge h.operation_of h.origin (request_of read) ≡ ok (request_of read))

sent_of_admitted :
    (h : Handler) (read : CatalogRead) (caller : Option CallerCtx) (target : Option MistTarget)
    → ((validate_request h.judge h.operation_of h.origin (request_of read) ≡ ok (request_of read))
        × ((dispatch_admitted h read caller target).sent ≡ only_request read caller))
      ⊎ ((¬ (
            validate_request h.judge h.operation_of h.origin (request_of read)
            ≡ ok (request_of read)))
          × ((dispatch_admitted h read caller target).sent ≡ []))
unfolding dispatch_admitted send
sent_of_admitted h read caller target =
    elim (Result-cases (validate_request h.judge h.operation_of h.origin (request_of read))) [
      | inl (out, e) ↦
          let same : out ≡ request_of read =
            ((validate_request_iff h.judge h.operation_of h.origin (request_of read) out).0 e).0 in
          inl (
            e ∙ ap ok same,
            rw (e ∙ ap ok same, dispatch_admitted)
                (audited-sent h (only_request read caller) (
                  conclude h read (request_of read) target
                    (h.execute_as (request_of read) (call_priority_for caller)))),
          )
      | inr (failure, e) ↦ inr (λ p. cc (e, p), ground (arith, e))
    ]

-- A request is sent exactly for an authorized read, and then it is the only one, unchanged, with the
-- priority of its caller.
pub sent_iff :
    (h : Handler) (read : CatalogRead) (caller : Option CallerCtx)
    → (IsAuthorized h read caller
        × ((dispatch_catalogued_read h read caller).sent ≡ only_request read caller))
      ⊎ ((¬ IsAuthorized h read caller) × ((dispatch_catalogued_read h read caller).sent ≡ []))
unfolding dispatch_catalogued_read
sent_iff h read caller = elim (Result-cases (admit h read caller)) [
  | inl ((operation, target), e) ↦ elim (sent_of_admitted h read caller target) [
    | inl (valid, sent) ↦ inl (
      (operation, target, (admit_iff h read caller operation target).0 e, valid),
      rw (e, dispatch_catalogued_read) sent,
    )
    | inr (invalid, none_sent) ↦
        inr (λ (o, t, admitted, valid). invalid valid, rw (e, dispatch_catalogued_read) none_sent)
  ]
  | inr (refusal, e) ↦ inr (
    λ (o, t, admitted, valid).
        err-ne-ok refusal (o, t) (sym e ∙ (admit_iff h read caller o t).1 admitted),
    rw (e, dispatch_catalogued_read) refl,
  )
]
