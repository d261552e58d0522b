-- ===== src/ChangeSet/Written.antt =====
-- What an apply writes, and when it may: at most one request, for an approved plan that still fits.
use rustmistmcp.Prelude.{
  ◌≡◌, refl, ap, ◌∙◌, ◌⊎◌, inl, inr, true, false, List, [], ◌∷◌, Option, String, Result, ok, err,
  arith, Result-cases, Option-cases, Bool-cases, contains_text, In,
}
use rustmistmcp.ExecuteClass.Partition.{contains_text_iff}
use rustmistmcp.RateLimit.{CallPriority}
use rustmistmcp.Error.{MistError}
use rustmistmcp.Request.{MistRequest, MistResponse}
use rustmistmcp.Access.{CallerCtx, call_priority_for}
use rustmistmcp.ChangeSet.{
  ChangeSetState, ApplyHandle, handleless, ChangeSetRecord, set_state, Event, dispatched, inserted,
  proposed, waived, approved_by, intended, claimed, wrote, receipt, updated, History, Services,
}
use rustmistmcp.ChangeSet.Apply.{spend_drifted, claim_and_write, persist_intent, authorize_write}
use rustmistmcp.ChangeSet.Write.{
  ApplyArgs, Prepared, settle, record_receipt, final_object_id, finish, verify, conclude_write,
  write_request, issue_write,
}

-- A write: the change set, the request, and its priority.
abbrev pub Write : Type 0
Write = String × MistRequest × CallPriority

abbrev pub add_write : Event → List Write → List Write
add_write (wrote id request priority) ws = (id, request, priority) ∷ ws
add_write (dispatched read) ws = ws
add_write (inserted r) ws = ws
add_write (proposed id) ws = ws
add_write (waived id) ws = ws
add_write (approved_by id approver) ws = ws
add_write (intended id) ws = ws
add_write (claimed id handle) ws = ws
add_write (receipt id success) ws = ws
add_write (updated id state) ws = ws

abbrev pub writes : History → List Write
writes [] = []
writes (e ∷ h) = add_write e (writes h)

module _ (s : Services) where
  settle-writes : (h : History) (r : ChangeSetRecord) → writes (settle s h r) ≡ writes h
  settle-writes h r = elim (Result-cases (s.update_change_set h r)) [
    | inl (u, e) ↦ ground (arith, e)
    | inr (failure, e) ↦ ground (arith, e)
  ]

  record_receipt-writes :
      (h : History) (id : String) (success : _) → writes (record_receipt s h id success) ≡ writes h
  record_receipt-writes h id success = elim (Option-cases s.evidence) [
    | inl e ↦ ground (arith, e)
    | inr (recorder, e) ↦ ground (arith, e)
  ]

  pub spend_drifted-writes :
      (h : History) (plan : ChangeSetRecord) → writes (spend_drifted s h plan) ≡ writes h
  unfolding spend_drifted
  spend_drifted-writes h plan =
      elim (Result-cases
        (s.claim_change_set_for_apply h plan.id plan.device ApplyHandle.expected)) [
          | inl (r, e) ↦
              rw (e, spend_drifted)
                (settle-writes (claimed plan.id ApplyHandle.expected ∷ h)
                  (set_state ChangeSetState.failed r))
          | inr (failure, e) ↦ ground (arith, e)
        ]

  module _ (caller : Option CallerCtx) (args : ApplyArgs) (p : Prepared) where
    finish-writes :
        (h : History) (r : ChangeSetRecord) (object_id : String) (verified : _)
        → writes (finish s args p h r object_id verified).history ≡ writes h
    unfolding finish
    finish-writes h r object_id verified = ground arith

    verify-writes :
        (h : History) (r : ChangeSetRecord) (object_id : String)
        → writes (verify s caller args p h r object_id).history ≡ writes h
    unfolding verify
    verify-writes h r object_id = finish-writes _ r object_id _ ∙ record_receipt-writes _ r.id _

    conclude_write-writes :
        (h : History) (r : ChangeSetRecord) (answer : Result MistError MistResponse)
        → writes (conclude_write s caller args p h r answer).history ≡ writes h
    unfolding conclude_write
    conclude_write-writes h r (err e) = settle-writes h (set_state ChangeSetState.failed r)
    conclude_write-writes h r (ok response) = elim (Result-cases (final_object_id p response)) [
      | inl (id, e) ↦ rw (e, conclude_write) (verify-writes h r id)
      | inr (message, e) ↦
          rw (e, conclude_write)
            (settle-writes (record_receipt s h r.id false) (set_state ChangeSetState.failed r)
              ∙ record_receipt-writes h r.id false)
    ]

    issue_write-writes :
        (h : History) (r : ChangeSetRecord)
        → writes (issue_write s caller args p h r).history
          ≡ (r.id, write_request args p, call_priority_for caller) ∷ writes h
    unfolding issue_write
    issue_write-writes h r = conclude_write-writes _ r _

    persist_intent-writes :
        (h persisted : History) (plan : ChangeSetRecord)
        → persist_intent s caller args h plan ≡ ok persisted
        → writes persisted ≡ writes h
    unfolding persist_intent
    persist_intent-writes h persisted plan passed = elim (Option-cases s.evidence) [
      | inl e ↦ ground (arith, e)
      | inr (recorder, e) ↦ ground (arith, e)
    ]

    -- What stands between a plan and its write: the organization is configured, the intent is
    -- persisted where there is a recorder, and the claim is granted.
    pub record IsClaimed (h : History) (plan r : ChangeSetRecord) : Type 0 where
      pub allowed : In p.org_id (s.handler h).allowed_orgs
      pub persisted : History
      pub intent : persist_intent s caller args h plan ≡ ok persisted
      pub claim : s.claim_change_set_for_apply persisted plan.id plan.device handleless ≡ ok r

    abbrev pub written : ChangeSetRecord → Write
    written r = (r.id, write_request args p, call_priority_for caller)

    abbrev pub WritesClaimed : History → ChangeSetRecord → History → Type 0
    WritesClaimed h plan after =
        (writes after ≡ writes h)
        ⊎ ((r : ChangeSetRecord) × IsClaimed h plan r × (writes after ≡ written r ∷ writes h))

    claim_and_write-writes :
        (h : History) (plan : ChangeSetRecord)
        → (writes (claim_and_write s caller args p h plan).history ≡ writes h)
          ⊎ ((r : ChangeSetRecord) × (s.claim_change_set_for_apply h plan.id plan.device handleless
                ≡ ok r)
              × (writes (claim_and_write s caller args p h plan).history ≡ written r ∷ writes h))
    unfolding claim_and_write
    claim_and_write-writes h plan =
        elim (Result-cases (s.claim_change_set_for_apply h plan.id plan.device handleless)) [
          | inl (r, e) ↦ inr (
            r,
            e,
            rw (e, claim_and_write) (issue_write-writes (claimed plan.id handleless ∷ h) r),
          )
          | inr (failure, e) ↦ inl (ground (arith, e))
        ]

    unlisted-writes :
        (h : History) (plan : ChangeSetRecord)
        → contains_text (s.handler h).allowed_orgs p.org_id ≡ false
        → writes (authorize_write s caller args p h plan).history ≡ writes h
    unfolding authorize_write
    unlisted-writes h plan e = ground (arith, e)

    unpersisted-writes :
        (h : History) (plan : ChangeSetRecord) (message : String)
        → contains_text (s.handler h).allowed_orgs p.org_id ≡ true
        → persist_intent s caller args h plan ≡ err message
        → writes (authorize_write s caller args p h plan).history ≡ writes h
    unfolding authorize_write
    unpersisted-writes h plan message e intent = ground (arith, e, intent)

    authorized-claim_and_write :
        (h persisted : History) (plan : ChangeSetRecord)
        → contains_text (s.handler h).allowed_orgs p.org_id ≡ true
        → persist_intent s caller args h plan ≡ ok persisted
        → authorize_write s caller args p h plan ≡ claim_and_write s caller args p persisted plan
    unfolding authorize_write
    authorized-claim_and_write h persisted plan e intent = rw (e, intent, authorize_write) refl

    pub authorize_write-writes :
        (h : History) (plan : ChangeSetRecord)
        → WritesClaimed h plan (authorize_write s caller args p h plan).history
    authorize_write-writes h plan =
        elim (Bool-cases (contains_text (s.handler h).allowed_orgs p.org_id)) [
          | inr e ↦ inl (unlisted-writes h plan e)
          | inl e ↦ elim (Result-cases (persist_intent s caller args h plan)) [
            | inr (message, intent) ↦ inl (unpersisted-writes h plan message e intent)
            | inl (persisted, intent) ↦
                let same = authorized-claim_and_write h persisted plan e intent in
                let kept = persist_intent-writes h persisted plan intent in
                elim (claim_and_write-writes persisted plan) [
                  | inl unwritten ↦ inl (ap (λ run. writes run.history) same ∙ unwritten ∙ kept)
                  | inr (r, claim, wrote_one) ↦ inr (
                    r,
                    record {
                      allowed = (contains_text_iff (s.handler h).allowed_orgs p.org_id).0 e;
                      persisted = persisted;
                      intent = intent;
                      claim = claim;
                    },
                    ap (λ run. writes run.history) same
                        ∙ wrote_one
                        ∙ ap (λ ws. written r ∷ ws) kept,
                  )
                ]
          ]
        ]
