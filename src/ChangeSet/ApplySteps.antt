-- ===== src/ChangeSet/ApplySteps.antt =====
-- An apply is a run of the protocol.
use rustmistmcp.Prelude.{
  ◌≡◌, refl, inl, inr, Bool, true, false, ◌∷◌, Option, String, Result, ok, err, arith, subst, sym,
  Result-cases, Option-cases, Bool-cases, contains_text, str_eq, ◌>>=◌, if◌then◌else◌,
}
use rustmistmcp.Json.{Value}
use rustmistmcp.Error.{MistError}
use rustmistmcp.Request.{MistResponse}
use rustmistmcp.Access.{CallerCtx, call_priority_for}
use rustmistmcp.Access.Dispatch.{CatalogRead}
use rustmistmcp.ChangeSet.{
  applied, failed, expected, handleless, ChangeSetRecord, set_state, dispatched, claimed, wrote,
  History, Services, object_read, read_object,
}
use rustmistmcp.ChangeSet.Apply.{
  prepare, spend_drifted, claim_and_write, persist_intent, authorize_write, current_fingerprint,
  compare_fingerprint, drift_read, check_update, check_drift, apply_fetched, device_of,
  apply_mist_change_set,
}
use rustmistmcp.ChangeSet.Write.{
  ApplyArgs, Prepared, settle, record_receipt, final_object_id, finish, verify, conclude_write,
  write_request, issue_write, target_of,
}
use rustmistmcp.ChangeSet.Protocol.{
  read, intend, spend, write, report, fail_it, confirm, Steps, next,
}

-- The events right after the write, and the read that follows.
abbrev sent_write : Option CallerCtx → ApplyArgs → Prepared → ChangeSetRecord → History → History
sent_write caller args p r before =
    wrote r.id (write_request args p) (call_priority_for caller) ∷ before

abbrev verify_read : ApplyArgs → Prepared → String → CatalogRead
verify_read args p object_id =
    object_read "apply_mist_change_set" (target_of args p) object_id p.org_id

module _ {s : Services} {start : History} where
  settle-Steps :
      (h : History) (r : ChangeSetRecord)
      → r.state ≡ failed
      → Steps s start h
      → Steps s start (settle s h r)
  settle-Steps h r final steps = elim (Result-cases (s.update_change_set h r)) [
    | inl (u, e) ↦ rw (e, settle) (next steps (fail_it r final e))
    | inr (failure, e) ↦ rw (e, settle) steps
  ]

  record_receipt-Steps :
      (h : History) (id : String) (success : Bool)
      → Steps s start h
      → Steps s start (record_receipt s h id success)
  record_receipt-Steps h id success steps = elim (Option-cases s.evidence) [
    | inl e ↦ subst (Steps s start) (ground (arith, e)) steps
    | inr (recorder, e) ↦ subst (Steps s start) (ground (arith, e)) (next steps (report id success))
  ]

  spend_drifted-Steps :
      (h : History) (plan : ChangeSetRecord)
      → Steps s start h
      → Steps s start (spend_drifted s h plan)
  unfolding spend_drifted
  spend_drifted-Steps h plan steps =
      elim (Result-cases (s.claim_change_set_for_apply h plan.id plan.device expected)) [
        | inl (r, e) ↦
            rw (e, spend_drifted)
              (settle-Steps (claimed plan.id expected ∷ h) (set_state failed r) refl
                (next steps (spend plan.id plan.device r e)))
        | inr (failure, e) ↦ rw (e, spend_drifted) steps
      ]

  module _ (caller : Option CallerCtx) (args : ApplyArgs) (p : Prepared) where
    unverified-Steps :
        (h : History) (r : ChangeSetRecord) (object_id : String)
        → Steps s start h
        → Steps s start (finish s args p h r object_id false).history
    unfolding finish
    unverified-Steps h r object_id steps =
        elim (Result-cases (s.update_change_set h (set_state failed r))) [
          | inl (u, e) ↦ rw (e, finish) (next steps (fail_it (set_state failed r) refl e))
          | inr (failure, e) ↦ rw (e, finish) steps
        ]

    module _ (before : History) (r : ChangeSetRecord) where
      verified-Steps :
          (object_id : String) (current : Value)
          → read_object s
              (sent_write caller args p r before)
              caller
              "verify"
              (verify_read args p object_id)
            ≡ ok current
          → s.same_value current p.after ≡ true
          → Steps s start (sent_write caller args p r before)
          → Steps s start
              (finish s args p
                (record_receipt s
                  (dispatched (verify_read args p object_id) ∷ (sent_write caller args p r before))
                  r.id
                  true)
                r
                object_id
                true).history
      unfolding finish
      verified-Steps object_id current found same steps =
          elim (Result-cases (
            s.update_change_set
              (record_receipt s
                (dispatched (verify_read args p object_id) ∷ (sent_write caller args p r before))
                r.id true)
              (set_state applied r))) [
                | inl (u, e) ↦
                    rw (e, finish)
                      (next steps (
                        confirm caller "verify" (set_state applied r) (verify_read args p object_id)
                          before (write_request args p) (call_priority_for caller) p.after current
                          refl refl found same refl e))
                | inr (failure, e) ↦
                    rw (e, finish)
                      (record_receipt-Steps _ r.id true
                        (next steps (read (verify_read args p object_id))))
              ]

      verify-Steps :
          (object_id : String)
          → Steps s start (sent_write caller args p r before)
          → Steps s start
              (verify s caller args p (sent_write caller args p r before) r object_id).history
      unfolding verify
      verify-Steps object_id steps =
          let unverified = unverified-Steps _ r object_id (
            record_receipt-Steps _ r.id false (next steps (read (verify_read args p object_id)))) in
          elim (Result-cases (
            read_object s (sent_write caller args p r before) caller "verify"
              (verify_read args p object_id))) [
                | inr (message, e) ↦ rw (e, verify) unverified
                | inl (current, e) ↦ elim (Bool-cases (s.same_value current p.after)) [
                  | inr other ↦ rw (e, other, verify) unverified
                  | inl same ↦ rw (e, same, verify) (verified-Steps object_id current e same steps)
                ]
              ]

      conclude_write-Steps :
          (answer : Result MistError MistResponse)
          → Steps s start (sent_write caller args p r before)
          → Steps s start
              (conclude_write s caller args p (sent_write caller args p r before) r answer).history
      unfolding conclude_write
      conclude_write-Steps (err e) steps =
          settle-Steps (sent_write caller args p r before) (set_state failed r) refl steps
      conclude_write-Steps (ok response) steps = elim (Result-cases (final_object_id p response)) [
        | inl (id, e) ↦ rw (e, conclude_write) (verify-Steps id steps)
        | inr (message, e) ↦
            rw (e, conclude_write)
              (settle-Steps (record_receipt s (sent_write caller args p r before) r.id false)
                (set_state failed r) refl
                (record_receipt-Steps (sent_write caller args p r before) r.id false steps))
      ]

    claim_and_write-Steps :
        (h : History) (plan : ChangeSetRecord)
        → Steps s start h
        → Steps s start (claim_and_write s caller args p h plan).history
    unfolding claim_and_write issue_write
    claim_and_write-Steps h plan steps =
        elim (Result-cases (s.claim_change_set_for_apply h plan.id plan.device handleless)) [
          | inl (r, e) ↦
              rw (e, claim_and_write)
                (conclude_write-Steps (claimed plan.id handleless ∷ h) r _
                  (next steps (write plan.id plan.device r _ _ e)))
          | inr (failure, e) ↦ rw (e, claim_and_write) steps
        ]

    persist_intent-Steps :
        (h persisted : History) (plan : ChangeSetRecord)
        → persist_intent s caller args h plan ≡ ok persisted
        → Steps s start h
        → Steps s start persisted
    unfolding persist_intent
    persist_intent-Steps h persisted plan passed steps = elim (Option-cases s.evidence) [
      | inl e ↦ subst (Steps s start) (ground (arith, e)) steps
      | inr (recorder, e) ↦ subst (Steps s start) (ground (arith, e)) (next steps (intend plan.id))
    ]

    authorize_write-Steps :
        (h : History) (plan : ChangeSetRecord)
        → Steps s start h
        → Steps s start (authorize_write s caller args p h plan).history
    unfolding authorize_write
    authorize_write-Steps h plan steps =
        elim (Bool-cases (contains_text (s.handler h).allowed_orgs p.org_id)) [
          | inr e ↦ rw (e, authorize_write) steps
          | inl e ↦ elim (Result-cases (persist_intent s caller args h plan)) [
            | inr (message, intent) ↦ rw (e, intent, authorize_write) steps
            | inl (persisted, intent) ↦
                rw (e, intent, authorize_write)
                  (claim_and_write-Steps persisted plan
                    (persist_intent-Steps h persisted plan intent steps))
          ]
        ]

    compare_fingerprint-Steps :
        (h : History) (plan : ChangeSetRecord) (now : String)
        → Steps s start h
        → Steps s start (compare_fingerprint s caller args p h plan now).history
    unfolding compare_fingerprint
    compare_fingerprint-Steps h plan now steps =
        elim (Bool-cases (str_eq now plan.expected_candidate_fingerprint)) [
          | inl e ↦ rw (e, compare_fingerprint) (authorize_write-Steps h plan steps)
          | inr e ↦ rw (e, compare_fingerprint) (spend_drifted-Steps h plan steps)
        ]

    check_update-Steps :
        (h : History) (plan : ChangeSetRecord)
        → Steps s start h
        → Steps s start (check_update s caller args h plan p).history
    unfolding check_update
    check_update-Steps h plan steps =
        let after = next steps (read (drift_read args p)) in
        elim (Result-cases
          (read_object s h caller "drift check" (drift_read args p) >>= current_fingerprint s)) [
            | inr (message, e) ↦ rw (e, check_update) after
            | inl (now, e) ↦ rw (e, check_update) (compare_fingerprint-Steps _ plan now after)
          ]

    check_drift-Steps :
        (h : History) (plan : ChangeSetRecord)
        → Steps s start h
        → Steps s start (check_drift s caller args h plan p).history
    unfolding check_drift
    check_drift-Steps h plan steps = split p.is_create refl
      where
        split :
            (b : Bool)
            → p.is_create ≡ b
            → Steps s start
                (if p.is_create
                  then authorize_write s caller args p h plan
                  else check_update s caller args h plan p).history
        split true e =
            subst
              (λ b.
                Steps s start
                  (if b
                    then authorize_write s caller args p h plan
                    else check_update s caller args h plan p).history)
              (sym e) (authorize_write-Steps h plan steps)
        split false e =
            subst
              (λ b.
                Steps s start
                  (if b
                    then authorize_write s caller args p h plan
                    else check_update s caller args h plan p).history)
              (sym e) (check_update-Steps h plan steps)

  pub apply-Steps :
      (caller : Option CallerCtx) (args : ApplyArgs) (h : History)
      → Steps s start h
      → Steps s start (apply_mist_change_set s caller args h).history
  unfolding apply_mist_change_set apply_fetched
  apply-Steps caller args h steps = elim (Result-cases (s.device_guard h (device_of args))) [
    | inr (failure, e) ↦ rw (e, apply_mist_change_set) steps
    | inl (u, e) ↦ elim (Result-cases (s.change_set h args.change_set_id (device_of args))) [
      | inr (failure, e2) ↦ rw (e, e2, apply_mist_change_set) steps
      | inl (plan, e2) ↦ elim (Result-cases (prepare s h args plan)) [
        | inr (message, e3) ↦ rw (e, e2, e3, apply_mist_change_set, apply_fetched) steps
        | inl (p, e3) ↦
            rw (e, e2, e3, apply_mist_change_set, apply_fetched)
              (check_drift-Steps caller args p h plan steps)
      ]
    ]
  ]
