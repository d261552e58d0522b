-- ===== src/ChangeSet/Apply.antt =====
-- crates/rustmistmcp/src/server/mod.rs: `apply_mist_change_set`, step by step.
use rustmistmcp.Prelude.{
  Bool, true, false, not, ◌∷◌, Option, none, some, String, Result, ok, err, ◌>>=◌, ◌>>◌, refuse_if,
  map_err, ok_or, append_text, contains_text, str_eq, if◌then◌else◌, ltb,
}
use rustmistmcp.Json.{Value, get_key, as_str}
use rustmistmcp.Request.Checks.{decimal}
use rustmistmcp.Access.{CallerCtx}
use rustmistmcp.Access.Dispatch.{CatalogRead}
use rustmistmcp.ChangeSet.{
  ChangeSetState, planned, approved, applying, applied, failed, expected, handleless,
  ChangeSetRecord, set_state, dispatched, intended, claimed, History, Services, Run, refused, try,
  object_key, principal_of, object_read, read_object,
}
use rustmistmcp.ChangeSet.Plan.{org_refusal}
use rustmistmcp.ChangeSet.Write.{ApplyArgs, ApplyResponse, Prepared, target_of, settle, issue_write}

abbrev pub is_approved : ChangeSetState → Bool
is_approved approved = true
is_approved planned = false
is_approved applying = false
is_approved applied = false
is_approved failed = false

abbrev pub string_at : String → Value → Option String
string_at k v = elim (get_key k v) [ some inner ↦ as_str inner | none ↦ none ]

abbrev after_of : Value → Value
after_of parsed = elim (get_key "after" parsed) [ some after ↦ after | none ↦ Value.null ]

-- An update needs the identifier; a create has none yet.
abbrev pub bound_object : Bool → Option String → Result String String
bound_object true object_id = ok ""
bound_object false object_id = ok_or object_id "update requires object_id"

abbrev pub is_create_plan : ChangeSetRecord → Bool
is_create_plan plan = str_eq plan.expected_candidate_fingerprint "create"

-- The checks on the record: its state, its expiry, and its preview.
unfoldable pub prepare : Services → History → ApplyArgs → ChangeSetRecord → Result String Prepared
prepare s h args plan = do
  refuse_if (not (is_approved plan.state))
      (append_text "change set is " (append_text (s.state_text plan.state) ", not approved"))
  now ← map_err (append_text "time error: ") (s.unix_time h)
  refuse_if (ltb plan.expires_at_unix now)
      (append_text "approval expired at unix timestamp " (decimal 20 plan.expires_at_unix))
  preview ← ok_or plan.preview "change set has no preview"
  parsed ← map_err (append_text "failed to parse preview: ") (s.parse preview.artifact)
  org_id ←
      ok_or (string_at "org_id" parsed)
        "change set was planned before org-scope fix and must be re-planned"
  object_id ← bound_object (is_create_plan plan) args.object_id
  ok (record {
    after = after_of parsed;
    org_id = org_id;
    is_create = is_create_plan plan;
    object_id = object_id;
  })

-- A drifted plan is claimed and settled as failed, so that it is not retried.
unfoldable pub spend_drifted : Services → History → ChangeSetRecord → History
spend_drifted s h plan = elim (s.claim_change_set_for_apply h plan.id plan.device expected) [
  | ok r ↦ settle s (claimed plan.id expected ∷ h) (set_state failed r)
  | err e ↦ h
]

abbrev pub drift_message : String
drift_message = "object has been modified since planning; fingerprint mismatch"

unfoldable pub claim_and_write :
    Services
    → Option CallerCtx
    → ApplyArgs
    → Prepared
    → History
    → ChangeSetRecord
    → Run ApplyResponse
claim_and_write s caller args p h plan =
    try s.error_text h (s.claim_change_set_for_apply h plan.id plan.device handleless)
      (issue_write s caller args p (claimed plan.id handleless ∷ h))

-- The intent is persisted where there is a recorder, and gives the events before the claim.
unfoldable pub persist_intent :
    Services → Option CallerCtx → ApplyArgs → History → ChangeSetRecord → Result String History
persist_intent s caller args h plan = elim s.evidence [
  | none ↦ ok h
  | some recorder ↦
      map_err
        (λ e.
          append_text "apply refused: the apply-intent evidence record could not be persisted ("
            (append_text e "); the change set is still approved and can be retried"))
        (recorder.apply_intent h args.request_id plan.id plan.device (principal_of caller))
      >> ok (intended plan.id ∷ h)
]

-- The organization is checked, and the intent persisted, before the plan is claimed.
unfoldable pub authorize_write :
    Services
    → Option CallerCtx
    → ApplyArgs
    → Prepared
    → History
    → ChangeSetRecord
    → Run ApplyResponse
authorize_write s caller args p h plan =
    if not (contains_text (s.handler h).allowed_orgs p.org_id)
    then refused h (org_refusal p.org_id)
    else try (λ e. e) h (persist_intent s caller args h plan)
        (λ persisted. claim_and_write s caller args p persisted plan)

-- The hash of the object as it is now.
unfoldable pub current_fingerprint : Services → Value → Result String String
current_fingerprint s current =
    map_err (append_text "failed to serialize current state: ") (s.sha256 current) >>= λ hash.
    ok (append_text "sha256:" hash)

unfoldable pub compare_fingerprint :
    Services
    → Option CallerCtx
    → ApplyArgs
    → Prepared
    → History
    → ChangeSetRecord
    → String
    → Run ApplyResponse
compare_fingerprint s caller args p h plan now =
    if not (str_eq now plan.expected_candidate_fingerprint)
    then refused (spend_drifted s h plan) drift_message
    else authorize_write s caller args p h plan

abbrev pub drift_read : ApplyArgs → Prepared → CatalogRead
drift_read args p = object_read "apply_mist_change_set" (target_of args p) p.object_id p.org_id

-- An update is compared with the object as it is now.
unfoldable pub check_update :
    Services
    → Option CallerCtx
    → ApplyArgs
    → History
    → ChangeSetRecord
    → Prepared
    → Run ApplyResponse
check_update s caller args h plan p =
    try (λ e. e) (dispatched (drift_read args p) ∷ h)
      (read_object s h caller "drift check" (drift_read args p) >>= current_fingerprint s)
      (compare_fingerprint s caller args p (dispatched (drift_read args p) ∷ h) plan)

-- A create has nothing to compare with.
unfoldable pub check_drift :
    Services
    → Option CallerCtx
    → ApplyArgs
    → History
    → ChangeSetRecord
    → Prepared
    → Run ApplyResponse
check_drift s caller args h plan p =
    if p.is_create
    then authorize_write s caller args p h plan
    else check_update s caller args h plan p

unfoldable pub apply_fetched :
    Services → Option CallerCtx → ApplyArgs → History → ChangeSetRecord → Run ApplyResponse
apply_fetched s caller args h plan =
    try (λ e. e) h (prepare s h args plan) (check_drift s caller args h plan)

abbrev pub device_of : ApplyArgs → String
device_of args = object_key args.object args.object_id

unfoldable pub apply_mist_change_set :
    Services → Option CallerCtx → ApplyArgs → History → Run ApplyResponse
apply_mist_change_set s caller args h = try s.error_text h (s.device_guard h (device_of args)) (λ _.
    try s.error_text h (s.change_set h args.change_set_id (device_of args))
      (apply_fetched s caller args h))
