-- ===== src/ChangeSet/Plan.antt =====
-- crates/rustmistmcp/src/server/change_set.rs: `stage_plan`, and the tools that plan, inspect and
-- approve a change set (crates/rustmistmcp/src/server/mod.rs).
use rustmistmcp.Prelude.{
  ℕ, ◌+◌, false, not, [], ◌∷◌, Option, none, some, String, Result, ok, ◌>>=◌, map_err, append_text,
  contains_text, if◌then◌else◌, min, ◌^◌, ◌-◌,
}
use rustmistmcp.Json.{Value, null, str, obj, end, field, is_null}
use rustmistmcp.Wan.{WanObject}
use rustmistmcp.WanWrite.{
  WriteVerb, create, update, write_target, merge_patch, reject_config_authority,
  reject_redaction_placeholder,
}
use rustmistmcp.Access.{CallerCtx}
use rustmistmcp.ChangeSet.{
  planned, ChangeSetRecord, CoordinatorError, dispatched, inserted, proposed, waived, History,
  Services, Run, refused, answered, try, object_name, object_key, principal_of, object_read,
  read_object,
}

pub record StagedPlan : Type 0 where
  pub change_set_id : String
  pub plan_digest : String
  pub preview_digest : String
  pub before : Value
  pub after : Value

-- `CoordinatorError::new(field, message)`
abbrev pub coordinator_error : String → String → CoordinatorError
coordinator_error name message = record { field_name = name; message = message }

-- A create has no state to compare with; an update has the hash of the object as read.
unfoldable pub fingerprint_of : Services → Value → Result CoordinatorError String
fingerprint_of s before =
    if is_null before
    then ok "create"
    else map_err (coordinator_error "before") (s.sha256 before) >>= λ hash.
        ok (append_text "sha256:" hash)

abbrev pub action_of : WanObject → Value → Value
action_of object after = obj (field "object" (str (object_name object)) (field "body" after end))

abbrev pub preview_of : Value → Value → String → Value
preview_of before after org_id =
    obj (field "before" before (field "after" after (field "org_id" (str org_id) end)))

-- `now.saturating_add(3600)` on 64 bits
abbrev pub expiry : ℕ → ℕ
expiry now = min (now + 3600) (2 ^ 64 - 1)

abbrev pub new_record :
    Services → String → String → String → String → String → Value → Value → ℕ → ChangeSetRecord
new_record s id owner device fingerprint digest preview action now = record {
  id = id;
  owner = owner;
  device = device;
  expected_candidate_fingerprint = fingerprint;
  actions = action ∷ [];
  digest = digest;
  state = planned;
  approver = none;
  approval = none;
  expires_at_unix = expiry now;
  operation_id = none;
  policy_signature = "";
  targets = [];
  preview = some (record {
    artifact = s.print preview;
    digest = s.preview_digest (s.print preview);
    job_id = none;
  });
  apply_without_handle = false;
  task_id = none;
}

-- `stage_plan` up to the insertion: the staged plan and its record.
unfoldable pub staged_record :
    Services
    → History
    → String
    → WanObject
    → Option String
    → String
    → Value
    → Value
    → Result CoordinatorError (StagedPlan × ChangeSetRecord)
staged_record s h owner object object_id org_id before after = do
  fingerprint ← fingerprint_of s before
  id ← map_err (coordinator_error "id") (s.fresh_id h)
  digest ←
      map_err (coordinator_error "digest") (
        s.change_set_digest owner (object_key object object_id) fingerprint
          (action_of object after))
  now ← map_err (coordinator_error "time") (s.unix_time h)
  ok (
    record {
      change_set_id = id;
      plan_digest = digest;
      preview_digest = s.preview_digest (s.print after);
      before = before;
      after = after;
    },
    new_record s id owner (object_key object object_id) fingerprint digest
        (preview_of before after org_id) (action_of object after) now,
  )

pub record PlanChangeArgs : Type 0 where
  pub org_id : String
  pub object : WanObject
  pub verb : WriteVerb
  pub object_id : Option String
  pub patch : Value

-- The answer of a plan; `before` and `after` are redacted.
pub record PlanResponse : Type 0 where
  pub change_set_id : String
  pub plan_digest : String
  pub preview_digest : String
  pub before : Value
  pub before_state : Option String
  pub after : Value

abbrev pub plan_response : Services → StagedPlan → PlanResponse
plan_response s staged = record {
  change_set_id = staged.change_set_id;
  plan_digest = staged.plan_digest;
  preview_digest = staged.preview_digest;
  before = if is_null staged.before then null else s.redact staged.before;
  before_state = if is_null staged.before then some "absent (create)" else none;
  after = s.redact staged.after;
}

-- In lab mode the approval is waived.
unfoldable pub waive :
    Services → Option CallerCtx → PlanChangeArgs → History → StagedPlan → Run PlanResponse
waive s caller args h staged =
    if s.lab_mode
    then try (λ e. append_text "lab mode waive failed: " (s.error_text e)) h
        (s.waive_approval h staged.change_set_id (object_key args.object args.object_id)
          (principal_of caller) staged.plan_digest)
        (λ _. answered (waived staged.change_set_id ∷ h) (plan_response s staged))
    else answered h (plan_response s staged)

abbrev pub proposal : Services → String → History → History
proposal s id h = elim s.evidence [ some recorder ↦ proposed id ∷ h | none ↦ h ]

unfoldable pub insert_staged :
    Services
    → Option CallerCtx
    → PlanChangeArgs
    → History
    → StagedPlan × ChangeSetRecord
    → Run PlanResponse
insert_staged s caller args h (staged, plan) =
    try s.error_text h (s.insert_change_set h plan)
      (λ _. waive s caller args (proposal s staged.change_set_id (inserted plan ∷ h)) staged)

-- From the object as read to the plan.
unfoldable pub stage :
    Services → Option CallerCtx → PlanChangeArgs → History → Value → Run PlanResponse
stage s caller args h before =
    try s.error_text h
      (staged_record s h (principal_of caller) args.object args.object_id args.org_id before
        (merge_patch before args.patch))
      (insert_staged s caller args h)

unfoldable pub plan_update :
    Services → Option CallerCtx → PlanChangeArgs → History → String → Run PlanResponse
plan_update s caller args h object_id =
    let read =
      object_read "plan_mist_change" (write_target args.object update) object_id args.org_id in
    try (λ e. e) (dispatched read ∷ h) (read_object s h caller "read" read)
      (stage s caller args (dispatched read ∷ h))

-- An update is planned on the object as read, a create on null.
unfoldable pub plan_verb :
    Services → Option CallerCtx → PlanChangeArgs → History → WriteVerb → Run PlanResponse
plan_verb s caller args h create = stage s caller args h null
plan_verb s caller args h update = elim args.object_id [
  | none ↦ refused h "update requires object_id"
  | some object_id ↦ plan_update s caller args h object_id
]

abbrev pub org_refusal : String → String
org_refusal org_id =
    append_text "organization " (append_text org_id " is not in the server's allowed organizations")

unfoldable pub plan_mist_change :
    Services → Option CallerCtx → PlanChangeArgs → History → Run PlanResponse
plan_mist_change s caller args h =
    try (λ e. "patch sets mist_configured, which controls who may configure the device") h
      (reject_config_authority args.patch)
      (λ _.
        try
          (λ e.
            "patch contains the redaction placeholder; omit secret fields to keep their current value (merge-patch preserves omitted keys), or supply the real value")
          h (reject_redaction_placeholder args.patch)
          (λ _.
            if not (contains_text (s.handler h).allowed_orgs args.org_id)
            then refused h (org_refusal args.org_id)
            else plan_verb s caller args h args.verb))
