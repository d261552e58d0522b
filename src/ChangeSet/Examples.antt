-- ===== src/ChangeSet/Examples.antt =====
-- A network that is renamed by an agent, under a coordinator that grants a claim once.
use rustmistmcp.Prelude.{
  ◌≤◌, ◌≡◌, refl, ◌⊎◌, true, false, [], ◌∷◌, none, some, String, ok, err, str_eq, if◌then◌else◌,
  ◌==◌, arith, eq_iff,
}
use rustmistmcp.Json.{Value, str, obj, end, field, get}
use rustmistmcp.Wan.{network}
use rustmistmcp.WanWrite.{update}
use rustmistmcp.Access.{agent, human}
use rustmistmcp.Access.Examples.{handler, caller, lab_id}
use rustmistmcp.ChangeSet.{
  ChangeSetState, planned, approved, ChangeSetRecord, CoordinatorError, History, Services,
  read_object, data_of_result, object_key,
}
use rustmistmcp.ChangeSet.Plan.{
  PlanChangeArgs, StagedPlan, plan_mist_change, preview_of, fingerprint_of, action_of,
}
use rustmistmcp.ChangeSet.Staged.{IsStaged}
use rustmistmcp.ChangeSet.Apply.{
  prepare, current_fingerprint, drift_read, drift_message, apply_mist_change_set,
}
use rustmistmcp.ChangeSet.Write.{ApplyArgs, Prepared}
use rustmistmcp.ChangeSet.Written.{writes, written}
use rustmistmcp.ChangeSet.Safe.{IsSafeWrite, apply-writes}
use rustmistmcp.ChangeSet.Drift.{HasMoved, IsSpent, apply_drifted}
use rustmistmcp.ChangeSet.Protocol.{Steps, stay, plan_it, apply_it, perform_all}
use rustmistmcp.ChangeSet.PlanSteps.{perform_all-Steps}
use rustmistmcp.ChangeSet.Once.{
  count, adds_claim, adds_write, adds_applied, ClaimsOnce, written_once,
}
use rustmistmcp.ChangeSet.Planned.{inserts, IsAcceptable, PlannedOn, StagedOn, plan-inserts}
use rustmistmcp.ChangeSet.Whole.{WritesPlanned, apply-staged}

abbrev corp : Value
corp = obj (field "name" (str "corp") end)

abbrev renamed : Value
renamed = obj (field "name" (str "guests") end)

abbrev preview : Value
preview = preview_of corp renamed lab_id

-- The plan of the renaming, with the fingerprint of the network at that time.
abbrev plan_with : String → String → ChangeSetState → ChangeSetRecord
plan_with id fingerprint state = record {
  id = id;
  owner = "ops";
  device = "network/n1";
  expected_candidate_fingerprint = fingerprint;
  actions = action_of network renamed ∷ [];
  digest = "d";
  state = state;
  approver = none;
  approval = none;
  expires_at_unix = 4600;
  operation_id = none;
  policy_signature = "";
  targets = [];
  preview = some (record { artifact = "preview"; digest = "pd"; job_id = none });
  apply_without_handle = false;
  task_id = none;
}

abbrev refusal : CoordinatorError
refusal = record { field_name = "change_set_id"; message = "already claimed" }

-- The change set has the fingerprint, and a claim is granted once.
abbrev services : String → Services
services fingerprint = record {
  handler = λ h. handler;
  tool_text = λ redacted answer. record { is_error = false; text = some "network" };
  parse = λ t. if str_eq t "preview" then ok preview else ok (obj (field "data" corp end));
  print = λ v. "preview";
  same_value = λ v w. true;
  sha256 = λ v. ok "0";
  fresh_id = λ h. ok "c1";
  change_set_digest = λ owner device print action. ok "d";
  preview_digest = λ t. "pd";
  unix_time = λ h. ok 1000;
  state_text = λ state. "a state";
  error_text = λ e. e.message;
  mist_error_text = λ e. "a Mist error";
  redact = λ v. v;
  device_guard = λ h device. ok tt;
  change_set = λ h id device. ok (plan_with id fingerprint approved);
  insert_change_set = λ h r. ok tt;
  update_change_set = λ h r. ok tt;
  claim_change_set_for_apply = λ h id device handle.
      if count (adds_claim id) h == 0
      then ok (plan_with id fingerprint ChangeSetState.applying)
      else err refusal;
  waive_approval = λ h id device owner digest. ok tt;
  approve_change_set = λ h id device approver digest actor. ok id;
  approval_ttl = 3600;
  evidence = some (record { apply_intent = λ h request id device principal. ok tt });
  lab_mode = false;
}

abbrev rename : PlanChangeArgs
rename = record {
  org_id = lab_id;
  object = network;
  verb = update;
  object_id = some "n1";
  patch = renamed;
}

abbrev apply_args : ApplyArgs
apply_args = record {
  change_set_id = "c1";
  object = network;
  object_id = some "n1";
  request_id = "r1";
}

apply-writes_example :
    (writes (apply_mist_change_set (services "sha256:0") (caller agent) apply_args []).history ≡ [])
    ⊎ ((plan r : ChangeSetRecord) × (p : Prepared) × IsSafeWrite
          (services "sha256:0")
          (caller agent)
          apply_args
          []
          plan
          r
          p
        × (writes (apply_mist_change_set (services "sha256:0") (caller agent) apply_args []).history
            ≡ written (services "sha256:0") (caller agent) apply_args p r ∷ []))
apply-writes_example = apply-writes (services "sha256:0") (caller agent) apply_args []

claims_once : ClaimsOnce (services "sha256:0")
claims_once h id device handle r e = ground (arith, e)

written_once_example :
    (count (adds_write "c1") (
        perform_all
          (services "sha256:0")
          (apply_it (caller agent) apply_args ∷ apply_it (caller human) apply_args ∷ [])
          [])
      ≤ 1)
    × (count (adds_applied "c1") (
          perform_all
            (services "sha256:0")
            (apply_it (caller agent) apply_args ∷ apply_it (caller human) apply_args ∷ [])
            [])
        ≤ count (adds_write "c1") (
            perform_all
              (services "sha256:0")
              (apply_it (caller agent) apply_args ∷ apply_it (caller human) apply_args ∷ [])
              []))
written_once_example =
    written_once (services "sha256:0")
      (apply_it (caller agent) apply_args ∷ apply_it (caller human) apply_args ∷ []) "c1"
      claims_once

perform_all-Steps_example : Steps (services "sha256:0") [] (
    perform_all
      (services "sha256:0")
      (plan_it (caller agent) rename ∷ apply_it (caller agent) apply_args ∷ [])
      [])
perform_all-Steps_example =
    perform_all-Steps (services "sha256:0")
      (plan_it (caller agent) rename ∷ apply_it (caller agent) apply_args ∷ []) [] [] stay

plan-inserts_example :
    (inserts (plan_mist_change (services "sha256:0") (caller agent) rename []).history ≡ [])
    ⊎ (IsAcceptable (services "sha256:0") (caller agent) rename []
        × (before : Value) × (at : History) × (plan : ChangeSetRecord) × PlannedOn
            (services "sha256:0")
            (caller agent)
            rename
            []
            update
            before
            at
        × StagedOn (services "sha256:0") (caller agent) rename at before plan
        × (inserts (plan_mist_change (services "sha256:0") (caller agent) rename []).history
            ≡ plan ∷ []))
plan-inserts_example = plan-inserts (services "sha256:0") (caller agent) rename []

abbrev staged : StagedPlan
staged = record {
  change_set_id = "c1";
  plan_digest = "d";
  preview_digest = "pd";
  before = corp;
  after = renamed;
}

staged-IsStaged :
    IsStaged
      (services "sha256:0")
      []
      "ops"
      network
      (some "n1")
      lab_id
      corp
      renamed
      staged
      (plan_with "c1" "sha256:0" planned)
unfolding fingerprint_of object_key
staged-IsStaged = record {
  state = refl;
  owned = refl;
  device = refl;
  fingerprint = refl;
  body = refl;
  preview = refl;
  same_id = refl;
  same_digest = refl;
  same_before = refl;
  same_after = refl;
  expires = (1000, refl, refl);
}

apply-staged_example :
    (writes (apply_mist_change_set (services "sha256:0") (caller agent) apply_args []).history ≡ [])
    ⊎ WritesPlanned
        (services "sha256:0")
        (caller agent)
        apply_args
        []
        []
        "ops"
        network
        (some "n1")
        lab_id
        corp
        renamed
        staged
        (plan_with "c1" "sha256:0" planned)
        (plan_with "c1" "sha256:0" approved)
apply-staged_example =
    apply-staged (services "sha256:0") (caller agent) apply_args [] [] "ops" network (some "n1")
      lab_id corp renamed staged (plan_with "c1" "sha256:0" planned)
      (plan_with "c1" "sha256:0" approved) refl staged-IsStaged refl refl refl

abbrev prepared : Prepared
prepared = record { after = renamed; org_id = lab_id; is_create = false; object_id = "n1" }

moved_prepared :
    prepare (services "sha256:1") [] apply_args (plan_with "c1" "sha256:1" approved) ≡ ok prepared
unfolding prepare get
moved_prepared = refl

moved_read :
    read_object
      (services "sha256:1")
      []
      (caller agent)
      "drift check"
      (drift_read apply_args prepared)
    ≡ ok corp
unfolding read_object data_of_result get
moved_read = refl

moved_fingerprint : current_fingerprint (services "sha256:1") corp ≡ ok "sha256:0"
unfolding current_fingerprint
moved_fingerprint = refl

abbrev moved_plan : ChangeSetRecord
moved_plan = plan_with "c1" "sha256:1" approved

plan_moved : HasMoved (services "sha256:1") (caller agent) apply_args [] moved_plan prepared
plan_moved = record {
  free = refl;
  fetched = refl;
  same = moved_prepared;
  is_update = refl;
  moved = (
    corp,
    "sha256:0",
    moved_read,
    moved_fingerprint,
    λ e. ground (arith, (eq_iff "sha256:0" "sha256:1").1 e),
  );
}

apply_drifted_example :
    ((apply_mist_change_set (services "sha256:1") (caller agent) apply_args []).answer
      ≡ err drift_message)
    × (writes (apply_mist_change_set (services "sha256:1") (caller agent) apply_args []).history
        ≡ writes [])
    × IsSpent
        (services "sha256:1")
        (caller agent)
        apply_args
        []
        moved_plan
        prepared
        (apply_mist_change_set (services "sha256:1") (caller agent) apply_args []).history
apply_drifted_example =
    apply_drifted (services "sha256:1") (caller agent) apply_args [] moved_plan prepared plan_moved
