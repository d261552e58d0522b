-- ===== src/ChangeSet.antt =====
-- crates/rustmistmcp/src/server/change_set.rs, and what the four tools of
-- crates/rustmistmcp/src/server/mod.rs share: the record of a change set, the events that leave the
-- handler, and the services that it calls.
pub mod Plan
pub mod Review
pub mod Write
pub mod Apply
pub mod Written
pub mod Safe
pub mod Drift
pub mod Staged
pub mod Protocol
pub mod ApplySteps
pub mod PlanSteps
pub mod Once
pub mod Planned
pub mod Whole
mod Examples
use rustmistmcp.Prelude.{
  ℕ, Bool, true, false, List, [], ◌∷◌, Option, none, some, String, Result, ok, err, ◌>>=◌, ◌>>◌,
  refuse_if, ok_or, map_err, append_text,
}
use rustmistmcp.RateLimit.{CallPriority}
use rustmistmcp.Json.{Value, get_key}
use rustmistmcp.Catalog.{MistCapability, ordinary_read, privileged_read}
use rustmistmcp.Error.{MistError}
use rustmistmcp.Request.{MistRequest}
use rustmistmcp.Wan.{WanObject, network, service, service_policy, gateway_template, device_profile}
use rustmistmcp.WanWrite.{WriteTarget}
use rustmistmcp.Access.{ActorType, human, agent, unknown, CallerCtx, MistCallError}
use rustmistmcp.Access.Dispatch.{
  CatalogRead, Handler, ReadFailure, ReadEnvelope, Reply, dispatch_catalogued_read,
}

-- The states of `mecmcp_changeset` that the code names.
pub data ChangeSetState : Type 0 where
  planned approved applying applied failed : ChangeSetState

-- `expected` where a crash is read back as a failure, `handleless` (`None`) where it leaves the outcome
-- open.
pub data ApplyHandle : Type 0 where
  expected handleless : ApplyHandle

pub record PreviewRecord : Type 0 where
  pub artifact : String
  pub digest : String
  pub job_id : Option String

pub record Approval : Type 0 where
  pub waived : Option String

pub record ChangeSetRecord : Type 0 where
  pub id : String
  pub owner : String
  pub device : String
  pub expected_candidate_fingerprint : String
  pub actions : List Value
  pub digest : String
  pub state : ChangeSetState
  pub approver : Option String
  pub approval : Option Approval
  pub expires_at_unix : ℕ
  pub operation_id : Option String
  pub policy_signature : String
  pub targets : List String
  pub preview : Option PreviewRecord
  pub apply_without_handle : Bool
  pub task_id : Option String

-- `record.state = ..`
abbrev pub set_state : ChangeSetState → ChangeSetRecord → ChangeSetRecord
set_state new r = record {
  id = r.id;
  owner = r.owner;
  device = r.device;
  expected_candidate_fingerprint = r.expected_candidate_fingerprint;
  actions = r.actions;
  digest = r.digest;
  state = new;
  approver = r.approver;
  approval = r.approval;
  expires_at_unix = r.expires_at_unix;
  operation_id = r.operation_id;
  policy_signature = r.policy_signature;
  targets = r.targets;
  preview = r.preview;
  apply_without_handle = r.apply_without_handle;
  task_id = r.task_id;
}

-- `mecmcp_changeset::CoordinatorError`
pub record CoordinatorError : Type 0 where
  pub field_name : String
  pub message : String

-- What a tool returns to the model: an error or not, and its first content where that is a text.
pub record ToolResult : Type 0 where
  pub is_error : Bool
  pub text : Option String

-- What left the handler and took effect: a read of an object, a record inserted, its proposal, its
-- waiver and approval, the intent of an apply, the claim, the write, its receipt, and the new state.
pub data Event : Type 0 where
  dispatched : CatalogRead → Event
  inserted : ChangeSetRecord → Event
  proposed : String → Event
  waived : String → Event
  approved_by : String → String → Event
  intended : String → Event
  claimed : String → ApplyHandle → Event
  wrote : String → MistRequest → CallPriority → Event
  receipt : String → Bool → Event
  updated : String → ChangeSetState → Event

-- The events so far, the newest first.
abbrev pub History : Type 0
History = List Event

-- The evidence recorder of mecmcp_changeset; only the intent's error is acted on.
pub record Evidence : Type 0 where
  pub apply_intent : History → String → String → String → String → Result String (Unit {0})

-- The handler and the code outside the repository that the tools call. What an answer depends on beside
-- its arguments (the coordinator's file, the clock, Mist itself, other callers) is any function of the
-- events so far. `sha256` stands for the serialization and its hash in hex.
pub record Services : Type 0 where
  pub handler : History → Handler
  pub tool_text : Bool → Result ReadFailure ReadEnvelope → ToolResult
  pub parse : String → Result String Value
  pub print : Value → String
  pub same_value : Value → Value → Bool
  pub sha256 : Value → Result String String
  pub fresh_id : History → Result String String
  pub change_set_digest : String → String → String → Value → Result String String
  pub preview_digest : String → String
  pub unix_time : History → Result String ℕ
  pub state_text : ChangeSetState → String
  pub error_text : CoordinatorError → String
  pub mist_error_text : MistError → String
  pub redact : Value → Value
  pub device_guard : History → String → Result CoordinatorError (Unit {0})
  pub change_set : History → String → String → Result CoordinatorError ChangeSetRecord
  pub insert_change_set : History → ChangeSetRecord → Result CoordinatorError (Unit {0})
  pub update_change_set : History → ChangeSetRecord → Result CoordinatorError (Unit {0})
  pub claim_change_set_for_apply :
      History → String → String → ApplyHandle → Result CoordinatorError ChangeSetRecord
  pub waive_approval :
      History → String → String → String → String → Result CoordinatorError (Unit {0})
  pub approve_change_set :
      History → String → String → String → String → ActorType → Result CoordinatorError String
  pub approval_ttl : ℕ
  pub evidence : Option Evidence
  pub lab_mode : Bool

-- The events after a tool call, and its answer.
pub record Run (A : Type 0) : Type 0 where
  pub history : History
  pub answer : Result String A

abbrev pub refused : {A : Type 0} → History → String → Run A
refused h message = record { history = h; answer = err message }

abbrev pub answered : {A : Type 0} → History → A → Run A
answered h a = record { history = h; answer = ok a }

-- `if let Err(..)` and `match` on a result: an error ends the call, a value goes on.
abbrev pub try : {A B E : Type 0} → (E → String) → History → Result E A → (A → Run B) → Run B
try message h (ok a) next = next a
try message h (err e) next = refused h (message e)

-- The caller's actor type; a call without a caller is of an unknown one.
unfoldable pub actor_type : Option CallerCtx → ActorType
actor_type none = unknown
actor_type (some caller) = caller.actor_type

abbrev pub object_name : WanObject → String
object_name network = "network"
object_name service = "service"
object_name service_policy = "servicepolicy"
object_name gateway_template = "gatewaytemplate"
object_name device_profile = "deviceprofile"

unfoldable pub object_key : WanObject → Option String → String
object_key object (some id) = append_text (object_name object) (append_text "/" id)
object_key object none = append_text (object_name object) "/new"

-- `ctx.token_name`, or `stdio` where there is no caller.
abbrev pub principal_of : Option CallerCtx → String
principal_of none = "stdio"
principal_of (some caller) = caller.token_name

-- The read of the object that a write target changes.
abbrev pub object_read : String → WriteTarget → String → String → CatalogRead
object_read tool target object_id org_id = record {
  tool = tool;
  operation_id = target.read_operation_id;
  path = (target.id_path_name, object_id) ∷ ("org_id", org_id) ∷ [];
  query = [];
  cursor = none;
  capability = elim target.privileged [ true ↦ privileged_read | false ↦ ordinary_read ];
  redact_output = false;
}

-- The first content of an error, which the tool hands on.
abbrev error_content : ToolResult → String
error_content result = elim result.text [ some text ↦ text | none ↦ "" ]

-- `value.get("data")` of the text that a read returns.
unfoldable pub data_of_result : Services → String → ToolResult → Result String Value
data_of_result s what result = do
  refuse_if result.is_error (error_content result)
  text ← ok_or result.text (append_text what " result was not text")
  value ←
      map_err (λ e. append_text "failed to parse " (append_text what (append_text " response: " e)))
        (s.parse text)
  ok_or (get_key "data" value) (append_text what " response missing data field")

-- The data of an object at a point of the history.
unfoldable pub read_object :
    Services → History → Option CallerCtx → String → CatalogRead → Result String Value
read_object s h caller what read =
    data_of_result s what
      (s.tool_text read.redact_output (dispatch_catalogued_read (s.handler h) read caller).answer)
