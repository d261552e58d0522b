-- ===== src/ChangeSet/Write.antt =====
-- crates/rustmistmcp/src/server/mod.rs: the write of `apply_mist_change_set`, and what follows it.
use rustmistmcp.Prelude.{
  Bool, false, not, List, [], ◌∷◌, Option, none, some, String, Result, ok, err, ok_or, append_text,
  if◌then◌else◌,
}
use rustmistmcp.Json.{Value, get_key, as_str}
use rustmistmcp.Wan.{WanObject}
use rustmistmcp.WanWrite.{WriteVerb, create, update, WriteTarget, write_target}
use rustmistmcp.Error.{MistError}
use rustmistmcp.Request.{MistRequest, MistResponse, MistResponseBody, json, text, binary, empty}
use rustmistmcp.Access.{CallerCtx, call_priority_for}
use rustmistmcp.ChangeSet.{
  ChangeSetState, applied, failed, ChangeSetRecord, set_state, dispatched, wrote, receipt, updated,
  History, Services, Run, refused, answered, try, object_read, read_object,
}

pub record ApplyArgs : Type 0 where
  pub change_set_id : String
  pub object : WanObject
  pub object_id : Option String
  pub request_id : String

pub record ApplyResponse : Type 0 where
  pub change_set_id : String
  pub state : ChangeSetState
  pub object_id : String
  pub drift_checked : Bool
  pub verified : Bool

-- What an apply takes from an approved plan.
pub record Prepared : Type 0 where
  pub after : Value
  pub org_id : String
  pub is_create : Bool
  pub object_id : String

abbrev pub verb_of : Prepared → WriteVerb
verb_of p = if p.is_create then create else update

abbrev pub target_of : ApplyArgs → Prepared → WriteTarget
target_of args p = write_target args.object (verb_of p)

-- `update_change_set`, which takes effect or does not.
abbrev pub settle : Services → History → ChangeSetRecord → History
settle s h r = elim (s.update_change_set h r) [ ok _ ↦ updated r.id r.state ∷ h | err e ↦ h ]

-- `failure_receipt` and `result_receipt`: their error is only logged.
abbrev pub record_receipt : Services → History → String → Bool → History
record_receipt s h id success = elim s.evidence [ some e ↦ receipt id success ∷ h | none ↦ h ]

-- The identifier of the object that a create made.
unfoldable pub created_id : MistResponseBody → Result String String
created_id (json value) = elim (get_key "id" value) [
  | some id ↦ ok_or (as_str id) "create response missing id field"
  | none ↦ err "create response missing id field"
]
created_id (text value) = err "create response was not JSON"
created_id (binary value) = err "create response was not JSON"
created_id empty = err "create response was not JSON"

unfoldable pub final_object_id : Prepared → MistResponse → Result String String
final_object_id p response = if p.is_create then created_id response.body else ok p.object_id

abbrev pub is_value : Services → Value → Result String Value → Bool
is_value s after (ok v) = s.same_value v after
is_value s after (err e) = false

-- The new state is persisted, and answered.
unfoldable pub finish :
    Services → ApplyArgs → Prepared → History → ChangeSetRecord → String → Bool → Run ApplyResponse
finish s args p h r object_id verified =
    let last = set_state (if verified then applied else failed) r in
    try (λ e. append_text "failed to persist final state: " (s.error_text e)) h
      (s.update_change_set h last)
      (λ _. answered (updated last.id last.state ∷ h) (record {
        change_set_id = args.change_set_id;
        state = last.state;
        object_id = object_id;
        drift_checked = not p.is_create;
        verified = verified;
      }))

-- The object is read again and compared with what was written.
unfoldable pub verify :
    Services
    → Option CallerCtx
    → ApplyArgs
    → Prepared
    → History
    → ChangeSetRecord
    → String
    → Run ApplyResponse
verify s caller args p h r object_id =
    let read = object_read "apply_mist_change_set" (target_of args p) object_id p.org_id in
    let verified = is_value s p.after (read_object s h caller "verify" read) in
    finish s args p (record_receipt s (dispatched read ∷ h) r.id verified) r object_id verified

-- After the write: an error leaves no receipt, an answer that is of no use a failed one.
unfoldable pub conclude_write :
    Services
    → Option CallerCtx
    → ApplyArgs
    → Prepared
    → History
    → ChangeSetRecord
    → Result MistError MistResponse
    → Run ApplyResponse
conclude_write s caller args p h r (err e) =
    refused (settle s h (set_state failed r)) (append_text "write failed: " (s.mist_error_text e))
conclude_write s caller args p h r (ok response) = elim (final_object_id p response) [
  | err message ↦ refused (settle s (record_receipt s h r.id false) (set_state failed r)) message
  | ok object_id ↦ verify s caller args p h r object_id
]

abbrev pub write_path : WriteTarget → Prepared → List (String × String)
write_path target p =
    if p.is_create
    then ("org_id", p.org_id) ∷ []
    else ("org_id", p.org_id) ∷ (target.id_path_name, p.object_id) ∷ []

abbrev pub write_request : ApplyArgs → Prepared → MistRequest
write_request args p = record {
  operation_id = (target_of args p).write_operation_id;
  path = write_path (target_of args p) p;
  query = [];
  json = some p.after;
  cursor = none;
}

-- The write itself, for a plan that is claimed.
unfoldable pub issue_write :
    Services
    → Option CallerCtx
    → ApplyArgs
    → Prepared
    → History
    → ChangeSetRecord
    → Run ApplyResponse
issue_write s caller args p h r =
    conclude_write s caller args p
      (wrote r.id (write_request args p) (call_priority_for caller) ∷ h) r
      ((s.handler h).execute_as (write_request args p) (call_priority_for caller))
