-- ===== src/ChangeSet/Review.antt =====
-- crates/rustmistmcp/src/server/mod.rs: the tools that inspect and approve a change set.
use rustmistmcp.Prelude.{
  ℕ, Bool, ◌∷◌, Option, none, some, String, Result, ok, ◌>>=◌, map_err, append_text, str_eq,
  contains_str, ◌&&◌,
}
use rustmistmcp.Json.{Value, null, get_key}
use rustmistmcp.Wan.{WanObject}
use rustmistmcp.Access.{CallerCtx}
use rustmistmcp.ChangeSet.{
  PreviewRecord, ChangeSetRecord, Approval, CoordinatorError, approved_by, History, Services, Run,
  answered, try, actor_type, object_key, principal_of,
}

pub record ChangeSetArgs : Type 0 where
  pub change_set_id : String
  pub object : WanObject
  pub object_id : Option String
  pub plan_digest : String

pub record ChangeSetView : Type 0 where
  pub change_set_id : String
  pub state : String
  pub owner : String
  pub approver : Option String
  pub approval_waiver : Option String
  pub plan_digest : String
  pub before : Value
  pub after : Value

-- `parsed.get(key).cloned().unwrap_or(Null)`
abbrev pub value_or_null : String → Value → Value
value_or_null k v = elim (get_key k v) [ some inner ↦ inner | none ↦ null ]

-- `before` and `after` of the preview; null for both where there is none.
unfoldable pub preview_values : Services → Option PreviewRecord → Result String (Value × Value)
preview_values s none = ok (null, null)
preview_values s (some preview) =
    map_err (append_text "failed to parse preview: ") (s.parse preview.artifact) >>= λ parsed.
    ok (s.redact (value_or_null "before" parsed), s.redact (value_or_null "after" parsed))

abbrev waiver_of : Option Approval → Option String
waiver_of none = none
waiver_of (some approval) = approval.waived

abbrev view_of : Services → ChangeSetRecord → Value × Value → ChangeSetView
view_of s r (before, after) = record {
  change_set_id = r.id;
  state = s.state_text r.state;
  owner = r.owner;
  approver = r.approver;
  approval_waiver = waiver_of r.approval;
  plan_digest = r.digest;
  before = before;
  after = after;
}

unfoldable pub get_mist_change_set : Services → ChangeSetArgs → History → Run ChangeSetView
get_mist_change_set s args h =
    try s.error_text h (s.change_set h args.change_set_id (object_key args.object args.object_id))
      (λ r. try (λ e. e) h (preview_values s r.preview) (λ values. answered h (view_of s r values)))

pub record ApproveResponse : Type 0 where
  pub change_set_id : String
  pub state : String
  pub expires_in_seconds : ℕ

-- Whether the coordinator's refusal is audited as a denial: an owner approving the own plan.
abbrev pub is_self_approval : CoordinatorError → Bool
is_self_approval e = str_eq e.field_name "change_set_id" && contains_str "own plan" e.message

unfoldable pub approve_mist_change_set :
    Services → Option CallerCtx → ChangeSetArgs → History → Run ApproveResponse
approve_mist_change_set s caller args h =
    try s.error_text h
      (s.approve_change_set h args.change_set_id (object_key args.object args.object_id)
        (principal_of caller) args.plan_digest (actor_type caller))
      (λ id.
        answered (approved_by args.change_set_id (principal_of caller) ∷ h)
          (record { change_set_id = id; state = "approved"; expires_in_seconds = s.approval_ttl }))
