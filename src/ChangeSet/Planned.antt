-- ===== src/ChangeSet/Planned.antt =====
-- What a plan records: one record, for an accepted patch on the object as read.
use rustmistmcp.Prelude.{
  ◌≡◌, refl, ◌∙◌, ◌⊎◌, inl, inr, List, [], ◌∷◌, Option, some, String, ok, arith, Result-cases,
  Option-cases, Bool-cases, contains_text, In, subst,
}
use rustmistmcp.ExecuteClass.Partition.{contains_text_iff}
use rustmistmcp.Json.{Value, null}
use rustmistmcp.WanWrite.{
  WriteVerb, create, update, write_target, merge_patch, reject_config_authority,
  reject_redaction_placeholder,
}
use rustmistmcp.WanWrite.Refusals.{
  NoPlaceholder, NoAuthority, reject_config_authority_iff, reject_redaction_placeholder_iff,
}
use rustmistmcp.Access.{CallerCtx}
use rustmistmcp.ChangeSet.{
  ChangeSetRecord, Event, dispatched, inserted, proposed, waived, approved_by, intended, claimed,
  wrote, receipt, updated, History, Services, object_key, principal_of, object_read, read_object,
}
use rustmistmcp.ChangeSet.Plan.{
  StagedPlan, staged_record, PlanChangeArgs, waive, proposal, insert_staged, stage, plan_update,
  plan_verb, plan_mist_change,
}
use rustmistmcp.ChangeSet.Staged.{IsStaged, staged_record-IsStaged}

abbrev pub add_insert : Event → List ChangeSetRecord → List ChangeSetRecord
add_insert (inserted r) rs = r ∷ rs
add_insert (wrote id request priority) rs = rs
add_insert (dispatched read) rs = rs
add_insert (proposed id) rs = rs
add_insert (waived id) rs = rs
add_insert (approved_by id approver) rs = rs
add_insert (intended id) rs = rs
add_insert (claimed id handle) rs = rs
add_insert (receipt id success) rs = rs
add_insert (updated id state) rs = rs

abbrev pub inserts : History → List ChangeSetRecord
inserts [] = []
inserts (e ∷ h) = add_insert e (inserts h)

module _ (s : Services) (caller : Option CallerCtx) (args : PlanChangeArgs) where
  waive-inserts :
      (h : History) (staged : StagedPlan)
      → inserts (waive s caller args h staged).history ≡ inserts h
  unfolding waive
  waive-inserts h staged =
      elim (Result-cases (
        s.waive_approval h staged.change_set_id (object_key args.object args.object_id)
          (principal_of caller) staged.plan_digest)) [
            | inr (failure, e) ↦ ground (arith, e)
            | inl (u, e) ↦ ground (arith, e)
          ]

  proposal-inserts : (h : History) (id : String) → inserts (proposal s id h) ≡ inserts h
  proposal-inserts h id = elim (Option-cases s.evidence) [
    | inl e ↦ ground (arith, e)
    | inr (recorder, e) ↦ ground (arith, e)
  ]

  -- The record that is staged on a value of the object.
  abbrev pub StagedOn : History → Value → ChangeSetRecord → Type 0
  StagedOn h before plan =
      (staged : StagedPlan) × IsStaged s h (principal_of caller) args.object args.object_id
        args.org_id before (merge_patch before args.patch) staged plan

  abbrev pub RecordsStaged : History → Value → History → Type 0
  RecordsStaged h before after =
      (inserts after ≡ inserts h)
      ⊎ ((plan : ChangeSetRecord) × StagedOn h before plan × (inserts after ≡ plan ∷ inserts h))

  insert_staged-inserts :
      (h : History) (staged : StagedPlan) (plan : ChangeSetRecord)
      → (inserts (insert_staged s caller args h (staged, plan)).history ≡ inserts h)
        ⊎ (inserts (insert_staged s caller args h (staged, plan)).history ≡ plan ∷ inserts h)
  unfolding insert_staged
  insert_staged-inserts h staged plan = elim (Result-cases (s.insert_change_set h plan)) [
    | inr (failure, e) ↦ inl (rw (e, insert_staged) refl)
    | inl (u, e) ↦
        inr
          (rw (e, insert_staged) (waive-inserts _ staged ∙ proposal-inserts _ staged.change_set_id))
  ]

  stage-inserts :
      (h : History) (before : Value) → RecordsStaged h before (stage s caller args h before).history
  unfolding stage
  stage-inserts h before =
      elim (Result-cases (
        staged_record s h (principal_of caller) args.object args.object_id args.org_id before
          (merge_patch before args.patch))) [
            | inr (failure, e) ↦ inl (rw (e, stage) refl)
            | inl ((staged, plan), e) ↦ elim (insert_staged-inserts h staged plan) [
              | inl unchanged ↦ inl (rw (e, stage) unchanged)
              | inr inserted_one ↦ inr (
                plan,
                (
                  staged,
                  staged_record-IsStaged s h (principal_of caller) args.object args.object_id
                      args.org_id before (merge_patch before args.patch) staged plan e,
                ),
                rw (e, stage) inserted_one,
              )
            ]
          ]

  -- What an update reads, and where: the object of its identifier.
  abbrev pub ReadFor : History → Value → History → Type 0
  ReadFor h before at =
      (object_id : String) × (args.object_id ≡ some object_id)
      × (at
          ≡ dispatched (
              object_read "plan_mist_change" (write_target args.object update) object_id
                args.org_id)
            ∷ h)
      × (read_object s h caller "read"
            (object_read "plan_mist_change" (write_target args.object update) object_id args.org_id)
          ≡ ok before)

  -- A create is planned on null, an update on the object as read.
  abbrev pub PlannedOn : History → WriteVerb → Value → History → Type 0
  PlannedOn h create before at = (before ≡ null) × (at ≡ h)
  PlannedOn h update before at = ReadFor h before at

  abbrev pub RecordsPlan : History → WriteVerb → History → Type 0
  RecordsPlan h verb after =
      (inserts after ≡ inserts h)
      ⊎ ((before : Value) × (at : History) × (plan : ChangeSetRecord) × PlannedOn h verb before at
          × StagedOn at before plan
          × (inserts after ≡ plan ∷ inserts h))

  plan_update-inserts :
      (h : History) (object_id : String)
      → args.object_id ≡ some object_id
      → RecordsPlan h update (plan_update s caller args h object_id).history
  unfolding plan_update
  plan_update-inserts h object_id given =
      let r =
        object_read "plan_mist_change" (write_target args.object update) object_id args.org_id in
      elim (Result-cases (read_object s h caller "read" r)) [
        | inr (message, e) ↦ inl (rw (e, plan_update) refl)
        | inl (before, e) ↦ elim (stage-inserts (dispatched r ∷ h) before) [
          | inl unchanged ↦ inl (rw (e, plan_update) unchanged)
          | inr (plan, staged, inserted_one) ↦ inr (
            before,
            dispatched r ∷ h,
            plan,
            (object_id, given, refl, e),
            staged,
            rw (e, plan_update) inserted_one,
          )
        ]
      ]

  plan_verb-plan_update :
      (h : History) (object_id : String)
      → args.object_id ≡ some object_id
      → plan_update s caller args h object_id ≡ plan_verb s caller args h update
  unfolding plan_verb
  plan_verb-plan_update h object_id e = ground (arith, e)

  plan_verb-inserts :
      (h : History) (verb : WriteVerb) → RecordsPlan h verb (plan_verb s caller args h verb).history
  unfolding plan_verb
  plan_verb-inserts h create = elim (stage-inserts h null) [
    | inl unchanged ↦ inl unchanged
    | inr (plan, staged, inserted_one) ↦ inr (null, h, plan, (refl, refl), staged, inserted_one)
  ]
  plan_verb-inserts h update = elim (Option-cases args.object_id) [
    | inl e ↦ inl (ground (arith, e))
    | inr (object_id, e) ↦
        subst (λ run. RecordsPlan h update run.history) (plan_verb-plan_update h object_id e)
          (plan_update-inserts h object_id e)
  ]

  -- The patch has no `mist_configured` and no placeholder at any depth, and the organization is
  -- configured.
  pub record IsAcceptable (h : History) : Type 0 where
    pub no_authority : NoAuthority args.patch
    pub no_placeholder : NoPlaceholder args.patch
    pub allowed : In args.org_id (s.handler h).allowed_orgs

  -- A plan records nothing, or one record: for a patch without `mist_configured` and the redaction
  -- placeholder, in a configured organization, planned on null for a create and on the object as read
  -- for an update, whose body is the patch merged onto that.
  pub plan-inserts :
      (h : History)
      → (inserts (plan_mist_change s caller args h).history ≡ inserts h)
        ⊎ (IsAcceptable h
            × (before : Value) × (at : History) × (plan : ChangeSetRecord) × PlannedOn h args.verb
                before at
            × StagedOn at before plan
            × (inserts (plan_mist_change s caller args h).history ≡ plan ∷ inserts h))
  unfolding plan_mist_change
  plan-inserts h = elim (Result-cases (reject_config_authority args.patch)) [
    | inr (failure, e) ↦ inl (rw (e, plan_mist_change) refl)
    | inl (u, e) ↦ elim (Result-cases (reject_redaction_placeholder args.patch)) [
      | inr (failure, e2) ↦ inl (rw (e, e2, plan_mist_change) refl)
      | inl (v, e2) ↦ elim (Bool-cases (contains_text (s.handler h).allowed_orgs args.org_id)) [
        | inr e3 ↦ inl (rw (e, e2, e3, plan_mist_change) refl)
        | inl e3 ↦ elim (plan_verb-inserts h args.verb) [
          | inl unchanged ↦ inl (rw (e, e2, e3, plan_mist_change) unchanged)
          | inr (before, at, plan, planned_on, staged, inserted_one) ↦ inr (
            record {
              no_authority = (reject_config_authority_iff args.patch).0 e;
              no_placeholder = (reject_redaction_placeholder_iff args.patch).0 e2;
              allowed = (contains_text_iff (s.handler h).allowed_orgs args.org_id).0 e3;
            },
            before,
            at,
            plan,
            planned_on,
            staged,
            rw (e, e2, e3, plan_mist_change) inserted_one,
          )
        ]
      ]
    ]
  ]
