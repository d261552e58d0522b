-- ===== src/ChangeSet/PlanSteps.antt =====
-- Every tool is a run of the protocol, and so is every sequence of calls.
use rustmistmcp.Prelude.{
  ◌≡◌, refl, inl, inr, List, [], ◌∷◌, Option, String, arith, subst, sym, Result-cases, Option-cases,
  Bool-cases, contains_text,
}
use rustmistmcp.Json.{Value, null}
use rustmistmcp.WanWrite.{
  WriteVerb, create, update, write_target, reject_config_authority, reject_redaction_placeholder,
  merge_patch,
}
use rustmistmcp.Access.{CallerCtx}
use rustmistmcp.ChangeSet.{
  planned, ChangeSetRecord, History, Services, object_key, principal_of, actor_type, object_read,
  read_object,
}
use rustmistmcp.ChangeSet.Plan.{
  proposal, StagedPlan, staged_record, PlanChangeArgs, waive, insert_staged, stage, plan_update,
  plan_verb, plan_mist_change,
}
use rustmistmcp.ChangeSet.Review.{
  ChangeSetArgs, preview_values, get_mist_change_set, approve_mist_change_set,
}
use rustmistmcp.ChangeSet.Staged.{staged_record-IsStaged}
use rustmistmcp.ChangeSet.ApplySteps.{apply-Steps}
use rustmistmcp.ChangeSet.Protocol.{
  read, insert, propose, waive_it, approve, Steps, next, Call, plan_it, get_it, approve_it,
  apply_it, perform, perform_all,
}

module _ {s : Services} {start : History} (caller : Option CallerCtx) where
  module _ (args : PlanChangeArgs) where
    waive-Steps :
        (h : History) (staged : StagedPlan)
        → Steps s start h
        → Steps s start (waive s caller args h staged).history
    unfolding waive
    waive-Steps h staged steps = elim (Bool-cases s.lab_mode) [
      | inr off ↦ subst (Steps s start) (ground (arith, off)) steps
      | inl lab ↦
          elim (Result-cases (
            s.waive_approval h staged.change_set_id (object_key args.object args.object_id)
              (principal_of caller) staged.plan_digest)) [
                | inr (failure, e) ↦ subst (Steps s start) (ground (arith, lab, e)) steps
                | inl (u, e) ↦ subst (Steps s start) (ground (arith, lab, e)) (
                    next steps (
                      waive_it staged.change_set_id (object_key args.object args.object_id)
                        (principal_of caller) staged.plan_digest lab e))
              ]
    ]

    proposal-Steps : (h : History) (id : String) → Steps s start h → Steps s start (proposal s id h)
    proposal-Steps h id steps = elim (Option-cases s.evidence) [
      | inl e ↦ subst (Steps s start) (ground (arith, e)) steps
      | inr (recorder, e) ↦ subst (Steps s start) (ground (arith, e)) (next steps (propose id))
    ]

    insert_staged-Steps :
        (h : History) (staged : StagedPlan) (plan : ChangeSetRecord)
        → plan.state ≡ planned
        → Steps s start h
        → Steps s start (insert_staged s caller args h (staged, plan)).history
    unfolding insert_staged
    insert_staged-Steps h staged plan new steps = elim (Result-cases (s.insert_change_set h plan)) [
      | inr (failure, e) ↦ rw (e, insert_staged) steps
      | inl (u, e) ↦
          rw (e, insert_staged)
            (waive-Steps _ staged
              (proposal-Steps _ staged.change_set_id (next steps (insert plan new e))))
    ]

    stage-Steps :
        (h : History) (before : Value)
        → Steps s start h
        → Steps s start (stage s caller args h before).history
    unfolding stage
    stage-Steps h before steps =
        elim (Result-cases (
          staged_record s h (principal_of caller) args.object args.object_id args.org_id before
            (merge_patch before args.patch))) [
              | inr (failure, e) ↦ rw (e, stage) steps
              | inl ((staged, plan), e) ↦
                  rw (e, stage)
                    (insert_staged-Steps h staged plan
                      (staged_record-IsStaged s h (principal_of caller) args.object args.object_id
                        args.org_id before (merge_patch before args.patch) staged plan e).state
                      steps)
            ]

    plan_update-Steps :
        (h : History) (object_id : String)
        → Steps s start h
        → Steps s start (plan_update s caller args h object_id).history
    unfolding plan_update
    plan_update-Steps h object_id steps =
        let r =
          object_read "plan_mist_change" (write_target args.object update) object_id args.org_id in
        elim (Result-cases (read_object s h caller "read" r)) [
          | inr (message, e) ↦ rw (e, plan_update) (next steps (read r))
          | inl (before, e) ↦ rw (e, plan_update) (stage-Steps _ before (next steps (read r)))
        ]

    plan_verb-Steps :
        (h : History) (verb : WriteVerb)
        → Steps s start h
        → Steps s start (plan_verb s caller args h verb).history
    unfolding plan_verb
    plan_verb-Steps h create steps = stage-Steps h null steps
    plan_verb-Steps h update steps = elim (Option-cases args.object_id) [
      | inl e ↦ subst (Steps s start) (ground (arith, e)) steps
      | inr (object_id, e) ↦
          subst (Steps s start) (ground (arith, e)) (plan_update-Steps h object_id steps)
    ]

    plan-Steps :
        (h : History) → Steps s start h → Steps s start (plan_mist_change s caller args h).history
    unfolding plan_mist_change
    plan-Steps h steps = elim (Result-cases (reject_config_authority args.patch)) [
      | inr (failure, e) ↦ rw (e, plan_mist_change) steps
      | inl (u, e) ↦ elim (Result-cases (reject_redaction_placeholder args.patch)) [
        | inr (failure, e2) ↦ rw (e, e2, plan_mist_change) steps
        | inl (v, e2) ↦ elim (Bool-cases (contains_text (s.handler h).allowed_orgs args.org_id)) [
          | inr e3 ↦ rw (e, e2, e3, plan_mist_change) steps
          | inl e3 ↦ rw (e, e2, e3, plan_mist_change) (plan_verb-Steps h args.verb steps)
        ]
      ]
    ]

  approve-Steps :
      (args : ChangeSetArgs) (h : History)
      → Steps s start h
      → Steps s start (approve_mist_change_set s caller args h).history
  unfolding approve_mist_change_set
  approve-Steps args h steps =
      elim (Result-cases (
        s.approve_change_set h args.change_set_id (object_key args.object args.object_id)
          (principal_of caller) args.plan_digest (actor_type caller))) [
            | inr (failure, e) ↦ rw (e, approve_mist_change_set) steps
            | inl (out, e) ↦
                rw (e, approve_mist_change_set)
                  (next steps (
                    approve args.change_set_id (object_key args.object args.object_id)
                      (principal_of caller) args.plan_digest out (actor_type caller) e))
          ]

get-same :
    (s : Services) (args : ChangeSetArgs) (h : History) → (get_mist_change_set s args h).history ≡ h
unfolding get_mist_change_set
get-same s args h =
    elim (Result-cases
      (s.change_set h args.change_set_id (object_key args.object args.object_id))) [
        | inr (failure, e) ↦ rw (e, get_mist_change_set) refl
        | inl (r, e) ↦ elim (Result-cases (preview_values s r.preview)) [
          | inr (message, e2) ↦ rw (e, e2, get_mist_change_set) refl
          | inl (values, e2) ↦ rw (e, e2, get_mist_change_set) refl
        ]
      ]

perform-Steps :
    {s : Services} {start : History} (call : Call) (h : History)
    → Steps s start h
    → Steps s start (perform s call h)
perform-Steps (plan_it caller args) h steps = plan-Steps caller args h steps
perform-Steps {s} {start} (get_it args) h steps =
    subst (Steps s start) (sym (get-same s args h)) steps
perform-Steps (approve_it caller args) h steps = approve-Steps caller args h steps
perform-Steps (apply_it caller args) h steps = apply-Steps caller args h steps

-- Whatever tools are called, by whom and in which order, what happens is a run of the protocol: records
-- are inserted as planned, a write comes with a claim that was granted, and a change set is settled as
-- applied only right after its write, where a read gave the body that was written.
pub perform_all-Steps :
    (s : Services) (calls : List Call) (start h : History)
    → Steps s start h
    → Steps s start (perform_all s calls h)
perform_all-Steps s [] start h steps = steps
perform_all-Steps s (call ∷ calls) start h steps =
    perform_all-Steps s calls start (perform s call h) (perform-Steps call h steps)
