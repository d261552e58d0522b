-- ===== src/ChangeSet/Staged.antt =====
-- The record that a plan stages, and what an apply of it finds.
use rustmistmcp.Prelude.{
  ℕ, ◌≡◌, refl, [], ◌∷◌, Option, none, some, String, ok, arith, Result-cases, inl, inr, subst,
  ok-inj,
}
use rustmistmcp.Json.{Value}
use rustmistmcp.Wan.{WanObject}
use rustmistmcp.ChangeSet.{planned, ChangeSetRecord, History, Services, object_key}
use rustmistmcp.ChangeSet.Plan.{
  StagedPlan, staged_record, fingerprint_of, action_of, preview_of, expiry,
}

-- The record is planned, its owner's, for an hour; it has the fingerprint of `before`, and holds `after`
-- as the body and as the preview.
pub record IsStaged (s : Services) (h : History) (owner : String) (object : WanObject)
    (object_id : Option String) (org_id : String) (before after : Value) (staged : StagedPlan)
    (plan : ChangeSetRecord) : Type 0 where
  pub state : plan.state ≡ planned
  pub owned : plan.owner ≡ owner
  pub device : plan.device ≡ object_key object object_id
  pub fingerprint : fingerprint_of s before ≡ ok plan.expected_candidate_fingerprint
  pub body : plan.actions ≡ action_of object after ∷ []
  pub preview :
      plan.preview
      ≡ some (record {
        artifact = s.print (preview_of before after org_id);
        digest = s.preview_digest (s.print (preview_of before after org_id));
        job_id = none;
      })
  pub same_id : staged.change_set_id ≡ plan.id
  pub same_digest : staged.plan_digest ≡ plan.digest
  pub same_before : staged.before ≡ before
  pub same_after : staged.after ≡ after
  pub expires : (now : ℕ) × (s.unix_time h ≡ ok now) × (plan.expires_at_unix ≡ expiry now)

pub staged_record-IsStaged :
    (s : Services) (h : History) (owner : String) (object : WanObject) (object_id : Option String)
    (org_id : String) (before after : Value) (staged : StagedPlan) (plan : ChangeSetRecord)
    → staged_record s h owner object object_id org_id before after ≡ ok (staged, plan)
    → IsStaged s h owner object object_id org_id before after staged plan
unfolding staged_record
staged_record-IsStaged s h owner object object_id org_id before after staged plan e =
    elim (Result-cases (fingerprint_of s before)) [
      | inr (f, e1) ↦ absurd (ground (arith, e, e1))
      | inl (print, e1) ↦ elim (Result-cases (s.fresh_id h)) [
        | inr (f, e2) ↦ absurd (ground (arith, e, e1, e2))
        | inl (id, e2) ↦
            elim (Result-cases (
              s.change_set_digest owner (object_key object object_id) print
                (action_of object after))) [
                  | inr (f, e3) ↦ absurd (ground (arith, e, e1, e2, e3))
                  | inl (digest, e3) ↦ elim (Result-cases (s.unix_time h)) [
                    | inr (f, e4) ↦ absurd (ground (arith, e, e1, e2, e3, e4))
                    | inl (now, e4) ↦
                        let made = rw (e1, e2, e3, e4, staged_record) at e in
                        subst
                          (λ (out : StagedPlan × ChangeSetRecord).
                            IsStaged s h owner object object_id org_id before after out.0 out.1)
                          (ok-inj made)
                          (record {
                            state = refl;
                            owned = refl;
                            device = refl;
                            fingerprint = e1;
                            body = refl;
                            preview = refl;
                            same_id = refl;
                            same_digest = refl;
                            same_before = refl;
                            same_after = refl;
                            expires = (now, e4, refl);
                          })
                  ]
                ]
      ]
    ]
