-- ===== src/ChangeSet/Drift.antt =====
-- A plan whose object has moved is refused and spent.
use rustmistmcp.Prelude.{
  Result-cases, inl, inr, ap, sym, subst, err, ◌⊎◌, ◌≡◌, ◌≢◌, refl, ◌∙◌, false, ◌∷◌, Option, String,
  ok, arith, eq_iff, str_eq,
}
use rustmistmcp.Json.{Value}
use rustmistmcp.Access.{CallerCtx}
use rustmistmcp.ChangeSet.{
  failed, expected, ChangeSetRecord, dispatched, claimed, updated, set_state, History, Services,
  read_object, refused,
}
use rustmistmcp.ChangeSet.Apply.{
  prepare, spend_drifted, current_fingerprint, compare_fingerprint, drift_read, check_update,
  apply_fetched, device_of, drift_message, apply_mist_change_set,
}
use rustmistmcp.ChangeSet.Write.{ApplyArgs, Prepared, settle}
use rustmistmcp.ChangeSet.Written.{writes, spend_drifted-writes}
use rustmistmcp.ChangeSet.Safe.{updated_object}

module _ (s : Services) (caller : Option CallerCtx) (args : ApplyArgs) (h : History) where
  -- The events up to the read of the object.
  abbrev pub after_read : Prepared → History
  after_read p = dispatched (drift_read args p) ∷ h

  -- An update is found and prepared, and its object is read with another fingerprint than planned.
  pub record HasMoved (plan : ChangeSetRecord) (p : Prepared) : Type 0 where
    pub free : s.device_guard h (device_of args) ≡ ok tt
    pub fetched : s.change_set h args.change_set_id (device_of args) ≡ ok plan
    pub same : prepare s h args plan ≡ ok p
    pub is_update : p.is_create ≡ false
    pub moved :
        (current : Value) × (now : String) × (read_object s h caller "drift check"
            (drift_read args p)
          ≡ ok current)
        × (current_fingerprint s current ≡ ok now)
        × (now ≢ plan.expected_candidate_fingerprint)

  -- The claim is refused; or it is granted, and the new state refused or taken.
  abbrev pub IsSpent : ChangeSetRecord → Prepared → History → Type 0
  IsSpent plan p after =
      let claim = s.claim_change_set_for_apply (after_read p) plan.id plan.device expected in
      let held = claimed plan.id expected ∷ after_read p in
      ((e : _) × (claim ≡ err e) × (after ≡ after_read p))
      ⊎ ((r : ChangeSetRecord) × (claim ≡ ok r)
          × (((e : _) × (s.update_change_set held (set_state failed r) ≡ err e) × (after ≡ held))
              ⊎ ((s.update_change_set held (set_state failed r) ≡ ok tt)
                  × (after ≡ updated r.id failed ∷ held))))

  spend_drifted-IsSpent :
      (plan : ChangeSetRecord) (p : Prepared) → IsSpent plan p (spend_drifted s (after_read p) plan)
  unfolding spend_drifted
  spend_drifted-IsSpent plan p =
      elim (Result-cases
        (s.claim_change_set_for_apply (after_read p) plan.id plan.device expected)) [
          | inr (failure, e) ↦ inl (failure, e, rw (e, spend_drifted) refl)
          | inl (r, e) ↦
              elim (Result-cases (
                s.update_change_set (claimed plan.id expected ∷ after_read p)
                  (set_state failed r))) [
                    | inr (failure, e2) ↦
                        inr (r, e, inl (failure, e2, rw (e, e2, spend_drifted, settle) refl))
                    | inl (u, e2) ↦ inr (r, e, inr (e2, rw (e, e2, spend_drifted, settle) refl))
                  ]
        ]

  drifted_run :
      (plan : ChangeSetRecord) (p : Prepared)
      → HasMoved plan p
      → apply_mist_change_set s caller args h
        ≡ refused (spend_drifted s (after_read p) plan) drift_message
  unfolding apply_mist_change_set apply_fetched check_update compare_fingerprint
  drifted_run plan p m =
      let (current, now, read, fingerprint, other) = m.moved in
      let differs : str_eq now plan.expected_candidate_fingerprint ≡ false =
        ground (arith, eq_iff now plan.expected_candidate_fingerprint) in
      rw (m.free, m.fetched, m.same, apply_mist_change_set, apply_fetched)
        (updated_object s caller args h plan p m.is_update
          ∙ rw (read, fingerprint, check_update) (rw (differs, compare_fingerprint) refl))

  -- An update that is found and passes its checks, and whose object is read with another fingerprint
  -- than planned, is refused with the message of the drift, and nothing is written, whatever the
  -- coordinator answers. The plan is claimed where the claim is granted, and failed where the new state
  -- is taken too; no event but these and the read is recorded.
  pub apply_drifted :
      (plan : ChangeSetRecord) (p : Prepared)
      → HasMoved plan p
      → ((apply_mist_change_set s caller args h).answer ≡ err drift_message)
        × (writes (apply_mist_change_set s caller args h).history ≡ writes h)
        × IsSpent plan p (apply_mist_change_set s caller args h).history
  apply_drifted plan p m =
      let run = drifted_run plan p m in
      (
        ap (λ r. r.answer) run,
        ap (λ r. writes r.history) run ∙ spend_drifted-writes s (after_read p) plan,
        subst (IsSpent plan p) (sym (ap (λ r. r.history) run)) (spend_drifted-IsSpent plan p),
      )
