-- ===== src/ChangeSet/Safe.antt =====
-- An apply writes only an approved, unexpired, undrifted plan, and then exactly once.
use rustmistmcp.Prelude.{
  ℕ, ◌≤◌, ◌≡◌, refl, ap, ◌∙◌, ◌⊎◌, inl, inr, true, false, ◌∷◌, Option, String, ok, arith,
  Result-cases, Bool-cases, eq_iff, str_eq,
}
use rustmistmcp.Json.{Value}
use rustmistmcp.Access.{CallerCtx}
use rustmistmcp.ChangeSet.{approved, ChangeSetRecord, dispatched, History, Services, read_object}
use rustmistmcp.ChangeSet.Apply.{
  prepare, authorize_write, current_fingerprint, compare_fingerprint, drift_read, check_update,
  check_drift, apply_fetched, device_of, apply_mist_change_set,
}
use rustmistmcp.ChangeSet.Write.{ApplyArgs, Prepared}
use rustmistmcp.ChangeSet.Written.{
  writes, spend_drifted-writes, IsClaimed, written, authorize_write-writes,
}

-- The record is approved, its expiry has not passed, and its preview holds the body and the organization.
pub record IsPrepared (s : Services) (h : History) (args : ApplyArgs) (plan : ChangeSetRecord)
    (p : Prepared) : Type 0 where
  pub is_approved : plan.state ≡ approved
  pub unexpired : (now : ℕ) × (s.unix_time h ≡ ok now) × (now ≤ plan.expires_at_unix)
  pub same : prepare s h args plan ≡ ok p

prepare-IsPrepared :
    (s : Services) (h : History) (args : ApplyArgs) (plan : ChangeSetRecord) (p : Prepared)
    → prepare s h args plan ≡ ok p
    → IsPrepared s h args plan p
unfolding prepare
prepare-IsPrepared s h args plan p e = elim (Result-cases (s.unix_time h)) [
  | inl (now, clock) ↦ record {
    is_approved = ground (arith, e);
    unexpired = (now, clock, ground (arith, e, clock));
    same = e;
  }
  | inr (failure, clock) ↦ absurd (ground (arith, e, clock))
]

module _ (s : Services) (caller : Option CallerCtx) (args : ApplyArgs) where
  -- The object has, at that point, the fingerprint of the plan.
  abbrev pub IsUndrifted : History → ChangeSetRecord → Prepared → Type 0
  IsUndrifted h plan p =
      (current : Value) × (read_object s h caller "drift check" (drift_read args p) ≡ ok current)
      × (current_fingerprint s current ≡ ok plan.expected_candidate_fingerprint)

  -- The events before the check of the organization, and what was found of a drift.
  abbrev pub Fits : History → ChangeSetRecord → Prepared → History → Type 0
  Fits h plan p before =
      ((p.is_create ≡ true) × (before ≡ h))
      ⊎ ((p.is_create ≡ false)
          × (before ≡ dispatched (drift_read args p) ∷ h)
          × IsUndrifted h plan p)

  compare_fingerprint-writes :
      (p : Prepared) (h : History) (plan : ChangeSetRecord) (now : String)
      → (writes (compare_fingerprint s caller args p h plan now).history ≡ writes h)
        ⊎ ((now ≡ plan.expected_candidate_fingerprint)
            × (compare_fingerprint s caller args p h plan now
                ≡ authorize_write s caller args p h plan))
  unfolding compare_fingerprint
  compare_fingerprint-writes p h plan now =
      elim (Bool-cases (str_eq now plan.expected_candidate_fingerprint)) [
        | inl e ↦ inr (
          ground (arith, eq_iff now plan.expected_candidate_fingerprint),
          rw (e, compare_fingerprint) refl,
        )
        | inr e ↦ inl (rw (e, compare_fingerprint) (spend_drifted-writes s h plan))
      ]

  check_update-writes :
      (h : History) (plan : ChangeSetRecord) (p : Prepared)
      → (writes (check_update s caller args h plan p).history ≡ writes h)
        ⊎ (IsUndrifted h plan p
            × (check_update s caller args h plan p
                ≡ authorize_write s caller args p (dispatched (drift_read args p) ∷ h) plan))
  unfolding check_update
  check_update-writes h plan p =
      elim (Result-cases (read_object s h caller "drift check" (drift_read args p))) [
        | inr (message, read) ↦ inl (rw (read, check_update) refl)
        | inl (current, read) ↦ elim (Result-cases (current_fingerprint s current)) [
          | inr (message, hash) ↦ inl (rw (read, hash, check_update) refl)
          | inl (now, hash) ↦
              elim (compare_fingerprint-writes p (dispatched (drift_read args p) ∷ h) plan now) [
                | inl unwritten ↦ inl (rw (read, hash, check_update) unwritten)
                | inr (same, authorized) ↦
                    inr
                      ((current, read, hash ∙ ap ok same), rw (read, hash, check_update) authorized)
              ]
        ]
      ]

  pub updated_object :
      (h : History) (plan : ChangeSetRecord) (p : Prepared)
      → p.is_create ≡ false
      → check_drift s caller args h plan p ≡ check_update s caller args h plan p
  unfolding check_drift
  updated_object h plan p e = ground (arith, e)

  created_object :
      (h : History) (plan : ChangeSetRecord) (p : Prepared)
      → p.is_create ≡ true
      → check_drift s caller args h plan p ≡ authorize_write s caller args p h plan
  unfolding check_drift
  created_object h plan p e = ground (arith, e)

  -- Why a write was right: the record that was fetched is approved, it is unexpired and fits the
  -- object, its organization is configured, the intent is persisted and the claim granted.
  pub record IsSafeWrite (h : History) (plan r : ChangeSetRecord) (p : Prepared) : Type 0 where
    pub fetched : s.change_set h args.change_set_id (device_of args) ≡ ok plan
    pub prepared : IsPrepared s h args plan p
    pub before : History
    pub fits : Fits h plan p before
    pub granted : IsClaimed s caller args p before plan r

  abbrev pub Drifted : History → ChangeSetRecord → Prepared → History → Type 0
  Drifted h plan p after =
      (writes after ≡ writes h)
      ⊎ ((before : History) × (r : ChangeSetRecord) × Fits h plan p before
          × IsClaimed s caller args p before plan r
          × (writes after ≡ written s caller args p r ∷ writes h))

  through :
      (h before : History) (plan : ChangeSetRecord) (p : Prepared)
      → Fits h plan p before
      → writes before ≡ writes h
      → check_drift s caller args h plan p ≡ authorize_write s caller args p before plan
      → Drifted h plan p (check_drift s caller args h plan p).history
  through h before plan p fits kept same =
      elim (authorize_write-writes s caller args p before plan) [
        | inl unwritten ↦ inl (ap (λ run. writes run.history) same ∙ unwritten ∙ kept)
        | inr (r, granted, wrote_one) ↦ inr (
          before,
          r,
          fits,
          granted,
          ap (λ run. writes run.history) same
              ∙ wrote_one
              ∙ ap (λ ws. written s caller args p r ∷ ws) kept,
        )
      ]

  check_drift-writes :
      (h : History) (plan : ChangeSetRecord) (p : Prepared)
      → Drifted h plan p (check_drift s caller args h plan p).history
  check_drift-writes h plan p = elim (Bool-cases p.is_create) [
    | inl e ↦ through h h plan p (inl (e, refl)) refl (created_object h plan p e)
    | inr e ↦ elim (check_update-writes h plan p) [
      | inl unwritten ↦ inl (ap (λ run. writes run.history) (updated_object h plan p e) ∙ unwritten)
      | inr (undrifted, same) ↦
          through h (dispatched (drift_read args p) ∷ h) plan p (inr (e, refl, undrifted)) refl
            (updated_object h plan p e ∙ same)
    ]
  ]

  apply_fetched-writes :
      (h : History) (plan : ChangeSetRecord)
      → s.change_set h args.change_set_id (device_of args) ≡ ok plan
      → (writes (apply_fetched s caller args h plan).history ≡ writes h)
        ⊎ ((p : Prepared) × (r : ChangeSetRecord) × IsSafeWrite h plan r p
            × (writes (apply_fetched s caller args h plan).history
                ≡ written s caller args p r ∷ writes h))
  unfolding apply_fetched
  apply_fetched-writes h plan fetched = elim (Result-cases (prepare s h args plan)) [
    | inr (message, e) ↦ inl (ground (arith, e))
    | inl (p, e) ↦ elim (check_drift-writes h plan p) [
      | inl unwritten ↦ inl (rw (e, apply_fetched) unwritten)
      | inr (before, r, fits, granted, wrote_one) ↦ inr (
        p,
        r,
        record {
          fetched = fetched;
          prepared = prepare-IsPrepared s h args plan p e;
          before = before;
          fits = fits;
          granted = granted;
        },
        rw (e, apply_fetched) wrote_one,
      )
    ]
  ]

  -- An apply writes nothing, or it writes one request: with the planned body, for the record that it
  -- fetched, which is approved and unexpired, whose object has the planned fingerprint (unless it is
  -- a create), whose organization is configured, and after the intent was persisted and the claim
  -- granted.
  pub apply-writes :
      (h : History)
      → (writes (apply_mist_change_set s caller args h).history ≡ writes h)
        ⊎ ((plan r : ChangeSetRecord) × (p : Prepared) × IsSafeWrite h plan r p
            × (writes (apply_mist_change_set s caller args h).history
                ≡ written s caller args p r ∷ writes h))
  unfolding apply_mist_change_set
  apply-writes h = elim (Result-cases (s.device_guard h (device_of args))) [
    | inr (failure, e) ↦ inl (ground (arith, e))
    | inl (u, e) ↦ elim (Result-cases (s.change_set h args.change_set_id (device_of args))) [
      | inr (failure, e2) ↦ inl (ground (arith, e, e2))
      | inl (plan, e2) ↦ elim (apply_fetched-writes h plan e2) [
        | inl unwritten ↦ inl (rw (e, e2, apply_mist_change_set) unwritten)
        | inr (p, r, safe, wrote_one) ↦
            inr (plan, r, p, safe, rw (e, e2, apply_mist_change_set) wrote_one)
      ]
    ]
  ]
