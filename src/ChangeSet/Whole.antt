-- ===== src/ChangeSet/Whole.antt =====
-- From the plan to the write: what an apply finds in a record that a plan staged.
use rustmistmcp.Prelude.Maps
use rustmistmcp.Prelude.{
  if◌then◌else◌, [], ℕ, ◌≤◌, ◌≡◌, refl, sym, ap, ◌∙◌, ◌⊎◌, inl, inr, true, false, ◌∷◌, Option, none,
  some, String, Result, ok, err, arith, Result-cases, Bool-cases, str_eq, append_text, eq_iff,
  eq_refl, ok-inj, subst, map_err, ◌>>=◌, is_prefix, codes,
}
use text.Mathlib.TextLemmas.{cons-append}
use rustmistmcp.Json.{Value, null, bool, num, str, arr, obj, is_null, get}
use rustmistmcp.Wan.{WanObject}
use rustmistmcp.WanWrite.{create, update, write_target}
use rustmistmcp.Request.{MistRequest}
use rustmistmcp.Access.{CallerCtx, call_priority_for}
use rustmistmcp.ChangeSet.{approved, ChangeSetRecord, History, Services}
use rustmistmcp.ChangeSet.Plan.{StagedPlan, fingerprint_of, preview_of, coordinator_error}
use rustmistmcp.ChangeSet.Staged.{IsStaged}
use rustmistmcp.ChangeSet.Apply.{
  prepare, bound_object, is_create_plan, device_of, apply_mist_change_set,
}
use rustmistmcp.ChangeSet.Write.{ApplyArgs, Prepared, write_request}
use rustmistmcp.ChangeSet.Written.{writes}
use rustmistmcp.ChangeSet.Safe.{IsPrepared, apply-writes}

module _ (s : Services) (h : History) (args : ApplyArgs) (object_id : String) where
  -- An approved record that holds the preview of a body and an organization.
  prepare-ok :
      (plan : ChangeSetRecord) (before after : Value) (org_id : String) (now : ℕ) (digest : String)
      → plan.state ≡ approved
      → plan.preview
        ≡ some (record {
          artifact = s.print (preview_of before after org_id);
          digest = digest;
          job_id = none;
        })
      → s.parse (s.print (preview_of before after org_id)) ≡ ok (preview_of before after org_id)
      → s.unix_time h ≡ ok now
      → now ≤ plan.expires_at_unix
      → bound_object (is_create_plan plan) args.object_id ≡ ok object_id
      → prepare s h args plan
        ≡ ok (record {
          after = after;
          org_id = org_id;
          is_create = is_create_plan plan;
          object_id = object_id;
        })
  unfolding prepare get
  prepare-ok plan before after org_id now digest e1 e2 e3 e4 fresh e5 =
      ground (arith, e1, e2, e3, e4, e5)

  unbound :
      (plan : ChangeSetRecord) (before after : Value) (org_id message digest : String) (now : ℕ)
      (p : Prepared)
      → plan.preview
        ≡ some (record {
          artifact = s.print (preview_of before after org_id);
          digest = digest;
          job_id = none;
        })
      → s.parse (s.print (preview_of before after org_id)) ≡ ok (preview_of before after org_id)
      → s.unix_time h ≡ ok now
      → bound_object (is_create_plan plan) args.object_id ≡ err message
      → prepare s h args plan ≡ ok p
      → ⊥
  unfolding prepare get
  unbound plan before after org_id message digest now p e1 e2 e3 e4 passed =
      ground (arith, e1, e2, e3, e4, passed)

starts_with_s : (hash : String) → is_prefix (codes "s") (codes (append_text "sha256:" hash)) ≡ true
starts_with_s hash = rw cons-append refl

hash_not_create : (hash : String) → str_eq (append_text "sha256:" hash) "create" ≡ false
hash_not_create hash = elim (Bool-cases (str_eq (append_text "sha256:" hash) "create")) [
  | inr other ↦ other
  | inl same ↦ absurd (
      ground (
        arith,
        sym (starts_with_s hash)
            ∙ ap (λ t. is_prefix (codes "s") (codes t))
                ((eq_iff (append_text "sha256:" hash) "create").0 same),
      ))
]

hashed :
    (r : Result String String) (print : String)
    → (map_err (coordinator_error "before") r >>= λ hash. ok (append_text "sha256:" hash))
      ≡ ok print
    → str_eq print "create" ≡ false
hashed (ok hash) print e = ap (λ q. str_eq q "create") (sym (ok-inj e)) ∙ hash_not_create hash
hashed (err failure) print e = cc

is_create-staged :
    (s : Services) (before : Value) (print : String)
    → fingerprint_of s before ≡ ok print
    → str_eq print "create" ≡ is_null before
unfolding fingerprint_of
is_create-staged s null print e = ap (λ q. str_eq q "create") (sym (ok-inj e)) ∙ eq_refl "create"
is_create-staged s (bool b) print e = hashed (s.sha256 (bool b)) print e
is_create-staged s (num n) print e = hashed (s.sha256 (num n)) print e
is_create-staged s (str t) print e = hashed (s.sha256 (str t)) print e
is_create-staged s (arr vs) print e = hashed (s.sha256 (arr vs)) print e
is_create-staged s (obj fs) print e = hashed (s.sha256 (obj fs)) print e

module _ (s : Services) (caller : Option CallerCtx) (args : ApplyArgs) (h0 h : History)
    (owner : String) (object : WanObject) (object_id : Option String) (org_id : String)
    (before after : Value) (staged : StagedPlan) (plan current : ChangeSetRecord) where
  -- The request of a staged plan: the body and the organization that were planned, and the operation
  -- that creates where the plan was made on null, and updates elsewhere.
  pub record IsPlannedRequest (request : MistRequest) : Type 0 where
    pub operation_id :
        request.operation_id
        ≡ (write_target args.object (if is_null before then create else update)).write_operation_id
    pub body : request.json ≡ some after
    pub organization : Maps.get "org_id" request.path ≡ some org_id
    pub no_query : request.query ≡ []

  -- An apply writes that request, and only that.
  abbrev pub WritesPlanned : Type 0
  WritesPlanned =
      (request : MistRequest) × (r : ChangeSetRecord) × IsPlannedRequest request
      × (writes (apply_mist_change_set s caller args h).history
          ≡ (r.id, request, call_priority_for caller) ∷ writes h)

  request_of_prepared :
      (p : Prepared)
      → p.after ≡ after
      → p.org_id ≡ org_id
      → p.is_create ≡ is_null before
      → IsPlannedRequest (write_request args p)
  unfolding Maps.get
  request_of_prepared p body org created = record {
    operation_id =
        ap (λ b. (write_target args.object (if b then create else update)).write_operation_id)
          created;
    body = ap (λ v. some v) body;
    organization = elim (Bool-cases p.is_create) [
      | inl e ↦ rw e (ap (λ o. some o) org)
      | inr e ↦ rw e (ap (λ o. some o) org)
    ];
    no_query = refl;
  }

  prepared_of :
      (p : Prepared)
      → s.parse (s.print (preview_of before after org_id)) ≡ ok (preview_of before after org_id)
      → IsStaged s h0 owner object object_id org_id before after staged plan
      → current.preview ≡ plan.preview
      → current.expected_candidate_fingerprint ≡ plan.expected_candidate_fingerprint
      → IsPrepared s h args current p
      → (p.after ≡ after) × (p.org_id ≡ org_id) × (p.is_create ≡ is_null before)
  prepared_of p parsed made same_preview same_print safe =
      let (now, clock, fresh) = safe.unexpired in
      let stored = same_preview ∙ made.preview in
      let created =
        ap (λ f. str_eq f "create") same_print
        ∙ is_create-staged s before plan.expected_candidate_fingerprint made.fingerprint in
      elim (Result-cases (bound_object (is_create_plan current) args.object_id)) [
        | inr (message, e) ↦ absurd (
            unbound s h args "" current before after org_id message _ now p stored parsed clock e
              safe.same)
        | inl (id, e) ↦
            let same = ok-inj (
              sym safe.same
              ∙ prepare-ok s h args id current before after org_id now _ safe.is_approved stored
                  parsed clock fresh e) in
            (ap (λ q. q.after) same, ap (λ q. q.org_id) same, ap (λ q. q.is_create) same ∙ created)
      ]

  -- An apply of a staged plan, whose preview and fingerprint the coordinator has kept, writes nothing
  -- or one request: its body is the one that was planned, its path has the organization that it was
  -- planned for, and its operation creates exactly where the plan was made on null. The text of the
  -- preview is taken to parse as the preview.
  pub apply-staged :
      s.parse (s.print (preview_of before after org_id)) ≡ ok (preview_of before after org_id)
      → IsStaged s h0 owner object object_id org_id before after staged plan
      → s.change_set h args.change_set_id (device_of args) ≡ ok current
      → current.preview ≡ plan.preview
      → current.expected_candidate_fingerprint ≡ plan.expected_candidate_fingerprint
      → (writes (apply_mist_change_set s caller args h).history ≡ writes h) ⊎ WritesPlanned
  apply-staged parsed made fetched same_preview same_print = elim (apply-writes s caller args h) [
    | inl unwritten ↦ inl unwritten
    | inr (found, r, p, safe, wrote_one) ↦
        let same : found ≡ current = ok-inj (sym safe.fetched ∙ fetched) in
        let (body, org, created) =
          prepared_of p parsed made same_preview same_print
            (subst (λ q. IsPrepared s h args q p) same safe.prepared) in
        inr (write_request args p, r, request_of_prepared p body org created, wrote_one)
  ]
