-- ===== src/Grant/Authority.antt =====
-- What a valid grant authorizes: the listed values and nothing else.
use rustmistmcp.Prelude.{
  ◌≡◌, refl, ◌↔◌, inl, inr, Bool, true, List, [], ◌∷◌, String, ok, err, arith, any, eq_iff, str_eq,
  In, map, Result-cases, ap, ◌∙◌, All-In, subst,
}
use rustmistmcp.Catalog.{MistAction, same_capability}
use rustmistmcp.Target.{MistTarget, parse, subject, MistTargetError}
use rustmistmcp.Target.Subject.{IsCanonical, parse-subject, parse_sound}
use rustmistmcp.Grant.{
  MistGrant, same_target, allows_operation, allows_action, allows_target, allows_subject,
}
use rustmistmcp.Grant.Valid.{IsValid, same_target_iff, same_capability_iff}

module _ {A : Type 0} (same : A → A → Bool)
    (same_iff : (a b : A) → (same a b ≡ true) ↔ (a ≡ b)) where
  any_entry_iff : (x : A) (xs : List A) → (any (λ y. same y x) xs ≡ true) ↔ In x xs
  any_entry_iff x [] = ground arith
  any_entry_iff x (y ∷ xs) = ground (arith, same_iff y x, any_entry_iff x xs)

pub allows_target_iff :
    (g : MistGrant) (t : MistTarget) → (allows_target g t ≡ true) ↔ In t g.subjects
unfolding allows_target
allows_target_iff g t = any_entry_iff same_target same_target_iff t g.subjects

pub allows_operation_iff :
    (g : MistGrant) (s : String) → (allows_operation g s ≡ true) ↔ In s g.allowed_operations
unfolding allows_operation
allows_operation_iff g s = any_entry_iff str_eq eq_iff s g.allowed_operations

pub allows_action_iff :
    (g : MistGrant) (a : MistAction) → (allows_action g a ≡ true) ↔ In a g.actions
unfolding allows_action
allows_action_iff g a = any_entry_iff same_capability same_capability_iff a g.actions

In-map : (t : MistTarget) (xs : List MistTarget) → In t xs → In (subject t) (map subject xs)
In-map t [] m = m
In-map t (x ∷ xs) (inl e) = inl (ap subject e)
In-map t (x ∷ xs) (inr m) = inr (In-map t xs m)

In-map_back :
    (s : String) (xs : List MistTarget)
    → In s (map subject xs)
    → (t : MistTarget) × In t xs × (s ≡ subject t)
In-map_back s [] m = absurd m
In-map_back s (x ∷ xs) (inl e) = (x, inl refl, e)
In-map_back s (x ∷ xs) (inr m) = let (t, found, e) = In-map_back s xs m in (t, inr found, e)

allows-parsed :
    (g : MistGrant) (s : String) (t : MistTarget)
    → parse s ≡ ok t
    → allows_target g t ≡ true
    → allows_subject g s ≡ true
unfolding allows_subject
allows-parsed g s t e h = rw (e, allows_subject) h

allows-parsed_back :
    (g : MistGrant) (s : String) (t : MistTarget)
    → parse s ≡ ok t
    → allows_subject g s ≡ true
    → allows_target g t ≡ true
unfolding allows_subject
allows-parsed_back g s t e h = rw (e, allows_subject) at h

allows-unparsed :
    (g : MistGrant) (s : String) (m : MistTargetError)
    → parse s ≡ err m
    → allows_subject g s ≡ true
    → ⊥
unfolding allows_subject
allows-unparsed g s m e h = ground (arith, e)

-- Under a valid grant a subject given as text is allowed exactly when it is, letter for letter, the
-- spelling of one of the granted targets.
pub allows_subject_iff :
    (g : MistGrant) (s : String)
    → IsValid g
    → (allows_subject g s ≡ true) ↔ In s (map subject g.subjects)
allows_subject_iff g s v = (to, from)
  where
    to : allows_subject g s ≡ true → In s (map subject g.subjects)
    to h = elim (Result-cases (parse s)) [
      | inl (t, e) ↦
          let found : In t g.subjects = (allows_target_iff g t).0 (allows-parsed_back g s t e h) in
          subst (λ w. In w (map subject g.subjects)) (parse_sound s t e).1
            (In-map t g.subjects found)
      | inr (m, e) ↦ absurd (allows-unparsed g s m e h)
    ]

    from : In s (map subject g.subjects) → allows_subject g s ≡ true
    from m =
        let (t, found, e) = In-map_back s g.subjects m in
        let canonical : IsCanonical t = All-In IsCanonical t g.subjects v.canonical found in
        allows-parsed g s t (ap parse e ∙ parse-subject t canonical)
          ((allows_target_iff g t).1 found)
