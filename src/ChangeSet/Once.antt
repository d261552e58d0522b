-- ===== src/ChangeSet/Once.antt =====
-- A change set is written at most once, and settled as applied only if it was written.
use rustmistmcp.Prelude.{
  ℕ, suc, ◌≤◌, ◌≡◌, refl, Bool, true, false, List, [], ◌∷◌, String, ok, arith, str_eq, eq_iff,
  if◌then◌else◌, Option-cases, subst, inl, inr,
}
use rustmistmcp.RateLimit.{CallPriority}
use rustmistmcp.Request.{MistRequest}
use rustmistmcp.ChangeSet.{
  ChangeSetState, applied, failed, ApplyHandle, ChangeSetRecord, Event, dispatched, inserted,
  proposed, waived, approved_by, intended, claimed, wrote, receipt, updated, History, Services,
}
use rustmistmcp.ChangeSet.Write.{record_receipt}
use rustmistmcp.ChangeSet.Protocol.{
  Step, read, insert, propose, waive_it, approve, intend, spend, write, report, fail_it, confirm,
  Steps, stay, next, Call, perform_all,
}
use rustmistmcp.ChangeSet.PlanSteps.{perform_all-Steps}

-- What an event adds to the claims, the writes and the confirmations of a change set.
abbrev pub adds_claim : String → Event → Bool
adds_claim id (claimed other handle) = str_eq other id
adds_claim id _ = false

abbrev pub adds_write : String → Event → Bool
adds_write id (wrote other request priority) = str_eq other id
adds_write id _ = false

abbrev is_applied : ChangeSetState → Bool
is_applied applied = true
is_applied _ = false

abbrev pub adds_applied : String → Event → Bool
adds_applied id (updated other state) = if str_eq other id then is_applied state else false
adds_applied id _ = false

abbrev pub count : (Event → Bool) → History → ℕ
count test [] = 0
count test (e ∷ h) = if test e then suc (count test h) else count test h

-- The events before the last one.
abbrev rest : History → History
rest [] = []
rest (e ∷ h) = h

count-rest : (test : Event → Bool) (h : History) → count test (rest h) ≤ count test h
count-rest test [] = omega arith
count-rest test (e ∷ h) = ground arith

-- The coordinator grants a claim of a change set once, and hands its record out.
abbrev pub ClaimsOnce : Services → Type 0
ClaimsOnce s =
    (h : History) (id device : String) (handle : ApplyHandle) (r : ChangeSetRecord)
    → s.claim_change_set_for_apply h id device handle ≡ ok r
    → (r.id ≡ id) × (count (adds_claim id) h ≡ 0)

module _ (s : Services) (id : String) where
  -- At most one claim, at most as many writes, and at most as many confirmations as writes before the
  -- last event.
  abbrev pub IsOnce : History → Type 0
  IsOnce h =
      (count (adds_claim id) h ≤ 1)
      × (count (adds_write id) h ≤ count (adds_claim id) h)
      × (count (adds_applied id) h ≤ count (adds_write id) (rest h))

  quiet-IsOnce :
      (h : History) (e : Event)
      → adds_claim id e ≡ false
      → adds_write id e ≡ false
      → adds_applied id e ≡ false
      → IsOnce h
      → IsOnce (e ∷ h)
  quiet-IsOnce h e no_claim no_write no_applied (c, w, a) =
      ground (arith, no_claim, no_write, no_applied, count-rest (adds_write id) h)

  receipt-count :
      (test : Event → Bool) (h : History) (other : String) (success : Bool)
      → test (receipt other success) ≡ false
      → count test (record_receipt s h other success) ≡ count test h
  receipt-count test h other success quiet = elim (Option-cases s.evidence) [
    | inl e ↦ ground (arith, e)
    | inr (recorder, e) ↦ ground (arith, e, quiet)
  ]

  spend-IsOnce :
      (h : History) (other : String) (handle : ApplyHandle)
      → (other ≡ id → count (adds_claim id) h ≡ 0)
      → IsOnce h
      → IsOnce (claimed other handle ∷ h)
  spend-IsOnce h other handle fresh (c, w, a) =
      ground (arith, eq_iff other id, count-rest (adds_write id) h)

  write-IsOnce :
      (h : History) (other : String) (r : ChangeSetRecord) (request : MistRequest)
      (priority : CallPriority)
      → r.id ≡ other
      → (other ≡ id → count (adds_claim id) h ≡ 0)
      → IsOnce h
      → IsOnce (wrote r.id request priority ∷ claimed other ApplyHandle.handleless ∷ h)
  write-IsOnce h other r request priority same fresh (c, w, a) =
      ground (arith, same, eq_iff other id, count-rest (adds_write id) h)

  confirm-IsOnce :
      (h receipts before : History) (r : ChangeSetRecord) (request : MistRequest)
      (priority : CallPriority)
      → h ≡ wrote r.id request priority ∷ before
      → count (adds_claim id) receipts ≡ count (adds_claim id) h
      → count (adds_write id) receipts ≡ count (adds_write id) h
      → count (adds_applied id) receipts ≡ count (adds_applied id) h
      → IsOnce h
      → IsOnce (updated r.id r.state ∷ receipts)
  confirm-IsOnce h receipts before r request priority same k1 k2 k3 (c, w, a) =
      ground (arith, k1, k2, k3, same)

  failed-adds_applied :
      (r : ChangeSetRecord) → r.state ≡ failed → adds_applied id (updated r.id r.state) ≡ false
  failed-adds_applied r e = ground (arith, e)

  Step-IsOnce : {h after : History} → ClaimsOnce s → Step s h after → IsOnce h → IsOnce after
  Step-IsOnce {h} law (read r) once = quiet-IsOnce h (dispatched r) refl refl refl once
  Step-IsOnce {h} law (insert r new e) once = quiet-IsOnce h (inserted r) refl refl refl once
  Step-IsOnce {h} law (propose other) once = quiet-IsOnce h (proposed other) refl refl refl once
  Step-IsOnce {h} law (waive_it other device owner digest lab e) once =
      quiet-IsOnce h (waived other) refl refl refl once
  Step-IsOnce {h} law (approve other device approver digest out actor e) once =
      quiet-IsOnce h (approved_by other approver) refl refl refl once
  Step-IsOnce {h} law (intend other) once = quiet-IsOnce h (intended other) refl refl refl once
  Step-IsOnce {h} law (spend other device r e) once =
      spend-IsOnce h other ApplyHandle.expected
        (λ same.
          subst (λ i. count (adds_claim i) h ≡ 0) same
            (law h other device ApplyHandle.expected r e).1)
        once
  Step-IsOnce {h} law (write other device r request priority e) once =
      write-IsOnce h other r request priority (law h other device ApplyHandle.handleless r e).0
        (λ same.
          subst (λ i. count (adds_claim i) h ≡ 0) same
            (law h other device ApplyHandle.handleless r e).1)
        once
  Step-IsOnce {h} law (report other success) once =
      quiet-IsOnce h (receipt other success) refl refl refl once
  Step-IsOnce {h} law (fail_it r failed_now e) once =
      quiet-IsOnce h (updated r.id r.state) refl refl (failed-adds_applied r failed_now) once
  Step-IsOnce {h} law
        (confirm caller what r look before request priority body current same carried found equal
          final e)
        once =
      confirm-IsOnce h (record_receipt s (dispatched look ∷ h) r.id true) before r request priority
        same (receipt-count (adds_claim id) (dispatched look ∷ h) r.id true refl)
        (receipt-count (adds_write id) (dispatched look ∷ h) r.id true refl)
        (receipt-count (adds_applied id) (dispatched look ∷ h) r.id true refl) once

  Steps-IsOnce : {start h : History} → ClaimsOnce s → Steps s start h → IsOnce start → IsOnce h
  Steps-IsOnce law stay once = once
  Steps-IsOnce law (next steps step) once = Step-IsOnce law step (Steps-IsOnce law steps once)

-- Where the coordinator grants a claim of a change set only once, any sequence of tool calls writes a
-- change set at most once, and settles it as applied at most as often as it wrote it.
pub written_once :
    (s : Services) (calls : List Call) (id : String)
    → ClaimsOnce s
    → (count (adds_write id) (perform_all s calls []) ≤ 1)
      × (count (adds_applied id) (perform_all s calls [])
          ≤ count (adds_write id) (perform_all s calls []))
written_once s calls id law =
    let (c, w, a) =
      Steps-IsOnce s id law (perform_all-Steps s calls [] [] stay)
        (omega arith, omega arith, omega arith) in
    (omega arith, omega (arith, a, count-rest (adds_write id) (perform_all s calls [])))
