-- ===== src/ChangeSet/Protocol.antt =====
-- The protocol of a change set as a step relation on the events.
use rustmistmcp.Prelude.{◌≡◌, Bool, true, List, [], ◌∷◌, Option, some, String, ok}
use rustmistmcp.RateLimit.{CallPriority}
use rustmistmcp.Json.{Value}
use rustmistmcp.Request.{MistRequest}
use rustmistmcp.Access.{ActorType, CallerCtx}
use rustmistmcp.Access.Dispatch.{CatalogRead}
use rustmistmcp.ChangeSet.{
  planned, applied, failed, expected, handleless, ChangeSetRecord, dispatched, inserted, proposed,
  waived, approved_by, intended, claimed, wrote, receipt, updated, History, Services, read_object,
}
use rustmistmcp.ChangeSet.Plan.{PlanChangeArgs, plan_mist_change}
use rustmistmcp.ChangeSet.Review.{ChangeSetArgs, get_mist_change_set, approve_mist_change_set}
use rustmistmcp.ChangeSet.Apply.{apply_mist_change_set}
use rustmistmcp.ChangeSet.Write.{ApplyArgs, record_receipt}

-- A record is inserted as planned; an approval, a waiver and a claim are the coordinator's; a write
-- comes with the claim that allows it; a change set is settled as applied right after its write, where
-- a read gives the body that was written, and it may always be settled as failed.
pub data Step (s : Services) (h : History) : History → Type 0 where
  read : (r : CatalogRead) → Step s h (dispatched r ∷ h)
  insert :
      (r : ChangeSetRecord)
      → r.state ≡ planned
      → s.insert_change_set h r ≡ ok tt
      → Step s h (inserted r ∷ h)
  propose : (id : String) → Step s h (proposed id ∷ h)
  waive_it :
      (id device owner digest : String)
      → s.lab_mode ≡ true
      → s.waive_approval h id device owner digest ≡ ok tt
      → Step s h (waived id ∷ h)
  approve :
      (id device approver digest out : String) (actor : ActorType)
      → s.approve_change_set h id device approver digest actor ≡ ok out
      → Step s h (approved_by id approver ∷ h)
  intend : (id : String) → Step s h (intended id ∷ h)
  spend :
      (id device : String) (r : ChangeSetRecord)
      → s.claim_change_set_for_apply h id device expected ≡ ok r
      → Step s h (claimed id expected ∷ h)
  write :
      (id device : String) (r : ChangeSetRecord) (request : MistRequest) (priority : CallPriority)
      → s.claim_change_set_for_apply h id device handleless ≡ ok r
      → Step s h (wrote r.id request priority ∷ claimed id handleless ∷ h)
  report : (id : String) (success : Bool) → Step s h (receipt id success ∷ h)
  fail_it :
      (r : ChangeSetRecord)
      → r.state ≡ failed
      → s.update_change_set h r ≡ ok tt
      → Step s h (updated r.id r.state ∷ h)
  confirm :
      (caller : Option CallerCtx) (what : String) (r : ChangeSetRecord) (look : CatalogRead)
      (before : History) (request : MistRequest) (priority : CallPriority) (body current : Value)
      → h ≡ wrote r.id request priority ∷ before
      → request.json ≡ some body
      → read_object s h caller what look ≡ ok current
      → s.same_value current body ≡ true
      → r.state ≡ applied
      → s.update_change_set (record_receipt s (dispatched look ∷ h) r.id true) r ≡ ok tt
      → Step s h (updated r.id r.state ∷ record_receipt s (dispatched look ∷ h) r.id true)

pub data Steps (s : Services) (start : History) : History → Type 0 where
  stay : Steps s start start
  next : {h after : History} → Steps s start h → Step s h after → Steps s start after

-- A call of one of the four tools.
pub data Call : Type 0 where
  plan_it : Option CallerCtx → PlanChangeArgs → Call
  get_it : ChangeSetArgs → Call
  approve_it : Option CallerCtx → ChangeSetArgs → Call
  apply_it : Option CallerCtx → ApplyArgs → Call

abbrev pub perform : Services → Call → History → History
perform s (plan_it caller args) h = (plan_mist_change s caller args h).history
perform s (get_it args) h = (get_mist_change_set s args h).history
perform s (approve_it caller args) h = (approve_mist_change_set s caller args h).history
perform s (apply_it caller args) h = (apply_mist_change_set s caller args h).history

-- Tool calls, one after the other.
abbrev pub perform_all : Services → List Call → History → History
perform_all s [] h = h
perform_all s (call ∷ calls) h = perform_all s calls (perform s call h)
