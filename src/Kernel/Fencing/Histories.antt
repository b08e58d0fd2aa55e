-- ===== src/Kernel/Fencing/Histories.antt =====
-- The law of fencing over each call of the kernel, and over every history.
use omniverse_v.Prelude.{ℕ, ◌≡◌, Bool, Option, none, some, List, [], ◌∷◌, String, refl, true, false}
use omniverse_v.Domain.{RunOutcome, StepKind}
use omniverse_v.Kernel.Rows.{Json, StepKey, StepLease, StepState, CreateResearchRun}
use omniverse_v.Kernel.Tx.{Store, Result, ok, err}
use omniverse_v.Kernel.Respects.{Respects, transact_law}
use omniverse_v.Kernel.Calls.{Call, Digests, perform, perform_all}
use omniverse_v.Kernel.Create.{create, create_body, append_step, append_body}
use omniverse_v.Kernel.Lease.{lease_next, lease_body, reconcile_startup, reconcile_body}
use omniverse_v.Kernel.Checkpoints.{
  checkpoint_success, success_body, checkpoint_failure, failure_body, raise_exhausted,
}
use omniverse_v.Kernel.Partial.{checkpoint_partial, partial_body}
use omniverse_v.Kernel.Control.{
  request_cancel, request_cancel_body, cancel_at_safe_boundary, safe_boundary_body,
  record_target_outcome, record_outcome_body, finish_from_targets, finish_body, resume, resume_body,
}
use omniverse_v.Kernel.Retry.{retry, retry_body}
use omniverse_v.Kernel.Fencing.{fencing}
use omniverse_v.Kernel.Fencing.Operations.{fencing_operations}

create-fencing :
    (hash : ℕ) (c : CreateResearchRun) (key now : ℕ) → Respects fencing (create_body hash c key now)
create-fencing hash c key now = search fencing_operations depth 12

append_step-fencing :
    (run_id target_id : ℕ) (kind : StepKind) (key : StepKey)
    → Respects fencing (append_body run_id target_id kind key)
append_step-fencing run_id target_id kind key = search fencing_operations depth 16

lease_next-fencing :
    (owner now duration : ℕ) (scope : Option ℕ)
    → Respects fencing (lease_body owner now duration scope)
lease_next-fencing owner now duration none = search fencing_operations depth 16
lease_next-fencing owner now duration (some i) = search fencing_operations depth 16

reconcile_startup-fencing : (now : ℕ) → Respects fencing (reconcile_body now)
reconcile_startup-fencing now = search fencing_operations depth 12

checkpoint_success-fencing :
    (lease : StepLease) (key : ℕ) (refs : List String) (state : StepState) (now : ℕ)
    → Respects fencing (success_body lease key refs state now)
checkpoint_success-fencing lease key refs state now = search fencing_operations depth 16

checkpoint_failure-fencing :
    (lease : StepLease) (error : String) (retryable : Bool) (at : Option ℕ) (now : ℕ)
    → Respects fencing (failure_body lease error retryable at now)
checkpoint_failure-fencing lease error retryable at now = search fencing_operations depth 16

checkpoint_partial-fencing :
    (gap_of : ℕ → ℕ) (lease : StepLease) (error : String) (w : ℕ) (gap : Json) (now : ℕ)
    → Respects fencing (partial_body gap_of lease error w gap now)
checkpoint_partial-fencing gap_of lease error w gap now = search fencing_operations depth 16

request_cancel-fencing : (run_id now : ℕ) → Respects fencing (request_cancel_body run_id now)
request_cancel-fencing run_id now = search fencing_operations depth 16

cancel_at_safe_boundary-fencing :
    (lease : StepLease) (now : ℕ) → Respects fencing (safe_boundary_body lease now)
cancel_at_safe_boundary-fencing lease now = search fencing_operations depth 16

record_target_outcome-fencing :
    (run_id world_id : ℕ) (outcome : RunOutcome) (error : Option String) (now : ℕ)
    → Respects fencing (record_outcome_body run_id world_id outcome error now)
record_target_outcome-fencing run_id world_id outcome error now = search fencing_operations depth 16

finish_from_targets-fencing : (run_id now : ℕ) → Respects fencing (finish_body run_id now)
finish_from_targets-fencing run_id now = search fencing_operations depth 16

resume-fencing : (run_id : ℕ) → Respects fencing (resume_body run_id)
resume-fencing run_id = search fencing_operations depth 16

retry-fencing : (run_id now : ℕ) → Respects fencing (retry_body run_id now)
retry-fencing run_id now = search fencing_operations depth 20

raise_exhausted-state : (r : Result Bool × Store) → (raise_exhausted r).1 ≡ r.1
raise_exhausted-state (ok true, s) = refl
raise_exhausted-state (ok false, s) = refl
raise_exhausted-state (err e, s) = refl

pub perform-fencing : (d : Digests) (c : Call) (s : Store) → fencing.holds s (perform d c s)
unfolding perform create append_step lease_next reconcile_startup checkpoint_success
    checkpoint_failure checkpoint_partial request_cancel cancel_at_safe_boundary
    record_target_outcome finish_from_targets resume retry
perform-fencing d (Call.create c key now) s =
    transact_law fencing _ s (create-fencing (d.payload_hash c) c key now)
perform-fencing d (Call.append_step i j kind key) s =
    transact_law fencing _ s (append_step-fencing i j kind key)
perform-fencing d (Call.lease_next owner now duration scope) s =
    transact_law fencing _ s (lease_next-fencing owner now duration scope)
perform-fencing d (Call.reconcile_startup now) s =
    transact_law fencing _ s (reconcile_startup-fencing now)
perform-fencing d (Call.checkpoint_success lease key refs state now) s =
    transact_law fencing _ s (checkpoint_success-fencing lease key refs state now)
perform-fencing d (Call.checkpoint_failure lease error b at now) s =
    rw raise_exhausted-state
      (transact_law fencing _ s (checkpoint_failure-fencing lease error b at now))
perform-fencing d (Call.checkpoint_partial lease error w gap now) s =
    transact_law fencing _ s (checkpoint_partial-fencing d.gap_of lease error w gap now)
perform-fencing d (Call.request_cancel i now) s =
    transact_law fencing _ s (request_cancel-fencing i now)
perform-fencing d (Call.cancel_at_safe_boundary lease now) s =
    transact_law fencing _ s (cancel_at_safe_boundary-fencing lease now)
perform-fencing d (Call.record_target_outcome i w o e now) s =
    transact_law fencing _ s (record_target_outcome-fencing i w o e now)
perform-fencing d (Call.finish_from_targets i now) s =
    transact_law fencing _ s (finish_from_targets-fencing i now)
perform-fencing d (Call.resume i) s = transact_law fencing _ s (resume-fencing i)
perform-fencing d (Call.retry i now) s = transact_law fencing _ s (retry-fencing i now)
perform-fencing d (Call.write_workspaces rows) s = fencing.same s
perform-fencing d (Call.write_gaps rows) s = fencing.same s

pub perform_all-fencing :
    (d : Digests) (cs : List Call) (s : Store) → fencing.holds s (perform_all d cs s)
unfolding perform_all
perform_all-fencing d [] s = fencing.same s
perform_all-fencing d (c ∷ cs) s =
    fencing.chain s (perform d c s) (perform_all d cs (perform d c s)) (perform-fencing d c s)
      (perform_all-fencing d cs (perform d c s))
