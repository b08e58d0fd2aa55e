-- ===== src/Kernel/Consistent/Histories.antt =====
-- Consistency over each call of the kernel, and over every history.
use omniverse_v.Prelude.{ℕ, ◌≡◌, Bool, Option, none, some, List, [], ◌∷◌, String, refl, true, false}
use omniverse_v.Domain.{RunOutcome, StepKind}
use omniverse_v.Kernel.Rows.{Json, StepKey, StepLease, StepState, CreateResearchRun}
use omniverse_v.Kernel.Tx.{Store, Result, ok, err}
use omniverse_v.Kernel.Respects.{Respects, transact_law}
use omniverse_v.Kernel.Calls.{Call, Digests, perform, perform_all}
use omniverse_v.Kernel.Create.{create, create_body, append_step, append_body}
use omniverse_v.Kernel.Lease.{lease_next, lease_body, reconcile_startup, reconcile_body}
use omniverse_v.Kernel.Checkpoints.{
  checkpoint_success, success_body, checkpoint_failure, failure_body, raise_exhausted,
}
use omniverse_v.Kernel.Partial.{checkpoint_partial, partial_body}
use omniverse_v.Kernel.Control.{
  request_cancel, request_cancel_body, cancel_at_safe_boundary, safe_boundary_body,
  record_target_outcome, record_outcome_body, finish_from_targets, finish_body, resume, resume_body,
}
use omniverse_v.Kernel.Retry.{retry, retry_body}
use omniverse_v.Kernel.Consistent.{consistency}
use omniverse_v.Kernel.Consistent.Operations.{consistency_operations}

create-consistency :
    (hash : ℕ) (c : CreateResearchRun) (key now : ℕ)
    → Respects consistency (create_body hash c key now)
create-consistency hash c key now = search consistency_operations depth 12

append_step-consistency :
    (run_id target_id : ℕ) (kind : StepKind) (key : StepKey)
    → Respects consistency (append_body run_id target_id kind key)
append_step-consistency run_id target_id kind key = search consistency_operations depth 16

lease_next-consistency :
    (owner now duration : ℕ) (scope : Option ℕ)
    → Respects consistency (lease_body owner now duration scope)
lease_next-consistency owner now duration none = search consistency_operations depth 16
lease_next-consistency owner now duration (some i) = search consistency_operations depth 16

reconcile_startup-consistency : (now : ℕ) → Respects consistency (reconcile_body now)
reconcile_startup-consistency now = search consistency_operations depth 12

checkpoint_success-consistency :
    (lease : StepLease) (key : ℕ) (refs : List String) (state : StepState) (now : ℕ)
    → Respects consistency (success_body lease key refs state now)
checkpoint_success-consistency lease key refs state now = search consistency_operations depth 16

checkpoint_failure-consistency :
    (lease : StepLease) (error : String) (retryable : Bool) (at : Option ℕ) (now : ℕ)
    → Respects consistency (failure_body lease error retryable at now)
checkpoint_failure-consistency lease error retryable at now = search consistency_operations depth 16

checkpoint_partial-consistency :
    (gap_of : ℕ → ℕ) (lease : StepLease) (error : String) (w : ℕ) (gap : Json) (now : ℕ)
    → Respects consistency (partial_body gap_of lease error w gap now)
checkpoint_partial-consistency gap_of lease error w gap now = search consistency_operations depth 16

request_cancel-consistency :
    (run_id now : ℕ) → Respects consistency (request_cancel_body run_id now)
request_cancel-consistency run_id now = search consistency_operations depth 16

cancel_at_safe_boundary-consistency :
    (lease : StepLease) (now : ℕ) → Respects consistency (safe_boundary_body lease now)
cancel_at_safe_boundary-consistency lease now = search consistency_operations depth 16

record_target_outcome-consistency :
    (run_id world_id : ℕ) (outcome : RunOutcome) (error : Option String) (now : ℕ)
    → Respects consistency (record_outcome_body run_id world_id outcome error now)
record_target_outcome-consistency run_id world_id outcome error now =
    search consistency_operations depth 16

finish_from_targets-consistency : (run_id now : ℕ) → Respects consistency (finish_body run_id now)
finish_from_targets-consistency run_id now = search consistency_operations depth 16

resume-consistency : (run_id : ℕ) → Respects consistency (resume_body run_id)
resume-consistency run_id = search consistency_operations depth 16

retry-consistency : (run_id now : ℕ) → Respects consistency (retry_body run_id now)
retry-consistency run_id now = search consistency_operations depth 20

raise_exhausted-state : (r : Result Bool × Store) → (raise_exhausted r).1 ≡ r.1
raise_exhausted-state (ok true, s) = refl
raise_exhausted-state (ok false, s) = refl
raise_exhausted-state (err e, s) = refl

perform-consistency : (d : Digests) (c : Call) (s : Store) → consistency.holds s (perform d c s)
unfolding perform create append_step lease_next reconcile_startup checkpoint_success
    checkpoint_failure checkpoint_partial request_cancel cancel_at_safe_boundary
    record_target_outcome finish_from_targets resume retry
perform-consistency d (Call.create c key now) s =
    transact_law consistency _ s (create-consistency (d.payload_hash c) c key now)
perform-consistency d (Call.append_step i j kind key) s =
    transact_law consistency _ s (append_step-consistency i j kind key)
perform-consistency d (Call.lease_next owner now duration scope) s =
    transact_law consistency _ s (lease_next-consistency owner now duration scope)
perform-consistency d (Call.reconcile_startup now) s =
    transact_law consistency _ s (reconcile_startup-consistency now)
perform-consistency d (Call.checkpoint_success lease key refs state now) s =
    transact_law consistency _ s (checkpoint_success-consistency lease key refs state now)
perform-consistency d (Call.checkpoint_failure lease error b at now) s =
    rw raise_exhausted-state
      (transact_law consistency _ s (checkpoint_failure-consistency lease error b at now))
perform-consistency d (Call.checkpoint_partial lease error w gap now) s =
    transact_law consistency _ s (checkpoint_partial-consistency d.gap_of lease error w gap now)
perform-consistency d (Call.request_cancel i now) s =
    transact_law consistency _ s (request_cancel-consistency i now)
perform-consistency d (Call.cancel_at_safe_boundary lease now) s =
    transact_law consistency _ s (cancel_at_safe_boundary-consistency lease now)
perform-consistency d (Call.record_target_outcome i w o e now) s =
    transact_law consistency _ s (record_target_outcome-consistency i w o e now)
perform-consistency d (Call.finish_from_targets i now) s =
    transact_law consistency _ s (finish_from_targets-consistency i now)
perform-consistency d (Call.resume i) s = transact_law consistency _ s (resume-consistency i)
perform-consistency d (Call.retry i now) s = transact_law consistency _ s (retry-consistency i now)
perform-consistency d (Call.write_workspaces rows) s =
    λ h. record { runs = h.runs; steps = h.steps }
perform-consistency d (Call.write_gaps rows) s = λ h. record { runs = h.runs; steps = h.steps }

pub perform_all-consistency :
    (d : Digests) (cs : List Call) (s : Store) → consistency.holds s (perform_all d cs s)
unfolding perform_all
perform_all-consistency d [] s = consistency.same s
perform_all-consistency d (c ∷ cs) s =
    consistency.chain s (perform d c s) (perform_all d cs (perform d c s))
      (perform-consistency d c s) (perform_all-consistency d cs (perform d c s))
