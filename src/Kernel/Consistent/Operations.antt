-- ===== src/Kernel/Consistent/Operations.antt =====
-- Every operation of the kernel keeps runs and steps consistent.
use omniverse_v.Prelude.{
  ℕ, suc, ◌≤◌, ◌≡◌, List, [], ◌∷◌, Option, none, some, arith, String, Bool, true, any, ◌==◌,
}
use omniverse_v.Domain.{StepKind, RunStatus, RunOutcome}
use omniverse_v.Kernel.Rows.{
  RunStep, Run, RunTarget, TargetInput, CreateResearchRun, StepLease, StepState, Json,
}
use omniverse_v.Kernel.Tx.{Tx, ok, gets}
use omniverse_v.Kernel.Respects.{
  Respects, Respects-gets, Respects-lift-bind, Respects-if, Respects-pure, Respects-bind,
}
use omniverse_v.Kernel.Session.{require_run}
use omniverse_v.Kernel.Boundary.{
  validate_lease, cancel_run_at_boundary, aggregate_targets, finish_run, when_some, verdict,
  targets_of,
}
use omniverse_v.Kernel.Create.{add_step_kind, add_run_target, fill_run, new_run}
use omniverse_v.Kernel.Lease.{grant, take_step, reclaim_step}
use omniverse_v.Kernel.Checkpoints.{succeed_step, fail_attempt, fail_step}
use omniverse_v.Kernel.Partial.{record_gap, part_step}
use omniverse_v.Kernel.Retry.{
  retry_step, retry_steps, append_kind, append_round, retry_target, retry_targets,
}
use omniverse_v.Kernel.Consistent.{
  consistency, consistency_writes, fits, StepFits, untouched-consistency, RunFits,
}

pub require_run-consistency : (i : ℕ) → Respects consistency (require_run i)
unfolding require_run
require_run-consistency i = search consistency_writes

pub validate_lease-consistency :
    (lease : StepLease) (now : ℕ) → Respects consistency (validate_lease lease now)
unfolding validate_lease
validate_lease-consistency lease now = search consistency_writes depth 12

-- The verdict on the targets of a run gives an outcome that fits the status it gives.
verdict-fits :
    (ts : List RunTarget) (v : RunOutcome × RunStatus)
    → verdict ts ≡ ok (some v)
    → fits v.1 (some v.0) ≡ true
unfolding verdict
verdict-fits [] v e = cc
verdict-fits (t ∷ ts) v e = ground arith

pub when_some-consistency :
    {A : Type 0} (o : Option A) (f : A → Tx (Unit {0}))
    → ((a : A) → Respects consistency (f a))
    → Respects consistency (when_some o f)
when_some-consistency none f h = Respects-pure tt
when_some-consistency (some a) f h = h a

pub cancel_run_at_boundary-consistency :
    (run_id step_id n now : ℕ) → Respects consistency (cancel_run_at_boundary run_id step_id n now)
unfolding cancel_run_at_boundary
cancel_run_at_boundary-consistency run_id step_id n now = search consistency_writes depth 16

pub finish_run-consistency :
    (run_id now : ℕ) (v : RunOutcome × RunStatus)
    → fits v.1 (some v.0) ≡ true
    → Respects consistency (finish_run run_id now v)
unfolding finish_run
finish_run-consistency run_id now (outcome, status) k =
    search (consistency_writes, λ (r : Run) (h : RunFits r). k) depth 12

finish-verdict :
    (run_id now : ℕ) (o : Option (RunOutcome × RunStatus)) (ts : List RunTarget)
    → verdict ts ≡ ok o
    → Respects consistency (when_some o (finish_run run_id now))
finish-verdict run_id now none ts e = Respects-pure tt
finish-verdict run_id now (some v) ts e = finish_run-consistency run_id now v (verdict-fits ts v e)

pub aggregate_targets-consistency :
    (run_id now : ℕ) → Respects consistency (aggregate_targets run_id now)
unfolding aggregate_targets
aggregate_targets-consistency run_id now =
    Respects-bind (gets (targets_of run_id)) _ (Respects-gets (targets_of run_id))
      (λ ts. Respects-lift-bind (verdict ts) _ (λ o e. finish-verdict run_id now o ts e))

pub ruleset shared = (
  consistency_writes, require_run-consistency, validate_lease-consistency,
  cancel_run_at_boundary-consistency, aggregate_targets-consistency,
)

pub add_step_kind-consistency :
    (run_id target_id : ℕ) (kind : StepKind)
    → Respects consistency (add_step_kind run_id target_id kind)
unfolding add_step_kind
add_step_kind-consistency run_id target_id kind = search shared depth 12

pub add_run_target-consistency :
    (run_id : ℕ) (t : TargetInput) → Respects consistency (add_run_target run_id t)
unfolding add_run_target
add_run_target-consistency run_id t = search (shared, add_step_kind-consistency) depth 12

pub fill_run-consistency :
    (run_id hash now : ℕ) (c : CreateResearchRun)
    → Respects consistency (fill_run run_id hash now c)
unfolding fill_run
fill_run-consistency run_id hash now c = search (shared, add_run_target-consistency) depth 14

pub new_run-consistency :
    (hash key now : ℕ) (c : CreateResearchRun) → Respects consistency (new_run hash key now c)
unfolding new_run
new_run-consistency hash key now c = search (shared, fill_run-consistency) depth 14

leased : (n : ℕ) → 1 ≤ suc n
leased n = omega arith

pub grant-consistency :
    (owner now expires : ℕ) (step : RunStep) (run : Run)
    → Respects consistency (grant owner now expires step run)
unfolding grant
grant-consistency owner now expires step run = search shared depth 20

pub take_step-consistency :
    (owner now duration i : ℕ) → Respects consistency (take_step owner now duration i)
unfolding take_step
take_step-consistency owner now duration i = search (shared, grant-consistency, leased) depth 20

pub reclaim_step-consistency : (now : ℕ) (r : RunStep) → Respects consistency (reclaim_step now r)
unfolding reclaim_step
reclaim_step-consistency now r = search shared depth 20

pub succeed_step-consistency :
    (step : RunStep) (n run_id key : ℕ) (refs : List String) (state : StepState) (now : ℕ)
    → Respects consistency (succeed_step step n run_id key refs state now)
unfolding succeed_step
succeed_step-consistency step n run_id key refs state now = search shared depth 30

pub fail_attempt-consistency :
    (i n : ℕ) (error : String) (now : ℕ) → Respects consistency (fail_attempt i n error now)
unfolding fail_attempt
fail_attempt-consistency i n error now = search shared depth 12

pub fail_step-consistency :
    (step : RunStep) (run : Run) (n : ℕ) (error : String) (retryable : Bool) (at : Option ℕ)
    (now : ℕ)
    → Respects consistency (fail_step step run n error retryable at now)
unfolding fail_step
fail_step-consistency step run n error retryable at now =
    search (shared, fail_attempt-consistency) depth 30

pub record_gap-consistency : (i g : ℕ) (gap : Json) → Respects consistency (record_gap i g gap)
unfolding record_gap
record_gap-consistency i g gap = search (shared, untouched-consistency) depth 12

pub part_step-consistency :
    (gap_of : ℕ → ℕ) (step : RunStep) (run : Run) (n : ℕ) (error : String) (w : ℕ) (gap : Json)
    (now : ℕ)
    → Respects consistency (part_step gap_of step run n error w gap now)
unfolding part_step
part_step-consistency gap_of step run n error w gap now =
    search (shared, fail_attempt-consistency, record_gap-consistency) depth 30

pub retry_step-consistency : (now : ℕ) (r : RunStep) → Respects consistency (retry_step now r)
unfolding retry_step
retry_step-consistency now r = search shared depth 14

pub retry_steps-consistency :
    (now : ℕ) (rs : List RunStep) (ids : List ℕ) → Respects consistency (retry_steps now rs ids)
unfolding retry_steps
retry_steps-consistency now [] ids = Respects-pure ids
retry_steps-consistency now (r ∷ rs) ids =
    Respects-bind (retry_step now r) _ (retry_step-consistency now r)
      (λ i. retry_steps-consistency now rs _)

pub append_kind-consistency :
    (run_id target_id start offset : ℕ) (kind : StepKind)
    → Respects consistency (append_kind run_id target_id start offset kind)
unfolding append_kind
append_kind-consistency run_id target_id start offset kind = search shared depth 12

pub append_round-consistency :
    (run_id target_id start offset : ℕ) (kinds : List StepKind)
    → Respects consistency (append_round run_id target_id start offset kinds)
unfolding append_round
append_round-consistency run_id target_id start offset [] = Respects-pure tt
append_round-consistency run_id target_id start offset (k ∷ ks) =
    Respects-bind (append_kind run_id target_id start offset k) _
      (append_kind-consistency run_id target_id start offset k)
      (λ _. append_round-consistency run_id target_id start (suc offset) ks)

pub retry_target-consistency :
    (run_id : ℕ) (t : RunTarget) → Respects consistency (retry_target run_id t)
unfolding retry_target
retry_target-consistency run_id t = search (shared, append_round-consistency) depth 12

pub retry_targets-consistency :
    (run_id : ℕ) (ts : List RunTarget) (ids : List ℕ)
    → Respects consistency (retry_targets run_id ts ids)
unfolding retry_targets
retry_targets-consistency run_id [] ids = Respects-pure ids
retry_targets-consistency run_id (t ∷ ts) ids =
    Respects-if (any (λ j. j == t.id) ids) _ _ (retry_targets-consistency run_id ts ids) (
      Respects-bind (retry_target run_id t) _ (retry_target-consistency run_id t)
        (λ _. retry_targets-consistency run_id ts (t.id ∷ ids)))

pub ruleset consistency_operations = (
  shared, new_run-consistency, take_step-consistency, reclaim_step-consistency,
  succeed_step-consistency, fail_step-consistency, part_step-consistency, retry_steps-consistency,
  retry_targets-consistency,
)
