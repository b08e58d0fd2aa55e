-- ===== src/Kernel/Fencing/Operations.antt =====
-- Every operation of the kernel keeps the law of fencing.
use omniverse_v.Prelude.{ℕ, suc, List, [], ◌∷◌, Option, none, some, String, Bool, any, ◌==◌}
use omniverse_v.Domain.{StepKind, RunStatus, RunOutcome}
use omniverse_v.Kernel.Rows.{
  RunStep, Run, RunTarget, TargetInput, CreateResearchRun, StepLease, StepState, Json,
}
use omniverse_v.Kernel.Tx.{Tx}
use omniverse_v.Kernel.Respects.{Respects, Respects-if, Respects-pure, Respects-bind}
use omniverse_v.Kernel.Session.{require_run}
use omniverse_v.Kernel.Boundary.{
  validate_lease, cancel_run_at_boundary, aggregate_targets, finish_run, when_some,
}
use omniverse_v.Kernel.Create.{add_step_kind, add_run_target, fill_run, new_run}
use omniverse_v.Kernel.Lease.{grant, take_step, reclaim_step}
use omniverse_v.Kernel.Checkpoints.{succeed_step, fail_attempt, fail_step}
use omniverse_v.Kernel.Partial.{record_gap, part_step}
use omniverse_v.Kernel.Retry.{
  retry_step, retry_steps, append_kind, append_round, retry_target, retry_targets,
}
use omniverse_v.Kernel.Fencing
use omniverse_v.Kernel.Fencing.{fencing, fencing_writes}

pub require_run-fencing : (i : ℕ) → Respects fencing (require_run i)
unfolding require_run
require_run-fencing i = search fencing_writes

pub validate_lease-fencing :
    (lease : StepLease) (now : ℕ) → Respects fencing (validate_lease lease now)
unfolding validate_lease
validate_lease-fencing lease now = search fencing_writes depth 12

pub when_some-fencing :
    {A : Type 0} (o : Option A) (f : A → Tx (Unit {0}))
    → ((a : A) → Respects fencing (f a))
    → Respects fencing (when_some o f)
when_some-fencing none f h = Respects-pure tt
when_some-fencing (some a) f h = h a

pub cancel_run_at_boundary-fencing :
    (run_id step_id n now : ℕ) → Respects fencing (cancel_run_at_boundary run_id step_id n now)
unfolding cancel_run_at_boundary
cancel_run_at_boundary-fencing run_id step_id n now = search fencing_writes depth 16

pub finish_run-fencing :
    (run_id now : ℕ) (v : RunOutcome × RunStatus) → Respects fencing (finish_run run_id now v)
unfolding finish_run
finish_run-fencing run_id now (outcome, status) = search fencing_writes depth 12

pub aggregate_targets-fencing : (run_id now : ℕ) → Respects fencing (aggregate_targets run_id now)
unfolding aggregate_targets
aggregate_targets-fencing run_id now =
    search (fencing_writes, when_some-fencing, finish_run-fencing) depth 12

pub ruleset shared = (
  fencing_writes, require_run-fencing, validate_lease-fencing, cancel_run_at_boundary-fencing,
  aggregate_targets-fencing,
)

pub add_step_kind-fencing :
    (run_id target_id : ℕ) (kind : StepKind)
    → Respects fencing (add_step_kind run_id target_id kind)
unfolding add_step_kind
add_step_kind-fencing run_id target_id kind = search shared depth 12

pub add_run_target-fencing :
    (run_id : ℕ) (t : TargetInput) → Respects fencing (add_run_target run_id t)
unfolding add_run_target
add_run_target-fencing run_id t = search (shared, add_step_kind-fencing) depth 12

pub fill_run-fencing :
    (run_id hash now : ℕ) (c : CreateResearchRun) → Respects fencing (fill_run run_id hash now c)
unfolding fill_run
fill_run-fencing run_id hash now c = search (shared, add_run_target-fencing) depth 14

pub new_run-fencing :
    (hash key now : ℕ) (c : CreateResearchRun) → Respects fencing (new_run hash key now c)
unfolding new_run
new_run-fencing hash key now c = search (shared, fill_run-fencing) depth 14

pub grant-fencing :
    (owner now expires : ℕ) (step : RunStep) (run : Run)
    → Respects fencing (grant owner now expires step run)
unfolding grant
grant-fencing owner now expires step run = search shared depth 20

pub take_step-fencing :
    (owner now duration i : ℕ) → Respects fencing (take_step owner now duration i)
unfolding take_step
take_step-fencing owner now duration i = search (shared, grant-fencing) depth 20

pub reclaim_step-fencing : (now : ℕ) (r : RunStep) → Respects fencing (reclaim_step now r)
unfolding reclaim_step
reclaim_step-fencing now r = search shared depth 20

pub succeed_step-fencing :
    (step : RunStep) (n run_id key : ℕ) (refs : List String) (state : StepState) (now : ℕ)
    → Respects fencing (succeed_step step n run_id key refs state now)
unfolding succeed_step
succeed_step-fencing step n run_id key refs state now = search shared depth 30

pub fail_attempt-fencing :
    (i n : ℕ) (error : String) (now : ℕ) → Respects fencing (fail_attempt i n error now)
unfolding fail_attempt
fail_attempt-fencing i n error now = search shared depth 12

pub fail_step-fencing :
    (step : RunStep) (run : Run) (n : ℕ) (error : String) (retryable : Bool) (at : Option ℕ)
    (now : ℕ)
    → Respects fencing (fail_step step run n error retryable at now)
unfolding fail_step
fail_step-fencing step run n error retryable at now = search (shared, fail_attempt-fencing) depth 30

pub record_gap-fencing : (i g : ℕ) (gap : Json) → Respects fencing (record_gap i g gap)
unfolding record_gap
record_gap-fencing i g gap = search (shared, Fencing.untouched-fencing) depth 12

pub part_step-fencing :
    (gap_of : ℕ → ℕ) (step : RunStep) (run : Run) (n : ℕ) (error : String) (w : ℕ) (gap : Json)
    (now : ℕ)
    → Respects fencing (part_step gap_of step run n error w gap now)
unfolding part_step
part_step-fencing gap_of step run n error w gap now =
    search (shared, fail_attempt-fencing, record_gap-fencing) depth 30

pub retry_step-fencing : (now : ℕ) (r : RunStep) → Respects fencing (retry_step now r)
unfolding retry_step
retry_step-fencing now r = search shared depth 14

pub retry_steps-fencing :
    (now : ℕ) (rs : List RunStep) (ids : List ℕ) → Respects fencing (retry_steps now rs ids)
unfolding retry_steps
retry_steps-fencing now [] ids = Respects-pure ids
retry_steps-fencing now (r ∷ rs) ids =
    Respects-bind (retry_step now r) _ (retry_step-fencing now r)
      (λ i. retry_steps-fencing now rs _)

pub append_kind-fencing :
    (run_id target_id start offset : ℕ) (kind : StepKind)
    → Respects fencing (append_kind run_id target_id start offset kind)
unfolding append_kind
append_kind-fencing run_id target_id start offset kind = search shared depth 12

pub append_round-fencing :
    (run_id target_id start offset : ℕ) (kinds : List StepKind)
    → Respects fencing (append_round run_id target_id start offset kinds)
unfolding append_round
append_round-fencing run_id target_id start offset [] = Respects-pure tt
append_round-fencing run_id target_id start offset (k ∷ ks) =
    Respects-bind (append_kind run_id target_id start offset k) _
      (append_kind-fencing run_id target_id start offset k)
      (λ _. append_round-fencing run_id target_id start (suc offset) ks)

pub retry_target-fencing : (run_id : ℕ) (t : RunTarget) → Respects fencing (retry_target run_id t)
unfolding retry_target
retry_target-fencing run_id t = search (shared, append_round-fencing) depth 12

pub retry_targets-fencing :
    (run_id : ℕ) (ts : List RunTarget) (ids : List ℕ)
    → Respects fencing (retry_targets run_id ts ids)
unfolding retry_targets
retry_targets-fencing run_id [] ids = Respects-pure ids
retry_targets-fencing run_id (t ∷ ts) ids =
    Respects-if (any (λ j. j == t.id) ids) _ _ (retry_targets-fencing run_id ts ids) (
      Respects-bind (retry_target run_id t) _ (retry_target-fencing run_id t)
        (λ _. retry_targets-fencing run_id ts (t.id ∷ ids)))

pub ruleset fencing_operations = (
  shared, new_run-fencing, take_step-fencing, reclaim_step-fencing, succeed_step-fencing,
  fail_step-fencing, part_step-fencing, retry_steps-fencing, retry_targets-fencing,
)
