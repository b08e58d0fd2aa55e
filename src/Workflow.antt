-- ===== src/Workflow.antt =====
-- `run_next` of ResearchWorkflow in backend/app/v2/workflow.py: how a leased step is carried out and
-- how its end is reported to the kernel. The handlers of the steps are a parameter: what one ends
-- with, and the steps that it appends and the workspaces and gaps that it leaves. Texts that name things are numbers, as in the kernel.
pub mod Histories
pub mod Tests
use omniverse_v.Prelude.{
  ℕ, zero, suc, ◌+◌, Bool, true, false, not, ◌&&◌, Option, none, some, List, [], ◌∷◌, String, ltb,
  is_some, if◌then◌else◌,
}
use omniverse_v.Domain.{RunStatus, StepKind, cancelling, same_status}
use omniverse_v.Kernel.Rows.{
  Json, Run, ResearchGap, ResearchWorkspace, StepKey, StepLease, StepState,
}
use omniverse_v.Kernel.Tx.{Store, Error, Result, ok, err, lookup_failed}
use omniverse_v.Kernel.Session.{get_run}
use omniverse_v.Kernel.Create
use omniverse_v.Kernel.Lease.{lease_next}
use omniverse_v.Kernel.Checkpoints.{CheckpointProjection, checkpoint_success, checkpoint_failure}
use omniverse_v.Kernel.Partial.{checkpoint_partial}
use omniverse_v.Kernel.Control.{cancel_at_safe_boundary}
use omniverse_v.Kernel.Queries.{RunProjection, get}
use omniverse_v.Router.{
  ErrorClass, auth, rate_limit, transient, capability, context, input, internal,
}

-- The exceptions that `run_next` tells apart, with their printed form. `other_failure` is any
-- exception but these, one of the kernel included.
pub data Failure : Type 0 where
  provider_failure : ErrorClass → Option ℕ → String → Failure
  structured_output_failure agent_output_failure other_failure : String → Failure
  simulated_crash : Failure

pub data Executed : Type 0 where
  finished : List String → StepState → Executed
  failed_with : Failure → Executed

-- What a workflow is built with, and the texts that it makes of identifiers.
pub record Setup : Type 0 where
  pub owner : ℕ
  pub crash_after_effect_for : StepKind → Bool
  pub effect_key : ℕ → ℕ
  pub workspace_id : ℕ → ℕ
  pub gap_of : ℕ → ℕ
  pub gap : StepLease → Failure → Json
  pub printed : Error → String

-- What a handler does to the tables of the kernel: the calls of `kernel.append_step` and the rows of
-- workspaces and of gaps, in transactions of their own.
pub data Effect : Type 0 where
  append_step : ℕ → ℕ → StepKind → StepKey → Effect
  write_workspaces : List ResearchWorkspace → Effect
  write_gaps : List ResearchGap → Effect

unfoldable pub apply_effect : Effect → Store → Store
apply_effect (append_step run_id target_id kind key) s =
    (Create.append_step run_id target_id kind key s).1
apply_effect (write_workspaces rows) s = record s { workspaces = rows }
apply_effect (write_gaps rows) s = record s { gaps = rows }

unfoldable pub apply_effects : List Effect → Store → Store
apply_effects [] s = s
apply_effects (effect ∷ effects) s = apply_effects effects (apply_effect effect s)

-- How a step's handler ends, and what it has done before that, in order.
abbrev pub Handlers : Type 0
Handlers = StepLease → Store → Executed × List Effect

-- The readings of the clock in one call, in their order.
pub record Instants : Type 0 where
  pub leased_at : ℕ
  pub reported_at : ℕ
  pub retry_from : ℕ
  pub failed_at : ℕ

-- How a call ends: it returns, an exception of the kernel or the database leaves it, or the
-- simulated crash does.
pub data Ended : Type 0 where
  returned : Bool → Ended
  raised : Error → Ended
  crashed : Ended

abbrev pub proceed : {A : Type 0} → Result A × Store → (A → Store → Ended × Store) → Ended × Store
proceed (ok a, s) f = f a s
proceed (err e, s) f = (raised e, s)

-- `timedelta(minutes=10)`, in seconds.
abbrev pub lease_duration : ℕ
lease_duration = 600

abbrev pub is_transient : Failure → Bool
is_transient (provider_failure rate_limit after text) = true
is_transient (provider_failure transient after text) = true
is_transient _ = false

abbrev pub is_recoverable : Failure → Bool
is_recoverable (provider_failure k after text) = true
is_recoverable (structured_output_failure text) = true
is_recoverable (agent_output_failure text) = true
is_recoverable _ = false

-- `message`.
abbrev pub describe : Failure → String
describe (provider_failure k after text) = text
describe (structured_output_failure text) = text
describe (agent_output_failure text) = text
describe (other_failure text) = text
describe simulated_crash = ""

-- `error.retry_after or 30`: an absent delay and one of zero are thirty seconds.
abbrev pub or_thirty : Option ℕ → ℕ
or_thirty none = 30
or_thirty (some zero) = 30
or_thirty (some (suc n)) = suc n

abbrev pub retry_delay : Failure → ℕ
retry_delay (provider_failure k after text) = or_thirty after
retry_delay _ = 30

-- `_max_attempts`.
abbrev pub max_attempts : StepLease → Store → Result ℕ
max_attempts lease s = elim (get_run lease.run_id s) [
  | none ↦ err lookup_failed
  | some run ↦ ok run.max_attempts
]

-- `retryable`. The run is looked up only for a transient failure.
unfoldable pub retryable : StepLease → Failure → Store → Result Bool
retryable lease f s =
    if is_transient f
    then (elim (max_attempts lease s) [ err e ↦ err e | ok n ↦ ok (ltb lease.attempt_number n) ])
    else ok false

abbrev pub returns_true : Unit {0} → Store → Ended × Store
returns_true _ s = (returned true, s)

-- The report of a failure once it is known whether it may be retried.
unfoldable pub report_failure :
    Setup → Instants → StepLease → Failure → Bool → Store → Ended × Store
report_failure w ts lease f again s =
    if is_recoverable f && not again
    then proceed
        (checkpoint_partial w.gap_of lease (describe f) (w.workspace_id lease.target_id)
          (w.gap lease f) ts.failed_at s)
        returns_true
    else proceed
        (checkpoint_failure lease (describe f) again
          (if again then some (ts.retry_from + retry_delay f) else none) ts.failed_at s)
        returns_true

abbrev pub report : Setup → Instants → StepLease → Failure → Store → Ended × Store
report w ts lease f s = proceed (retryable lease f s, s) (report_failure w ts lease f)

-- The handler of exceptions.
unfoldable pub handle : Setup → Instants → StepLease → Failure → Store → Ended × Store
unfolding retryable report_failure
handle w ts lease simulated_crash s = (crashed, s)
handle w ts lease f s = report w ts lease f s

-- A checkpoint that the kernel refuses is a failure of the step.
abbrev pub after_success :
    Setup → Instants → StepLease → Result (Option CheckpointProjection) × Store → Ended × Store
after_success w ts lease (ok _, s) = (returned true, s)
after_success w ts lease (err e, s) = handle w ts lease (other_failure (w.printed e)) s

abbrev pub after_execution : Setup → Instants → StepLease → Executed → Store → Ended × Store
after_execution w ts lease (failed_with f) s = handle w ts lease f s
after_execution w ts lease (finished refs state) s =
    if w.crash_after_effect_for lease.kind
    then handle w ts lease simulated_crash s
    else after_success w ts lease
        (checkpoint_success lease (w.effect_key lease.step_id) refs state ts.reported_at s)

-- `_execute`, with what the step's handler does to the kernel's tables.
unfoldable pub carry_out : Setup → Handlers → Instants → StepLease → Store → Ended × Store
unfolding handle apply_effects
carry_out w handlers ts lease s =
    let (executed, effects) = handlers lease s in
    after_execution w ts lease executed (apply_effects effects s)

-- The run may have been asked to cancel before the lease was taken.
abbrev pub after_lease : Setup → Handlers → Instants → ℕ → Option StepLease → Store → Ended × Store
after_lease w handlers ts run_id none s = (returned false, s)
after_lease w handlers ts run_id (some lease) s = proceed (get run_id s) λ now t.
    if same_status now.status cancelling
    then proceed (cancel_at_safe_boundary lease ts.reported_at t) returns_true
    else carry_out w handlers ts lease t

unfoldable pub run_next : Setup → Handlers → Instants → ℕ → Store → Ended × Store
unfolding carry_out
run_next w handlers ts run_id s = proceed (get run_id s) λ before t.
    if is_some before.outcome
    then (returned false, t)
    else proceed (lease_next w.owner ts.leased_at lease_duration (some run_id) t)
        (after_lease w handlers ts run_id)
