-- ===== src/Kernel/Checkpoints.antt =====
-- `checkpoint_success`, `checkpoint_failure` and `checkpoint_partial` of
-- backend/app/v2/research_runs.py: how a worker reports the end of a leased step.
use omniverse_v.Prelude.{
  ℕ, Bool, true, false, not, ◌&&◌, Option, none, some, List, ◌==◌, ltb, if◌then◌else◌, find, String,
}
use omniverse_v.Domain.{
  completion, same_status, pending, waiting_retry, cancelling, cancelled, succeeded, failed,
  complete, outcome_failed,
}
use omniverse_v.Kernel.Rows.{
  Run, RunStep, StepLease, StepState, Checkpoint, OutcomeText, known, EffectKey, EventType,
  EventPayload,
}
use omniverse_v.Kernel.Tx.{
  Store, Tx, Result, ok, err, assertion, missing_retry_due, retry_limit, pure, gets, required, when,
  transact, case_option, ◌>>=◌, ◌>>◌,
}
use omniverse_v.Kernel.Session.{
  new_id, get_run, get_target, set_target, set_attempt, update_steps, add_checkpoint, emit,
  transition_run, transition_step, kind_index,
}
use omniverse_v.Kernel.Boundary.{validate_lease, cancel_run_at_boundary, aggregate_targets}

-- The outcome that a final state gives its target.
abbrev pub outcome_of_state : StepState → OutcomeText
outcome_of_state state = elim state.outcome [ none ↦ known complete | some o ↦ o ]

abbrev pub ends_target : RunStep → StepState → Bool
ends_target step state = kind_index step.kind == kind_index completion && not state.continue_loop

abbrev pub record_completion : ℕ → ℕ → OutcomeText → ℕ → Tx (Unit {0})
record_completion run_id target_id outcome now = do
  target_found ← gets (get_target target_id)
  target ← required target_found assertion
  set_target target.id (λ t. record t { outcome = some outcome; error = none })
  aggregate_targets run_id now

pub record CheckpointProjection : Type 0 where
  pub id : ℕ
  pub step_id : ℕ
  pub effect_key : ℕ

abbrev pub project_checkpoint : Checkpoint → CheckpointProjection
project_checkpoint c = record { id = c.id; step_id = c.step_id; effect_key = c.effect_key }

-- The part of `checkpoint_success` after its guards.
unfoldable pub succeed_step :
    RunStep → ℕ → ℕ → ℕ → List String → StepState → ℕ → Tx (Option CheckpointProjection)
succeed_step step attempt_number run_id effect_key output_refs state now = do
  i ← new_id
  add_checkpoint (record {
    id = i;
    step_id = step.id;
    state = state;
    effect_key = effect_key;
    output_refs = output_refs;
    created_at = now;
  })
  transition_step "manager" "checkpoint_success" step.id succeeded
      (λ r. record r { output_refs = output_refs; lease_owner = none; lease_expires_at = none })
  set_attempt step.id attempt_number (λ r. record r { status = succeeded; finished_at = some now })
  when (ends_target step state)
      (record_completion run_id step.target_id (outcome_of_state state) now)
  emit step.run_id EventType.step_succeeded (EventPayload.step_outputs step.id output_refs)
      (EffectKey.checkpoint effect_key) now
  pure (some (record { id = i; step_id = step.id; effect_key = effect_key }))

-- `if RunStatus(run.status) is RunStatus.CANCELLING: …; return`, else the rest.
abbrev pub unless_cancelling : {A : Type 0} → StepLease → ℕ → A → (RunStep → Run → Tx A) → Tx A
unless_cancelling lease now stopped k = do
  (step, attempt) ← validate_lease lease now
  run_found ← gets (get_run step.run_id)
  run ← required run_found assertion
  if same_status run.status cancelling
      then (do cancel_run_at_boundary run.id step.id lease.attempt_number now; pure stopped)
      else k step run

abbrev pub by_effect_key : ℕ → Store → Option Checkpoint
by_effect_key key s = find (λ (c : Checkpoint). c.effect_key == key) s.checkpoints

abbrev pub success_body :
    StepLease → ℕ → List String → StepState → ℕ → Tx (Option CheckpointProjection)
success_body lease effect_key output_refs state now = do
  existing ← gets (by_effect_key effect_key)
  case_option existing
      (unless_cancelling lease now none (λ step run.
        succeed_step step lease.attempt_number run.id effect_key output_refs state now))
      (λ c. pure (some (project_checkpoint c)))

-- The result is the checkpoint's projection, or none where the run was being cancelled.
unfoldable pub checkpoint_success :
    StepLease
    → ℕ
    → List String
    → StepState
    → ℕ
    → Store
    → Result (Option CheckpointProjection) × Store
checkpoint_success lease effect_key output_refs state now =
    transact (success_body lease effect_key output_refs state now)

-- The attempt ends in failure.
unfoldable pub fail_attempt : ℕ → ℕ → String → ℕ → Tx (Unit {0})
fail_attempt step_id attempt_number error now =
    set_attempt step_id attempt_number
      (λ r. record r { status = failed; finished_at = some now; error = some error })

-- The step keeps the error and loses its lease.
abbrev pub drop_lease : String → RunStep → RunStep
drop_lease error r = record r { error = some error; lease_owner = none; lease_expires_at = none }

abbrev pub schedule_retry : RunStep → Run → String → Option ℕ → Tx Bool
schedule_retry step run error retry_at = do
  due ← required retry_at missing_retry_due
  transition_step "unknown" "unknown" step.id waiting_retry
      (λ r. record (drop_lease error r) { retry_due_at = some due })
  transition_run "unknown" "unknown" run.id waiting_retry
  pure false

-- Ends the step's target with an outcome and cancels what the target still had to do.
abbrev pub close_target : RunStep → ℕ → OutcomeText → String → (RunStep → Bool) → ℕ → Tx (Unit {0})
close_target step run_id outcome error unfinished now = do
  target_found ← gets (get_target step.target_id)
  target ← required target_found assertion
  set_target target.id (λ t. record t { outcome = some outcome; error = some error })
  update_steps (λ r. r.target_id == step.target_id && unfinished r)
      (λ r. record r { status = cancelled })
  aggregate_targets run_id now

abbrev pub give_up : RunStep → Run → String → Bool → ℕ → Tx Bool
give_up step run error retryable now = do
  transition_step "unknown" "unknown" step.id failed (drop_lease error)
  close_target step run.id (known outcome_failed) error (λ r. same_status r.status pending) now
  pure retryable

-- The part of `checkpoint_failure` after its guards; the result says whether the retries are
-- exhausted.
unfoldable pub fail_step : RunStep → Run → ℕ → String → Bool → Option ℕ → ℕ → Tx Bool
fail_step step run attempt_number error retryable retry_at now = do
  fail_attempt step.id attempt_number error now
  exhausted ←
      (if retryable && ltb step.attempt_count run.max_attempts
        then schedule_retry step run error retry_at
        else give_up step run error retryable now)
  emit run.id EventType.step_failed (EventPayload.step_error step.id error)
      (EffectKey.failure step.id step.attempt_count) now
  pure exhausted

abbrev pub failure_body : StepLease → String → Bool → Option ℕ → ℕ → Tx Bool
failure_body lease error retryable retry_at now =
    unless_cancelling lease now false
      (λ step run. fail_step step run lease.attempt_number error retryable retry_at now)

-- `if exhausted: raise RetryLimitError`, after the transaction has committed.
abbrev pub raise_exhausted : Result Bool × Store → Result (Unit {0}) × Store
raise_exhausted (ok true, s) = (err retry_limit, s)
raise_exhausted (ok false, s) = (ok tt, s)
raise_exhausted (err e, s) = (err e, s)

unfoldable pub checkpoint_failure :
    StepLease → String → Bool → Option ℕ → ℕ → Store → Result (Unit {0}) × Store
checkpoint_failure lease error retryable retry_at now s =
    raise_exhausted (transact (failure_body lease error retryable retry_at now) s)
