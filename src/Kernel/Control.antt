-- ===== src/Kernel/Control.antt =====
-- `request_cancel`, `cancel_at_safe_boundary`, `record_target_outcome`, `finish_from_targets` and
-- `resume` of backend/app/v2/research_runs.py, each up to the projection that it returns.
use omniverse_v.Prelude.{
  ℕ, Bool, true, false, not, ◌&&◌, ◌||◌, Option, some, List, [], ◌∷◌, ◌==◌, if◌then◌else◌, find,
  any, String,
}
use omniverse_v.Domain.{
  RunStatus, RunOutcome, completion, same_status, is_terminal, running, waiting_input, cancelling,
  cancelled, succeeded, failed, outcome_cancelled,
}
use omniverse_v.Kernel.Rows.{
  RunTarget, RunStep, StepLease, known, EffectKey, EventType, EventPayload,
}
use omniverse_v.Kernel.Tx.{
  Store, Tx, Result, terminal_state, not_cancelling, incomplete_targets, incomplete_steps,
  not_waiting_input, illegal_transition, lookup_failed, gets, required, guard, transact, ◌>>=◌,
  ◌>>◌,
}
use omniverse_v.Kernel.Session.{
  require_run, set_run, set_target, update_steps, emit, transition_run, kind_index,
}
use omniverse_v.Kernel.Boundary.{
  validate_lease, cancel_run_at_boundary, aggregate_targets, targets_of, is_open, is_active_step,
}

abbrev pub is_settled : RunStatus → Bool
is_settled s = same_status s succeeded || same_status s failed

-- With no running step the run and all its unsettled steps are cancelled at once.
abbrev pub cancel_now : ℕ → Tx (Unit {0})
cancel_now run_id = do
  set_run run_id (λ r. record r { status = cancelled; outcome = some outcome_cancelled })
  update_steps (λ r. r.run_id == run_id && not (is_settled r.status))
      (λ r. record r { status = cancelled })

abbrev pub request_cancel_body : ℕ → ℕ → Tx (Unit {0})
request_cancel_body run_id now = do
  run ← require_run run_id
  guard (not (is_terminal run.status)) (illegal_transition "kernel" "request_cancel" terminal_state)
  set_run run_id (λ r. record r { cancel_requested_at = some now })
  active ← gets (λ s. any (is_active_step run_id) s.steps)
  (if active then transition_run "unknown" "unknown" run_id cancelling else cancel_now run_id)
  emit run_id EventType.cancel_requested EventPayload.empty (EffectKey.cancel run_id) now

unfoldable pub request_cancel : ℕ → ℕ → Store → Result (Unit {0}) × Store
request_cancel run_id now = transact (request_cancel_body run_id now)

abbrev pub safe_boundary_body : StepLease → ℕ → Tx (Unit {0})
safe_boundary_body lease now = do
  (step, attempt) ← validate_lease lease now
  run ← require_run lease.run_id
  guard (same_status run.status cancelling)
      (illegal_transition "kernel" "cancel_at_safe_boundary" not_cancelling)
  cancel_run_at_boundary run.id step.id lease.attempt_number now

unfoldable pub cancel_at_safe_boundary : StepLease → ℕ → Store → Result (Unit {0}) × Store
cancel_at_safe_boundary lease now = transact (safe_boundary_body lease now)

abbrev pub record_outcome_body : ℕ → ℕ → RunOutcome → Option String → ℕ → Tx (Unit {0})
record_outcome_body run_id world_id outcome error now = do
  found ←
      gets (λ s. find (λ (t : RunTarget). t.run_id == run_id && t.world_id == world_id) s.targets)
  target ← required found lookup_failed
  set_target target.id (λ t. record t { outcome = some (known outcome); error = error })
  emit run_id EventType.target_finished (EventPayload.world_outcome world_id outcome error)
      (EffectKey.target_done run_id world_id) now

unfoldable pub record_target_outcome :
    ℕ → ℕ → RunOutcome → Option String → ℕ → Store → Result (Unit {0}) × Store
record_target_outcome run_id world_id outcome error now =
    transact (record_outcome_body run_id world_id outcome error now)

abbrev pub has_targets : List RunTarget → Bool
has_targets [] = false
has_targets (_ ∷ _) = true

-- A step of kind COMPLETE of the run that has not succeeded.
abbrev pub is_incomplete : ℕ → RunStep → Bool
is_incomplete run_id r =
    r.run_id == run_id
    && (kind_index r.kind == kind_index completion && not (same_status r.status succeeded))

abbrev pub finish_body : ℕ → ℕ → Tx (Unit {0})
finish_body run_id now = do
  run ← require_run run_id
  targets ← gets (targets_of run_id)
  guard (has_targets targets && not (any is_open targets))
      (illegal_transition "kernel" "finish_from_targets" incomplete_targets)
  incomplete ← gets (λ s. any (is_incomplete run_id) s.steps)
  guard (not incomplete) (illegal_transition "kernel" "finish_from_targets" incomplete_steps)
  aggregate_targets run.id now

unfoldable pub finish_from_targets : ℕ → ℕ → Store → Result (Unit {0}) × Store
finish_from_targets run_id now = transact (finish_body run_id now)

abbrev pub resume_body : ℕ → Tx (Unit {0})
resume_body run_id = do
  run ← require_run run_id
  guard (same_status run.status waiting_input)
      (illegal_transition "kernel" "resume" not_waiting_input)
  transition_run "unknown" "unknown" run_id running

unfoldable pub resume : ℕ → Store → Result (Unit {0}) × Store
resume run_id = transact (resume_body run_id)
