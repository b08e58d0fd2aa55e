-- ===== src/Kernel/Retry.antt =====
-- `retry` of backend/app/v2/research_runs.py, up to the projection that it returns: a failed or
-- partial run goes back to work.
use omniverse_v.Prelude.{
  ℕ, suc, ◌+◌, Bool, true, false, not, ◌&&◌, ◌||◌, Option, none, some, List, [], ◌∷◌, ◌==◌, ltb,
  if◌then◌else◌, filter, any, length,
}
use omniverse_v.Domain.{
  RunOutcome, StepKind, step_kinds, same_status, pending, waiting_retry, cancelled, succeeded,
  failed, partial,
}
use omniverse_v.Kernel.Rows.{
  Run, RunTarget, RunStep, manual_retry, OutboxEvent, EffectKey, EventType, EventPayload,
}
use omniverse_v.Kernel.Tx.{
  Store, Tx, Result, not_retryable, no_steps_no_partial, assertion, illegal_transition, pure, gets,
  required, guard, transact, ◌>>=◌, ◌>>◌,
}
use omniverse_v.Kernel.Session.{
  new_id, require_run, get_target, set_run, set_step, set_target, update_steps, add_step, emit,
}
use omniverse_v.Kernel.Boundary.{targets_of, is_known}
use omniverse_v.Kernel.Create.{fresh_step, next_position}

abbrev pub is_partial : Option RunOutcome → Bool
is_partial (some partial) = true
is_partial _ = false

abbrev pub is_retryable : Run → Bool
is_retryable run =
    same_status run.status failed || (same_status run.status succeeded && is_partial run.outcome)

-- `retried_target_ids.add`.
abbrev pub add_id : ℕ → List ℕ → List ℕ
add_id i ids = if any (λ j. j == i) ids then ids else i ∷ ids

-- Cancelled steps behind `step` in its target return to the queue.
abbrev pub reactivate : RunStep → Tx (Unit {0})
reactivate step =
    update_steps
      (λ r.
        r.target_id == step.target_id
        && (ltb step.position r.position && same_status r.status cancelled))
      (λ r. record r { status = pending; error = none; retry_due_at = none })

-- One round of `for step in steps`.
unfoldable pub retry_step : ℕ → RunStep → Tx ℕ
retry_step now step = do
  set_step step.id (λ r. record r { status = waiting_retry; retry_due_at = some now })
  target_found ← gets (get_target step.target_id)
  target ← required target_found assertion
  set_target target.id (λ t. record t { outcome = none; error = none })
  reactivate step
  pure target.id

unfoldable pub retry_steps : ℕ → List RunStep → List ℕ → Tx (List ℕ)
unfolding retry_step
retry_steps now [] ids = pure ids
retry_steps now (step ∷ steps) ids = do
  i ← retry_step now step
  retry_steps now steps (add_id i ids)

unfoldable pub append_kind : ℕ → ℕ → ℕ → ℕ → StepKind → Tx (Unit {0})
append_kind run_id target_id start offset kind = do
  i ← new_id
  add_step (
      fresh_step i run_id target_id (manual_retry run_id target_id start kind) kind
        (start + offset))

-- `for offset, kind in enumerate(list(StepKind)[1:])`: a new round of the target's steps.
unfoldable pub append_round : ℕ → ℕ → ℕ → ℕ → List StepKind → Tx (Unit {0})
unfolding append_kind
append_round run_id target_id start offset [] = pure tt
append_round run_id target_id start offset (kind ∷ kinds) =
    append_kind run_id target_id start offset kind
    >> append_round run_id target_id start (suc offset) kinds

abbrev pub later_kinds : List StepKind → List StepKind
later_kinds [] = []
later_kinds (_ ∷ kinds) = kinds

unfoldable pub retry_target : ℕ → RunTarget → Tx (Unit {0})
unfolding append_round
retry_target run_id target = do
  set_target target.id (λ t. record t { outcome = none; error = none })
  start ← gets (λ s. next_position target.id s.steps)
  append_round run_id target.id start 0 (later_kinds step_kinds)

-- `for target in partial_targets`.
unfoldable pub retry_targets : ℕ → List RunTarget → List ℕ → Tx (List ℕ)
unfolding retry_target
retry_targets run_id [] ids = pure ids
retry_targets run_id (target ∷ targets) ids =
    if any (λ j. j == target.id) ids
    then retry_targets run_id targets ids
    else retry_target run_id target >> retry_targets run_id targets (target.id ∷ ids)

abbrev pub is_retry_event : ℕ → OutboxEvent → Bool
is_retry_event run_id e =
    e.run_id == run_id && elim e.event_type [ EventType.run_retried ↦ true | _ ↦ false ]

abbrev pub partial_targets : Run → Store → List RunTarget
partial_targets run s =
    if is_partial run.outcome then filter (is_known partial) (targets_of run.id s) else []

abbrev pub is_failed_step : ℕ → RunStep → Bool
is_failed_step run_id r = r.run_id == run_id && same_status r.status failed

abbrev pub is_empty {ℓ} : {A : Type ℓ} → List A → Bool
is_empty [] = true
is_empty (_ ∷ _) = false

abbrev pub retry_body : ℕ → ℕ → Tx (Unit {0})
retry_body run_id now = do
  run ← require_run run_id
  guard (is_retryable run) (illegal_transition "kernel" "retry" not_retryable)
  steps ← gets (λ s. filter (is_failed_step run_id) s.steps)
  targets ← gets (partial_targets run)
  guard (not (is_empty steps && is_empty targets))
      (illegal_transition "kernel" "retry" no_steps_no_partial)
  set_run run_id (λ r. record r { status = waiting_retry; outcome = none })
  retried ← retry_steps now steps []
  all_retried ← retry_targets run.id targets retried
  told ← gets (λ s. length (filter (is_retry_event run_id) s.events))
  emit run_id EventType.run_retried (EventPayload.target_count (length all_retried))
      (EffectKey.retry run_id (suc told)) now

unfoldable pub retry : ℕ → ℕ → Store → Result (Unit {0}) × Store
retry run_id now = transact (retry_body run_id now)
