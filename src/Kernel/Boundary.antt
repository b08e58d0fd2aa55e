-- ===== src/Kernel/Boundary.antt =====
-- `_validate_lease`, `_cancel_run_at_boundary` and `_aggregate_targets` of
-- backend/app/v2/research_runs.py: what the operations of the kernel share.
use omniverse_v.Prelude.{
  ℕ, Bool, true, false, not, ◌&&◌, ◌||◌, Option, none, some, List, [], ◌∷◌, ◌==◌, ltb,
  if◌then◌else◌, same_option, filter, any, all, is_some,
}
use omniverse_v.Domain.{
  RunStatus, RunOutcome, same_status, pending, running, waiting_retry, waiting_input, cancelled,
  succeeded, failed, complete, partial, outcome_failed, outcome_cancelled,
}
use omniverse_v.Kernel.Rows.{
  RunTarget, RunStep, StepAttempt, StepLease, known, unknown, EffectKey, EventType, EventPayload,
}
use omniverse_v.Kernel.Tx.{
  Store, Tx, Result, ok, err, lease_conflict, bad_outcome, pure, gets, guard, lift, required, when,
  ◌>>=◌, ◌>>◌,
}
use omniverse_v.Kernel.Session.{
  get_step, get_attempt, set_run, set_step, set_attempt, update_steps, emit, same_effect_key,
}

-- The disjunction of `_validate_lease`, negated: the step is still held under this lease.
abbrev pub holds : StepLease → ℕ → RunStep → Bool
holds lease now step =
    step.run_id == lease.run_id
    && (same_status step.status running
        && (same_option step.lease_owner (some lease.owner)
            && (step.attempt_count == lease.attempt_number
                && elim step.lease_expires_at [ none ↦ false | some t ↦ not (ltb t now) ])))

unfoldable pub validate_lease : StepLease → ℕ → Tx (RunStep × StepAttempt)
validate_lease lease now = do
  found ← gets (get_step lease.step_id)
  step ← required found lease_conflict
  guard (holds lease now step) lease_conflict
  record_found ← gets (get_attempt step.id lease.attempt_number)
  attempt ← required record_found lease_conflict
  pure (step, attempt)

abbrev pub is_waiting : RunStatus → Bool
is_waiting s = same_status s pending || (same_status s waiting_retry || same_status s waiting_input)

abbrev pub is_active_step : ℕ → RunStep → Bool
is_active_step run_id r = r.run_id == run_id && same_status r.status running

-- `_cancel_run_at_boundary`: this step and its attempt end, waiting steps of the run are
-- cancelled, and the run is when no other step is running.
unfoldable pub cancel_run_at_boundary : ℕ → ℕ → ℕ → ℕ → Tx (Unit {0})
cancel_run_at_boundary run_id step_id attempt_number now = do
  set_step step_id
      (λ r. record r { status = cancelled; lease_owner = none; lease_expires_at = none })
  set_attempt step_id attempt_number (λ r. record r { status = cancelled; finished_at = some now })
  update_steps (λ r. r.run_id == run_id && is_waiting r.status)
      (λ r. record r { status = cancelled })
  active ← gets (λ s. any (is_active_step run_id) s.steps)
  when (not active) (do
    set_run run_id (λ r. record r { status = cancelled; outcome = some outcome_cancelled })
    emit run_id EventType.run_cancelled EventPayload.empty (EffectKey.cancelled run_id) now)

abbrev pub is_known : RunOutcome → RunTarget → Bool
is_known complete t = elim t.outcome [ some (known complete) ↦ true | _ ↦ false ]
is_known partial t = elim t.outcome [ some (known partial) ↦ true | _ ↦ false ]
is_known outcome_failed t = elim t.outcome [ some (known outcome_failed) ↦ true | _ ↦ false ]
is_known outcome_cancelled t = elim t.outcome [ some (known outcome_cancelled) ↦ true | _ ↦ false ]

abbrev pub is_open : RunTarget → Bool
is_open t = not (is_some t.outcome)

abbrev pub is_unknown : RunTarget → Bool
is_unknown t = elim t.outcome [ some unknown ↦ true | _ ↦ false ]

-- The verdict of `_aggregate_targets` on the targets of one run: none if there is no target or one
-- has no outcome yet.
unfoldable pub verdict : List RunTarget → Result (Option (RunOutcome × RunStatus))
verdict [] = ok none
verdict (t ∷ ts) =
    if any is_open (t ∷ ts)
    then ok none
    else if any is_unknown (t ∷ ts)
    then err bad_outcome
    else if all (is_known complete) (t ∷ ts)
    then ok (some (complete, succeeded))
    else if all (is_known outcome_failed) (t ∷ ts)
    then ok (some (outcome_failed, failed))
    else ok (some (partial, succeeded))

abbrev pub targets_of : ℕ → Store → List RunTarget
targets_of run_id s = filter (λ (t : RunTarget). t.run_id == run_id) s.targets

-- The writes that end a run. The event is recorded once for each run.
unfoldable pub finish_run : ℕ → ℕ → RunOutcome × RunStatus → Tx (Unit {0})
finish_run run_id now (outcome, status) = do
  set_run run_id (λ r. record r { status = status; outcome = some outcome })
  told ← gets (λ s. any (λ e. same_effect_key e.effect_key (EffectKey.finished run_id)) s.events)
  when (not told) (
      emit run_id EventType.run_finished (EventPayload.outcome_of outcome)
        (EffectKey.finished run_id) now)

abbrev pub when_some : {A : Type 0} → Option A → (A → Tx (Unit {0})) → Tx (Unit {0})
when_some none f = pure tt
when_some (some a) f = f a

unfoldable pub aggregate_targets : ℕ → ℕ → Tx (Unit {0})
aggregate_targets run_id now = do
  targets ← gets (targets_of run_id)
  result ← lift (verdict targets)
  when_some result (finish_run run_id now)
