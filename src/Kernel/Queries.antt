-- ===== src/Kernel/Queries.antt =====
-- The reads of ResearchRunKernel in backend/app/v2/research_runs.py: `get` and `events`, and the
-- projections that they return (backend/app/v2/contracts.py). Rows that a query does not order are
-- in the order of the table.
pub mod Complete
pub mod ReadOnly
use omniverse_v.Prelude.{
  ℕ, ◌≡◌, Bool, true, false, ◌&&◌, ◌||◌, Option, none, some, List, [], ◌∷◌, String, ◌==◌, leb, ltb,
  find, filter, any, sort_by, map,
}
use omniverse_v.Domain.{RunStatus, RunOutcome, StepKind}
use omniverse_v.Kernel.Rows.{
  Json, OutcomeText, known, unknown, Run, RunTarget, RunStep, StepAttempt, OutboxEvent, EventType,
  EventPayload,
}
use omniverse_v.Kernel.Tx.{
  Store, Result, ok, err, assertion, bad_outcome, run_not_found, Tx, ◌>>=◌, pure, raise, gets,
  required, transact,
}
use omniverse_v.Kernel.Session.{require_run, is_target}
use omniverse_v.Kernel.Boundary.{targets_of}

-- The constructor drops the objective and the scope that `get` passes.
pub record RunTargetProjection : Type 0 where
  pub id : ℕ
  pub world_id : ℕ
  pub outcome : Option RunOutcome
  pub error : Option String

pub record StepAttemptProjection : Type 0 where
  pub attempt_number : ℕ
  pub status : RunStatus
  pub owner : ℕ
  pub lease_expires_at : ℕ
  pub started_at : ℕ
  pub finished_at : Option ℕ
  pub error : Option String

pub record RunStepProjection : Type 0 where
  pub id : ℕ
  pub target_id : ℕ
  pub world_id : ℕ
  pub kind : StepKind
  pub position : ℕ
  pub status : RunStatus
  pub attempt_count : ℕ
  pub retry_due_at : Option ℕ
  pub output_refs : List String
  pub error : Option String
  pub attempts : List StepAttemptProjection

pub record RunProjection : Type 0 where
  pub id : ℕ
  pub status : RunStatus
  pub outcome : Option RunOutcome
  pub objective : String
  pub scope : Json
  pub cancel_requested_at : Option ℕ
  pub targets : List RunTargetProjection
  pub steps : List RunStepProjection

pub record RunEventProjection : Type 0 where
  pub id : ℕ
  pub event_type : EventType
  pub payload : EventPayload
  pub created_at : ℕ

-- `RunOutcome(target.outcome) if target.outcome else None`.
abbrev pub read_outcome : Option OutcomeText → Tx (Option RunOutcome)
read_outcome none = pure none
read_outcome (some (known outcome)) = pure (some outcome)
read_outcome (some unknown) = raise bad_outcome

unfoldable pub map_each : {A B : Type 0} → (A → Tx B) → List A → Tx (List B)
map_each f [] = pure []
map_each f (x ∷ xs) = do y ← f x; ys ← map_each f xs; pure (y ∷ ys)

abbrev pub project_target : RunTarget → Tx RunTargetProjection
project_target t = do
  outcome ← read_outcome t.outcome
  pure (record { id = t.id; world_id = t.world_id; outcome = outcome; error = t.error })

abbrev pub project_attempt : StepAttempt → StepAttemptProjection
project_attempt a = record {
  attempt_number = a.attempt_number;
  status = a.status;
  owner = a.owner;
  lease_expires_at = a.lease_expires_at;
  started_at = a.started_at;
  finished_at = a.finished_at;
  error = a.error;
}

abbrev pub project_step : List RunTarget → List StepAttempt → RunStep → Tx RunStepProjection
project_step targets attempts r = do
  target ← required (find (is_target r.target_id) targets) assertion
  pure (record {
    id = r.id;
    target_id = r.target_id;
    world_id = target.world_id;
    kind = r.kind;
    position = r.position;
    status = r.status;
    attempt_count = r.attempt_count;
    retry_due_at = r.retry_due_at;
    output_refs = r.output_refs;
    error = r.error;
    attempts = map project_attempt (filter (λ (a : StepAttempt). a.step_id == r.id) attempts);
  })

abbrev pub steps_of : ℕ → Store → List RunStep
steps_of run_id s = filter (λ (r : RunStep). r.run_id == run_id) s.steps

-- The join of attempts with the steps of a run.
abbrev pub attempts_of : ℕ → Store → List StepAttempt
attempts_of run_id s =
    filter (λ (a : StepAttempt). any (λ (r : RunStep). r.id == a.step_id) (steps_of run_id s))
      s.attempts

abbrev pub attempt_order : StepAttempt → StepAttempt → Bool
attempt_order a b =
    ltb a.step_id b.step_id || (a.step_id == b.step_id && leb a.attempt_number b.attempt_number)

abbrev pub get_body : ℕ → Tx RunProjection
get_body run_id = do
  run ← require_run run_id
  targets ← gets (λ s. sort_by (λ a b. leb a.world_id b.world_id) (targets_of run_id s))
  steps ← gets (λ s. sort_by (λ a b. leb a.position b.position) (steps_of run_id s))
  attempts ← gets (λ s. sort_by attempt_order (attempts_of run_id s))
  shown_targets ← map_each project_target targets
  shown_steps ← map_each (project_step targets attempts) steps
  pure (record {
    id = run.id;
    status = run.status;
    outcome = run.outcome;
    objective = run.objective;
    scope = run.scope;
    cancel_requested_at = run.cancel_requested_at;
    targets = shown_targets;
    steps = shown_steps;
  })

unfoldable pub get : ℕ → Store → Result RunProjection × Store
get run_id = transact (get_body run_id)

abbrev pub project_event : OutboxEvent → RunEventProjection
project_event e = record {
  id = e.id;
  event_type = e.event_type;
  payload = e.payload;
  created_at = e.created_at;
}

abbrev pub event_order : OutboxEvent → OutboxEvent → Bool
event_order a b = ltb a.created_at b.created_at || (a.created_at == b.created_at && leb a.id b.id)

abbrev pub events_of : ℕ → Store → List OutboxEvent
events_of run_id s = filter (λ (e : OutboxEvent). e.run_id == run_id) s.events

abbrev pub events_body : ℕ → Tx (List RunEventProjection)
events_body run_id = do
  run ← require_run run_id
  rows ← gets (λ s. sort_by event_order (events_of run_id s))
  pure (map project_event rows)

unfoldable pub events : ℕ → Store → Result (List RunEventProjection) × Store
events run_id = transact (events_body run_id)
