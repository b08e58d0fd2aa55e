-- ===== src/Kernel/Rows.antt =====
-- The rows that the kernel reads and writes (backend/app/v2/models.py) and the values that it
-- returns (backend/app/v2/contracts.py). Identifiers, owners and caller-chosen keys are numbers,
-- since the kernel only compares them; instants are numbers of one clock; a JSON value that the
-- kernel only stores is kept in its printed form.
use omniverse_v.Prelude.{ℕ, Bool, Option, String, List}
use omniverse_v.Domain.{RunStatus, RunOutcome, StepKind}

abbrev pub Json : Type 0
Json = String

-- What the column `run_target.outcome` holds. It is free text, and `unknown` stands for one that
-- is not empty and that no member of `RunOutcome` spells.
pub data OutcomeText : Type 0 where
  known : RunOutcome → OutcomeText
  unknown : OutcomeText

pub record Run : Type 0 where
  pub id : ℕ
  pub status : RunStatus
  pub idempotency_key : ℕ
  pub payload_hash : ℕ
  pub objective : String
  pub scope : Json
  pub max_attempts : ℕ
  pub outcome : Option RunOutcome
  pub cancel_requested_at : Option ℕ
  pub created_at : ℕ

pub record RunTarget : Type 0 where
  pub id : ℕ
  pub run_id : ℕ
  pub world_id : ℕ
  pub objective : String
  pub scope : Json
  pub outcome : Option OutcomeText
  pub error : Option String

-- The texts that the kernel builds for `run_step.idempotency_key`, and those that a caller gives.
pub data StepKey : Type 0 where
  created : ℕ → ℕ → ℕ → StepKey
  manual_retry : ℕ → ℕ → ℕ → StepKind → StepKey
  given : ℕ → StepKey

pub record RunStep : Type 0 where
  pub id : ℕ
  pub run_id : ℕ
  pub target_id : ℕ
  pub status : RunStatus
  pub idempotency_key : StepKey
  pub kind : StepKind
  pub position : ℕ
  pub attempt_count : ℕ
  pub lease_owner : Option ℕ
  pub lease_expires_at : Option ℕ
  pub retry_due_at : Option ℕ
  pub output_refs : List String
  pub error : Option String

pub record StepAttempt : Type 0 where
  pub id : ℕ
  pub step_id : ℕ
  pub attempt_number : ℕ
  pub status : RunStatus
  pub owner : ℕ
  pub lease_expires_at : ℕ
  pub started_at : ℕ
  pub finished_at : Option ℕ
  pub error : Option String

-- The state that a step reports at its end, as far as the kernel reads it: the truth value of
-- `continue_loop` and the text under `outcome`.
pub record StepState : Type 0 where
  pub continue_loop : Bool
  pub outcome : Option OutcomeText
  pub printed : Json

pub record Checkpoint : Type 0 where
  pub id : ℕ
  pub step_id : ℕ
  pub state : StepState
  pub effect_key : ℕ
  pub output_refs : List String
  pub created_at : ℕ

-- The texts that the kernel builds for `outbox_event.effect_key`; each has a prefix of its own.
pub data EffectKey : Type 0 where
  run_created cancel cancelled finished checkpoint : ℕ → EffectKey
  failure partial target_done retry : ℕ → ℕ → EffectKey

pub data EventPayload : Type 0 where
  empty : EventPayload
  hash : ℕ → EventPayload
  step_outputs : ℕ → List String → EventPayload
  step_error : ℕ → String → EventPayload
  step_gap : ℕ → String → ℕ → EventPayload
  world_outcome : ℕ → RunOutcome → Option String → EventPayload
  outcome_of : RunOutcome → EventPayload
  target_count : ℕ → EventPayload

pub data EventType : Type 0 where
  run_was_created step_succeeded step_failed step_partial : EventType
  cancel_requested run_cancelled run_finished run_retried target_finished : EventType

pub record OutboxEvent : Type 0 where
  pub id : ℕ
  pub run_id : ℕ
  pub event_type : EventType
  pub payload : EventPayload
  pub effect_key : EffectKey
  pub created_at : ℕ

pub data WorkspaceStatus : Type 0 where
  active_workspace partial_workspace : WorkspaceStatus

pub record ResearchWorkspace : Type 0 where
  pub id : ℕ
  pub target_id : ℕ
  pub status : WorkspaceStatus

pub record ResearchGap : Type 0 where
  pub id : ℕ
  pub workspace_id : ℕ
  pub gap : Json

pub record StepLease : Type 0 where
  pub step_id : ℕ
  pub run_id : ℕ
  pub target_id : ℕ
  pub world_id : ℕ
  pub kind : StepKind
  pub owner : ℕ
  pub attempt_number : ℕ
  pub lease_expires_at : ℕ

pub record TargetInput : Type 0 where
  pub world_id : ℕ
  pub objective : String
  pub scope : Json

pub record CreateResearchRun : Type 0 where
  pub objective : String
  pub scope : Json
  pub targets : List TargetInput
  pub max_attempts : ℕ
