-- ===== src/Kernel/Create.antt =====
-- `create` and `append_step` of backend/app/v2/research_runs.py: the operations that add steps.
-- The hash of the command stands for the SHA-256 digest of its canonical JSON; it is a parameter.
use omniverse_v.Prelude.{
  ℕ, suc, not, is_some, ◌&&◌, none, List, [], ◌∷◌, ◌==◌, leb, if◌then◌else◌, find,
}
use omniverse_v.Domain.{StepKind, step_kinds, pending, is_terminal}
use omniverse_v.Kernel.Rows.{
  Run, RunStep, StepKey, created, TargetInput, CreateResearchRun, EffectKey, EventType,
  EventPayload,
}
use omniverse_v.Kernel.Tx.{
  Store, Tx, Result, idempotency_conflict, integrity, illegal_transition, terminal_state, pure,
  gets, guard, for_each, transact, case_option, ◌>>=◌, ◌>>◌,
}
use omniverse_v.Kernel.Session.{
  get_target, new_id, require_run, add_run, add_target, add_step, emit, same_step_key, kind_index,
}

-- A step as `RunStep(…)` makes it, with the defaults of its columns.
abbrev pub fresh_step : ℕ → ℕ → ℕ → StepKey → StepKind → ℕ → RunStep
fresh_step i run_id target_id key kind position = record {
  id = i;
  run_id = run_id;
  target_id = target_id;
  status = pending;
  idempotency_key = key;
  kind = kind;
  position = position;
  attempt_count = 0;
  lease_owner = none;
  lease_expires_at = none;
  retry_due_at = none;
  output_refs = [];
  error = none;
}

-- `for position, kind in enumerate(StepKind)`.
unfoldable pub add_step_kind : ℕ → ℕ → StepKind → Tx (Unit {0})
add_step_kind run_id target_id kind = do
  i ← new_id
  let position = kind_index kind
  add_step (fresh_step i run_id target_id (created run_id target_id position) kind position)

-- One round of `for target in command.targets`.
unfoldable pub add_run_target : ℕ → TargetInput → Tx (Unit {0})
unfolding add_step_kind
add_run_target run_id target = do
  target_id ← new_id
  add_target (record {
    id = target_id;
    run_id = run_id;
    world_id = target.world_id;
    objective = target.objective;
    scope = target.scope;
    outcome = none;
    error = none;
  })
  for_each step_kinds (add_step_kind run_id target_id)

-- A run as `Run(…)` makes it, with the defaults of its columns.
abbrev pub fresh_run : ℕ → ℕ → ℕ → ℕ → CreateResearchRun → Run
fresh_run i hash key now command = record {
  id = i;
  status = pending;
  idempotency_key = key;
  payload_hash = hash;
  objective = command.objective;
  scope = command.scope;
  max_attempts = command.max_attempts;
  outcome = none;
  cancel_requested_at = none;
  created_at = now;
}

-- The targets and steps of a new run, and the event that announces it.
unfoldable pub fill_run : ℕ → ℕ → ℕ → CreateResearchRun → Tx (Unit {0})
unfolding add_run_target
fill_run run_id hash now command = do
  for_each command.targets (add_run_target run_id)
  emit run_id EventType.run_was_created (EventPayload.hash hash) (EffectKey.run_created run_id) now

unfoldable pub new_run : ℕ → ℕ → ℕ → CreateResearchRun → Tx ℕ
unfolding fill_run
new_run hash key now command = do
  run_id ← new_id
  add_run (fresh_run run_id hash key now command)
  fill_run run_id hash now command
  pure run_id

abbrev pub reuse_run : ℕ → Run → Tx ℕ
reuse_run hash existing = do
  guard (existing.payload_hash == hash) idempotency_conflict
  pure existing.id

abbrev pub create_body : ℕ → CreateResearchRun → ℕ → ℕ → Tx ℕ
create_body hash command key now = do
  existing ← gets (λ s. find (λ (r : Run). r.idempotency_key == key) s.runs)
  case_option existing (new_run hash key now command) (reuse_run hash)

-- `create`, up to the projection of the run that it returns.
unfoldable pub create :
    (CreateResearchRun → ℕ) → CreateResearchRun → ℕ → ℕ → Store → Result ℕ × Store
create payload_hash command key now = transact (create_body (payload_hash command) command key now)

-- `select(func.max(RunStep.position)).where(RunStep.target_id == target_id)`, plus one.
unfoldable pub next_position : ℕ → List RunStep → ℕ
next_position target_id [] = 0
next_position target_id (r ∷ rs) =
    let rest = next_position target_id rs in
    if r.target_id == target_id
    then (if leb rest r.position then suc r.position else rest)
    else rest

abbrev pub reuse_step : ℕ → ℕ → StepKind → RunStep → Tx ℕ
reuse_step run_id target_id kind existing = do
  guard
      (existing.run_id == run_id
        && (existing.target_id == target_id && kind_index existing.kind == kind_index kind))
      idempotency_conflict
  pure existing.id

-- The row of the run exists, since `_run` has loaded it; that of the target is checked when the step is
-- inserted, by its foreign key.
abbrev pub new_step : ℕ → ℕ → StepKind → StepKey → Tx ℕ
new_step run_id target_id kind key = do
  run ← require_run run_id
  guard (not (is_terminal run.status)) (illegal_transition "manager" "append_step" terminal_state)
  position ← gets (λ s. next_position target_id s.steps)
  i ← new_id
  target ← gets (get_target target_id)
  guard (is_some target) integrity
  add_step (fresh_step i run_id target_id key kind position)
  pure i

abbrev pub append_body : ℕ → ℕ → StepKind → StepKey → Tx ℕ
append_body run_id target_id kind key = do
  existing ← gets (λ s. find (λ (r : RunStep). same_step_key r.idempotency_key key) s.steps)
  case_option existing (new_step run_id target_id kind key) (reuse_step run_id target_id kind)

-- `append_step`, up to the projection of the step that it returns.
unfoldable pub append_step : ℕ → ℕ → StepKind → StepKey → Store → Result ℕ × Store
append_step run_id target_id kind key = transact (append_body run_id target_id kind key)
