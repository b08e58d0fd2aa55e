-- ===== src/Kernel/Session.antt =====
-- Reads and writes of single tables: the queries and the constraints of the schema
-- (backend/app/v2/models.py), and the helpers `_id`, `_transition`, `_run` and `_event` of
-- backend/app/v2/research_runs.py.
use omniverse_v.Prelude.{
  ℕ, suc, Bool, false, not, ◌&&◌, ◌||◌, Option, [], ◌∷◌, ◌++◌, String, ◌==◌, if◌then◌else◌, find,
  any, modify_first, update_where,
}
use omniverse_v.Domain.{
  RunStatus, StepKind, same_status, legal_transition, inventory, plan, scout, acquire, extract,
  synthesize, audit, integrate, summarize, completion,
}
use omniverse_v.Kernel.Rows.{
  Run, RunTarget, RunStep, StepAttempt, Checkpoint, OutboxEvent, StepKey, created, manual_retry,
  given, EffectKey, EventType, EventPayload,
}
use omniverse_v.Kernel.Tx.{
  Store, Tx, integrity, run_not_found, illegal_transition, from_to, pure, gets, modify, guard,
  required, ◌>>=◌, ◌>>◌,
}

-- Row tests.
abbrev pub is_run : ℕ → Run → Bool
is_run i r = r.id == i

abbrev pub is_step : ℕ → RunStep → Bool
is_step i r = r.id == i

abbrev pub is_target : ℕ → RunTarget → Bool
is_target i r = r.id == i

abbrev pub is_attempt : ℕ → ℕ → StepAttempt → Bool
is_attempt i n r = r.step_id == i && r.attempt_number == n

abbrev pub kind_index : StepKind → ℕ
kind_index inventory = 0
kind_index plan = 1
kind_index scout = 2
kind_index acquire = 3
kind_index extract = 4
kind_index synthesize = 5
kind_index audit = 6
kind_index integrate = 7
kind_index summarize = 8
kind_index completion = 9

abbrev pub same_step_key : StepKey → StepKey → Bool
same_step_key (created a b c) (created x y z) = a == x && (b == y && c == z)
same_step_key (manual_retry a b c k) (manual_retry x y z l) =
    a == x && (b == y && (c == z && kind_index k == kind_index l))
same_step_key (given a) (given x) = a == x
same_step_key _ _ = false

abbrev pub same_effect_key : EffectKey → EffectKey → Bool
same_effect_key (EffectKey.run_created a) (EffectKey.run_created x) = a == x
same_effect_key (EffectKey.cancel a) (EffectKey.cancel x) = a == x
same_effect_key (EffectKey.cancelled a) (EffectKey.cancelled x) = a == x
same_effect_key (EffectKey.finished a) (EffectKey.finished x) = a == x
same_effect_key (EffectKey.checkpoint a) (EffectKey.checkpoint x) = a == x
same_effect_key (EffectKey.failure a b) (EffectKey.failure x y) = a == x && b == y
same_effect_key (EffectKey.partial a b) (EffectKey.partial x y) = a == x && b == y
same_effect_key (EffectKey.target_done a b) (EffectKey.target_done x y) = a == x && b == y
same_effect_key (EffectKey.retry a b) (EffectKey.retry x y) = a == x && b == y
same_effect_key _ _ = false

-- `_id`: the next value of `uuid4`.
unfoldable pub new_id : Tx ℕ
new_id = do i ← gets (λ s. s.uuids s.drawn); modify (λ s. record s { drawn = suc s.drawn }); pure i

-- `session.get` on the tables that are read by primary key.
abbrev pub get_run : ℕ → Store → Option Run
get_run i s = find (is_run i) s.runs

abbrev pub get_step : ℕ → Store → Option RunStep
get_step i s = find (is_step i) s.steps

abbrev pub get_target : ℕ → Store → Option RunTarget
get_target i s = find (is_target i) s.targets

abbrev pub get_attempt : ℕ → ℕ → Store → Option StepAttempt
get_attempt i n s = find (is_attempt i n) s.attempts

-- `_run`.
unfoldable pub require_run : ℕ → Tx Run
require_run i = do found ← gets (get_run i); required found run_not_found

-- Writes to the attributes of a loaded row.
unfoldable pub set_run : ℕ → (Run → Run) → Tx (Unit {0})
set_run i f = modify (λ s. record s { runs = modify_first (is_run i) f s.runs })

unfoldable pub set_step : ℕ → (RunStep → RunStep) → Tx (Unit {0})
set_step i f = modify (λ s. record s { steps = modify_first (is_step i) f s.steps })

unfoldable pub set_target : ℕ → (RunTarget → RunTarget) → Tx (Unit {0})
set_target i f = modify (λ s. record s { targets = modify_first (is_target i) f s.targets })

unfoldable pub set_attempt : ℕ → ℕ → (StepAttempt → StepAttempt) → Tx (Unit {0})
set_attempt i n f = modify (λ s. record s { attempts = modify_first (is_attempt i n) f s.attempts })

-- `session.query(RunStep).filter(…).update(…)`.
unfoldable pub update_steps : (RunStep → Bool) → (RunStep → RunStep) → Tx (Unit {0})
update_steps p f = modify (λ s. record s { steps = update_where p f s.steps })

-- Inserts, with the unique columns of each table.
unfoldable pub add_run : Run → Tx (Unit {0})
add_run r = do
  clash ←
      gets (λ s. any (λ (q : Run). q.id == r.id || q.idempotency_key == r.idempotency_key) s.runs)
  guard (not clash) integrity
  modify (λ s. record s { runs = s.runs ++ r ∷ [] })

unfoldable pub add_target : RunTarget → Tx (Unit {0})
add_target r = do
  clash ← gets (λ s.
      any (λ (q : RunTarget). q.id == r.id || (q.run_id == r.run_id && q.world_id == r.world_id))
        s.targets)
  guard (not clash) integrity
  modify (λ s. record s { targets = s.targets ++ r ∷ [] })

unfoldable pub add_step : RunStep → Tx (Unit {0})
add_step r = do
  clash ← gets (λ s.
      any
        (λ (q : RunStep).
          q.id == r.id
          || (same_step_key q.idempotency_key r.idempotency_key
              || (q.target_id == r.target_id && q.position == r.position)))
        s.steps)
  guard (not clash) integrity
  modify (λ s. record s { steps = s.steps ++ r ∷ [] })

abbrev pub attempt_clash : StepAttempt → StepAttempt → Bool
attempt_clash r q = q.id == r.id || (q.step_id == r.step_id && q.attempt_number == r.attempt_number)

unfoldable pub add_attempt : StepAttempt → Tx (Unit {0})
add_attempt r = do
  clash ← gets (λ s. any (attempt_clash r) s.attempts)
  guard (not clash) integrity
  modify (λ s. record s { attempts = s.attempts ++ r ∷ [] })

unfoldable pub add_checkpoint : Checkpoint → Tx (Unit {0})
add_checkpoint r = do
  clash ←
      gets
        (λ s. any (λ (q : Checkpoint). q.id == r.id || q.effect_key == r.effect_key) s.checkpoints)
  guard (not clash) integrity
  modify (λ s. record s { checkpoints = s.checkpoints ++ r ∷ [] })

unfoldable pub add_event : OutboxEvent → Tx (Unit {0})
add_event r = do
  clash ← gets (λ s.
      any (λ (q : OutboxEvent). q.id == r.id || same_effect_key q.effect_key r.effect_key) s.events)
  guard (not clash) integrity
  modify (λ s. record s { events = s.events ++ r ∷ [] })

-- `_event`, and each `session.add(OutboxEvent(…))`.
unfoldable pub emit : ℕ → EventType → EventPayload → EffectKey → ℕ → Tx (Unit {0})
emit run_id kind payload key now = do
  i ← new_id
  add_event (record {
    id = i;
    run_id = run_id;
    event_type = kind;
    payload = payload;
    effect_key = key;
    created_at = now;
  })

-- `_transition` on a run: nothing changes if the status is already the target.
unfoldable pub transition_run : String → String → ℕ → RunStatus → Tx (Unit {0})
transition_run agent name i target = do
  found ← gets (get_run i)
  row ← required found run_not_found
  if same_status row.status target then pure tt else (do
    guard (legal_transition row.status target)
        (illegal_transition agent name (from_to row.status target))
    set_run i (λ r. record r { status = target }))

-- `_transition` on a step; a status that is the target already is written once more. `also` is what
-- the caller assigns to the same step beside its status.
unfoldable pub transition_step :
    String → String → ℕ → RunStatus → (RunStep → RunStep) → Tx (Unit {0})
transition_step agent name i target also = do
  found ← gets (get_step i)
  row ← required found run_not_found
  guard (same_status row.status target || legal_transition row.status target)
      (illegal_transition agent name (from_to row.status target))
  set_step i (λ r. record (also r) { status = target })
