-- ===== src/Kernel/Lease.antt =====
-- `lease_next` and `reconcile_startup` of backend/app/v2/research_runs.py: how a worker takes a
-- step, and how an expired lease is taken back.
use omniverse_v.Prelude.{
  ℕ, suc, ◌+◌, Bool, true, false, not, ◌&&◌, ◌||◌, Option, none, some, List, [], ◌∷◌, ◌==◌, leb,
  ltb, if◌then◌else◌, find, filter, any, sort_by, is_some, String, length,
}
use omniverse_v.Domain.{
  RunStatus, same_status, pending, running, waiting_retry, cancelling, succeeded, failed,
}
use omniverse_v.Kernel.Rows.{Run, RunStep, RunTarget, StepAttempt, StepLease}
use omniverse_v.Kernel.Tx.{
  Store, Tx, Result, assertion, lease_conflict, pure, raise, gets, required, guard, when, for_each,
  transact, case_option, ◌>>=◌, ◌>>◌,
}
use omniverse_v.Kernel.Session.{
  new_id, get_run, get_target, get_attempt, get_step, set_step, set_attempt, add_attempt,
  transition_run, transition_step,
}
use omniverse_v.Kernel.Boundary.{cancel_run_at_boundary, is_active_step}

-- A row of the join of `run_step` and `run`: the run's age, and the step.
pub record Candidate : Type 0 where
  pub created_at : ℕ
  pub step : RunStep

abbrev pub is_runnable : RunStatus → Bool
is_runnable s = same_status s pending || (same_status s running || same_status s waiting_retry)

abbrev pub is_due : ℕ → RunStep → Bool
is_due now r =
    same_status r.status pending
    || (same_status r.status waiting_retry
        && elim r.retry_due_at [ none ↦ false | some t ↦ leb t now ])

abbrev pub in_scope : Option ℕ → RunStep → Bool
in_scope none r = true
in_scope (some run_id) r = r.run_id == run_id

abbrev pub qualifies : ℕ → Option ℕ → Run → RunStep → Bool
qualifies now scope run r = is_runnable run.status && (is_due now r && in_scope scope r)

-- The WHERE clause of the query.
unfoldable pub candidates : ℕ → Option ℕ → Store → List RunStep → List Candidate
candidates now scope s [] = []
candidates now scope s (r ∷ rs) =
    let rest = candidates now scope s rs in
    elim (get_run r.run_id s) [
      | none ↦ rest
      | some run ↦
          if qualifies now scope run r
          then record { created_at = run.created_at; step = r } ∷ rest
          else rest
    ]

-- ORDER BY run.created_at, run_step.position, run_step.target_id.
abbrev pub before : Candidate → Candidate → Bool
before a b =
    ltb a.created_at b.created_at
    || (a.created_at == b.created_at
        && (ltb a.step.position b.step.position
            || (a.step.position == b.step.position && leb a.step.target_id b.step.target_id)))

-- A step before `r` in its target that has not succeeded.
abbrev pub blocks : RunStep → RunStep → Bool
blocks r q =
    q.target_id == r.target_id
    && (ltb q.position r.position && not (same_status q.status succeeded))

abbrev pub is_ready : Store → Candidate → Bool
is_ready s c = c.step.position == 0 || not (any (blocks c.step) s.steps)

unfoldable pub next_candidate : ℕ → Option ℕ → Store → Option Candidate
unfolding candidates
next_candidate now scope s = find (is_ready s) (sort_by before (candidates now scope s s.steps))

-- The attempt that a lease opens.
abbrev pub open_attempt : ℕ → ℕ → ℕ → ℕ → ℕ → ℕ → StepAttempt
open_attempt i step_id number owner expires now = record {
  id = i;
  step_id = step_id;
  attempt_number = number;
  status = running;
  owner = owner;
  lease_expires_at = expires;
  started_at = now;
  finished_at = none;
  error = none;
}

-- The StepLease that `lease_next` builds.
abbrev pub lease_on : ℕ → ℕ → RunStep → RunTarget → StepLease
lease_on owner expires step target = record {
  step_id = step.id;
  run_id = step.run_id;
  target_id = step.target_id;
  world_id = target.world_id;
  kind = step.kind;
  owner = owner;
  attempt_number = suc step.attempt_count;
  lease_expires_at = expires;
}

unfoldable pub answer : ℕ → ℕ → RunStep → Tx (Option StepLease)
answer owner expires step = do
  target_found ← gets (get_target step.target_id)
  target ← required target_found assertion
  pure (some (lease_on owner expires step target))

abbrev pub is_idle : Run → Bool
is_idle run = same_status run.status pending || same_status run.status waiting_retry

-- The writes of `lease_next` beside those on the step, and the lease that it returns.
unfoldable pub grant : ℕ → ℕ → ℕ → RunStep → Run → Tx (Option StepLease)
unfolding answer
grant owner now expires step run = do
  when (is_idle run) (transition_run "unknown" "unknown" run.id running)
  i ← new_id
  add_attempt (open_attempt i step.id (suc step.attempt_count) owner expires now)
  answer owner expires step

-- The attributes of a step that is leased, beside its status.
abbrev pub lease_to : ℕ → ℕ → RunStep → RunStep
lease_to owner expires r = record r {
  attempt_count = suc r.attempt_count;
  lease_owner = some owner;
  lease_expires_at = some expires;
  retry_due_at = none;
}

-- What `lease_next` does with the row that it takes, which is loaded by its primary key.
unfoldable pub take_step : ℕ → ℕ → ℕ → ℕ → Tx (Option StepLease)
unfolding grant
take_step owner now duration step_id = do
  step_found ← gets (get_step step_id)
  step ← required step_found assertion
  run_found ← gets (get_run step.run_id)
  run ← required run_found assertion
  transition_step "unknown" "unknown" step_id running (lease_to owner (now + duration))
  grant owner now (now + duration) step run

-- With no candidate, a run that was asked for and still has a running step is a conflict.
abbrev pub nothing_to_take : Option ℕ → Tx (Option StepLease)
nothing_to_take none = pure none
nothing_to_take (some run_id) = do
  active ← gets (λ s. any (is_active_step run_id) s.steps)
  if active then raise lease_conflict else pure none

abbrev pub lease_body : ℕ → ℕ → ℕ → Option ℕ → Tx (Option StepLease)
lease_body owner now duration scope = do
  chosen ← gets (next_candidate now scope)
  case_option chosen (nothing_to_take scope) (λ c. take_step owner now duration c.step.id)

unfoldable pub lease_next : ℕ → ℕ → ℕ → Option ℕ → Store → Result (Option StepLease) × Store
lease_next owner now duration scope = transact (lease_body owner now duration scope)

abbrev pub is_expired : ℕ → RunStep → Bool
is_expired now r =
    same_status r.status running && elim r.lease_expires_at [ none ↦ false | some t ↦ ltb t now ]

abbrev pub lease_expired : String
lease_expired = "lease_expired"

-- A step whose run goes on returns to the queue, and its attempt is recorded as failed.
abbrev pub release_step : ℕ → RunStep → Option StepAttempt → Tx (Unit {0})
release_step now step attempt = do
  when (is_some attempt) (
      set_attempt step.id step.attempt_count
        (λ r. record r { status = failed; error = some lease_expired; finished_at = some now }))
  set_step step.id (λ r. record r { status = pending; lease_owner = none; lease_expires_at = none })

-- One round of the loop of `reconcile_startup`.
unfoldable pub reclaim_step : ℕ → RunStep → Tx (Unit {0})
reclaim_step now step = do
  attempt ← gets (get_attempt step.id step.attempt_count)
  run_found ← gets (get_run step.run_id)
  run ← required run_found assertion
  if same_status run.status cancelling
      then (do
        guard (is_some attempt) assertion
        cancel_run_at_boundary run.id step.id step.attempt_count now)
      else release_step now step attempt

abbrev pub reconcile_body : ℕ → Tx ℕ
reconcile_body now = do
  expired ← gets (λ s. filter (is_expired now) s.steps)
  for_each expired (reclaim_step now)
  pure (length expired)

unfoldable pub reconcile_startup : ℕ → Store → Result ℕ × Store
reconcile_startup now = transact (reconcile_body now)
