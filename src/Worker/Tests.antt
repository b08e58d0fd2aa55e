-- ===== src/Worker/Tests.antt =====
-- The worker on a run whose first step fails for good.
use omniverse_v.Prelude.{ℕ, suc, ◌≤◌, ◌≡◌, refl, ◌∙◌, ap, arith, Bool, true, none, some, [], ◌∷◌}
use omniverse_v.Kernel.Rows.{Run}
use omniverse_v.Kernel.Tx.{Store}
use omniverse_v.Workflow.{run_next}
use omniverse_v.Workflow.Tests.{setup, failing, instants, payload_hash, one_run}
use omniverse_v.Kernel.Calls.{perform_all, perform}
use omniverse_v.Prelude.{find, sort_by, filter, any, modify_first, update_where, insert_by, all}
use omniverse_v.Kernel.Lease.{lease_next, next_candidate, candidates, grant, take_step, answer}
use omniverse_v.Kernel.Tx.{
  transact, ◌>>=◌, for_each, gets, guard, lift, modify, pure, raise, required,
}
use omniverse_v.Kernel.Create.{
  append_step, next_position, create, new_run, fill_run, add_run_target, add_step_kind,
}
use omniverse_v.Kernel.Session.{
  new_id, add_run, add_target, add_step, emit, add_attempt, add_event, require_run, set_run,
  set_step, set_attempt, transition_run, transition_step, update_steps, set_target,
}
use omniverse_v.Domain.{legal_transition, failed, outcome_failed}
use omniverse_v.Kernel.Boundary.{aggregate_targets, finish_run, validate_lease, verdict}
use omniverse_v.Workflow.{apply_effect, carry_out, handle, report_failure, retryable, run_next}
use omniverse_v.Kernel.Checkpoints.{checkpoint_failure, fail_attempt, fail_step}
use omniverse_v.Kernel.Queries.{get, map_each}
use omniverse_v.Kernel.Control.{finish_from_targets}
use omniverse_v.Worker.{
  Outside, State, Round, Loop, completed, worked, count_if, next_run, work_on, run_until_idle,
  index_of, choose, unfinished_ids,
}
use omniverse_v.Worker.Rounds.{run_until_idle_bounds}
use omniverse_v.Worker.Turns.{Distinct, turns, turns_fair}

abbrev outside : Outside
outside = record { instants = instants; handlers = failing }

abbrev begun : Loop
begun = record { state = record { store = one_run; cursor = none }; last_reclaim = 0 }

abbrev first_round : Round
first_round = record { elapsed_at = 1; reclaimed_at = 1; now = 10; outside = outside }

abbrev after_round : Loop
after_round = record {
  state = record { store = (run_next setup failing instants 0 one_run).1; cursor = some 0 };
  last_reclaim = 0;
}

three_runs : Distinct (4 ∷ 5 ∷ 6 ∷ [])
unfolding index_of
three_runs = (refl, (refl, (refl, tt)))

turns_fair_example : (k : ℕ) × (k ≤ 3) × (turns k (4 ∷ 5 ∷ 6 ∷ []) (some 6) ≡ some 5)
turns_fair_example = turns_fair (4 ∷ 5 ∷ 6 ∷ []) 2 1 three_runs (omega arith) (omega arith)

-- The database after the call of the workflow, whose step has failed for good.
abbrev failed_store : Store
failed_store = (run_next setup failing instants 0 one_run).1

abbrev final_state : State
final_state = record { store = failed_store; cursor = some 0 }

chosen : next_run none one_run ≡ some 0
unfolding next_run choose unfinished_ids perform_all perform find transact ◌>>=◌ sort_by for_each
    filter create new_run new_id add_run any add_target add_step emit fill_run add_run_target
    add_step_kind add_event gets guard lift modify pure raise required insert_by
chosen = refl

step_counts : worked (run_next setup failing instants 0 one_run).0 ≡ true
unfolding perform_all perform find lease_next transact ◌>>=◌ next_candidate sort_by for_each filter
    create new_run new_id add_run any add_target add_step emit legal_transition candidates grant
    take_step answer fill_run add_run_target add_step_kind add_attempt add_event require_run set_run
    set_step set_attempt transition_run transition_step update_steps gets guard lift modify pure
    raise required modify_first update_where insert_by all aggregate_targets carry_out
    checkpoint_failure fail_attempt fail_step finish_run get handle report_failure retryable
    run_next set_target validate_lease verdict finish_from_targets map_each apply_effect append_step
    next_position
step_counts = refl

none_chosen : next_run (some 0) failed_store ≡ none
unfolding next_run choose unfinished_ids perform_all perform find lease_next transact ◌>>=◌
    next_candidate sort_by for_each filter create new_run new_id add_run any add_target add_step
    emit legal_transition candidates grant take_step answer fill_run add_run_target add_step_kind
    add_attempt add_event require_run set_run set_step set_attempt transition_run transition_step
    update_steps gets guard lift modify pure raise required modify_first update_where insert_by all
    aggregate_targets carry_out checkpoint_failure fail_attempt fail_step finish_run get handle
    report_failure retryable run_next set_target validate_lease verdict finish_from_targets map_each
    apply_effect append_step next_position
none_chosen = refl

work : work_on setup outside 0 begun.state ≡ (true, final_state)
unfolding work_on
work = rw step_counts refl

-- An iteration that counts, and one that finds no run.
one_step :
    (left n i : ℕ) (s t : State)
    → next_run s.cursor s.store ≡ some i
    → work_on setup outside i s ≡ (true, t)
    → run_until_idle setup (λ k. outside) (suc left) n s
      ≡ run_until_idle setup (λ k. outside) left (suc n) t
unfolding run_until_idle
one_step left n i s t h k =
    rw (h, run_until_idle)
      (ap (λ (z : Bool × State). run_until_idle setup (λ j. outside) left (count_if z.0 n) z.1) k)

no_step :
    (left n : ℕ) (s : State)
    → next_run s.cursor s.store ≡ none
    → run_until_idle setup (λ k. outside) (suc left) n s ≡ (completed n, s)
unfolding run_until_idle
no_step left n s h = rw (h, run_until_idle) refl

becomes_idle : run_until_idle setup (λ k. outside) 2 0 begun.state ≡ (completed 1, final_state)
becomes_idle =
    one_step 1 0 0 begun.state final_state chosen work ∙ no_step 0 1 final_state none_chosen

run_until_idle_bounds_example : (1 ≤ 2) × (next_run (some 0) failed_store ≡ none)
run_until_idle_bounds_example =
    run_until_idle_bounds setup (λ k. outside) 2 1 begun.state final_state becomes_idle

abbrev failed_run : Run
failed_run = record {
  id = 0;
  status = failed;
  idempotency_key = 5;
  payload_hash = 3;
  objective = "history";
  scope = "{}";
  max_attempts = 3;
  outcome = some outcome_failed;
  cancel_requested_at = none;
  created_at = 0;
}
