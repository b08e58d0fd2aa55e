-- ===== src/Kernel/Tests.antt =====
-- Concrete runs of the kernel.
use mathlib.Core.List.{Memᴰ}
use omniverse_v.Prelude.{
  All, Sorted, ◌≡◌, ◌≢◌, refl, true, false, none, some, List, [], ◌∷◌, arith, find, filter, any,
  sort_by, insert_by, modify_first, update_where,
}
use omniverse_v.Domain.{
  pending, running, succeeded, cancelled, outcome_cancelled, inventory, plan, legal_transition,
  is_terminal,
}
use omniverse_v.Kernel.Rows.{
  CreateResearchRun, Run, RunStep, StepAttempt, StepLease, StepState, StepKey,
}
use omniverse_v.Kernel.Tx.{
  Store, ok, err, lease_conflict, idempotency_conflict, transact, ◌>>=◌, for_each, gets, guard,
  lift, modify, pure, raise, required,
}
use omniverse_v.Kernel.Session.{
  add_checkpoint, get_step, new_id, add_run, add_target, add_step, add_attempt, add_event, emit,
  require_run, set_run, set_step, set_attempt, transition_run, transition_step, update_steps,
}
use omniverse_v.Kernel.Create.{create, new_run, fill_run, add_run_target, add_step_kind}
use omniverse_v.Kernel.Boundary.{validate_lease}
use omniverse_v.Kernel.Lease.{
  Candidate, lease_next, next_candidate, candidates, take_step, grant, answer, reclaim_step,
  reconcile_startup,
}
use omniverse_v.Kernel.Checkpoints.{
  CheckpointProjection, succeed_step, checkpoint_success, checkpoint_failure,
}
use omniverse_v.Kernel.Partial.{checkpoint_partial}
use omniverse_v.Kernel.Control.{request_cancel, cancel_at_safe_boundary}
use omniverse_v.Kernel.Calls.{Digests, Call, perform, perform_all}
use omniverse_v.Kernel.Fencing.{Follows}
use omniverse_v.Kernel.Consistent.{StepFits, fits}
use omniverse_v.Kernel.Agreement.{start, outcome-fits-status, step-IsLeased}
use omniverse_v.Kernel.Stale.{step_history}
use omniverse_v.Kernel.Exclusive.{earlier_lease_refused}
use omniverse_v.Kernel.Idempotency.{create_again, create_conflict}
use omniverse_v.Kernel.Leasing.{lease_next-valid}
use omniverse_v.Kernel.Queries.{RunEventProjection, events}
use omniverse_v.Kernel.Queries.Complete.{events_complete, IsEventOf, IsReported, NotAfter}
use omniverse_v.Kernel.Cancel.{cancel_not_repeatable}
use omniverse_v.Kernel.AtOnce.{cancel_ends_steps}
use omniverse_v.Kernel.Effects.{checkpoint_once}
use omniverse_v.Kernel.Queue.{lease_in_sequence}

abbrev command : CreateResearchRun
command = record {
  objective = "history";
  scope = "{}";
  targets = record { world_id = 7; objective = "history"; scope = "{}" } ∷ [];
  max_attempts = 3;
}

abbrev other_command : CreateResearchRun
other_command = record command { max_attempts = 4 }

abbrev digests : Digests
digests = record { payload_hash = λ c. c.max_attempts; gap_of = λ i. i }

abbrev nothing : Store
nothing = start (λ n. n) []

-- A run whose first step is leased, expires, is taken back and is leased to another owner.
abbrev leased_twice : List Call
leased_twice =
    Call.create command 5 0
    ∷ Call.lease_next 9 1 100 none
    ∷ Call.reconcile_startup 102
    ∷ Call.lease_next 8 103 100 none
    ∷ []

abbrev second_owner : RunStep
second_owner = record {
  id = 2;
  run_id = 0;
  target_id = 1;
  status = running;
  idempotency_key = StepKey.created 0 1 0;
  kind = inventory;
  position = 0;
  attempt_count = 2;
  lease_owner = some 8;
  lease_expires_at = some 203;
  retry_due_at = none;
  output_refs = [];
  error = none;
}

abbrev first_lease : StepLease
first_lease = record {
  step_id = 2;
  run_id = 0;
  target_id = 1;
  world_id = 7;
  kind = inventory;
  owner = 9;
  attempt_number = 1;
  lease_expires_at = 101;
}

abbrev cancel_asked : List Call
cancel_asked = Call.request_cancel 0 110 ∷ []

abbrev report : StepState
report = record { continue_loop = false; outcome = none; printed = "{}" }

-- The run after its creation, after the first lease, and after the second.
abbrev created : Store
created = perform_all digests (Call.create command 5 0 ∷ []) nothing

abbrev leased_first : Store
leased_first = (lease_next 9 1 100 none created).1

abbrev leased_again : Store
leased_again =
    (lease_next 8 103 100 none
      (perform_all digests (Call.reconcile_startup 102 ∷ []) leased_first)).1

abbrev second_lease : StepLease
second_lease = record first_lease { owner = 8; attempt_number = 2; lease_expires_at = 203 }

earlier_lease_refused_example :
    let t = perform_all digests cancel_asked leased_again in
    (checkpoint_success first_lease 77 [] report 111 t ≡ (err lease_conflict, t))
    × (checkpoint_failure first_lease "late" true none 111 t ≡ (err lease_conflict, t))
    × (checkpoint_partial digests.gap_of first_lease "late" 0 "{}" 111 t ≡ (err lease_conflict, t))
    × (cancel_at_safe_boundary first_lease 111 t ≡ (err lease_conflict, t))
unfolding perform_all perform find lease_next transact ◌>>=◌ next_candidate sort_by
    reconcile_startup for_each filter create new_run new_id add_run any add_target add_step emit
    legal_transition candidates grant take_step reclaim_step answer fill_run add_run_target
    add_step_kind add_attempt add_event require_run set_run set_step set_attempt transition_run
    transition_step update_steps gets guard lift modify pure raise required modify_first
    update_where insert_by request_cancel
earlier_lease_refused_example =
    earlier_lease_refused digests (Call.reconcile_startup 102 ∷ []) cancel_asked created
      leased_first leased_again first_lease second_lease 9 1 100 8 103 100 none none 111 77 0 []
      report "late" true none "{}" refl refl refl refl

step_history_example :
    (r' : RunStep) × (get_step 2
        (perform_all digests cancel_asked (perform_all digests leased_twice nothing))
      ≡ some r')
    × Follows second_owner r'
unfolding perform_all perform find lease_next transact ◌>>=◌ next_candidate sort_by
    reconcile_startup for_each filter create new_run new_id add_run any add_target add_step emit
    legal_transition candidates grant take_step reclaim_step answer fill_run add_run_target
    add_step_kind add_attempt add_event require_run set_run set_step set_attempt transition_run
    transition_step update_steps gets guard lift modify pure raise required modify_first
    update_where insert_by request_cancel
step_history_example =
    step_history digests cancel_asked (perform_all digests leased_twice nothing) 2 second_owner refl

abbrev cancelled_run : Run
cancelled_run = record {
  id = 0;
  status = cancelled;
  idempotency_key = 5;
  payload_hash = 3;
  objective = "history";
  scope = "{}";
  max_attempts = 3;
  outcome = some outcome_cancelled;
  cancel_requested_at = some 110;
  created_at = 0;
}

outcome-fits-status_example : fits cancelled (some outcome_cancelled) ≡ true
unfolding perform_all perform find lease_next transact ◌>>=◌ next_candidate sort_by
    reconcile_startup for_each filter create new_run new_id add_run any add_target add_step emit
    legal_transition candidates grant take_step reclaim_step answer fill_run add_run_target
    add_step_kind add_attempt add_event require_run set_run set_step set_attempt transition_run
    transition_step update_steps gets guard lift modify pure raise required modify_first
    update_where insert_by request_cancel
outcome-fits-status_example =
    outcome-fits-status digests (Call.create command 5 0 ∷ cancel_asked) (λ n. n) [] 0 cancelled_run
      refl

step-IsLeased_example : StepFits second_owner
unfolding perform_all perform find lease_next transact ◌>>=◌ next_candidate sort_by
    reconcile_startup for_each filter create new_run new_id add_run any add_target add_step emit
    legal_transition candidates grant take_step reclaim_step answer fill_run add_run_target
    add_step_kind add_attempt add_event require_run set_run set_step set_attempt transition_run
    transition_step update_steps gets guard lift modify pure raise required modify_first
    update_where insert_by request_cancel
step-IsLeased_example = step-IsLeased digests leased_twice (λ n. n) [] 2 second_owner refl

abbrev one_run : Store
one_run = (create digests.payload_hash command 5 0 nothing).1

create_again_example : create digests.payload_hash command 5 60 one_run ≡ (ok 0, one_run)
unfolding perform_all perform find lease_next transact ◌>>=◌ next_candidate sort_by
    reconcile_startup for_each filter create new_run new_id add_run any add_target add_step emit
    legal_transition candidates grant take_step reclaim_step answer fill_run add_run_target
    add_step_kind add_attempt add_event require_run set_run set_step set_attempt transition_run
    transition_step update_steps gets guard lift modify pure raise required modify_first
    update_where insert_by request_cancel
create_again_example = create_again digests.payload_hash command 5 0 60 0 nothing one_run refl

create_conflict_example :
    create digests.payload_hash other_command 5 60 one_run ≡ (err idempotency_conflict, one_run)
unfolding perform_all perform find lease_next transact ◌>>=◌ next_candidate sort_by
    reconcile_startup for_each filter create new_run new_id add_run any add_target add_step emit
    legal_transition candidates grant take_step reclaim_step answer fill_run add_run_target
    add_step_kind add_attempt add_event require_run set_run set_step set_attempt transition_run
    transition_step update_steps gets guard lift modify pure raise required modify_first
    update_where insert_by request_cancel
create_conflict_example =
    create_conflict digests.payload_hash command other_command 5 0 60 0 nothing one_run refl
      (λ h. omega (arith, h))

lease_next-valid_example :
    (c : Candidate) × (step : RunStep) × (attempt : StepAttempt) × (next_candidate 1 none one_run
      ≡ some c)
    × (first_lease.step_id ≡ c.step.id)
    × (validate_lease first_lease 90 (lease_next 9 1 100 none one_run).1
        ≡ ok ((step, attempt), (lease_next 9 1 100 none one_run).1))
    × (step.status ≡ running)
    × (step.attempt_count ≡ first_lease.attempt_number)
unfolding perform_all perform find lease_next transact ◌>>=◌ next_candidate sort_by
    reconcile_startup for_each filter create new_run new_id add_run any add_target add_step emit
    legal_transition candidates grant take_step reclaim_step answer fill_run add_run_target
    add_step_kind add_attempt add_event require_run set_run set_step set_attempt transition_run
    transition_step update_steps gets guard lift modify pure raise required modify_first
    update_where insert_by request_cancel
lease_next-valid_example =
    lease_next-valid 9 1 100 90 none one_run (lease_next 9 1 100 none one_run).1 first_lease refl
      (omega arith)

-- Two targets of a run: one goes on with its second step, the other has not begun.
abbrev begun : RunStep
begun = record second_owner { status = succeeded; lease_owner = none; lease_expires_at = none }

abbrev follow_up : RunStep
follow_up = record begun { id = 3; kind = plan; position = 1; status = pending }

abbrev not_begun : RunStep
not_begun = record begun { id = 4; target_id = 9; position = 1; status = pending }

abbrev two_targets : Store
two_targets = record nothing {
  runs = record cancelled_run { status = running; outcome = none } ∷ [];
  steps = begun ∷ follow_up ∷ not_begun ∷ [];
}

abbrev chosen : Candidate
chosen = record { created_at = 0; step = follow_up }

abbrev passed_over : Candidate
passed_over = record { created_at = 0; step = not_begun }

lease_in_sequence_example : begun.status ≡ succeeded
unfolding perform_all perform find lease_next transact ◌>>=◌ next_candidate sort_by
    reconcile_startup for_each filter create new_run new_id add_run any add_target add_step emit
    legal_transition candidates grant take_step reclaim_step answer fill_run add_run_target
    add_step_kind add_attempt add_event require_run set_run set_step set_attempt transition_run
    transition_step update_steps gets guard lift modify pure raise required modify_first
    update_where insert_by request_cancel
lease_in_sequence_example =
    lease_in_sequence 1 none two_targets chosen begun refl (Memᴰ.head refl) refl (omega arith)

abbrev pending_run : Run
pending_run = record cancelled_run { status = pending; outcome = none; cancel_requested_at = none }

events_complete_example :
    (es : List RunEventProjection) × (events 0 one_run ≡ (ok es, one_run))
    × All (IsEventOf 0 one_run) es
    × All (IsReported 0 es) one_run.events
    × Sorted NotAfter es
unfolding perform_all perform find lease_next transact ◌>>=◌ next_candidate sort_by
    reconcile_startup for_each filter create new_run new_id add_run any add_target add_step emit
    legal_transition candidates grant take_step reclaim_step answer fill_run add_run_target
    add_step_kind add_attempt add_event require_run set_run set_step set_attempt transition_run
    transition_step update_steps gets guard lift modify pure raise required modify_first
    update_where insert_by request_cancel
events_complete_example = events_complete 0 one_run pending_run refl

-- The run goes on, since its first step is leased.
abbrev being_cancelled : Store
being_cancelled = (request_cancel 0 110 (perform_all digests leased_twice nothing)).1

cancel_not_repeatable_example : request_cancel 0 120 being_cancelled ≢ (ok tt, being_cancelled)
unfolding perform_all perform find lease_next transact ◌>>=◌ next_candidate sort_by
    reconcile_startup for_each filter create new_run new_id add_run any add_target add_step emit
    legal_transition candidates grant take_step reclaim_step answer fill_run add_run_target
    add_step_kind add_attempt add_event require_run set_run set_step set_attempt transition_run
    transition_step update_steps gets guard lift modify pure raise required modify_first
    update_where insert_by request_cancel
cancel_not_repeatable_example =
    cancel_not_repeatable 0 110 120 (perform_all digests leased_twice nothing) being_cancelled
      being_cancelled refl

abbrev never_begun : RunStep
never_begun = record second_owner {
  status = cancelled;
  attempt_count = 0;
  lease_owner = none;
  lease_expires_at = none;
}

cancel_ends_steps_example : is_terminal never_begun.status ≡ true
unfolding perform_all perform find lease_next transact ◌>>=◌ next_candidate sort_by
    reconcile_startup for_each filter create new_run new_id add_run any add_target add_step emit
    legal_transition candidates grant take_step reclaim_step answer fill_run add_run_target
    add_step_kind add_attempt add_event require_run set_run set_step set_attempt transition_run
    transition_step update_steps gets guard lift modify pure raise required modify_first
    update_where insert_by request_cancel
cancel_ends_steps_example =
    cancel_ends_steps 0 110 one_run (request_cancel 0 110 one_run).1 never_begun refl refl
      (Memᴰ.head refl) refl

abbrev leased_once : Store
leased_once = (lease_next 9 1 100 none one_run).1

abbrev reported : Store
reported = (checkpoint_success first_lease 77 [] report 50 leased_once).1

abbrev first_report : CheckpointProjection
first_report = record { id = 14; step_id = first_lease.step_id; effect_key = 77 }

checkpoint_once_example :
    checkpoint_success first_lease 77 ("page" ∷ []) report 60 reported
    ≡ (ok (some first_report), reported)
unfolding perform_all perform find lease_next transact ◌>>=◌ next_candidate sort_by
    reconcile_startup for_each filter create new_run new_id add_run any add_target add_step emit
    legal_transition candidates grant take_step reclaim_step answer fill_run add_run_target
    add_step_kind add_attempt add_event require_run set_run set_step set_attempt transition_run
    transition_step update_steps gets guard lift modify pure raise required modify_first
    update_where insert_by request_cancel checkpoint_success succeed_step validate_lease
    add_checkpoint
checkpoint_once_example =
    checkpoint_once first_lease first_lease 77 [] ("page" ∷ []) report report 50 60 first_report
      leased_once reported refl
