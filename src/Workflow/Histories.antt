-- ===== src/Workflow/Histories.antt =====
-- A call of `run_next` as a history of the kernel: what holds after every history of
-- Kernel/Calls.antt holds after every call.
use omniverse_v.Prelude.{
  ℕ, ◌+◌, ◌≡◌, refl, ◌∙◌, ap, Bool, true, false, not, ◌&&◌, Option, none, some, List, [], ◌∷◌,
  Bool-cases, inl, inr, is_some, if◌then◌else◌,
}
use omniverse_v.Domain.{cancelling, same_status}
use omniverse_v.Kernel.Rows.{CreateResearchRun, StepLease}
use omniverse_v.Kernel.Tx.{Store, Result, ok, err}
use omniverse_v.Kernel.Lease.{lease_next}
use omniverse_v.Kernel.Checkpoints.{CheckpointProjection, checkpoint_success, checkpoint_failure}
use omniverse_v.Kernel.Partial.{checkpoint_partial}
use omniverse_v.Kernel.Control.{cancel_at_safe_boundary}
use omniverse_v.Kernel.Queries.{RunProjection, get}
use omniverse_v.Kernel.Queries.ReadOnly.{get-state}
use mathlib.Core.Path.{subst}
use omniverse_v.Kernel.Calls.{Digests, Call, perform, perform_all}
use omniverse_v.Workflow.{
  Effect, apply_effect, apply_effects, Setup, Handlers, Instants, Failure, Executed, Ended,
  returned, raised, crashed, finished, failed_with, provider_failure, structured_output_failure,
  agent_output_failure, other_failure, simulated_crash, proceed, describe, is_recoverable,
  retry_delay, retryable, returns_true, report_failure, report, handle, after_success,
  after_execution, after_lease, carry_out, run_next, lease_duration,
}

-- The kernel's digests for a workflow: it makes no run, so it takes none of a command.
abbrev pub digests_of : Setup → (CreateResearchRun → ℕ) → Digests
digests_of w payload_hash = record { payload_hash = payload_hash; gap_of = w.gap_of }

-- The database after a call is that of a history of kernel calls.
abbrev pub IsHistory : Digests → Store → Ended × Store → Type 0
IsHistory d s e = (cs : List Call) × (e.1 ≡ perform_all d cs s)

module _ (d : Digests) where
  no_calls : (s : Store) (e : Ended) → IsHistory d s (e, s)
  unfolding perform_all
  no_calls s e = ([], refl)

  -- What follows a call `c` goes on from the database that `c` leaves.
  after_call :
      (c : Call) (s : Store) (e : Ended × Store) → IsHistory d (perform d c s) e → IsHistory d s e
  unfolding perform_all
  after_call c s e (cs, h) = (c ∷ cs, h)

  proceed-IsHistory :
      {A : Type 0} (r : Result A × Store) (f : A → Store → Ended × Store)
      → ((a : A) (t : Store) → IsHistory d t (f a t))
      → IsHistory d r.1 (proceed r f)
  proceed-IsHistory (ok a, t) f h = h a t
  proceed-IsHistory (err e, t) f h = no_calls t (raised e)

  -- A call of the kernel, and what goes on from its result.
  call_then :
      {A : Type 0} (c : Call) (s : Store) (r : Result A × Store) (f : A → Store → Ended × Store)
      → r.1 ≡ perform d c s
      → ((a : A) (t : Store) → IsHistory d t (f a t))
      → IsHistory d s (proceed r f)
  unfolding perform_all
  call_then c s r f e h =
      let (cs, same) = proceed-IsHistory r f h in (c ∷ cs, same ∙ ap (perform_all d cs) e)

module _ (w : Setup) (payload_hash : CreateResearchRun → ℕ) where
  abbrev d : Digests
  d = digests_of w payload_hash

  report_failure-IsHistory :
      (ts : Instants) (lease : StepLease) (f : Failure) (again : Bool) (s : Store)
      → IsHistory d s (report_failure w ts lease f again s)
  unfolding report_failure perform
  report_failure-IsHistory ts lease f again s = elim (Bool-cases (is_recoverable f && not again)) [
    | inl partly ↦ rw partly (
        call_then d
          (Call.checkpoint_partial lease (describe f) (w.workspace_id lease.target_id)
            (w.gap lease f) ts.failed_at)
          s
          (checkpoint_partial w.gap_of lease (describe f) (w.workspace_id lease.target_id)
            (w.gap lease f) ts.failed_at s)
          returns_true refl (λ a t. no_calls d t (returned true)))
    | inr wholly ↦ rw wholly (
        let at = if again then some (ts.retry_from + retry_delay f) else none in
        call_then d (Call.checkpoint_failure lease (describe f) again at ts.failed_at) s
          (checkpoint_failure lease (describe f) again at ts.failed_at s) returns_true refl
          (λ a t. no_calls d t (returned true)))
  ]

  report-IsHistory :
      (ts : Instants) (lease : StepLease) (f : Failure) (s : Store)
      → IsHistory d s (report w ts lease f s)
  report-IsHistory ts lease f s =
      proceed-IsHistory d (retryable lease f s, s) (report_failure w ts lease f)
        (report_failure-IsHistory ts lease f)

  handle-IsHistory :
      (ts : Instants) (lease : StepLease) (f : Failure) (s : Store)
      → IsHistory d s (handle w ts lease f s)
  unfolding handle
  handle-IsHistory ts lease simulated_crash s = no_calls d s crashed
  handle-IsHistory ts lease (provider_failure k after text) s =
      report-IsHistory ts lease (provider_failure k after text) s
  handle-IsHistory ts lease (structured_output_failure text) s =
      report-IsHistory ts lease (structured_output_failure text) s
  handle-IsHistory ts lease (agent_output_failure text) s =
      report-IsHistory ts lease (agent_output_failure text) s
  handle-IsHistory ts lease (other_failure text) s =
      report-IsHistory ts lease (other_failure text) s

  after_success-IsHistory :
      (ts : Instants) (lease : StepLease) (r : Result (Option CheckpointProjection) × Store)
      → IsHistory d r.1 (after_success w ts lease r)
  after_success-IsHistory ts lease (ok _, s) = no_calls d s (returned true)
  after_success-IsHistory ts lease (err e, s) =
      handle-IsHistory ts lease (other_failure (w.printed e)) s

  after_execution-IsHistory :
      (ts : Instants) (lease : StepLease) (x : Executed) (s : Store)
      → IsHistory d s (after_execution w ts lease x s)
  unfolding perform
  after_execution-IsHistory ts lease (failed_with f) s = handle-IsHistory ts lease f s
  after_execution-IsHistory ts lease (finished refs state) s =
      elim (Bool-cases (w.crash_after_effect_for lease.kind)) [
        | inl crash ↦ rw crash (handle-IsHistory ts lease simulated_crash s)
        | inr going ↦ rw going (
            after_call d
              (Call.checkpoint_success lease (w.effect_key lease.step_id) refs state ts.reported_at)
              s
              (after_success w ts lease
                (checkpoint_success lease (w.effect_key lease.step_id) refs state ts.reported_at s))
              (after_success-IsHistory ts lease (
                checkpoint_success lease (w.effect_key lease.step_id) refs state ts.reported_at s)))
      ]

  -- Each effect of a handler is a call of a history.
  abbrev call_of : Effect → Call
  call_of (Effect.append_step run_id target_id kind key) =
      Call.append_step run_id target_id kind key
  call_of (Effect.write_workspaces rows) = Call.write_workspaces rows
  call_of (Effect.write_gaps rows) = Call.write_gaps rows

  apply_effect-perform : (x : Effect) (s : Store) → apply_effect x s ≡ perform d (call_of x) s
  unfolding apply_effect perform
  apply_effect-perform (Effect.append_step run_id target_id kind key) s = refl
  apply_effect-perform (Effect.write_workspaces rows) s = refl
  apply_effect-perform (Effect.write_gaps rows) s = refl

  effects-IsHistory :
      (ts : Instants) (lease : StepLease) (x : Executed) (effects : List Effect) (s : Store)
      → IsHistory d s (after_execution w ts lease x (apply_effects effects s))
  unfolding apply_effects perform_all
  effects-IsHistory ts lease x [] s = after_execution-IsHistory ts lease x s
  effects-IsHistory ts lease x (effect ∷ effects) s =
      let (cs, same) = effects-IsHistory ts lease x effects (apply_effect effect s) in
      (call_of effect ∷ cs, same ∙ ap (perform_all d cs) (apply_effect-perform effect s))

  carry_out-IsHistory :
      (handlers : Handlers) (ts : Instants) (lease : StepLease) (s : Store)
      → IsHistory d s (carry_out w handlers ts lease s)
  unfolding carry_out
  carry_out-IsHistory handlers ts lease s =
      effects-IsHistory ts lease (handlers lease s).0 (handlers lease s).1 s

  read-IsHistory :
      (run_id : ℕ) (f : RunProjection → Store → Ended × Store) (s : Store)
      → ((a : RunProjection) (t : Store) → IsHistory d t (f a t))
      → IsHistory d s (proceed (get run_id s) f)
  read-IsHistory run_id f s h =
      subst (λ z. IsHistory d z (proceed (get run_id s) f)) (get-state run_id s)
        (proceed-IsHistory d (get run_id s) f h)

  after_lease-IsHistory :
      (handlers : Handlers) (ts : Instants) (run_id : ℕ) (o : Option StepLease) (s : Store)
      → IsHistory d s (after_lease w handlers ts run_id o s)
  unfolding perform
  after_lease-IsHistory handlers ts run_id none s = no_calls d s (returned false)
  after_lease-IsHistory handlers ts run_id (some lease) s = read-IsHistory run_id _ s λ now t.
      elim (Bool-cases (same_status now.status cancelling)) [
        | inl stopping ↦ rw stopping (
            call_then d (Call.cancel_at_safe_boundary lease ts.reported_at) t
              (cancel_at_safe_boundary lease ts.reported_at t) returns_true refl
              (λ a u. no_calls d u (returned true)))
        | inr going ↦ rw going (carry_out-IsHistory handlers ts lease t)
      ]

  -- A call of `run_next` leaves the database that some history leaves, also when an exception ends
  -- it: kernel calls, with the handlers' writes to the tables of workspaces and gaps between them.
  pub run_next-IsHistory :
      (handlers : Handlers) (ts : Instants) (run_id : ℕ) (s : Store)
      → IsHistory d s (run_next w handlers ts run_id s)
  unfolding run_next perform
  run_next-IsHistory handlers ts run_id s = read-IsHistory run_id _ s λ before t.
      elim (Bool-cases (is_some before.outcome)) [
        | inl over ↦ rw over (no_calls d t (returned false))
        | inr live ↦ rw live (
            call_then d (Call.lease_next w.owner ts.leased_at lease_duration (some run_id)) t
              (lease_next w.owner ts.leased_at lease_duration (some run_id) t)
              (after_lease w handlers ts run_id) refl
              (λ o u. after_lease-IsHistory handlers ts run_id o u))
      ]
