-- ===== src/Kernel/Stale.antt =====
-- Fencing over whole histories.
use omniverse_v.Prelude.{ℕ, ◌<◌, ◌≡◌, Bool, Option, none, some, List, String, arith, refl}
use omniverse_v.Kernel.Rows.{Json, RunStep, StepLease, StepState}
use omniverse_v.Kernel.Tx.{Store, err, lease_conflict, transact, ◌>>=◌}
use omniverse_v.Kernel.Session.{get_step}
use omniverse_v.Kernel.Calls.{Call, Digests, perform_all}
use omniverse_v.Kernel.Boundary.{validate_lease}
use omniverse_v.Kernel.Checkpoints.{checkpoint_success, checkpoint_failure, by_effect_key}
use omniverse_v.Kernel.Partial.{checkpoint_partial}
use omniverse_v.Kernel.Control.{cancel_at_safe_boundary}
use omniverse_v.Kernel.Fencing.{Follows, FoundFollows}
use omniverse_v.Kernel.Fencing.Histories.{perform_all-fencing}

-- A step on record is still on record after any history, in its run, its target and its position,
-- and with at least the attempts that it had.
pub step_history :
    (d : Digests) (cs : List Call) (s : Store) (i : ℕ) (r : RunStep)
    → get_step i s ≡ some r
    → (r' : RunStep) × (get_step i (perform_all d cs s) ≡ some r') × Follows r r'
step_history d cs s i r e =
    follow (get_step i (perform_all d cs s)) refl (rw e at (perform_all-fencing d cs s i))
  where
    follow :
        (o : Option RunStep)
        → get_step i (perform_all d cs s) ≡ o
        → FoundFollows (some r) o
        → (r' : RunStep) × (get_step i (perform_all d cs s) ≡ some r') × Follows r r'
    follow none p h = absurd h
    follow (some r') p h = (r', p, h)

passed_lease :
    (lease : StepLease) (now : ℕ) (t : Store) (r : RunStep)
    → get_step lease.step_id t ≡ some r
    → lease.attempt_number < r.attempt_count
    → validate_lease lease now t ≡ err lease_conflict
unfolding validate_lease ◌>>=◌
passed_lease lease now t r e h = rw e (ground arith)

passed_after :
    (d : Digests) (cs : List Call) (s : Store) (lease : StepLease) (now : ℕ) (r : RunStep)
    → get_step lease.step_id s ≡ some r
    → lease.attempt_number < r.attempt_count
    → validate_lease lease now (perform_all d cs s) ≡ err lease_conflict
passed_after d cs s lease now r e h =
    let (r', e', f) = step_history d cs s lease.step_id r e in
    passed_lease lease now (perform_all d cs s) r' e' (omega (arith, f.counts))

-- Once a step has had more attempts than a lease counts, then after any further calls every report
-- under that lease is refused as a lease conflict and leaves the database as it was: a failure, a
-- partial result, a safe boundary, and a success whose effect key is not on record.
pub stale_lease_refused :
    (d : Digests) (cs : List Call) (s : Store) (lease : StepLease) (r : RunStep) (now key w : ℕ)
    (refs : List String) (state : StepState) (error : String) (retryable : Bool) (at : Option ℕ)
    (gap : Json)
    → get_step lease.step_id s ≡ some r
    → lease.attempt_number < r.attempt_count
    → by_effect_key key (perform_all d cs s) ≡ none
    → let t = perform_all d cs s in
      (checkpoint_success lease key refs state now t ≡ (err lease_conflict, t))
      × (checkpoint_failure lease error retryable at now t ≡ (err lease_conflict, t))
      × (checkpoint_partial d.gap_of lease error w gap now t ≡ (err lease_conflict, t))
      × (cancel_at_safe_boundary lease now t ≡ (err lease_conflict, t))
unfolding checkpoint_success checkpoint_failure checkpoint_partial cancel_at_safe_boundary transact
    ◌>>=◌
stale_lease_refused d cs s lease r now key w refs state error retryable at gap e h fresh =
    let refused = passed_after d cs s lease now r e h in
    (rw (fresh, refused), rw refused, rw refused, rw refused)
