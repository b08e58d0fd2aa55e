-- ===== src/Kernel/Exclusive.antt =====
-- A step has one lease that counts: the latest.
use omniverse_v.Prelude.{ℕ, ◌<◌, ◌≡◌, ap, Bool, Option, none, some, List, String, arith}
use mathlib.Core.Path.{subst}
use omniverse_v.Kernel.Rows.{RunStep, StepLease, StepState, Json}
use omniverse_v.Kernel.Tx.{Store, ok, err, lease_conflict}
use omniverse_v.Kernel.Session.{get_step}
use omniverse_v.Kernel.Lease.{lease_next}
use omniverse_v.Kernel.Checkpoints.{by_effect_key, checkpoint_success, checkpoint_failure}
use omniverse_v.Kernel.Partial.{checkpoint_partial}
use omniverse_v.Kernel.Control.{cancel_at_safe_boundary}
use omniverse_v.Kernel.Calls.{Digests, Call, perform_all}
use omniverse_v.Kernel.Stale.{step_history, stale_lease_refused}
use omniverse_v.Kernel.Leasing.{lease_next-counts}

one_step : (o : Option RunStep) (a b : RunStep) → o ≡ some a → o ≡ some b → a ≡ b
one_step o a b p q = cc

-- Once `lease_next` has leased a step again, whatever calls came in between and come after, every report
-- under the earlier lease is refused as a lease conflict and leaves the database as it was: a
-- failure, a partial result, a safe boundary, and a success whose effect key is not on record.
pub earlier_lease_refused :
    (d : Digests) (between later : List Call) (s t u : Store) (l m : StepLease)
    (owner1 now1 duration1 owner2 now2 duration2 : ℕ) (scope1 scope2 : Option ℕ) (now key w : ℕ)
    (refs : List String) (state : StepState) (error : String) (retryable : Bool) (at : Option ℕ)
    (gap : Json)
    → lease_next owner1 now1 duration1 scope1 s ≡ (ok (some l), t)
    → lease_next owner2 now2 duration2 scope2 (perform_all d between t) ≡ (ok (some m), u)
    → m.step_id ≡ l.step_id
    → by_effect_key key (perform_all d later u) ≡ none
    → let v = perform_all d later u in
      (checkpoint_success l key refs state now v ≡ (err lease_conflict, v))
      × (checkpoint_failure l error retryable at now v ≡ (err lease_conflict, v))
      × (checkpoint_partial d.gap_of l error w gap now v ≡ (err lease_conflict, v))
      × (cancel_at_safe_boundary l now v ≡ (err lease_conflict, v))
earlier_lease_refused d between later s t u l m owner1 now1 duration1 owner2 now2 duration2 scope1
      scope2 now key w refs state error retryable at gap first second same fresh =
    let (b1, r1, f1, g1, c1, n1) = lease_next-counts owner1 now1 duration1 scope1 s t l first in
    let (b2, r2, f2, g2, c2, n2) =
      lease_next-counts owner2 now2 duration2 scope2 (perform_all d between t) u m second in
    let (r, found, follows) = step_history d between t l.step_id r1 g1 in
    let loaded : get_step l.step_id (perform_all d between t) ≡ some b2 =
      subst (λ i. get_step i (perform_all d between t) ≡ some b2) same f2 in
    let written : get_step l.step_id u ≡ some r2 = subst (λ i. get_step i u ≡ some r2) same g2 in
    let agree : r ≡ b2 =
      one_step (get_step l.step_id (perform_all d between t)) r b2 found loaded in
    let counts : r.attempt_count ≡ b2.attempt_count = ap (λ z. z.attempt_count) agree in
    let grown = follows.counts in
    let passed : l.attempt_number < r2.attempt_count = omega arith in
    stale_lease_refused d later u l r2 now key w refs state error retryable at gap written passed
      fresh
