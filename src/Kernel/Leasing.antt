-- ===== src/Kernel/Leasing.antt =====
-- What `lease_next` promises of the lease that it returns.
use mathlib.Core.Path.{subst}
use omniverse_v.Prelude.{
  ℕ, suc, ◌+◌, ◌≤◌, ◌≡◌, refl, Bool, true, false, ◌||◌, Option, none, some, List, [], ◌∷◌, ◌++◌,
  arith, ==_iff, find, any, modify_first, Option-cases, Bool-cases, inl, inr, String, sym, ap, ◌∙◌,
}
use omniverse_v.Domain.{RunStatus, running, legal_transition, same_status}
use omniverse_v.Kernel.Rows.{Run, RunStep, RunTarget, StepAttempt, StepLease}
use omniverse_v.Kernel.Tx.{Store, ok, transact, modify, when, ◌>>=◌, ◌>>◌}
use omniverse_v.Kernel.Respects.{Law, Respects, Respects-modify, respects_rules, settle-ok, bind-ok}
use omniverse_v.Kernel.Session.{
  is_step, is_attempt, get_step, get_run, get_attempt, get_target, new_id, add_attempt,
  attempt_clash, set_run, set_step, transition_run, transition_step,
}
use omniverse_v.Kernel.Boundary.{holds, validate_lease}
use omniverse_v.Kernel.Lease.{
  Candidate, answer, grant, lease_on, is_idle, take_step, lease_to, open_attempt, lease_body,
  lease_next, nothing_to_take, next_candidate,
}
use omniverse_v.Kernel.Frames.{frame, framed, find-append_new}

find-modify_first {ℓ} :
    {A : Type ℓ} (p : A → Bool) (f : A → A) (rows : List A) (r : A)
    → find p rows ≡ some r
    → p (f r) ≡ true
    → find p (modify_first p f rows) ≡ some (f r)
unfolding find modify_first
find-modify_first p f [] r e k = cc
find-modify_first p f (x ∷ xs) r e k = elim (Bool-cases (p x)) [
  | inl here ↦ let same : x ≡ r = cc (rw here at e) in rw (here, same, k)
  | inr there ↦ rw (there, there) (find-modify_first p f xs r (rw there at e) k)
]

find_satisfies {ℓ} :
    {A : Type ℓ} (p : A → Bool) (rows : List A) (r : A) → find p rows ≡ some r → p r ≡ true
unfolding find
find_satisfies p [] r e = cc
find_satisfies p (x ∷ xs) r e = elim (Bool-cases (p x)) [
  | inl here ↦ let same : x ≡ r = cc (rw here at e) in cc
  | inr there ↦ find_satisfies p xs r (rw there at e)
]

transition_step-writes :
    (agent name : String) (i : ℕ) (target : RunStatus) (also : RunStep → RunStep) (s t : Store)
    (u : Unit {0}) (r : RunStep)
    → transition_step agent name i target also s ≡ ok (u, t)
    → get_step i s ≡ some r
    → (t.steps ≡ modify_first (is_step i) (λ q. record (also q) { status = target }) s.steps)
      × (t.attempts ≡ s.attempts)
unfolding transition_step set_step ◌>>=◌
transition_step-writes agent name i target also s t u r e found =
    elim (Bool-cases (same_status r.status target || legal_transition r.status target)) [
      | inl legal ↦ let e' = rw legal at (rw found at e) in (ground arith, ground arith)
      | inr illegal ↦ cc (rw illegal at (rw found at e))
    ]

-- The writes of `grant` leave the table of steps alone, and end with the new attempt.
abbrev steps_frame : Law
steps_frame = frame (λ s. s.steps)

steps_aside :
    (f : Store → Store) → ((s : Store) → (f s).steps ≡ s.steps) → Respects steps_frame (modify f)
steps_aside f h = Respects-modify f h

set_run-steps : (i : ℕ) (f : Run → Run) → Respects steps_frame (set_run i f)
unfolding set_run
set_run-steps i f = steps_aside _ (λ s. refl)

transition_run-steps :
    (agent name : String) (i : ℕ) (target : RunStatus)
    → Respects steps_frame (transition_run agent name i target)
unfolding transition_run
transition_run-steps agent name i target = search (respects_rules, set_run-steps)

new_id-steps : Respects steps_frame new_id
unfolding new_id
new_id-steps = search (respects_rules, steps_aside)

add_attempt-steps : (r : StepAttempt) → Respects steps_frame (add_attempt r)
unfolding add_attempt
add_attempt-steps r = search (respects_rules, steps_aside)

grant-steps :
    (owner now expires : ℕ) (step : RunStep) (run : Run)
    → Respects steps_frame (grant owner now expires step run)
unfolding grant
grant-steps owner now expires step run =
    search (respects_rules, transition_run-steps, new_id-steps, add_attempt-steps) depth 12

no_attempt :
    (r : StepAttempt) (rows : List StepAttempt)
    → any (attempt_clash r) rows ≡ false
    → find (is_attempt r.step_id r.attempt_number) rows ≡ none
unfolding any find
no_attempt r [] h = refl
no_attempt r (x ∷ xs) h = ground (arith, no_attempt r xs)

add_attempt-ok :
    (r : StepAttempt) (s t : Store) (u : Unit {0})
    → add_attempt r s ≡ ok (u, t)
    → get_attempt r.step_id r.attempt_number t ≡ some r
unfolding add_attempt ◌>>=◌
add_attempt-ok r s t u e = elim (Bool-cases (any (attempt_clash r) s.attempts)) [
  | inl clash ↦ cc (rw clash at e)
  | inr fresh ↦
      let rows : t.attempts ≡ s.attempts ++ r ∷ [] = let e' = rw fresh at e in ground arith in
      rw rows (
        find-append_new (is_attempt r.step_id r.attempt_number) s.attempts r
          (no_attempt r s.attempts fresh) (ground arith))
]

answer-ok :
    (owner expires : ℕ) (step : RunStep) (s t : Store) (l : StepLease)
    → answer owner expires step s ≡ ok (some l, t)
    → (target : RunTarget) × (l ≡ lease_on owner expires step target) × (s ≡ t)
unfolding answer ◌>>=◌
answer-ok owner expires step s t l e = elim (Option-cases (get_target step.target_id s)) [
  | inl gone ↦ cc (rw gone at e)
  | inr (target, found) ↦ let e' = rw found at e in (target, cc, cc)
]

grant-ok :
    (owner now expires : ℕ) (step : RunStep) (run : Run) (s t : Store) (l : StepLease)
    → grant owner now expires step run s ≡ ok (some l, t)
    → (i : ℕ) × (target : RunTarget) × (get_attempt step.id (suc step.attempt_count) t
        ≡ some (open_attempt i step.id (suc step.attempt_count) owner expires now))
      × (l ≡ lease_on owner expires step target)
unfolding grant
grant-ok owner now expires step run s t l e =
    let (u1, s1, e1, rest1) =
      bind-ok (when (is_idle run) (transition_run "unknown" "unknown" run.id running)) _ s t
        (some l) e in
    let (i, s2, e2, rest2) = bind-ok new_id _ s1 t (some l) rest1 in
    let row = open_attempt i step.id (suc step.attempt_count) owner expires now in
    let (u3, s3, e3, rest3) = bind-ok (add_attempt row) _ s2 t (some l) rest2 in
    let (target, lease, same) = answer-ok owner expires step s3 t l rest3 in
    (
      i,
      target,
      subst (λ z. get_attempt step.id (suc step.attempt_count) z ≡ some row) same
          (add_attempt-ok row s2 s3 u3 e3),
      lease,
    )

-- What `take_step` has done when it returns a lease.
record Taken (owner expires i : ℕ) (l : StepLease) (s t : Store) : Type 0 where
  step : RunStep
  target : RunTarget
  attempt : StepAttempt
  loaded : get_step i s ≡ some step
  written : get_step i t ≡ some (record (lease_to owner expires step) { status = running })
  opened : get_attempt step.id (suc step.attempt_count) t ≡ some attempt
  returned : l ≡ lease_on owner expires step target

claim-Taken :
    (owner now expires i : ℕ) (step : RunStep) (run : Run) (s t : Store) (l : StepLease)
    → get_step i s ≡ some step
    → (transition_step "unknown" "unknown" i running (lease_to owner expires)
          >> grant owner now expires step run)
        s
      ≡ ok (some l, t)
    → Taken owner expires i l s t
claim-Taken owner now expires i step run s t l found e =
    let (u, s1, moved, rest) =
      bind-ok (transition_step "unknown" "unknown" i running (lease_to owner expires)) _ s t
        (some l) e in
    let (j, target, opened, returned) = grant-ok owner now expires step run s1 t l rest in
    let same : t.steps ≡ s1.steps =
      framed (λ z. z.steps) _ s1 t (some l) (grant-steps owner now expires step run) rest in
    let moves =
      transition_step-writes "unknown" "unknown" i running (lease_to owner expires) s s1 u step
        moved found in
    record {
      step = step;
      target = target;
      attempt = open_attempt j step.id (suc step.attempt_count) owner expires now;
      loaded = found;
      written =
          rw (same, moves.0)
            (find-modify_first (is_step i) _ s.steps step found
              (find_satisfies (is_step i) s.steps step found));
      opened = opened;
      returned = returned;
    }

take_step-Taken :
    (owner now duration i : ℕ) (s t : Store) (l : StepLease)
    → take_step owner now duration i s ≡ ok (some l, t)
    → Taken owner (now + duration) i l s t
unfolding take_step ◌>>=◌
take_step-Taken owner now duration i s t l e = elim (Option-cases (get_step i s)) [
  | inl gone ↦ cc (rw gone at e)
  | inr (step, found) ↦ elim (Option-cases (get_run step.run_id s)) [
    | inl orphan ↦ cc (rw orphan at (rw found at e))
    | inr (run, owned) ↦
        claim-Taken owner now (now + duration) i step run s t l found (rw owned at (rw found at e))
  ]
]

idle_grants_nothing :
    (scope : Option ℕ) (s t : Store) (l : StepLease) → ¬ (nothing_to_take scope s ≡ ok (some l, t))
unfolding ◌>>=◌
idle_grants_nothing none s t l e = cc
idle_grants_nothing (some run_id) s t l e = ground arith

lease_body-Taken :
    (owner now duration : ℕ) (scope : Option ℕ) (s t : Store) (l : StepLease)
    → lease_body owner now duration scope s ≡ ok (some l, t)
    → (c : Candidate) × (next_candidate now scope s ≡ some c)
      × Taken owner (now + duration) c.step.id l s t
unfolding ◌>>=◌
lease_body-Taken owner now duration scope s t l e =
    elim (Option-cases (next_candidate now scope s)) [
      | inl idle ↦ absurd (idle_grants_nothing scope s t l (rw idle at e))
      | inr (c, chosen) ↦
          (c, chosen, take_step-Taken owner now duration c.step.id s t l (rw chosen at e))
    ]

same_key :
    (owner expires i : ℕ) (s t : Store) (l : StepLease) (k : Taken owner expires i l s t)
    → k.step.id ≡ i
same_key owner expires i s t l k =
    (==_iff k.step.id i).0 (find_satisfies (is_step i) s.steps k.step k.loaded)

-- The conjunction of `_validate_lease` on a step that has just been leased.
leased_holds :
    (owner expires at : ℕ) (step : RunStep) (target : RunTarget)
    → at ≤ expires
    → holds
        (lease_on owner expires step target)
        at
        (record (lease_to owner expires step) { status = running })
      ≡ true
leased_holds owner expires at step target h = ground arith

validate-Taken :
    (owner expires i at : ℕ) (s t : Store) (l : StepLease) (k : Taken owner expires i l s t)
    → at ≤ expires
    → validate_lease l at t
      ≡ ok ((record (lease_to owner expires k.step) { status = running }, k.attempt), t)
unfolding validate_lease ◌>>=◌
validate-Taken owner expires i at s t l k h =
    let loaded : get_step k.step.id t
        ≡ some (record (lease_to owner expires k.step) { status = running }) =
      subst (λ j. get_step j t ≡ some (record (lease_to owner expires k.step) { status = running }))
        (sym (same_key owner expires i s t l k)) k.written in
    subst
      (λ (m : StepLease).
        validate_lease m at t
        ≡ ok ((record (lease_to owner expires k.step) { status = running }, k.attempt), t))
      (sym k.returned) (rw (loaded, leased_holds owner expires at k.step k.target h, k.opened))

-- A lease that `lease_next` returns is on the step that its query chose, and until the lease
-- expires `_validate_lease` accepts it and finds the step running, with as many attempts as the
-- lease counts.
pub lease_next-valid :
    (owner now duration at : ℕ) (scope : Option ℕ) (s t : Store) (l : StepLease)
    → lease_next owner now duration scope s ≡ (ok (some l), t)
    → at ≤ now + duration
    → (c : Candidate) × (step : RunStep) × (attempt : StepAttempt) × (next_candidate now scope s
        ≡ some c)
      × (l.step_id ≡ c.step.id)
      × (validate_lease l at t ≡ ok ((step, attempt), t))
      × (step.status ≡ running)
      × (step.attempt_count ≡ l.attempt_number)
unfolding lease_next transact
lease_next-valid owner now duration at scope s t l e h =
    let (c, chosen, k) =
      lease_body-Taken owner now duration scope s t l (settle-ok s t _ (some l) e) in
    (
      c,
      record (lease_to owner (now + duration) k.step) { status = running },
      k.attempt,
      chosen,
      ap (λ m. m.step_id) k.returned ∙ same_key owner (now + duration) c.step.id s t l k,
      validate-Taken owner (now + duration) c.step.id at s t l k h,
      refl,
      sym (ap (λ m. m.attempt_number) k.returned),
    )

-- The step of a lease before and after `lease_next`: it has one attempt more, which the lease counts.
pub lease_next-counts :
    (owner now duration : ℕ) (scope : Option ℕ) (s t : Store) (l : StepLease)
    → lease_next owner now duration scope s ≡ (ok (some l), t)
    → (before : RunStep) × (step : RunStep) × (get_step l.step_id s ≡ some before)
      × (get_step l.step_id t ≡ some step)
      × (step.attempt_count ≡ suc before.attempt_count)
      × (step.attempt_count ≡ l.attempt_number)
unfolding lease_next transact
lease_next-counts owner now duration scope s t l e =
    let (c, chosen, k) =
      lease_body-Taken owner now duration scope s t l (settle-ok s t _ (some l) e) in
    let own : c.step.id ≡ l.step_id =
      sym (ap (λ m. m.step_id) k.returned ∙ same_key owner (now + duration) c.step.id s t l k) in
    (
      k.step,
      record (lease_to owner (now + duration) k.step) { status = running },
      subst (λ i. get_step i s ≡ some k.step) own k.loaded,
      subst
          (λ i.
            get_step i t
            ≡ some (record (lease_to owner (now + duration) k.step) { status = running }))
          own k.written,
      refl,
      sym (ap (λ m. m.attempt_number) k.returned),
    )
