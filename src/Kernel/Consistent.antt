-- ===== src/Kernel/Consistent.antt =====
-- The invariant of single rows: a run has an outcome exactly when its status is terminal, and the
-- one that its status calls for; a running step is leased, and a step that waits for a retry has a
-- due time. How each write to the database keeps it.
pub mod Operations
pub mod Histories
use omniverse_v.Prelude.{
  ℕ, zero, suc, ◌≤◌, ◌≡◌, refl, Bool, true, false, Option, none, some, List, [], ◌∷◌, ◌++◌, arith,
  ◌==◌, if◌then◌else◌, find, modify_first, update_where, String, Bool-cases, Option-cases, inl, inr,
  ap, is_some, All, sym, ◌∙◌,
}
use mathlib.Core.Option.{some-injective}
use omniverse_v.Domain.{
  RunStatus, StepKind, RunOutcome, pending, running, waiting_retry, waiting_input, cancelling,
  cancelled, succeeded, failed, complete, partial, outcome_failed, outcome_cancelled,
  legal_transition, same_status, is_terminal,
}
use omniverse_v.Kernel.Rows.{
  Run, RunStep, RunTarget, StepAttempt, Checkpoint, OutboxEvent, EffectKey, EventType, EventPayload,
}
use omniverse_v.Kernel.Tx.{
  Store, Tx, Error, Result, ok, err, gets, modify, guard, required, pure, ◌>>=◌,
}
use omniverse_v.Kernel.Session.{
  is_run, is_step, get_run, set_step, update_steps, add_step, set_run, set_target, set_attempt,
  new_id, add_event, add_run, add_target, add_attempt, add_checkpoint, emit, transition_run,
  transition_step,
}
use omniverse_v.Kernel.Respects.{
  Law, Post, Respects, Respects-modify, Respects-gets-bind, respects_rules,
}

-- The outcomes that go with a status.
abbrev pub fits : RunStatus → Option RunOutcome → Bool
fits succeeded (some complete) = true
fits succeeded (some partial) = true
fits failed (some outcome_failed) = true
fits cancelled (some outcome_cancelled) = true
fits pending none = true
fits running none = true
fits waiting_retry none = true
fits waiting_input none = true
fits cancelling none = true
fits _ _ = false

abbrev pub RunFits : Run → Type 0
RunFits r = fits r.status r.outcome ≡ true

abbrev pub LeaseFits : RunStatus → RunStep → Type 0
LeaseFits running r =
    (is_some r.lease_owner ≡ true) × (is_some r.lease_expires_at ≡ true) × (1 ≤ r.attempt_count)
LeaseFits waiting_retry r = is_some r.retry_due_at ≡ true
LeaseFits _ r = Unit

abbrev pub StepFits : RunStep → Type 0
StepFits r = LeaseFits r.status r

pub record IsConsistent (s : Store) : Type 0 where
  pub runs : All RunFits s.runs
  pub steps : All StepFits s.steps

abbrev pub consistency : Law
consistency = record {
  holds = λ s t. IsConsistent s → IsConsistent t;
  same = λ s h. h;
  chain = λ s t u f g h. g (f h);
}

-- A write to the first row that passes a test.
All-modify_first {ℓ κ} :
    {A : Type ℓ} (P : A → Type κ) (p : A → Bool) (f : A → A) (rows : List A)
    → All P rows
    → ((r : A) → find p rows ≡ some r → P r → P (f r))
    → All P (modify_first p f rows)
unfolding find modify_first
All-modify_first P p f [] h k = tt
All-modify_first P p f (x ∷ xs) h k = elim (Bool-cases (p x)) [
  | inl here ↦ rw here (k x (rw here) h.0, h.1)
  | inr there ↦ rw there (h.0, All-modify_first P p f xs h.1 (λ r e. k r (rw there e)))
]

keep_if {ℓ κ} :
    {A : Type ℓ} (P : A → Type κ) (b : Bool) (f : A → A) (x : A)
    → P x
    → (P x → P (f x))
    → P (if b then f x else x)
keep_if P true f x h k = k h
keep_if P false f x h k = h

All-update_where {ℓ κ} :
    {A : Type ℓ} (P : A → Type κ) (p : A → Bool) (f : A → A) (rows : List A)
    → All P rows
    → ((r : A) → P r → P (f r))
    → All P (update_where p f rows)
unfolding update_where
All-update_where P p f [] h k = tt
All-update_where P p f (x ∷ xs) h k =
    (keep_if P (p x) f x h.0 (k x), All-update_where P p f xs h.1 k)

All-append {ℓ κ} :
    {A : Type ℓ} (P : A → Type κ) (rows : List A) (x : A)
    → All P rows
    → P x
    → All P (rows ++ x ∷ [])
All-append P [] x h k = (k, tt)
All-append P (y ∷ ys) x h k = (h.0, All-append P ys x h.1 k)

pub set_step-consistency :
    (i : ℕ) (f : RunStep → RunStep)
    → ((r : RunStep) → StepFits r → StepFits (f r))
    → Respects consistency (set_step i f)
unfolding set_step
set_step-consistency i f k = Respects-modify _ (λ s h. record {
  runs = h.runs;
  steps = All-modify_first StepFits (is_step i) f s.steps h.steps (λ r e. k r);
})

pub update_steps-consistency :
    (p : RunStep → Bool) (f : RunStep → RunStep)
    → ((r : RunStep) → StepFits r → StepFits (f r))
    → Respects consistency (update_steps p f)
unfolding update_steps
update_steps-consistency p f k =
    Respects-modify _
      (λ s h. record { runs = h.runs; steps = All-update_where StepFits p f s.steps h.steps k })

write_run :
    (s : Store) (i : ℕ) (f : Run → Run)
    → ((r : Run) → get_run i s ≡ some r → RunFits r → RunFits (f r))
    → Post consistency s (set_run i f s)
unfolding set_run modify
write_run s i f k h = record {
  runs = All-modify_first RunFits (is_run i) f s.runs h.runs k;
  steps = h.steps;
}

pub set_run-consistency :
    (i : ℕ) (f : Run → Run)
    → ((r : Run) → RunFits r → RunFits (f r))
    → Respects consistency (set_run i f)
set_run-consistency i f k = record { at = λ s. write_run s i f (λ r e. k r) }

pub transition_step-consistency :
    (agent name : String) (i : ℕ) (target : RunStatus) (also : RunStep → RunStep)
    → ((r : RunStep) → StepFits r → StepFits (record (also r) { status = target }))
    → Respects consistency (transition_step agent name i target also)
unfolding transition_step
transition_step-consistency agent name i target also k =
    search (respects_rules, set_step-consistency, k) depth 9

-- A legal transition leaves no terminal status, so the outcome is empty before and after it.
legal-fits :
    (a b : RunStatus) (o : Option RunOutcome)
    → legal_transition a b ≡ true
    → is_terminal b ≡ false
    → fits a o ≡ true
    → fits b o ≡ true
unfolding legal_transition
legal-fits a b o h k f = ground arith

fits_after :
    (o : Option Run) (a : Run) (b : RunStatus)
    → o ≡ some a
    → legal_transition a.status b ≡ true
    → is_terminal b ≡ false
    → (r : Run) → o ≡ some r
    → RunFits r
    → RunFits (record r { status = b })
fits_after o a b e legal live r e' h =
    let same : r ≡ a = cc in legal-fits r.status b r.outcome (rw same legal) live h

-- A run that moves to a live status keeps its empty outcome.
pub transition_run-consistency :
    (agent name : String) (i : ℕ) (target : RunStatus)
    → is_terminal target ≡ false
    → Respects consistency (transition_run agent name i target)
unfolding transition_run ◌>>=◌
transition_run-consistency agent name i target live = record {
  at = λ s. elim (Option-cases (get_run i s)) [
    | inl gone ↦ rw gone tt
    | inr (row, e) ↦ rw e (elim (Bool-cases (same_status row.status target)) [
      | inl same ↦ rw same (λ h. h)
      | inr moves ↦ rw moves (elim (Bool-cases (legal_transition row.status target)) [
        | inl legal ↦ rw legal (
            write_run s i (λ r. record r { status = target })
              (fits_after (get_run i s) row target e legal live))
        | inr illegal ↦ rw illegal tt
      ])
    ])
  ];
}

-- What leaves runs and steps alone.
pub untouched-consistency :
    (f : Store → Store)
    → ((s : Store) → (f s).runs ≡ s.runs)
    → ((s : Store) → (f s).steps ≡ s.steps)
    → Respects consistency (modify f)
untouched-consistency f p q =
    Respects-modify f (λ s h. record { runs = rw p h.runs; steps = rw q h.steps })

pub set_target-consistency :
    (i : ℕ) (f : RunTarget → RunTarget) → Respects consistency (set_target i f)
unfolding set_target
set_target-consistency i f = untouched-consistency _ (λ s. refl) (λ s. refl)

pub set_attempt-consistency :
    (i n : ℕ) (f : StepAttempt → StepAttempt) → Respects consistency (set_attempt i n f)
unfolding set_attempt
set_attempt-consistency i n f = untouched-consistency _ (λ s. refl) (λ s. refl)

pub new_id-consistency : Respects consistency new_id
unfolding new_id
new_id-consistency = search (respects_rules, untouched-consistency)

pub add_event-consistency : (r : OutboxEvent) → Respects consistency (add_event r)
unfolding add_event
add_event-consistency r = search (respects_rules, untouched-consistency)

pub add_target-consistency : (r : RunTarget) → Respects consistency (add_target r)
unfolding add_target
add_target-consistency r = search (respects_rules, untouched-consistency)

pub add_attempt-consistency : (r : StepAttempt) → Respects consistency (add_attempt r)
unfolding add_attempt
add_attempt-consistency r = search (respects_rules, untouched-consistency)

pub add_checkpoint-consistency : (r : Checkpoint) → Respects consistency (add_checkpoint r)
unfolding add_checkpoint
add_checkpoint-consistency r = search (respects_rules, untouched-consistency)

insert_run :
    (r : Run)
    → RunFits r
    → Respects consistency (modify (λ s. record s { runs = s.runs ++ r ∷ [] }))
insert_run r k =
    Respects-modify _
      (λ s h. record { runs = All-append RunFits s.runs r h.runs k; steps = h.steps })

pub add_run-consistency : (r : Run) → RunFits r → Respects consistency (add_run r)
unfolding add_run
add_run-consistency r k = search (respects_rules, insert_run)

insert_step :
    (r : RunStep)
    → StepFits r
    → Respects consistency (modify (λ s. record s { steps = s.steps ++ r ∷ [] }))
insert_step r k =
    Respects-modify _
      (λ s h. record { runs = h.runs; steps = All-append StepFits s.steps r h.steps k })

pub add_step-consistency : (r : RunStep) → StepFits r → Respects consistency (add_step r)
unfolding add_step
add_step-consistency r k = search (respects_rules, insert_step)

pub emit-consistency :
    (run_id : ℕ) (kind : EventType) (payload : EventPayload) (key : EffectKey) (now : ℕ)
    → Respects consistency (emit run_id kind payload key now)
unfolding emit
emit-consistency run_id kind payload key now =
    search (respects_rules, new_id-consistency, add_event-consistency)

pub ruleset consistency_writes = (
  respects_rules, set_step-consistency, update_steps-consistency, set_run-consistency,
  set_target-consistency, set_attempt-consistency, new_id-consistency, add_run-consistency,
  add_target-consistency, add_attempt-consistency, add_checkpoint-consistency, add_step-consistency,
  emit-consistency, transition_run-consistency, transition_step-consistency,
)
