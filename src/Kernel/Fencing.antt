-- ===== src/Kernel/Fencing.antt =====
-- Leases as fencing tokens: no operation of the kernel lowers a step's `attempt_count` or moves a
-- step, so a lease whose number has been passed is refused for ever.
pub mod Operations
pub mod Histories
use omniverse_v.Prelude.{
  ℕ, suc, ◌≤◌, ◌<◌, ◌≡◌, refl, Bool, true, false, Option, none, some, List, [], ◌∷◌, ◌++◌, arith,
  ◌==◌, if◌then◌else◌, find, modify_first, update_where, String, Bool-cases, inl, inr, ap,
}
use native.Mathlib.Nat.{le_refl, le-suc}
use omniverse_v.Domain.{RunStatus, StepKind}
use omniverse_v.Kernel.Rows.{
  Run, RunStep, RunTarget, StepAttempt, Checkpoint, OutboxEvent, EffectKey, EventType, EventPayload,
}
use omniverse_v.Kernel.Tx.{Store, Tx, Error, gets, modify, guard, ◌>>=◌}
use omniverse_v.Kernel.Session.{
  is_step, get_step, set_step, update_steps, add_step, set_run, set_target, set_attempt, new_id,
  add_event, add_run, add_target, add_attempt, add_checkpoint, emit, transition_run,
  transition_step,
}
use omniverse_v.Kernel.Respects.{Law, Respects, Respects-modify, respects_rules}

-- What a step keeps through every operation.
pub record Follows (r r' : RunStep) : Type 0 where
  pub same_id : r'.id ≡ r.id
  pub same_run : r'.run_id ≡ r.run_id
  pub same_target : r'.target_id ≡ r.target_id
  pub same_position : r'.position ≡ r.position
  pub counts : r.attempt_count ≤ r'.attempt_count

pub Follows-refl : (r : RunStep) → Follows r r
Follows-refl r = ground arith

pub Follows-trans : {r s t : RunStep} → Follows r s → Follows s t → Follows r t
Follows-trans h k = ground arith

abbrev pub FoundFollows : Option RunStep → Option RunStep → Type 0
FoundFollows none o = Unit
FoundFollows (some r) none = ⊥
FoundFollows (some r) (some r') = Follows r r'

abbrev pub RowsFollow : List RunStep → List RunStep → Type 0
RowsFollow rows rows' = (i : ℕ) → FoundFollows (find (is_step i) rows) (find (is_step i) rows')

pub FoundFollows-refl : (o : Option RunStep) → FoundFollows o o
FoundFollows-refl none = tt
FoundFollows-refl (some r) = Follows-refl r

pub FoundFollows-trans :
    (a b c : Option RunStep) → FoundFollows a b → FoundFollows b c → FoundFollows a c
FoundFollows-trans none b c h k = tt
FoundFollows-trans (some r) none c h k = absurd h
FoundFollows-trans (some r) (some s) none h k = absurd k
FoundFollows-trans (some r) (some s) (some t) h k = Follows-trans h k

same_head : (i : ℕ) (x y : RunStep) → Follows x y → is_step i y ≡ is_step i x
same_head i x y h = ap (λ j. j == i) h.same_id

FoundFollows-cons :
    (i : ℕ) (x y : RunStep) (xs ys : List RunStep)
    → Follows x y
    → FoundFollows (find (is_step i) xs) (find (is_step i) ys)
    → FoundFollows (find (is_step i) (x ∷ xs)) (find (is_step i) (y ∷ ys))
unfolding find
FoundFollows-cons i x y xs ys h k = elim (Bool-cases (is_step i x)) [
  | inl here ↦ rw (same_head i x y h, here) h
  | inr there ↦ rw (same_head i x y h, there) k
]

modify_first-RowsFollow :
    (j : ℕ) (f : RunStep → RunStep) (rows : List RunStep)
    → ((r : RunStep) → Follows r (f r))
    → RowsFollow rows (modify_first (is_step j) f rows)
unfolding modify_first
modify_first-RowsFollow j f [] h i = FoundFollows-refl (find (is_step i) [])
modify_first-RowsFollow j f (x ∷ xs) h i = elim (Bool-cases (is_step j x)) [
  | inl here ↦ rw here (FoundFollows-cons i x (f x) xs xs (h x) (FoundFollows-refl _))
  | inr there ↦ rw there (
      FoundFollows-cons i x x xs (modify_first (is_step j) f xs) (Follows-refl x)
        (modify_first-RowsFollow j f xs h i))
]

update-Follows :
    (b : Bool) (f : RunStep → RunStep) (r : RunStep)
    → Follows r (f r)
    → Follows r (if b then f r else r)
update-Follows true f r h = h
update-Follows false f r h = Follows-refl r

update_where-RowsFollow :
    (p : RunStep → Bool) (f : RunStep → RunStep) (rows : List RunStep)
    → ((r : RunStep) → Follows r (f r))
    → RowsFollow rows (update_where p f rows)
unfolding update_where
update_where-RowsFollow p f [] h i = FoundFollows-refl (find (is_step i) [])
update_where-RowsFollow p f (x ∷ xs) h i =
    FoundFollows-cons i x (if p x then f x else x) xs (update_where p f xs)
      (update-Follows (p x) f x (h x)) (update_where-RowsFollow p f xs h i)

append-RowsFollow : (rows more : List RunStep) → RowsFollow rows (rows ++ more)
unfolding find
append-RowsFollow [] more i = tt
append-RowsFollow (x ∷ xs) more i =
    FoundFollows-cons i x x xs (xs ++ more) (Follows-refl x) (append-RowsFollow xs more i)

-- The law of this file: each step that was on record is on record, and follows what it was.
abbrev pub fencing : Law
fencing = record {
  holds = λ s t. RowsFollow s.steps t.steps;
  same = λ s i. FoundFollows-refl (get_step i s);
  chain =
      λ s t u h k i. FoundFollows-trans (get_step i s) (get_step i t) (get_step i u) (h i) (k i);
}

pub set_step-fencing :
    (i : ℕ) (f : RunStep → RunStep)
    → ((r : RunStep) → Follows r (f r))
    → Respects fencing (set_step i f)
unfolding set_step
set_step-fencing i f h = Respects-modify _ (λ s. modify_first-RowsFollow i f s.steps h)

pub update_steps-fencing :
    (p : RunStep → Bool) (f : RunStep → RunStep)
    → ((r : RunStep) → Follows r (f r))
    → Respects fencing (update_steps p f)
unfolding update_steps
update_steps-fencing p f h = Respects-modify _ (λ s. update_where-RowsFollow p f s.steps h)

-- What leaves the table of steps alone.
pub untouched-fencing :
    (f : Store → Store) → ((s : Store) → (f s).steps ≡ s.steps) → Respects fencing (modify f)
untouched-fencing f h = Respects-modify f (λ s i. rw h (FoundFollows-refl (get_step i s)))

pub set_run-fencing : (i : ℕ) (f : Run → Run) → Respects fencing (set_run i f)
unfolding set_run
set_run-fencing i f = untouched-fencing _ (λ s. refl)

pub set_target-fencing : (i : ℕ) (f : RunTarget → RunTarget) → Respects fencing (set_target i f)
unfolding set_target
set_target-fencing i f = untouched-fencing _ (λ s. refl)

pub set_attempt-fencing :
    (i n : ℕ) (f : StepAttempt → StepAttempt) → Respects fencing (set_attempt i n f)
unfolding set_attempt
set_attempt-fencing i n f = untouched-fencing _ (λ s. refl)

pub new_id-fencing : Respects fencing new_id
unfolding new_id
new_id-fencing = search (respects_rules, untouched-fencing)

pub add_event-fencing : (r : OutboxEvent) → Respects fencing (add_event r)
unfolding add_event
add_event-fencing r = search (respects_rules, untouched-fencing)

pub add_run-fencing : (r : Run) → Respects fencing (add_run r)
unfolding add_run
add_run-fencing r = search (respects_rules, untouched-fencing)

pub add_target-fencing : (r : RunTarget) → Respects fencing (add_target r)
unfolding add_target
add_target-fencing r = search (respects_rules, untouched-fencing)

pub add_attempt-fencing : (r : StepAttempt) → Respects fencing (add_attempt r)
unfolding add_attempt
add_attempt-fencing r = search (respects_rules, untouched-fencing)

pub add_checkpoint-fencing : (r : Checkpoint) → Respects fencing (add_checkpoint r)
unfolding add_checkpoint
add_checkpoint-fencing r = search (respects_rules, untouched-fencing)

pub append-fencing :
    (r : RunStep) → Respects fencing (modify (λ s. record s { steps = s.steps ++ r ∷ [] }))
append-fencing r = Respects-modify _ (λ s. append-RowsFollow s.steps (r ∷ []))

pub add_step-fencing : (r : RunStep) → Respects fencing (add_step r)
unfolding add_step
add_step-fencing r = search (respects_rules, append-fencing)

pub emit-fencing :
    (run_id : ℕ) (kind : EventType) (payload : EventPayload) (key : EffectKey) (now : ℕ)
    → Respects fencing (emit run_id kind payload key now)
unfolding emit
emit-fencing run_id kind payload key now =
    search (respects_rules, new_id-fencing, add_event-fencing)

pub transition_run-fencing :
    (agent name : String) (i : ℕ) (target : RunStatus)
    → Respects fencing (transition_run agent name i target)
unfolding transition_run
transition_run-fencing agent name i target = search (respects_rules, set_run-fencing)

Follows-also :
    (target : RunStatus) (also : RunStep → RunStep)
    → ((r : RunStep) → Follows r (also r))
    → (r : RunStep) → Follows r (record (also r) { status = target })
Follows-also target also h r = let follows : Follows r (also r) = h r in ground arith

pub transition_step-fencing :
    (agent name : String) (i : ℕ) (target : RunStatus) (also : RunStep → RunStep)
    → ((r : RunStep) → Follows r (also r))
    → Respects fencing (transition_step agent name i target also)
unfolding transition_step
transition_step-fencing agent name i target also h =
    search (respects_rules, set_step-fencing, Follows-also target also h) depth 9

pub ruleset fencing_writes = (
  respects_rules, set_step-fencing, update_steps-fencing, set_run-fencing, set_target-fencing,
  set_attempt-fencing, new_id-fencing, add_run-fencing, add_target-fencing, add_attempt-fencing,
  add_checkpoint-fencing, add_step-fencing, emit-fencing, transition_run-fencing,
  transition_step-fencing, le_refl, le-suc,
)
