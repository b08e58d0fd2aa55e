-- ===== src/Kernel/Tx.antt =====
-- Transactions of research_runs.py: `with Session(engine) as session, session.begin()`. A body
-- that raises rolls back, so it has no state; one that returns commits the state it built.
use omniverse_v.Prelude.{ℕ, Bool, true, false, Option, none, some, List, [], ◌∷◌, String}
use omniverse_v.Domain.{RunStatus}
use omniverse_v.Kernel.Rows.{
  Run, RunTarget, RunStep, StepAttempt, Checkpoint, OutboxEvent, ResearchWorkspace, ResearchGap,
}

-- `reason_code` of IllegalTransitionError.
pub data Reason : Type 0 where
  terminal_state not_cancelling incomplete_targets incomplete_steps : Reason
  not_waiting_input not_retryable no_steps_no_partial : Reason
  from_to : RunStatus → RunStatus → Reason

-- `integrity` is the database's IntegrityError on a duplicate or a foreign key, `assertion` a failed `assert`
-- or a read of a missing row, `bad_outcome` the ValueError of `RunOutcome(text)`.
pub data Error : Type 0 where
  idempotency_conflict lease_conflict retry_limit missing_retry_due : Error
  run_not_found lookup_failed integrity assertion bad_outcome : Error
  illegal_transition : (agent target : String) → Reason → Error

pub data Result {ℓ} (A : Type ℓ) : Type ℓ where
  ok : A → Result A
  err : Error → Result A

-- The database, and the values that `uuid4` will return.
pub record Store : Type 0 where
  pub runs : List Run
  pub targets : List RunTarget
  pub steps : List RunStep
  pub attempts : List StepAttempt
  pub checkpoints : List Checkpoint
  pub events : List OutboxEvent
  pub workspaces : List ResearchWorkspace
  pub gaps : List ResearchGap
  pub uuids : ℕ → ℕ
  pub drawn : ℕ

abbrev pub Tx : Type 0 → Type 0
Tx A = Store → Result (A × Store)

module _ {A : Type 0} where
  unfoldable pub pure : A → Tx A
  pure a s = ok (a, s)

  unfoldable pub raise : Error → Tx A
  raise e s = err e

  unfoldable pub gets : (Store → A) → Tx A
  gets f s = ok (f s, s)

  unfoldable pub lift : Result A → Tx A
  lift (ok a) s = ok (a, s)
  lift (err e) s = err e

  -- A read of a row that must exist.
  unfoldable pub required : Option A → Error → Tx A
  required none e s = err e
  required (some a) e s = ok (a, s)

unfoldable pub modify : (Store → Store) → Tx (Unit {0})
modify f s = ok (tt, f s)

unfoldable pub guard : Bool → Error → Tx (Unit {0})
guard true e s = ok (tt, s)
guard false e s = err e

abbrev pub continue : {A B : Type 0} → Result (A × Store) → (A → Tx B) → Result (B × Store)
continue (ok (a, s)) f = f a s
continue (err e) f = err e

infixl 5 ◌>>=◌ ◌>>◌
unfoldable pub ◌>>=◌ : {A B : Type 0} → Tx A → (A → Tx B) → Tx B
unfolding pure raise gets lift required modify guard
◌>>=◌ m f s = continue (m s) f

abbrev pub ◌>>◌ : {A B : Type 0} → Tx A → Tx B → Tx B
m >> k = m >>= λ _. k

abbrev pub when : Bool → Tx (Unit {0}) → Tx (Unit {0})
when true m = m
when false m = pure tt

-- `if row is None: … else: …`.
abbrev pub case_option : {A B : Type 0} → Option A → Tx B → (A → Tx B) → Tx B
case_option none m f = m
case_option (some a) m f = f a

-- A `for` loop over rows that a query returned.
unfoldable pub for_each : {A : Type 0} → List A → (A → Tx (Unit {0})) → Tx (Unit {0})
for_each [] body = pure tt
for_each (x ∷ xs) body = body x >> for_each xs body

-- What the caller sees of a transaction: its result, and the database after it.
abbrev pub settle : {A : Type 0} → Store → Result (A × Store) → Result A × Store
settle s (ok (a, s')) = (ok a, s')
settle s (err e) = (err e, s)

unfoldable pub transact : {A : Type 0} → Tx A → Store → Result A × Store
transact m s = settle s (m s)
