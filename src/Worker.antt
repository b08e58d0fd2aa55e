-- ===== src/Worker.antt =====
-- ResearchWorker of backend/app/v2/worker.py, and the choice of the next run in
-- backend/app/v2/runtime.py. One worker is modelled; several interleave between the calls of the
-- kernel. What a handler does may depend on the number of the round.
pub mod Histories
pub mod Rounds
pub mod Turns
mod Tests
use omniverse_v.Prelude.{
  ℕ, zero, suc, ◌+◌, ◌-◌, ◌==◌, Bool, true, false, ◌&&◌, ◌||◌, Option, none, some, List, [], ◌∷◌,
  leb, ltb, find, filter, map, length, sort_by, if◌then◌else◌,
}
use omniverse_v.Domain.{RunStatus, same_status, pending, running, waiting_retry, cancelling}
use omniverse_v.Kernel.Rows.{Run}
use omniverse_v.Kernel.Tx.{Store, Error, Result, ok, err}
use omniverse_v.Kernel.Lease.{reconcile_startup}
use omniverse_v.Workflow.{Setup, Handlers, Instants, Ended, returned, raised, crashed, run_next}

-- The query of `next_run`.
abbrev pub is_unfinished : Run → Bool
is_unfinished r =
    same_status r.status pending
    || (same_status r.status running
        || (same_status r.status waiting_retry || same_status r.status cancelling))

abbrev pub run_order : Run → Run → Bool
run_order a b = ltb a.created_at b.created_at || (a.created_at == b.created_at && leb a.id b.id)

unfoldable pub unfinished_ids : Store → List ℕ
unfinished_ids s = map (λ (r : Run). r.id) (sort_by run_order (filter is_unfinished s.runs))

-- `ids.index(prior)`, if there is one.
unfoldable pub index_of : ℕ → List ℕ → Option ℕ
index_of i [] = none
index_of i (j ∷ js) =
    let rest = index_of i js in
    if j == i then some 0 else (elim rest [ none ↦ none | some n ↦ some (suc n) ])

abbrev pub get_or {ℓ} : {A : Type ℓ} → List A → ℕ → A → A
get_or [] n d = d
get_or (x ∷ xs) zero d = x
get_or (x ∷ xs) (suc n) d = get_or xs n d

-- `(index + 1) % len(ids)` for an index in range.
abbrev pub wrap : ℕ → ℕ → ℕ
wrap n size = if suc n == size then 0 else suc n

abbrev pub after_found : Option ℕ → ℕ → ℕ
after_found none size = 0
after_found (some n) size = wrap n size

abbrev pub index_after : Option ℕ → List ℕ → ℕ
index_after none ids = 0
index_after (some prior) ids = after_found (index_of prior ids) (length ids)

-- The run whose turn it is among these, after the prior one.
unfoldable pub choose : Option ℕ → List ℕ → Option ℕ
choose prior [] = none
choose prior (i ∷ ids) = some (get_or (i ∷ ids) (index_after prior (i ∷ ids)) i)

-- `next_run`, which is also its cursor afterwards; without unfinished runs the cursor stays.
unfoldable pub next_run : Option ℕ → Store → Option ℕ
unfolding choose
next_run cursor s = choose cursor (unfinished_ids s)

-- What a round finds outside the database: the readings of the clock and the handlers' work.
pub record Outside : Type 0 where
  pub instants : Instants
  pub handlers : Handlers

-- The worker's database and cursor.
pub record State : Type 0 where
  pub store : Store
  pub cursor : Option ℕ

-- A return value counts as work; an exception is logged and counts as none.
abbrev pub worked : Ended → Bool
worked (returned b) = b
worked (raised e) = false
worked crashed = false

-- One call of the workflow for a run.
unfoldable pub work_on : Setup → Outside → ℕ → State → Bool × State
work_on w o run_id s =
    let (e, t) = run_next w o.handlers o.instants run_id s.store in
    (worked e, record { store = t; cursor = some run_id })

-- `run_next` of the worker.
unfoldable pub run_once : Setup → Outside → State → Bool × State
unfolding work_on
run_once w o s = elim (next_run s.cursor s.store) [
  | none ↦ (false, s)
  | some run_id ↦ work_on w o run_id s
]

-- How `run_until_idle` ends: with the number of steps, or with RuntimeError.
pub data Idle : Type 0 where
  completed : ℕ → Idle
  not_idle : Idle

abbrev pub count_if : Bool → ℕ → ℕ
count_if true n = suc n
count_if false n = n

-- `run_until_idle`, with the iterations that are left.
unfoldable pub run_until_idle : Setup → (ℕ → Outside) → ℕ → ℕ → State → Idle × State
unfolding work_on
run_until_idle w world zero done s = (not_idle, s)
run_until_idle w world (suc left) done s = elim (next_run s.cursor s.store) [
  | none ↦ (completed done, s)
  | some run_id ↦
      let (did, t) = work_on w (world left) run_id s in
      run_until_idle w world left (count_if did done) t
]

-- A round of `_loop`: the readings of the two clocks, the loop's own before and after a reclaim.
pub record Round : Type 0 where
  pub elapsed_at : ℕ
  pub reclaimed_at : ℕ
  pub now : ℕ
  pub outside : Outside

-- `_loop` before it stops: the time of the last reclaim, and none once a reclaim has raised.
pub record Loop : Type 0 where
  pub state : State
  pub last_reclaim : ℕ

abbrev pub after_reclaim : State → ℕ → Result ℕ × Store → Option Loop
after_reclaim s at (ok n, t) = some (record { state = record s { store = t }; last_reclaim = at })
after_reclaim s at (err e, t) = none

-- `reconcile_startup`, if it is time.
unfoldable pub reclaim : ℕ → Round → Loop → Option Loop
reclaim reclaim_seconds r l =
    if leb reclaim_seconds (r.elapsed_at - l.last_reclaim)
    then after_reclaim l.state r.reclaimed_at (reconcile_startup r.now l.state.store)
    else some l

unfoldable pub round : Setup → ℕ → Round → Loop → Option Loop
unfolding reclaim run_once
round w reclaim_seconds r l = elim (reclaim reclaim_seconds r l) [
  | none ↦ none
  | some m ↦ some (record m { state = (run_once w r.outside m.state).1 })
]

-- The rounds until `stop_event` is set.
unfoldable pub run_loop : Setup → ℕ → List Round → Loop → Option Loop
unfolding round
run_loop w reclaim_seconds [] l = some l
run_loop w reclaim_seconds (r ∷ rs) l = elim (round w reclaim_seconds r l) [
  | none ↦ none
  | some m ↦ run_loop w reclaim_seconds rs m
]
