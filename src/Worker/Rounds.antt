-- ===== src/Worker/Rounds.antt =====
-- How `run_until_idle` of backend/app/v2/worker.py ends.
use omniverse_v.Prelude.{ℕ, zero, suc, ◌+◌, ◌≤◌, ◌≡◌, none, arith, Option-cases, inl, inr}
use omniverse_v.Workflow.{Setup}
use omniverse_v.Worker.{Outside, State, completed, count_if, next_run, work_on, run_until_idle}

rounds_left :
    (w : Setup) (world : ℕ → Outside) (left done n : ℕ) (s t : State)
    → run_until_idle w world left done s ≡ (completed n, t)
    → (n ≤ done + left) × (next_run t.cursor t.store ≡ none)
unfolding run_until_idle
rounds_left w world zero done n s t e = cc
rounds_left w world (suc left) done n s t e = elim (Option-cases (next_run s.cursor s.store)) [
  | inl idle ↦ let e' = rw (idle, run_until_idle) at e in (ground arith, cc)
  | inr (i, chosen) ↦
      let (did, u) = work_on w (world left) i s in
      let rest =
        rounds_left w world left (count_if did done) n u t (rw (chosen, run_until_idle) at e) in
      (ground arith, rest.1)
]

-- If `run_until_idle` returns, no run is unfinished, and it has counted no more steps than its
-- iterations allow.
pub run_until_idle_bounds :
    (w : Setup) (world : ℕ → Outside) (max_iterations n : ℕ) (s t : State)
    → run_until_idle w world max_iterations 0 s ≡ (completed n, t)
    → (n ≤ max_iterations) × (next_run t.cursor t.store ≡ none)
run_until_idle_bounds w world max_iterations n s t e =
    let (few, idle) = rounds_left w world max_iterations 0 n s t e in (omega arith, idle)
