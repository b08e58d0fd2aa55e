-- ===== src/Kernel/Agreement.antt =====
-- What every reader of the run tables may rely on, after any history from an empty database.
use mathlib.Core.Path.{subst}
use omniverse_v.Prelude.{ℕ, ◌≡◌, Bool, true, some, List, [], ◌∷◌, find, All, Bool-cases, inl, inr}
use omniverse_v.Kernel.Rows.{Run, RunStep, ResearchWorkspace}
use omniverse_v.Kernel.Tx.{Store}
use omniverse_v.Kernel.Session.{is_run, is_step, get_run, get_step}
use omniverse_v.Kernel.Calls.{Call, Digests, perform_all}
use omniverse_v.Kernel.Consistent.{IsConsistent, RunFits, StepFits, fits}
use omniverse_v.Kernel.Consistent.Histories.{perform_all-consistency}

-- A database with no run yet. The workspaces belong to another part of the program.
abbrev pub start : (ℕ → ℕ) → List ResearchWorkspace → Store
start uuids workspaces = record {
  runs = [];
  targets = [];
  steps = [];
  attempts = [];
  checkpoints = [];
  events = [];
  workspaces = workspaces;
  gaps = [];
  uuids = uuids;
  drawn = 0;
}

found_All {ℓ κ} :
    {A : Type ℓ} (P : A → Type κ) (p : A → Bool) (rows : List A) (r : A)
    → All P rows
    → find p rows ≡ some r
    → P r
unfolding find
found_All P p [] r h e = cc
found_All P p (x ∷ xs) r h e = elim (Bool-cases (p x)) [
  | inl here ↦ let same : x ≡ r = cc (rw here at e) in subst P same h.0
  | inr there ↦ found_All P p xs r h.1 (rw there at e)
]

history-IsConsistent :
    (d : Digests) (cs : List Call) (uuids : ℕ → ℕ) (workspaces : List ResearchWorkspace)
    → IsConsistent (perform_all d cs (start uuids workspaces))
history-IsConsistent d cs uuids workspaces =
    perform_all-consistency d cs (start uuids workspaces) (record { runs = tt; steps = tt })

-- After any history from a database without runs, the outcome of a run is the one that its status
-- calls for: none while it is live, COMPLETE or PARTIAL if it has succeeded, FAILED if it has
-- failed and CANCELLED if it is cancelled.
pub outcome-fits-status :
    (d : Digests) (cs : List Call) (uuids : ℕ → ℕ) (workspaces : List ResearchWorkspace) (i : ℕ)
    (r : Run)
    → get_run i (perform_all d cs (start uuids workspaces)) ≡ some r
    → fits r.status r.outcome ≡ true
outcome-fits-status d cs uuids workspaces i r e =
    found_All RunFits (is_run i) _ r (history-IsConsistent d cs uuids workspaces).runs e

-- After any history from a database without runs, a running step has an owner, an expiry and at
-- least one attempt, and a step that waits for a retry has the time at which it is due.
pub step-IsLeased :
    (d : Digests) (cs : List Call) (uuids : ℕ → ℕ) (workspaces : List ResearchWorkspace) (i : ℕ)
    (r : RunStep)
    → get_step i (perform_all d cs (start uuids workspaces)) ≡ some r
    → StepFits r
step-IsLeased d cs uuids workspaces i r e =
    found_All StepFits (is_step i) _ r (history-IsConsistent d cs uuids workspaces).steps e
