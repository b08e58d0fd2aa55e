-- ===== src/Kernel/Queries/ReadOnly.antt =====
-- The reads of the kernel change nothing.
use mathlib.Core.List.{List, [], ◌∷◌}
use omniverse_v.Prelude.{ℕ, ◌≡◌, Option, none, some}
use omniverse_v.Kernel.Rows.{OutcomeText, known, unknown, RunTarget, RunStep, StepAttempt}
use omniverse_v.Kernel.Tx.{Store, Tx, transact}
use omniverse_v.Kernel.Session.{require_run}
use omniverse_v.Kernel.Respects.{
  Law, Respects, Respects-bind, Respects-pure, respects_rules, transact_law,
}
use omniverse_v.Kernel.Frames.{frame}
use omniverse_v.Kernel.Queries.{map_each, read_outcome, project_target, project_step, get, get_body}

abbrev whole : Law
whole = frame (λ s. s)

require_run-whole : (i : ℕ) → Respects whole (require_run i)
unfolding require_run
require_run-whole i = search respects_rules

map_each-whole :
    {A B : Type 0} (f : A → Tx B) (xs : List A)
    → ((x : A) → Respects whole (f x))
    → Respects whole (map_each f xs)
unfolding map_each
map_each-whole f [] h = search respects_rules
map_each-whole f (x ∷ xs) h =
    Respects-bind (f x) _ (h x)
      (λ y. Respects-bind (map_each f xs) _ (map_each-whole f xs h) (λ ys. Respects-pure (y ∷ ys)))

read_outcome-whole : (o : Option OutcomeText) → Respects whole (read_outcome o)
read_outcome-whole none = search respects_rules
read_outcome-whole (some (known o)) = search respects_rules
read_outcome-whole (some unknown) = search respects_rules

project_target-whole : (t : RunTarget) → Respects whole (project_target t)
project_target-whole t = search (respects_rules, read_outcome-whole)

project_step-whole :
    (ts : List RunTarget) (rows : List StepAttempt) (r : RunStep)
    → Respects whole (project_step ts rows r)
project_step-whole ts rows r = search respects_rules

get_body-whole : (i : ℕ) → Respects whole (get_body i)
get_body-whole i =
    search
      (respects_rules, require_run-whole, map_each-whole, project_target-whole, project_step-whole)
      depth 12

pub get-state : (i : ℕ) (s : Store) → (get i s).1 ≡ s
unfolding get transact
get-state i s = transact_law whole (get_body i) s (get_body-whole i)
