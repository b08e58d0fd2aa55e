-- ===== src/Kernel/Queue.antt =====
-- Which step `lease_next` takes: the query of backend/app/v2/research_runs.py as a choice.
pub mod Eligible
pub mod Order
use mathlib.Core.List.{Memᴰ}
use mathlib.Core.Path.{subst}
use omniverse_v.Prelude.{
  find-Memᴰ, ℕ, ◌<◌, ◌≡◌, sym, Bool, true, false, Option, some, List, [], ◌∷◌, arith, Bool-cases,
  inl, inr, find, any, All, insert_by, sort_by,
}
use omniverse_v.Domain.{succeeded}
use omniverse_v.Kernel.Rows.{RunStep}
use omniverse_v.Kernel.Tx.{Store}
use omniverse_v.Kernel.Lease.{Candidate, candidates, before, blocks, is_ready, next_candidate}

any_mem :
    (p : RunStep → Bool) (xs : List RunStep) (q : RunStep)
    → any p xs ≡ false
    → Memᴰ q xs
    → p q ≡ false
unfolding any
any_mem p [] q h m = elim m [ ]
any_mem p (x ∷ xs) q h (Memᴰ.head e) = rw e (ground arith)
any_mem p (x ∷ xs) q h (Memᴰ.tail m) = any_mem p xs q (ground arith) m

-- When the query of `lease_next` chooses a step, every step at an earlier position of the same
-- target has succeeded.
pub lease_in_sequence :
    (now : ℕ) (scope : Option ℕ) (s : Store) (c : Candidate) (q : RunStep)
    → next_candidate now scope s ≡ some c
    → Memᴰ q s.steps
    → q.target_id ≡ c.step.target_id
    → q.position < c.step.position
    → q.status ≡ succeeded
unfolding next_candidate
lease_in_sequence now scope s c q chosen m target earlier =
    let ready : is_ready s c ≡ true = (find-Memᴰ (is_ready s) _ c chosen).1 in
    elim (Bool-cases (any (blocks c.step) s.steps)) [
      | inl blocked ↦ absurd (ground arith)
      | inr clear ↦
          let free : blocks c.step q ≡ false = any_mem (blocks c.step) s.steps q clear m in
          ground arith
    ]
