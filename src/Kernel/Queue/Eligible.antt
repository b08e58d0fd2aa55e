-- ===== src/Kernel/Queue/Eligible.antt =====
-- Which steps the query of `lease_next` may take: what its WHERE clause and `is_ready` ask for.
use mathlib.Core.List.{Memᴰ}
use mathlib.Core.Path.{subst}
use omniverse_v.Prelude.{
  ℕ, ◌≤◌, ◌≡◌, ◌≢◌, ◌⊎◌, refl, sym, Bool, true, false, ◌&&◌, Option, none, some, List, [], ◌∷◌,
  arith, Bool-cases, Option-cases, inl, inr, All, any, if◌then◌else◌,
}
use omniverse_v.Domain.{RunStatus, pending, running, waiting_retry, succeeded, same_status}
use omniverse_v.Kernel.Rows.{Run, RunStep}
use omniverse_v.Kernel.Tx.{Store}
use omniverse_v.Kernel.Session.{get_run}
use omniverse_v.Kernel.Lease.{
  Candidate, candidates, blocks, is_ready, is_runnable, is_due, in_scope, qualifies,
}

-- A pending step, or one whose retry is due.
abbrev pub IsDue : ℕ → RunStep → Type 0
IsDue now r =
    (r.status ≡ pending)
    ⊎ ((r.status ≡ waiting_retry) × ((t : ℕ) × (r.retry_due_at ≡ some t) × (t ≤ now)))

abbrev pub IsRunnable : RunStatus → Type 0
IsRunnable k = (k ≡ pending) ⊎ ((k ≡ running) ⊎ (k ≡ waiting_retry))

-- A step does not hold up another one: it is of another target, not before it, or has succeeded.
abbrev pub MakesWay : RunStep → RunStep → Type 0
MakesWay r q = (q.target_id ≢ r.target_id) ⊎ ((r.position ≤ q.position) ⊎ (q.status ≡ succeeded))

-- A step of the database that may be taken: it is due, in the scope of the call, its run may go on, and
-- no step holds it up.
abbrev pub MayBeTaken : ℕ → Option ℕ → Store → Candidate → Type 0
MayBeTaken now scope s c =
    Memᴰ c.step s.steps
    × ((run : Run) × (get_run c.step.run_id s ≡ some run)
        × (c.created_at ≡ run.created_at)
        × IsRunnable run.status)
    × IsDue now c.step
    × ((scope ≡ none) ⊎ (scope ≡ some c.step.run_id))
    × All (MakesWay c.step) s.steps

is_runnable-IsRunnable : (k : RunStatus) → is_runnable k ≡ true → IsRunnable k
is_runnable-IsRunnable k h = ground arith

runnable_meant : (k : RunStatus) → IsRunnable k → is_runnable k ≡ true
runnable_meant k h = ground arith

is_due-IsDue :
    (now : ℕ) (r : RunStep) (due : Option ℕ)
    → r.retry_due_at ≡ due
    → is_due now r ≡ true
    → IsDue now r
is_due-IsDue now r none e h = inl (ground arith)
is_due-IsDue now r (some t) e h = elim (Bool-cases (same_status r.status pending)) [
  | inl waits ↦ inl (ground arith)
  | inr other ↦ inr (ground arith, (t, e, ground arith))
]

due_meant : (now : ℕ) (r : RunStep) → IsDue now r → is_due now r ≡ true
due_meant now r h = ground arith

scope_said :
    (scope : Option ℕ) (r : RunStep)
    → in_scope scope r ≡ true
    → (scope ≡ none) ⊎ (scope ≡ some r.run_id)
scope_said none r h = inl refl
scope_said (some i) r h = let same : r.run_id ≡ i = ground arith in inr (rw same refl)

scope_meant :
    (scope : Option ℕ) (r : RunStep)
    → (scope ≡ none) ⊎ (scope ≡ some r.run_id)
    → in_scope scope r ≡ true
scope_meant scope r (inl e) = rw e refl
scope_meant scope r (inr e) = rw e (ground arith)

way_said : (r q : RunStep) → blocks r q ≡ false → MakesWay r q
way_said r q h = ground arith

way_meant : (r q : RunStep) → MakesWay r q → blocks r q ≡ false
way_meant r q h = ground arith

none_blocks : (r : RunStep) (qs : List RunStep) → any (blocks r) qs ≡ false → All (MakesWay r) qs
unfolding any
none_blocks r [] h = tt
none_blocks r (q ∷ qs) h = elim (Bool-cases (blocks r q)) [
  | inl held ↦ cc (rw held at h)
  | inr clear ↦ (way_said r q clear, none_blocks r qs (rw clear at h))
]

blocks_none : (r : RunStep) (qs : List RunStep) → All (MakesWay r) qs → any (blocks r) qs ≡ false
unfolding any
blocks_none r [] h = refl
blocks_none r (q ∷ qs) h = rw (way_meant r q h.0) (blocks_none r qs h.1)

at_start : (r : RunStep) (qs : List RunStep) → r.position ≡ 0 → All (MakesWay r) qs
at_start r [] h = tt
at_start r (q ∷ qs) h = (inr (inl (omega arith)), at_start r qs h)

ready_said : (s : Store) (c : Candidate) → is_ready s c ≡ true → All (MakesWay c.step) s.steps
ready_said s c h = elim (Bool-cases (any (blocks c.step) s.steps)) [
  | inl held ↦ at_start c.step s.steps (ground arith)
  | inr clear ↦ none_blocks c.step s.steps clear
]

ready_meant : (s : Store) (c : Candidate) → All (MakesWay c.step) s.steps → is_ready s c ≡ true
ready_meant s c h = let clear = blocks_none c.step s.steps h in ground arith

-- The step and the run of a row of the query, and its other conditions.
abbrev pub IsRow : ℕ → Option ℕ → Store → List RunStep → Candidate → Type 0
IsRow now scope s rs c =
    Memᴰ c.step rs
    × ((run : Run) × (get_run c.step.run_id s ≡ some run)
        × (c.created_at ≡ run.created_at)
        × (qualifies now scope run c.step ≡ true))

later-IsRow :
    (now : ℕ) (scope : Option ℕ) (s : Store) (r : RunStep) (rs : List RunStep) (c : Candidate)
    → IsRow now scope s rs c
    → IsRow now scope s (r ∷ rs) c
later-IsRow now scope s r rs c (m, rest) = (Memᴰ.tail m, rest)

kept_split {ℓ} :
    {A : Type ℓ} (b : Bool) (x : A) (rest : List A) (y : A)
    → Memᴰ y (if b then x ∷ rest else rest)
    → ((b ≡ true) × (y ≡ x)) ⊎ Memᴰ y rest
kept_split true x rest y (Memᴰ.head e) = inl (refl, e)
kept_split true x rest y (Memᴰ.tail m) = inr m
kept_split false x rest y m = inr m

-- A candidate is made of the first of the rows, or is one of the others'.
candidates_split :
    (now : ℕ) (scope : Option ℕ) (s : Store) (r : RunStep) (rs : List RunStep) (c : Candidate)
    → Memᴰ c (candidates now scope s (r ∷ rs))
    → ((run : Run) × (get_run r.run_id s ≡ some run)
        × (qualifies now scope run r ≡ true)
        × (c ≡ record { created_at = run.created_at; step = r }))
      ⊎ Memᴰ c (candidates now scope s rs)
unfolding candidates
candidates_split now scope s r rs c m = elim (Option-cases (get_run r.run_id s)) [
  | inl e ↦ inr (rw (e, candidates) at m)
  | inr (run, e) ↦ elim (kept_split (qualifies now scope run r) _ _ c (rw (e, candidates) at m)) [
    | inl (fits, same) ↦ inl (run, e, fits, same)
    | inr rest ↦ inr rest
  ]
]

pub candidates-IsRow :
    (now : ℕ) (scope : Option ℕ) (s : Store) (rs : List RunStep) (c : Candidate)
    → Memᴰ c (candidates now scope s rs)
    → IsRow now scope s rs c
unfolding candidates
candidates-IsRow now scope s [] c m = elim m [ ]
candidates-IsRow now scope s (r ∷ rs) c m = elim (candidates_split now scope s r rs c m) [
  | inl (run, e, fits, same) ↦
      subst (IsRow now scope s (r ∷ rs)) (sym same) (Memᴰ.head refl, (run, e, refl, fits))
  | inr n ↦ later-IsRow now scope s r rs c (candidates-IsRow now scope s rs c n)
]

made_of :
    (c : Candidate) (created : ℕ) (r : RunStep)
    → c.created_at ≡ created
    → c.step ≡ r
    → c ≡ record { created_at = created; step = r }
made_of c created r age same =
    subst (λ z. c ≡ record { created_at = created; step = z }) same
      (subst (λ z. c ≡ record { created_at = z; step = c.step }) age refl)

pub IsRow-candidates :
    (now : ℕ) (scope : Option ℕ) (s : Store) (rs : List RunStep) (c : Candidate)
    → IsRow now scope s rs c
    → Memᴰ c (candidates now scope s rs)
unfolding candidates
IsRow-candidates now scope s [] c (m, rest) = elim m [ ]
IsRow-candidates now scope s (r ∷ rs) c (m, (run, found, age, fits)) = elim m [
  | Memᴰ.head same ↦
      rw (rw same at found, candidates, rw same at fits)
        (Memᴰ.head (made_of c run.created_at r age same))
  | Memᴰ.tail n ↦
      let rest = IsRow-candidates now scope s rs c (n, (run, found, age, fits)) in
      elim (Option-cases (get_run r.run_id s)) [
        | inl e ↦ rw (e, candidates) rest
        | inr (own, e) ↦ elim (Bool-cases (qualifies now scope own r)) [
          | inl kept ↦ rw (e, candidates, kept) (Memᴰ.tail rest)
          | inr out ↦ rw (e, candidates, out) rest
        ]
      ]
]

three : (a b c : Bool) → (a && (b && c)) ≡ true → (a ≡ true) × (b ≡ true) × (c ≡ true)
three true true c h = (refl, refl, h)
three true false c h = cc
three false b c h = cc

pub IsRow-MayBeTaken :
    (now : ℕ) (scope : Option ℕ) (s : Store) (c : Candidate)
    → IsRow now scope s s.steps c
    → is_ready s c ≡ true
    → MayBeTaken now scope s c
IsRow-MayBeTaken now scope s c (m, (run, found, age, fits)) ready =
    let (goes_on, due, scoped) = three _ _ _ fits in
    (
      m,
      (run, found, age, is_runnable-IsRunnable run.status goes_on),
      is_due-IsDue now c.step c.step.retry_due_at refl due,
      scope_said scope c.step scoped,
      ready_said s c ready,
    )

pub MayBeTaken-IsRow :
    (now : ℕ) (scope : Option ℕ) (s : Store) (c : Candidate)
    → MayBeTaken now scope s c
    → IsRow now scope s s.steps c × (is_ready s c ≡ true)
MayBeTaken-IsRow now scope s c (m, (run, found, age, goes_on), due, scoped, way) =
    let fits : qualifies now scope run c.step ≡ true =
      rw (runnable_meant run.status goes_on, due_meant now c.step due)
        (scope_meant scope c.step scoped) in
    ((m, (run, found, age, fits)), ready_meant s c way)
