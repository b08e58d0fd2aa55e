-- ===== src/Kernel/Frames.antt =====
-- Frames: the part of the database that a transaction leaves as it was.
use omniverse_v.Prelude.{
  ℕ, ◌≡◌, refl, ◌∙◌, List, [], ◌∷◌, ◌++◌, Bool, true, none, some, find, Bool-cases, inl, inr,
}
use omniverse_v.Domain.{StepKind}
use omniverse_v.Kernel.Rows.{
  RunTarget, RunStep, OutboxEvent, TargetInput, CreateResearchRun, EventType, EventPayload,
  EffectKey,
}
use omniverse_v.Kernel.Tx.{Store, Tx, ok, modify}
use omniverse_v.Kernel.Respects.{Law, Respects, Respects-modify, respects_rules}
use omniverse_v.Kernel.Session.{new_id, add_target, add_step, add_event, emit}
use omniverse_v.Kernel.Create.{add_step_kind, add_run_target, fill_run}

abbrev pub frame : {A : Type 0} → (Store → A) → Law
frame view = record { holds = λ s t. view t ≡ view s; same = λ s. refl; chain = λ s t u p q. q ∙ p }

-- The state after a transaction that returned.
pub framed :
    {A B : Type 0} (view : Store → A) (m : Tx B) (s t : Store) (b : B)
    → Respects (frame view) m
    → m s ≡ ok (b, t)
    → view t ≡ view s
framed view m s t b h e = rw e at (h.at s)

-- A row appended behind rows that fail a test.
pub find-append_new {ℓ} :
    {A : Type ℓ} (p : A → Bool) (rows : List A) (x : A)
    → find p rows ≡ none
    → p x ≡ true
    → find p (rows ++ x ∷ []) ≡ some x
unfolding find
find-append_new p [] x h k = rw k
find-append_new p (y ∷ ys) x h k = elim (Bool-cases (p y)) [
  | inl here ↦ cc (rw here at h)
  | inr there ↦ rw there (find-append_new p ys x (rw there at h) k)
]

-- Nothing but inserts into other tables stands between a new run and the end of `create`.
abbrev runs_frame : Law
runs_frame = frame (λ s. s.runs)

aside : (f : Store → Store) → ((s : Store) → (f s).runs ≡ s.runs) → Respects runs_frame (modify f)
aside f h = Respects-modify f h

new_id-runs : Respects runs_frame new_id
unfolding new_id
new_id-runs = search (respects_rules, aside)

add_target-runs : (r : RunTarget) → Respects runs_frame (add_target r)
unfolding add_target
add_target-runs r = search (respects_rules, aside)

add_step-runs : (r : RunStep) → Respects runs_frame (add_step r)
unfolding add_step
add_step-runs r = search (respects_rules, aside)

add_event-runs : (r : OutboxEvent) → Respects runs_frame (add_event r)
unfolding add_event
add_event-runs r = search (respects_rules, aside)

emit-runs :
    (run_id : ℕ) (kind : EventType) (payload : EventPayload) (key : EffectKey) (now : ℕ)
    → Respects runs_frame (emit run_id kind payload key now)
unfolding emit
emit-runs run_id kind payload key now = search (respects_rules, new_id-runs, add_event-runs)

add_step_kind-runs :
    (run_id target_id : ℕ) (kind : StepKind)
    → Respects runs_frame (add_step_kind run_id target_id kind)
unfolding add_step_kind
add_step_kind-runs run_id target_id kind = search (respects_rules, new_id-runs, add_step-runs)

add_run_target-runs : (run_id : ℕ) (t : TargetInput) → Respects runs_frame (add_run_target run_id t)
unfolding add_run_target
add_run_target-runs run_id t =
    search (respects_rules, new_id-runs, add_target-runs, add_step_kind-runs) depth 8

pub fill_run-runs :
    (run_id hash now : ℕ) (c : CreateResearchRun) → Respects runs_frame (fill_run run_id hash now c)
unfolding fill_run
fill_run-runs run_id hash now c = search (respects_rules, emit-runs, add_run_target-runs) depth 8
