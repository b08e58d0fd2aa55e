-- ===== src/Kernel/AtOnce.antt =====
-- `request_cancel` of backend/app/v2/research_runs.py for a run without a running step.
use mathlib.Core.List.{Memᴰ}
use omniverse_v.Prelude.{
  ℕ, ◌≡◌, sym, ◌∙◌, ap, Bool, true, false, not, ◌&&◌, ◌||◌, List, [], ◌∷◌, ◌==◌, any, update_where,
  if◌then◌else◌, Bool-cases, inl, inr, arith, some, All,
}
use omniverse_v.Domain.{RunStatus, cancelled, cancelling, is_terminal}
use omniverse_v.Kernel.Rows.{Run, RunStep, EventType, EventPayload, EffectKey}
use omniverse_v.Kernel.Tx.{
  Store, Error, ok, modify, transact, gets, guard, terminal_state, illegal_transition,
}
use omniverse_v.Kernel.Session.{
  new_id, set_run, update_steps, add_event, emit, require_run, transition_run,
}
use omniverse_v.Kernel.Boundary.{is_active_step}
use omniverse_v.Kernel.Control.{cancel_now, request_cancel, request_cancel_body, is_settled}
use omniverse_v.Kernel.Respects.{Law, Respects, Respects-modify, respects_rules, bind-ok, settle-ok}
use omniverse_v.Kernel.Frames.{frame, framed}

abbrev steps_frame : Law
steps_frame = frame (λ s. s.steps)

-- A step of another run, or one that is settled or cancelled.
abbrev EndsIn : ℕ → RunStep → Type 0
EndsIn i r = not (r.run_id == i) || is_terminal r.status ≡ true

abbrev cancel_step : RunStep → RunStep
cancel_step r = record r { status = cancelled }

abbrev unsettled : ℕ → RunStep → Bool
unsettled i r = r.run_id == i && not (is_settled r.status)

settled_terminal : (x : RunStatus) → is_settled x ≡ true → is_terminal x ≡ true
settled_terminal x h = ground arith

update-EndsIn :
    (i : ℕ) (rows : List RunStep) → All (EndsIn i) (update_where (unsettled i) cancel_step rows)
unfolding update_where
update-EndsIn i [] = tt
update-EndsIn i (r ∷ rows) = elim (Bool-cases (unsettled i r)) [
  | inl live ↦ rw live (ground arith, update-EndsIn i rows)
  | inr done ↦ rw done (ground (arith, settled_terminal r.status), update-EndsIn i rows)
]

steps_aside :
    (f : Store → Store) → ((s : Store) → (f s).steps ≡ s.steps) → Respects steps_frame (modify f)
steps_aside f h = Respects-modify f h

require_run-steps : (i : ℕ) → Respects steps_frame (require_run i)
unfolding require_run
require_run-steps i = search respects_rules

guard-steps : (b : Bool) (e : Error) → Respects steps_frame (guard b e)
guard-steps b e = search respects_rules

set_run-steps : (i : ℕ) (f : Run → Run) → Respects steps_frame (set_run i f)
unfolding set_run
set_run-steps i f = search (respects_rules, steps_aside)

emit-steps :
    (i : ℕ) (kind : EventType) (payload : EventPayload) (key : EffectKey) (now : ℕ)
    → Respects steps_frame (emit i kind payload key now)
unfolding emit new_id add_event
emit-steps i kind payload key now = search (respects_rules, steps_aside) depth 12

update_steps-writes :
    (p : RunStep → Bool) (f : RunStep → RunStep) (s t : Store) (u : Unit {0})
    → update_steps p f s ≡ ok (u, t)
    → t.steps ≡ update_where p f s.steps
unfolding update_steps modify
update_steps-writes p f s t u e = ground arith

cancel_now-EndsIn :
    (i : ℕ) (s t : Store) (u : Unit {0}) → cancel_now i s ≡ ok (u, t) → All (EndsIn i) t.steps
cancel_now-EndsIn i s t u e =
    let (_, s1, e1, r1) = bind-ok (set_run i _) _ s t u e in
    rw (update_steps-writes (unsettled i) cancel_step s1 t u r1) (update-EndsIn i s1.steps)

gets-value :
    {A : Type 0} (f : Store → A) (s t : Store) (a : A) → gets f s ≡ ok (a, t) → (f s ≡ a) × (s ≡ t)
unfolding gets
gets-value f s t a e = (cc, cc)

All-mem-EndsIn :
    (i : ℕ) (rows : List RunStep) (r : RunStep) → All (EndsIn i) rows → Memᴰ r rows → EndsIn i r
All-mem-EndsIn i [] r h m = elim m [ ]
All-mem-EndsIn i (x ∷ xs) r h (Memᴰ.head e) = rw e h.0
All-mem-EndsIn i (x ∷ xs) r h (Memᴰ.tail m) = All-mem-EndsIn i xs r h.1 m

body-EndsIn :
    (i now : ℕ) (s t : Store) (u : Unit {0})
    → any (is_active_step i) s.steps ≡ false
    → request_cancel_body i now s ≡ ok (u, t)
    → All (EndsIn i) t.steps
body-EndsIn i now s t u idle e =
    let (run, s1, e1, r1) = bind-ok (require_run i) _ s t u e in
    let (u2, s2, e2, r2) =
      bind-ok
        (guard (not (is_terminal run.status))
          (illegal_transition "kernel" "request_cancel" terminal_state))
        _ s1 t u r1 in
    let (u3, s3, e3, r3) =
      bind-ok (set_run i (λ r. record r { cancel_requested_at = some now })) _ s2 t u r2 in
    let (active, s4, e4, r4) = bind-ok (gets (λ z. any (is_active_step i) z.steps)) _ s3 t u r3 in
    let (u5, s5, e5, r5) =
      bind-ok (if active then transition_run "unknown" "unknown" i cancelling else cancel_now i) _
        s4 t u r4 in
    let f1 = framed (λ z. z.steps) _ s s1 run (require_run-steps i) e1 in
    let f2 = framed (λ z. z.steps) _ s1 s2 u2 (guard-steps _ _) e2 in
    let f3 = framed (λ z. z.steps) _ s2 s3 u3 (set_run-steps i _) e3 in
    let f6 = framed (λ z. z.steps) _ s5 t u (emit-steps i _ _ _ now) r5 in
    let (value, _) = gets-value (λ z. any (is_active_step i) z.steps) s3 s4 active e4 in
    let none_active : active ≡ false =
      sym value ∙ ap (any (is_active_step i)) (f3 ∙ f2 ∙ f1) ∙ idle in
    rw f6 (cancel_now-EndsIn i s4 s5 u5 (rw none_active at e5))

-- A `request_cancel` that succeeds on a run without a running step leaves each step of that run
-- succeeded, failed or cancelled.
pub cancel_ends_steps :
    (i now : ℕ) (s t : Store) (r : RunStep)
    → any (is_active_step i) s.steps ≡ false
    → request_cancel i now s ≡ (ok tt, t)
    → Memᴰ r t.steps
    → r.run_id ≡ i
    → is_terminal r.status ≡ true
unfolding request_cancel transact
cancel_ends_steps i now s t r idle e m mine =
    let ends =
      All-mem-EndsIn i t.steps r (body-EndsIn i now s t tt idle (settle-ok s t _ tt e)) m in
    ground arith
