-- ===== src/Kernel/Cancel.antt =====
-- `request_cancel` of backend/app/v2/research_runs.py, once it has succeeded.
use omniverse_v.Prelude.{
  some, String, if◌then◌else◌, ℕ, ◌≡◌, ◌≢◌, refl, sym, ◌∙◌, ap, Bool, true, false, not, ◌||◌, List,
  [], ◌∷◌, ◌++◌, ◌==◌, any, Bool-cases, inl, inr, arith, ==_iff,
}
use omniverse_v.Domain.{RunStatus, cancelling, is_terminal}
use omniverse_v.Kernel.Rows.{Run, RunStep, OutboxEvent, EffectKey}
use omniverse_v.Kernel.Tx.{
  Store, Error, ok, modify, transact, ◌>>=◌, gets, guard, terminal_state, illegal_transition,
}
use omniverse_v.Kernel.Session.{
  same_effect_key, new_id, set_run, update_steps, add_event, emit, require_run, transition_run,
}
use omniverse_v.Kernel.Boundary.{is_active_step}
use omniverse_v.Kernel.Control.{cancel_now, request_cancel, request_cancel_body}
use omniverse_v.Kernel.Respects.{Law, Respects, Respects-modify, respects_rules, bind-ok, settle-ok}
use omniverse_v.Kernel.Frames.{frame, framed}

abbrev tells : ℕ → OutboxEvent → Bool
tells i q = same_effect_key q.effect_key (EffectKey.cancel i)

-- The event that the run was asked to cancel is on record.
abbrev was_asked : ℕ → Store → Bool
was_asked i s = any (tells i) s.events

abbrev events_frame : Law
events_frame = frame (λ s. s.events)

events_aside :
    (f : Store → Store) → ((s : Store) → (f s).events ≡ s.events) → Respects events_frame (modify f)
events_aside f h = Respects-modify f h

new_id-events : Respects events_frame new_id
unfolding new_id
new_id-events = search (respects_rules, events_aside)

require_run-events : (i : ℕ) → Respects events_frame (require_run i)
unfolding require_run
require_run-events i = search respects_rules

guard-events : (b : Bool) (e : Error) → Respects events_frame (guard b e)
guard-events b e = search respects_rules

gets-events : {A : Type 0} (f : Store → A) → Respects events_frame (gets f)
gets-events f = search respects_rules

set_run-events : (i : ℕ) (f : Run → Run) → Respects events_frame (set_run i f)
unfolding set_run
set_run-events i f = search (respects_rules, events_aside)

update_steps-events :
    (p : RunStep → Bool) (f : RunStep → RunStep) → Respects events_frame (update_steps p f)
unfolding update_steps
update_steps-events p f = search (respects_rules, events_aside)

transition_run-events :
    (agent name : String) (i : ℕ) (target : RunStatus)
    → Respects events_frame (transition_run agent name i target)
unfolding transition_run
transition_run-events agent name i target = search (respects_rules, set_run-events)

-- What `request_cancel` writes before it records the event.
mark-events :
    (i : ℕ) (active : Bool)
    → Respects events_frame
        (if active then transition_run "unknown" "unknown" i cancelling else cancel_now i)
mark-events i active =
    search (respects_rules, set_run-events, update_steps-events, transition_run-events) depth 8

any-or :
    (p r : OutboxEvent → Bool) (xs : List OutboxEvent)
    → any (λ q. p q || r q) xs ≡ false
    → any r xs ≡ false
unfolding any
any-or p r [] h = refl
any-or p r (x ∷ xs) h = ground (arith, any-or p r xs)

any-append :
    (r : OutboxEvent → Bool) (xs : List OutboxEvent) (y : OutboxEvent)
    → r y ≡ true
    → any r (xs ++ y ∷ []) ≡ true
unfolding any
any-append r [] y h = ground arith
any-append r (x ∷ xs) y h = ground (arith, any-append r xs y h)

add_event-asks :
    (i : ℕ) (row : OutboxEvent) (s t : Store) (u : Unit {0})
    → row.effect_key ≡ EffectKey.cancel i
    → add_event row s ≡ ok (u, t)
    → (was_asked i s ≡ false) × (was_asked i t ≡ true)
unfolding add_event ◌>>=◌
add_event-asks i row s t u k e =
    elim (Bool-cases
      (any (λ q. q.id == row.id || same_effect_key q.effect_key row.effect_key) s.events)) [
        | inl clash ↦ cc (rw clash at e)
        | inr fresh ↦
            let rows : t.events ≡ s.events ++ row ∷ [] = let e' = rw fresh at e in ground arith in
            (
              any-or (λ q. q.id == row.id) (tells i) s.events (rw k at fresh),
              rw rows (any-append (tells i) s.events row (rw k ((==_iff i i).1 refl))),
            )
      ]

body-asks :
    (i now : ℕ) (s t : Store) (u : Unit {0})
    → request_cancel_body i now s ≡ ok (u, t)
    → (was_asked i s ≡ false) × (was_asked i t ≡ true)
unfolding emit
body-asks i now s t u e =
    let (run, s1, e1, r1) = bind-ok (require_run i) _ s t u e in
    let (u2, s2, e2, r2) =
      bind-ok
        (guard (not (is_terminal run.status))
          (illegal_transition "kernel" "request_cancel" terminal_state))
        _ s1 t u r1 in
    let (u3, s3, e3, r3) =
      bind-ok (set_run i (λ r. record r { cancel_requested_at = some now })) _ s2 t u r2 in
    let (active, s4, e4, r4) = bind-ok (gets (λ z. any (is_active_step i) z.steps)) _ s3 t u r3 in
    let (u5, s5, e5, r5) =
      bind-ok (if active then transition_run "unknown" "unknown" i cancelling else cancel_now i) _
        s4 t u r4 in
    let (j, s6, e6, r6) = bind-ok new_id _ s5 t u r5 in
    let f1 = framed (λ z. z.events) _ s s1 run (require_run-events i) e1 in
    let f2 = framed (λ z. z.events) _ s1 s2 u2 (guard-events _ _) e2 in
    let f3 = framed (λ z. z.events) _ s2 s3 u3 (set_run-events i _) e3 in
    let f4 = framed (λ z. z.events) _ s3 s4 active (gets-events _) e4 in
    let f5 = framed (λ z. z.events) _ s4 s5 u5 (mark-events i active) e5 in
    let f6 = framed (λ z. z.events) _ s5 s6 j new_id-events e6 in
    let (fresh, asked) = add_event-asks i _ s6 t u refl r6 in
    (ap (any (tells i)) (sym (f6 ∙ f5 ∙ f4 ∙ f3 ∙ f2 ∙ f1)) ∙ fresh, asked)

-- Directly after a `request_cancel` that succeeded, another one of the same run does not succeed: the
-- call is not repeatable, even while the run is still being cancelled.
pub cancel_not_repeatable :
    (i now later : ℕ) (s t t' : Store)
    → request_cancel i now s ≡ (ok tt, t)
    → request_cancel i later t ≢ (ok tt, t')
unfolding request_cancel transact
cancel_not_repeatable i now later s t t' e again =
    let (_, asked) = body-asks i now s t tt (settle-ok s t _ tt e) in
    let (fresh, _) = body-asks i later t t' tt (settle-ok t t' _ tt again) in cc
