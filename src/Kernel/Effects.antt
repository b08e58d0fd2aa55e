-- ===== src/Kernel/Effects.antt =====
-- `checkpoint_success` of backend/app/v2/research_runs.py under an effect key that has been used.
use omniverse_v.Prelude.{
  ℕ, String, ◌≡◌, refl, sym, ◌∙◌, ap, Bool, Option, none, some, List, [], ◌∷◌, ◌++◌, ◌==◌, find,
  Bool-cases, Option-cases, inl, inr, arith, ==_iff,
}
use omniverse_v.Domain.{RunStatus, RunOutcome, same_status, cancelling, succeeded}
use omniverse_v.Kernel.Rows.{
  Run, RunStep, RunTarget, StepAttempt, StepLease, StepState, Checkpoint, OutcomeText, EventType,
  EventPayload, EffectKey,
}
use omniverse_v.Kernel.Tx.{
  Store, Error, ok, assertion, Tx, modify, transact, ◌>>=◌, gets, required, pure, when,
}
use omniverse_v.Kernel.Session.{
  new_id, get_run, set_run, set_target, set_attempt, set_step, add_event, emit, add_checkpoint,
  transition_step,
}
use omniverse_v.Kernel.Boundary.{
  validate_lease, cancel_run_at_boundary, aggregate_targets, finish_run, when_some,
}
use omniverse_v.Kernel.Checkpoints.{
  unless_cancelling, outcome_of_state, ends_target, record_completion, succeed_step, by_effect_key,
  success_body, checkpoint_success, CheckpointProjection, project_checkpoint,
}
use omniverse_v.Kernel.Respects.{
  Law, Respects, Respects-modify, Respects-pure, respects_rules, bind-ok, settle-ok,
}
use omniverse_v.Kernel.Frames.{frame, framed, find-append_new}

abbrev checkpoints_frame : Law
checkpoints_frame = frame (λ s. s.checkpoints)

checkpoints_aside :
    (f : Store → Store)
    → ((s : Store) → (f s).checkpoints ≡ s.checkpoints)
    → Respects checkpoints_frame (modify f)
checkpoints_aside f h = Respects-modify f h

new_id-checkpoints : Respects checkpoints_frame new_id
unfolding new_id
new_id-checkpoints = search (respects_rules, checkpoints_aside)

gets-checkpoints : {A : Type 0} (f : Store → A) → Respects checkpoints_frame (gets f)
gets-checkpoints f = search respects_rules

required-checkpoints :
    {A : Type 0} (o : Option A) (e : Error) → Respects checkpoints_frame (required o e)
required-checkpoints o e = search respects_rules

validate_lease-checkpoints :
    (lease : StepLease) (now : ℕ) → Respects checkpoints_frame (validate_lease lease now)
unfolding validate_lease
validate_lease-checkpoints lease now = search respects_rules depth 12

transition_step-checkpoints :
    (agent name : String) (i : ℕ) (target : RunStatus) (f : RunStep → RunStep)
    → Respects checkpoints_frame (transition_step agent name i target f)
unfolding transition_step set_step
transition_step-checkpoints agent name i target f =
    search (respects_rules, checkpoints_aside) depth 12

set_attempt-checkpoints :
    (i n : ℕ) (f : StepAttempt → StepAttempt) → Respects checkpoints_frame (set_attempt i n f)
unfolding set_attempt
set_attempt-checkpoints i n f = search (respects_rules, checkpoints_aside)

emit-checkpoints :
    (i : ℕ) (kind : EventType) (payload : EventPayload) (key : EffectKey) (now : ℕ)
    → Respects checkpoints_frame (emit i kind payload key now)
unfolding emit new_id add_event
emit-checkpoints i kind payload key now = search (respects_rules, checkpoints_aside) depth 12

set_run-checkpoints : (i : ℕ) (f : Run → Run) → Respects checkpoints_frame (set_run i f)
unfolding set_run
set_run-checkpoints i f = search (respects_rules, checkpoints_aside)

set_target-checkpoints :
    (i : ℕ) (f : RunTarget → RunTarget) → Respects checkpoints_frame (set_target i f)
unfolding set_target
set_target-checkpoints i f = search (respects_rules, checkpoints_aside)

finish_run-checkpoints :
    (i now : ℕ) (v : RunOutcome × RunStatus) → Respects checkpoints_frame (finish_run i now v)
unfolding finish_run
finish_run-checkpoints i now (o, x) =
    search (respects_rules, set_run-checkpoints, emit-checkpoints) depth 12

when_some-checkpoints :
    {A : Type 0} (o : Option A) (f : A → Tx (Unit {0}))
    → ((a : A) → Respects checkpoints_frame (f a))
    → Respects checkpoints_frame (when_some o f)
when_some-checkpoints none f h = Respects-pure tt
when_some-checkpoints (some a) f h = h a

aggregate_targets-checkpoints : (i now : ℕ) → Respects checkpoints_frame (aggregate_targets i now)
unfolding aggregate_targets
aggregate_targets-checkpoints i now =
    search (respects_rules, when_some-checkpoints, finish_run-checkpoints) depth 12

record_completion-checkpoints :
    (b : Bool) (i j : ℕ) (o : OutcomeText) (now : ℕ)
    → Respects checkpoints_frame (when b (record_completion i j o now))
record_completion-checkpoints b i j o now =
    search (respects_rules, set_target-checkpoints, aggregate_targets-checkpoints) depth 12

abbrev has_key : ℕ → Checkpoint → Bool
has_key key c = c.effect_key == key

-- The checkpoint that the key stands for.
abbrev OnRecord : ℕ → CheckpointProjection → Store → Type 0
OnRecord key i t = (c : Checkpoint) × (by_effect_key key t ≡ some c) × (project_checkpoint c ≡ i)

add_checkpoint-ok :
    (r : Checkpoint) (s t : Store) (u : Unit {0})
    → add_checkpoint r s ≡ ok (u, t)
    → t.checkpoints ≡ s.checkpoints ++ r ∷ []
unfolding add_checkpoint ◌>>=◌
add_checkpoint-ok r s t u e = ground arith

pure-ok : {A : Type 0} (a b : A) (s t : Store) → pure a s ≡ ok (b, t) → (a ≡ b) × (s ≡ t)
unfolding pure
pure-ok a b s t e = (cc, cc)

succeed_step-OnRecord :
    (step : RunStep) (n run_id key : ℕ) (refs : List String) (state : StepState) (now : ℕ)
    (i : CheckpointProjection) (s t : Store)
    → by_effect_key key s ≡ none
    → succeed_step step n run_id key refs state now s ≡ ok (some i, t)
    → OnRecord key i t
unfolding succeed_step
succeed_step-OnRecord step n run_id key refs state now i s t fresh e =
    let (j, s1, e1, r1) = bind-ok new_id _ s t (some i) e in
    let row : Checkpoint = record {
      id = j;
      step_id = step.id;
      state = state;
      effect_key = key;
      output_refs = refs;
      created_at = now;
    } in
    let (u2, s2, e2, r2) = bind-ok (add_checkpoint row) _ s1 t (some i) r1 in
    let (u3, s3, e3, r3) =
      bind-ok (transition_step "manager" "checkpoint_success" step.id succeeded _) _ s2 t (some i)
        r2 in
    let (u4, s4, e4, r4) = bind-ok (set_attempt step.id n _) _ s3 t (some i) r3 in
    let (u5, s5, e5, r5) =
      bind-ok
        (when (ends_target step state)
          (record_completion run_id step.target_id (outcome_of_state state) now))
        _ s4 t (some i) r4 in
    let (u6, s6, e6, r6) =
      bind-ok
        (emit step.run_id EventType.step_succeeded (EventPayload.step_outputs step.id refs)
          (EffectKey.checkpoint key) now)
        _ s5 t (some i) r5 in
    let f1 = framed (λ z. z.checkpoints) _ s s1 j new_id-checkpoints e1 in
    let f3 = framed (λ z. z.checkpoints) _ s2 s3 u3 (transition_step-checkpoints _ _ _ _ _) e3 in
    let f4 = framed (λ z. z.checkpoints) _ s3 s4 u4 (set_attempt-checkpoints _ _ _) e4 in
    let f5 = framed (λ z. z.checkpoints) _ s4 s5 u5 (record_completion-checkpoints _ _ _ _ _) e5 in
    let f6 = framed (λ z. z.checkpoints) _ s5 s6 u6 (emit-checkpoints _ _ _ _ _) e6 in
    let (made, last) = pure-ok (some (project_checkpoint row)) (some i) s6 t r6 in
    let rows : t.checkpoints ≡ s1.checkpoints ++ row ∷ [] =
      ap (λ z. z.checkpoints) (sym last) ∙ f6 ∙ f5 ∙ f4 ∙ f3 ∙ add_checkpoint-ok row s1 s2 u2 e2 in
    let fresh1 : find (has_key key) s1.checkpoints ≡ none = ap (find (has_key key)) f1 ∙ fresh in
    (
      row,
      ap (find (has_key key)) rows
          ∙ find-append_new (has_key key) s1.checkpoints row fresh1 ((==_iff key key).1 refl),
      cc,
    )

fresh-OnRecord :
    (lease : StepLease) (key : ℕ) (refs : List String) (state : StepState) (now : ℕ)
    (i : CheckpointProjection) (s t : Store)
    → by_effect_key key s ≡ none
    → unless_cancelling lease now none
        (λ step run. succeed_step step lease.attempt_number run.id key refs state now)
        s
      ≡ ok (some i, t)
    → OnRecord key i t
fresh-OnRecord lease key refs state now i s t fresh e =
    let (held, s1, e1, r1) = bind-ok (validate_lease lease now) _ s t (some i) e in
    let (found, s2, e2, r2) = bind-ok (gets (get_run held.0.run_id)) _ s1 t (some i) r1 in
    let (run, s3, e3, r3) = bind-ok (required found assertion) _ s2 t (some i) r2 in
    let f1 = framed (λ z. z.checkpoints) _ s s1 held (validate_lease-checkpoints lease now) e1 in
    let f2 = framed (λ z. z.checkpoints) _ s1 s2 found (gets-checkpoints _) e2 in
    let f3 = framed (λ z. z.checkpoints) _ s2 s3 run (required-checkpoints found assertion) e3 in
    let fresh3 : by_effect_key key s3 ≡ none = ap (find (has_key key)) (f3 ∙ f2 ∙ f1) ∙ fresh in
    elim (Bool-cases (same_status run.status cancelling)) [
      | inl stopping ↦
          let (u, s4, e4, r4) =
            bind-ok (cancel_run_at_boundary run.id held.0.id lease.attempt_number now) _ s3 t
              (some i) (rw stopping at r3) in
          absurd (let (clash, _) = pure-ok none (some i) s4 t r4 in cc)
      | inr going ↦
          succeed_step-OnRecord held.0 lease.attempt_number run.id key refs state now i s3 t fresh3
            (rw going at r3)
    ]

success_body-OnRecord :
    (lease : StepLease) (key : ℕ) (refs : List String) (state : StepState) (now : ℕ)
    (i : CheckpointProjection) (s t : Store)
    → success_body lease key refs state now s ≡ ok (some i, t)
    → OnRecord key i t
unfolding ◌>>=◌
success_body-OnRecord lease key refs state now i s t e = elim (Option-cases (by_effect_key key s)) [
  | inl fresh ↦ fresh-OnRecord lease key refs state now i s t fresh (rw fresh at e)
  | inr (c, old) ↦
      let (made, last) = pure-ok (some (project_checkpoint c)) (some i) s t (rw old at e) in
      (c, ap (by_effect_key key) (sym last) ∙ old, cc)
]

-- Once `checkpoint_success` has returned a checkpoint, a `checkpoint_success` under the same effect
-- key that follows returns the same checkpoint and changes nothing, whatever lease, outputs and state
-- it reports.
pub checkpoint_once :
    (lease lease' : StepLease) (key : ℕ) (refs refs' : List String) (state state' : StepState)
    (now later : ℕ) (i : CheckpointProjection) (s t : Store)
    → checkpoint_success lease key refs state now s ≡ (ok (some i), t)
    → checkpoint_success lease' key refs' state' later t ≡ (ok (some i), t)
unfolding checkpoint_success transact ◌>>=◌
checkpoint_once lease lease' key refs refs' state state' now later i s t e =
    let (c, found, same) =
      success_body-OnRecord lease key refs state now i s t (settle-ok s t _ (some i) e) in
    rw (found, same) refl
