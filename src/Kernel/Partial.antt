-- ===== src/Kernel/Partial.antt =====
-- `checkpoint_partial` of backend/app/v2/research_runs.py. The identifier of a gap is a digest of
-- the step's; the digest is a parameter.
use omniverse_v.Prelude.{
  ℕ, Bool, not, ◌||◌, [], ◌∷◌, ◌++◌, ◌==◌, find, modify_first, is_some, String,
}
use omniverse_v.Domain.{same_status, pending, waiting_retry, failed, partial}
use omniverse_v.Kernel.Rows.{
  Json, Run, RunStep, StepLease, known, EffectKey, EventType, EventPayload, ResearchWorkspace,
  ResearchGap, partial_workspace,
}
use omniverse_v.Kernel.Tx.{
  Store, Tx, Result, lookup_failed, gets, modify, required, guard, when, transact, ◌>>=◌, ◌>>◌,
}
use omniverse_v.Kernel.Session.{emit, transition_step}
use omniverse_v.Kernel.Checkpoints.{unless_cancelling, fail_attempt, drop_lease, close_target}

abbrev pub is_workspace : ℕ → ResearchWorkspace → Bool
is_workspace i w = w.id == i

-- `workspace.status = "PARTIAL"`, and the gap unless it is on record.
unfoldable pub record_gap : ℕ → ℕ → Json → Tx (Unit {0})
record_gap workspace_id gap_id gap = do
  modify (λ s. record s {
    workspaces =
        modify_first (is_workspace workspace_id) (λ w. record w { status = partial_workspace })
          s.workspaces;
  })
  old ← gets (λ s. find (λ (g : ResearchGap). g.id == gap_id) s.gaps)
  when (not (is_some old)) (
      modify (λ s. record s {
        gaps = s.gaps ++ record { id = gap_id; workspace_id = workspace_id; gap = gap } ∷ [];
      }))

-- The part of `checkpoint_partial` after its guards on the lease.
unfoldable pub part_step : (ℕ → ℕ) → RunStep → Run → ℕ → String → ℕ → Json → ℕ → Tx (Unit {0})
part_step gap_of step run attempt_number error workspace_id gap now = do
  found ← gets (λ s. find (is_workspace workspace_id) s.workspaces)
  workspace ← required found lookup_failed
  guard (workspace.target_id == step.target_id) lookup_failed
  fail_attempt step.id attempt_number error now
  transition_step "unknown" "unknown" step.id failed (drop_lease error)
  record_gap workspace_id (gap_of step.id) gap
  close_target step run.id (known partial) error
      (λ r. same_status r.status pending || same_status r.status waiting_retry) now
  emit run.id EventType.step_partial (EventPayload.step_gap step.id error (gap_of step.id))
      (EffectKey.partial step.id step.attempt_count) now

abbrev pub partial_body : (ℕ → ℕ) → StepLease → String → ℕ → Json → ℕ → Tx (Unit {0})
partial_body gap_of lease error workspace_id gap now =
    unless_cancelling lease now tt
      (λ step run. part_step gap_of step run lease.attempt_number error workspace_id gap now)

unfoldable pub checkpoint_partial :
    (ℕ → ℕ) → StepLease → String → ℕ → Json → ℕ → Store → Result (Unit {0}) × Store
checkpoint_partial gap_of lease error workspace_id gap now =
    transact (partial_body gap_of lease error workspace_id gap now)
