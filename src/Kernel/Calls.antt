-- ===== src/Kernel/Calls.antt =====
-- A history of the kernel: the calls that its clients make, in the order in which their
-- transactions commit.
use omniverse_v.Prelude.{ℕ, Bool, Option, List, [], ◌∷◌, String}
use omniverse_v.Domain.{RunOutcome, StepKind}
use omniverse_v.Kernel.Rows.{
  ResearchWorkspace, ResearchGap, Json, StepKey, StepLease, StepState, CreateResearchRun,
}
use omniverse_v.Kernel.Tx.{Store}
use omniverse_v.Kernel.Create
use omniverse_v.Kernel.Lease
use omniverse_v.Kernel.Checkpoints
use omniverse_v.Kernel.Partial
use omniverse_v.Kernel.Control
use omniverse_v.Kernel.Retry

-- The digests that the kernel takes of a command and of a step's identifier.
pub record Digests : Type 0 where
  pub payload_hash : CreateResearchRun → ℕ
  pub gap_of : ℕ → ℕ

-- The public methods of ResearchRunKernel that write, and the writes of the workflow's handlers to the
-- tables of
-- workspaces and gaps, which the kernel shares with them.
pub data Call : Type 0 where
  create : CreateResearchRun → ℕ → ℕ → Call
  append_step : ℕ → ℕ → StepKind → StepKey → Call
  lease_next : ℕ → ℕ → ℕ → Option ℕ → Call
  reconcile_startup : ℕ → Call
  checkpoint_success : StepLease → ℕ → List String → StepState → ℕ → Call
  checkpoint_failure : StepLease → String → Bool → Option ℕ → ℕ → Call
  checkpoint_partial : StepLease → String → ℕ → Json → ℕ → Call
  request_cancel : ℕ → ℕ → Call
  cancel_at_safe_boundary : StepLease → ℕ → Call
  record_target_outcome : ℕ → ℕ → RunOutcome → Option String → ℕ → Call
  finish_from_targets : ℕ → ℕ → Call
  resume : ℕ → Call
  retry : ℕ → ℕ → Call
  write_workspaces : List ResearchWorkspace → Call
  write_gaps : List ResearchGap → Call

-- The database after a call, whether the call returned or raised.
unfoldable pub perform : Digests → Call → Store → Store
perform d (create command key now) s = (Create.create d.payload_hash command key now s).1
perform d (append_step run_id target_id kind key) s =
    (Create.append_step run_id target_id kind key s).1
perform d (lease_next owner now duration scope) s = (Lease.lease_next owner now duration scope s).1
perform d (reconcile_startup now) s = (Lease.reconcile_startup now s).1
perform d (checkpoint_success lease key refs state now) s =
    (Checkpoints.checkpoint_success lease key refs state now s).1
perform d (checkpoint_failure lease error retryable retry_at now) s =
    (Checkpoints.checkpoint_failure lease error retryable retry_at now s).1
perform d (checkpoint_partial lease error workspace_id gap now) s =
    (Partial.checkpoint_partial d.gap_of lease error workspace_id gap now s).1
perform d (request_cancel run_id now) s = (Control.request_cancel run_id now s).1
perform d (cancel_at_safe_boundary lease now) s = (Control.cancel_at_safe_boundary lease now s).1
perform d (record_target_outcome run_id world_id outcome error now) s =
    (Control.record_target_outcome run_id world_id outcome error now s).1
perform d (finish_from_targets run_id now) s = (Control.finish_from_targets run_id now s).1
perform d (resume run_id) s = (Control.resume run_id s).1
perform d (retry run_id now) s = (Retry.retry run_id now s).1
perform d (write_workspaces rows) s = record s { workspaces = rows }
perform d (write_gaps rows) s = record s { gaps = rows }

unfoldable pub perform_all : Digests → List Call → Store → Store
perform_all d [] s = s
perform_all d (c ∷ cs) s = perform_all d cs (perform d c s)
