-- ===== src/Workflow/Tests.antt =====
-- A call of `run_next` on a run that was just made.
use omniverse_v.Prelude.{ℕ, false, List, [], ◌∷◌}
use omniverse_v.Domain.{plan}
use omniverse_v.Kernel.Rows.{CreateResearchRun, given}
use omniverse_v.Kernel.Tx.{Store}
use omniverse_v.Kernel.Calls.{Call, perform_all}
use omniverse_v.Kernel.Agreement.{start}
use omniverse_v.Workflow.{
  Setup, Handlers, Instants, append_step, write_gaps, failed_with, other_failure,
}
use omniverse_v.Workflow.Histories.{digests_of}

abbrev pub setup : Setup
setup = record {
  owner = 9;
  crash_after_effect_for = λ kind. false;
  effect_key = λ i. i;
  workspace_id = λ i. i;
  gap_of = λ i. i;
  gap = λ lease f. "{}";
  printed = λ e. "";
}

-- Every step appends another one and fails for good.
abbrev pub failing : Handlers
failing = λ lease s. (
  failed_with (other_failure "broken"),
  append_step lease.run_id lease.target_id plan (given 77) ∷ write_gaps [] ∷ [],
)

abbrev pub instants : Instants
instants = record { leased_at = 10; reported_at = 11; retry_from = 12; failed_at = 13 }

abbrev pub payload_hash : CreateResearchRun → ℕ
payload_hash c = c.max_attempts

abbrev pub created : List Call
created =
    Call.create
      (record {
        objective = "history";
        scope = "{}";
        targets = record { world_id = 7; objective = "history"; scope = "{}" } ∷ [];
        max_attempts = 3;
      })
      5 0
    ∷ []

abbrev pub one_run : Store
one_run = perform_all (digests_of setup payload_hash) created (start (λ n. n) [])
