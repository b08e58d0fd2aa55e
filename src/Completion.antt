-- ===== src/Completion.antt =====
-- When the last step of a run makes it COMPLETE: evaluate_completion, resolve_question_ids and the
-- outcome in `_complete` of backend/app/v2/workflow.py. The results of its queries are a record here; a
-- rate is a fraction, min(1.0, part / whole).
pub mod Reasons
pub mod Outcome
mod Tests
use omniverse_v.Prelude.{
  ℕ, zero, suc, ◌+◌, ◌-◌, ◌==◌, Bool, true, false, not, ◌&&◌, ◌||◌, List, [], ◌∷◌, any, filter, ltb,
  leb, length, map, if◌then◌else◌, has, is_empty,
}
use omniverse_v.Domain.{RunOutcome, complete, partial, outcome_failed, outcome_cancelled}
use omniverse_v.Promotion.{meets}

pub record Rate : Type 0 where
  pub part : ℕ
  pub whole : ℕ

abbrev pub is_full : Rate → Bool
is_full r = leb r.whole r.part

pub data Reason : Type 0 where
  provenance_below_1 planned_questions_unresolved invalidating_conflicts_open : Reason
  audit_decisions_unresolved duplicate_promotions_made : Reason

pub record CompletionInputs : Type 0 where
  pub planned_question_ids : List ℕ
  pub resolved_question_ids : List ℕ
  pub provenance_rate : Rate
  pub unresolved_invalidating_conflicts : ℕ
  pub unresolved_audit_decisions : ℕ
  pub duplicate_promotions : ℕ

pub record CompletionResult : Type 0 where
  pub outcome : RunOutcome
  pub reasons : List Reason

-- `reasons.append`, under a condition, before the reasons that follow.
abbrev pub when : Bool → Reason → List Reason → List Reason
when b r rest = if b then r ∷ rest else rest

-- Whether the difference of two sets has an element.
abbrev pub leaves : List ℕ → List ℕ → Bool
leaves planned resolved = any (λ q. not (has q resolved)) planned

abbrev pub reasons_of : CompletionInputs → List Reason
reasons_of i = when (not (is_full i.provenance_rate)) provenance_below_1 (
    when (leaves i.planned_question_ids i.resolved_question_ids) planned_questions_unresolved (
      when (not (i.unresolved_invalidating_conflicts == 0)) invalidating_conflicts_open (
        when (not (i.unresolved_audit_decisions == 0)) audit_decisions_unresolved
          (when (not (i.duplicate_promotions == 0)) duplicate_promotions_made []))))

unfoldable pub evaluate_completion : CompletionInputs → CompletionResult
evaluate_completion i = record {
  outcome = if is_empty (reasons_of i) then complete else partial;
  reasons = reasons_of i;
}

-- `question_fragment_ids.get(question_id, ())`.
unfoldable pub fragments_of : ℕ → List (ℕ × List ℕ) → List ℕ
fragments_of q [] = []
fragments_of q ((i, ids) ∷ rest) = if i == q then ids else fragments_of q rest

unfoldable pub resolve_question_ids : List ℕ → List (ℕ × List ℕ) → List ℕ → List ℕ
resolve_question_ids planned fragments accepted =
    filter (λ q. meets (fragments_of q fragments) accepted) planned

-- The columns of a provenance row that the outcome goes by.
pub record ProvenanceRow : Type 0 where
  pub proposal_id : ℕ
  pub field_name : ℕ
  pub fragment_id : ℕ

-- What `_complete` reads of the step's state and of the database.
pub record Verified : Type 0 where
  pub accepted_proposal_ids : List ℕ
  pub accepted_record_ids : List ℕ
  pub rejected_at_verify : List ℕ
  pub planned_question_ids : List ℕ
  pub question_fragment_ids : List (ℕ × List ℕ)
  pub reusable_accepted_node_ids : List ℕ
  pub conflicts : ℕ
  pub accepted_fields : List ℕ
  pub provenance_rows : List ProvenanceRow
  pub promotion_rows : List ℕ
  pub unresolved_audits : ℕ

abbrev pub same_field : ProvenanceRow → ProvenanceRow → Bool
same_field a b = a.proposal_id == b.proposal_id && a.field_name == b.field_name

-- The number of fields with provenance, each counted once.
unfoldable pub accepted_field_count : List ProvenanceRow → ℕ
accepted_field_count [] = 0
accepted_field_count (row ∷ rows) =
    let rest = accepted_field_count rows in if any (same_field row) rows then rest else suc rest

abbrev pub accepted_fragment_ids : Verified → List ℕ
accepted_fragment_ids v = map (λ (row : ProvenanceRow). row.fragment_id) v.provenance_rows

-- `list.count`.
unfoldable pub count : ℕ → List ℕ → ℕ
count p [] = 0
count p (q ∷ rows) = let rest = count p rows in if q == p then suc rest else rest

-- The sum over the distinct proposals, each at its last row.
unfoldable pub extra_promotions : List ℕ → List ℕ → ℕ
extra_promotions all_rows [] = 0
extra_promotions all_rows (p ∷ rows) =
    let rest = extra_promotions all_rows rows in
    if has p rows then rest else (count p all_rows - 1) + rest

abbrev pub duplicate_promotions : List ℕ → ℕ
duplicate_promotions rows = extra_promotions rows rows

abbrev pub provenance_rate : Verified → Rate
provenance_rate v =
    if is_empty v.accepted_record_ids
    then record { part = 1; whole = 1 }
    else if is_empty v.accepted_fields
    then record { part = 0; whole = 1 }
    else record { part = accepted_field_count v.provenance_rows; whole = length v.accepted_fields }

abbrev pub completion_inputs : Verified → CompletionInputs
completion_inputs v = record {
  planned_question_ids = v.planned_question_ids;
  resolved_question_ids =
      resolve_question_ids v.planned_question_ids v.question_fragment_ids (accepted_fragment_ids v);
  provenance_rate = provenance_rate v;
  unresolved_invalidating_conflicts = v.conflicts;
  unresolved_audit_decisions = v.unresolved_audits;
  duplicate_promotions = duplicate_promotions v.promotion_rows;
}

abbrev pub reused : Verified → Bool
reused v = not (is_empty v.reusable_accepted_node_ids) && is_empty v.planned_question_ids

abbrev pub has_results : Verified → Bool
has_results v = not (is_empty v.accepted_proposal_ids) || reused v

-- The outcome that `_complete` records.
unfoldable pub final_outcome : Verified → RunOutcome
unfolding evaluate_completion
final_outcome v =
    if not (is_empty v.rejected_at_verify)
    then partial
    else if has_results v
    then (evaluate_completion (completion_inputs v)).outcome
    else partial

-- How the step ends: with another loop over the gaps, or with an outcome.
pub data End : Type 0 where
  looped : ℕ → End
  ended : RunOutcome → End

abbrev pub actionable : Verified → Bool
actionable v =
    leaves v.planned_question_ids (
      resolve_question_ids v.planned_question_ids v.question_fragment_ids (accepted_fragment_ids v))
    || not (is_empty v.rejected_at_verify)

abbrev pub loop_or_end : Bool → ℕ → RunOutcome → End
loop_or_end again loop_count partial = if again then looped (suc loop_count) else ended partial
loop_or_end again loop_count complete = ended complete
loop_or_end again loop_count outcome_failed = ended outcome_failed
loop_or_end again loop_count outcome_cancelled = ended outcome_cancelled

-- `_complete`, with the count of the loops so far and the most that there may be.
unfoldable pub complete_step : ℕ → ℕ → Verified → End
unfolding final_outcome
complete_step max_gap_loops loop_count v =
    loop_or_end (actionable v && ltb loop_count max_gap_loops) loop_count (final_outcome v)
