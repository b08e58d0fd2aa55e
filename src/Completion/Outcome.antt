-- ===== src/Completion/Outcome.antt =====
-- When `_complete` of backend/app/v2/workflow.py ends in COMPLETE.
use omniverse_v.Prelude.{
  ℕ, ◌≤◌, ◌==◌, ◌&&◌, ltb, ◌≡◌, ◌↔◌, refl, Bool, true, false, not, [], All, if◌then◌else◌, is_empty,
}
use omniverse_v.Domain.{RunOutcome, complete, partial, outcome_failed, outcome_cancelled}
use omniverse_v.Completion.{
  ended, actionable, loop_or_end, complete_step, Verified, is_full, reasons_of, provenance_below_1,
  planned_questions_unresolved, invalidating_conflicts_open, audit_decisions_unresolved,
  duplicate_promotions_made, evaluate_completion, accepted_fragment_ids, count,
  duplicate_promotions, provenance_rate, completion_inputs, has_results, final_outcome,
}
use omniverse_v.Completion.Reasons.{
  when_iff, not_iff, zero_iff, IsAnswered, leaves_iff, duplicate_promotions_iff,
}

-- What a complete run needs.
abbrev pub IsComplete : Verified → Type 0
IsComplete v =
    (is_empty v.rejected_at_verify ≡ true)
    × (has_results v ≡ true)
    × (is_full (provenance_rate v) ≡ true)
    × All (IsAnswered v.question_fragment_ids (accepted_fragment_ids v)) v.planned_question_ids
    × (v.conflicts ≡ 0)
    × (v.unresolved_audits ≡ 0)
    × All (λ p. count p v.promotion_rows ≤ 1) v.promotion_rows

-- No reason against completion.
abbrev NoReason : Verified → Type 0
NoReason v =
    (is_full (provenance_rate v) ≡ true)
    × (All (IsAnswered v.question_fragment_ids (accepted_fragment_ids v)) v.planned_question_ids
        × ((v.conflicts ≡ 0)
            × ((v.unresolved_audits ≡ 0)
                × (All (λ p. count p v.promotion_rows ≤ 1) v.promotion_rows × Unit))))

reasons_of_lem : (v : Verified) → (is_empty (reasons_of (completion_inputs v)) ≡ true) ↔ NoReason v
reasons_of_lem v = when_iff _ provenance_below_1 _ (not_iff (is_full (provenance_rate v))) (
    when_iff _ planned_questions_unresolved _
      (leaves_iff v.planned_question_ids v.question_fragment_ids (accepted_fragment_ids v))
      (when_iff _ invalidating_conflicts_open _ (zero_iff v.conflicts) (
        when_iff _ audit_decisions_unresolved _ (zero_iff v.unresolved_audits)
          (when_iff _ duplicate_promotions_made [] duplicates (λ h. tt, λ h. refl)))))
  where
    duplicates :
        (not (duplicate_promotions v.promotion_rows == 0) ≡ false)
        ↔ All (λ p. count p v.promotion_rows ≤ 1) v.promotion_rows
    duplicates = (
      λ h.
          (duplicate_promotions_iff v.promotion_rows).0
            ((zero_iff (duplicate_promotions v.promotion_rows)).0 h),
      λ a.
          (zero_iff (duplicate_promotions v.promotion_rows)).1
            ((duplicate_promotions_iff v.promotion_rows).1 a),
    )

-- Three tests that lead to the outcome.
outcome_iff :
    (a b c : Bool)
    → ((if not a then partial else if b then (if c then complete else partial) else partial)
        ≡ complete)
      ↔ ((a ≡ true) × (b ≡ true) × (c ≡ true))
outcome_iff true true true = (λ h. (refl, refl, refl), λ h. refl)
outcome_iff true true false = (λ h. cc, λ h. let (p, q, r) = h in cc)
outcome_iff true false c = (λ h. cc, λ h. let (p, q, r) = h in cc)
outcome_iff false b c = (λ h. cc, λ h. let (p, q, r) = h in cc)

final_outcome-IsComplete : (v : Verified) → (final_outcome v ≡ complete) ↔ IsComplete v
unfolding final_outcome evaluate_completion
final_outcome-IsComplete v =
    let three =
      outcome_iff (is_empty v.rejected_at_verify) (has_results v)
        (is_empty (reasons_of (completion_inputs v))) in
    (
      λ h.
          let (a, b, c) = three.0 h in
          let (d, (e, (f, (g, (i, u))))) = (reasons_of_lem v).0 c in (a, b, d, e, f, g, i),
      λ h.
          let (a, b, d, e, f, g, i) = h in
          three.1 (a, b, (reasons_of_lem v).1 (d, (e, (f, (g, (i, tt)))))),
    )

ends_complete :
    (again : Bool) (loop_count : ℕ) (o : RunOutcome)
    → (loop_or_end again loop_count o ≡ ended complete) ↔ (o ≡ complete)
ends_complete again loop_count complete = (λ h. refl, λ h. refl)
ends_complete true loop_count partial = (λ h. cc, λ h. cc)
ends_complete false loop_count partial = (λ h. cc, λ h. cc)
ends_complete again loop_count outcome_failed = (λ h. cc, λ h. cc)
ends_complete again loop_count outcome_cancelled = (λ h. cc, λ h. cc)

-- The last step ends COMPLETE exactly if no proposal was rejected at verification, a proposal was accepted
-- or, with no questions, accepted canon was reused, the rate of provenance is 1.0, every planned
-- question has an accepted fragment, no conflict and no audit decision is open, and no proposal was
-- promoted twice.
pub complete_step-IsComplete :
    (max_gap_loops loop_count : ℕ) (v : Verified)
    → (complete_step max_gap_loops loop_count v ≡ ended complete) ↔ IsComplete v
unfolding complete_step
complete_step-IsComplete max_gap_loops loop_count v =
    let end =
      ends_complete (actionable v && ltb loop_count max_gap_loops) loop_count (final_outcome v) in
    let outcome = final_outcome-IsComplete v in (λ h. outcome.0 (end.0 h), λ h. end.1 (outcome.1 h))
