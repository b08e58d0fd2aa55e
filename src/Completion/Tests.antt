-- ===== src/Completion/Tests.antt =====
-- Two runs at their last step.
use omniverse_v.Prelude.{◌≡◌, ◌↔◌, refl, [], ◌∷◌, any, filter, has}
use omniverse_v.Domain.{complete, partial}
use omniverse_v.Promotion.{meets}
use omniverse_v.Completion.{
  Verified, evaluate_completion, fragments_of, resolve_question_ids, accepted_field_count, count,
  extra_promotions, final_outcome, complete_step, ended, looped,
}
use omniverse_v.Completion.Outcome.{IsComplete, complete_step-IsComplete}

abbrev verified : Verified
verified = record {
  accepted_proposal_ids = 1 ∷ [];
  accepted_record_ids = 11 ∷ [];
  rejected_at_verify = [];
  planned_question_ids = 5 ∷ 6 ∷ [];
  question_fragment_ids = (5, 21 ∷ []) ∷ (6, 22 ∷ 23 ∷ []) ∷ [];
  reusable_accepted_node_ids = [];
  conflicts = 0;
  accepted_fields = 31 ∷ 32 ∷ [];
  provenance_rows =
      record { proposal_id = 11; field_name = 31; fragment_id = 21 }
      ∷ record { proposal_id = 11; field_name = 32; fragment_id = 23 }
      ∷ record { proposal_id = 11; field_name = 32; fragment_id = 21 }
      ∷ [];
  promotion_rows = 11 ∷ [];
  unresolved_audits = 0;
}

all_answered : final_outcome verified ≡ complete
unfolding final_outcome evaluate_completion fragments_of resolve_question_ids accepted_field_count
    count extra_promotions has meets any filter
all_answered = refl

promoted_twice : final_outcome (record verified { promotion_rows = 11 ∷ 11 ∷ [] }) ≡ partial
unfolding final_outcome evaluate_completion fragments_of resolve_question_ids accepted_field_count
    count extra_promotions has meets any filter
promoted_twice = refl

unanswered : complete_step 2 1 (record verified { question_fragment_ids = [] }) ≡ looped 2
unfolding complete_step final_outcome evaluate_completion fragments_of resolve_question_ids
    accepted_field_count count extra_promotions has meets any filter
unanswered = refl

complete_step-IsComplete_example :
    (complete_step 2 0 verified ≡ ended complete) ↔ IsComplete verified
complete_step-IsComplete_example = complete_step-IsComplete 2 0 verified
