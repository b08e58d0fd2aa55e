-- ===== src/Promotion/Tests.antt =====
-- A proposal with one supporting and one contradicting fragment.
use omniverse_v.Prelude.{
  ℕ, ◌≡◌, ◌↔◌, refl, true, false, none, some, List, [], ◌∷◌, All, any, sort_by, insert_by, has,
}
use omniverse_v.Promotion.{
  supports, contradicts, qualifies, TargetScope, Evidence, Field, passed, refused, lost_value,
  out_of_world, same_list, meets, look_up, check_each, validate_evidence_eligibility,
}
use omniverse_v.Promotion.Eligibility.{
  OnRecord, IsSupport, IsContradiction, validate_evidence_eligibility_iff,
}

abbrev target : TargetScope
target = record {
  world_id = some 1;
  continuity = none;
  era_or_timepoint = some 2;
  branch_id = none;
  conditions = 5 ∷ 4 ∷ [];
  subject_ids = 6 ∷ 7 ∷ [];
}

abbrev support : Evidence
support = record {
  support_role = supports;
  world_id = some 1;
  continuity = none;
  era_or_timepoint = some 2;
  branch_id = none;
  conditions = 4 ∷ 5 ∷ [];
  subject_ids = 7 ∷ [];
}

abbrev on_record : List (ℕ × Evidence)
on_record =
    (10, support)
    ∷ (11, record support { support_role = contradicts })
    ∷ (12, record support { world_id = some 3 })
    ∷ (13, record support { support_role = qualifies })
    ∷ []

abbrev field : Field
field = record { is_limitation = true; has_value = false }

accepted : validate_evidence_eligibility target (10 ∷ []) (11 ∷ []) on_record field ≡ passed
unfolding validate_evidence_eligibility check_each look_up same_list meets has any sort_by insert_by
accepted = refl

other_world :
    validate_evidence_eligibility target (12 ∷ []) [] on_record field ≡ refused out_of_world
unfolding validate_evidence_eligibility check_each look_up same_list meets has any sort_by insert_by
other_world = refl

empty_limitation :
    validate_evidence_eligibility target (13 ∷ []) [] on_record field ≡ refused lost_value
unfolding validate_evidence_eligibility check_each look_up same_list meets has any sort_by insert_by
empty_limitation = refl

validate_evidence_eligibility_iff_example :
    (validate_evidence_eligibility target (10 ∷ []) (11 ∷ []) on_record field ≡ passed) ↔ (
      All (OnRecord (IsSupport target field) on_record) (10 ∷ [])
      × All (OnRecord IsContradiction on_record) (11 ∷ []))
validate_evidence_eligibility_iff_example =
    validate_evidence_eligibility_iff target (10 ∷ []) (11 ∷ []) on_record field
