-- ===== src/Promotion.antt =====
-- What the evidence of a proposal must satisfy before it is promoted: validate_evidence_eligibility of
-- backend/app/v2/workflow.py. Identifiers and conditions are numbers. Of the field, the model has whether
-- its name is that of a limitation and whether its value is none of None, "", () and [].
pub mod Equality
pub mod Eligibility
mod Tests
use omniverse_v.Prelude.{
  ℕ, ◌+◌, ◌==◌, Bool, true, false, not, ◌&&◌, ◌||◌, Option, none, some, List, [], ◌∷◌, ◌++◌, any,
  filter, ltb, leb, length, sort_by, same_option, is_some, if◌then◌else◌, has,
}

pub data SupportRole : Type 0 where
  supports qualifies contradicts other_role : SupportRole

pub record TargetScope : Type 0 where
  pub world_id : Option ℕ
  pub continuity : Option ℕ
  pub era_or_timepoint : Option ℕ
  pub branch_id : Option ℕ
  pub conditions : List ℕ
  pub subject_ids : List ℕ

pub record Evidence : Type 0 where
  pub support_role : SupportRole
  pub world_id : Option ℕ
  pub continuity : Option ℕ
  pub era_or_timepoint : Option ℕ
  pub branch_id : Option ℕ
  pub conditions : List ℕ
  pub subject_ids : List ℕ

-- EvidenceEligibilityError by its message, with the label of a check.
pub data Ineligible : Type 0 where
  unknown_evidence lost_limitation lost_value wrong_support out_of_world out_of_continuity
        out_of_era :
      Ineligible
  out_of_branch out_of_conditions out_of_subject wrong_contradiction : Ineligible

pub data Check : Type 0 where
  passed : Check
  refused : Ineligible → Check

-- A check, and the ones that follow it.
infixr 5 ◌then◌
abbrev pub ◌then◌ : Check → Check → Check
passed then rest = rest
refused e then rest = refused e

abbrev pub require : Bool → Ineligible → Check
require b e = if b then passed else refused e

unfoldable pub same_list : List ℕ → List ℕ → Bool
same_list [] [] = true
same_list (a ∷ s) (b ∷ t) = a == b && same_list s t
same_list [] (b ∷ t) = false
same_list (a ∷ s) [] = false

-- `set(a) & set(b)`, as a truth value.
unfoldable pub meets : List ℕ → List ℕ → Bool
meets [] t = false
meets (a ∷ s) t = has a t || meets s t

-- `evidence[id]`, if there is one.
unfoldable pub look_up : ℕ → List (ℕ × Evidence) → Option Evidence
look_up i [] = none
look_up i ((j, item) ∷ rest) = if j == i then some item else look_up i rest

abbrev pub sorted : List ℕ → List ℕ
sorted ids = sort_by leb ids

-- The arguments on the field: whether its name is that of a limitation, and whether it has a value.
pub record Field : Type 0 where
  pub is_limitation : Bool
  pub has_value : Bool

abbrev pub check_role : Field → SupportRole → Check
check_role field supports = passed
check_role field qualifies =
    require field.is_limitation lost_limitation then require field.has_value lost_value
check_role field contradicts = refused wrong_support
check_role field other_role = refused wrong_support

abbrev pub check_scope : TargetScope → Evidence → Check
check_scope target item =
    require (same_option item.world_id target.world_id) out_of_world
    then require (same_option item.continuity target.continuity) out_of_continuity
    then require (same_option item.era_or_timepoint target.era_or_timepoint) out_of_era
    then require (same_option item.branch_id target.branch_id) out_of_branch
    then require (same_list (sorted item.conditions) (sorted target.conditions)) out_of_conditions

-- A turn of the loop over the supporting evidence.
abbrev pub check_support : TargetScope → Field → Evidence → Check
check_support target field item =
    check_role field item.support_role
    then check_scope target item
    then require (meets target.subject_ids item.subject_ids) out_of_subject

abbrev pub is_contradiction : SupportRole → Bool
is_contradiction contradicts = true
is_contradiction _ = false

abbrev pub check_contradiction : Evidence → Check
check_contradiction item = require (is_contradiction item.support_role) wrong_contradiction

-- `evidence[id]` in a loop; unknown identifiers have been refused before.
abbrev pub check_found : (Evidence → Check) → Option Evidence → Check
check_found check none = refused unknown_evidence
check_found check (some item) = check item

unfoldable pub check_each : (Evidence → Check) → List (ℕ × Evidence) → List ℕ → Check
check_each check evidence [] = passed
check_each check evidence (i ∷ ids) =
    check_found check (look_up i evidence) then check_each check evidence ids

abbrev pub is_unknown : List (ℕ × Evidence) → ℕ → Bool
is_unknown evidence i = not (is_some (look_up i evidence))

unfoldable pub validate_evidence_eligibility :
    TargetScope → List ℕ → List ℕ → List (ℕ × Evidence) → Field → Check
validate_evidence_eligibility target supporting_ids contradicting_ids evidence field =
    require (not (any (is_unknown evidence) (supporting_ids ++ contradicting_ids))) unknown_evidence
    then check_each (check_support target field) evidence supporting_ids
    then check_each check_contradiction evidence contradicting_ids
