-- ===== src/Promotion/Eligibility.antt =====
-- Which evidence validate_evidence_eligibility of backend/app/v2/workflow.py lets through.
use omniverse_v.Prelude.{
  ℕ, ◌≡◌, ◌↔◌, ◌⊎◌, refl, ap, Bool, true, false, not, some, List, [], ◌∷◌, ◌++◌, any, Option-cases,
  inl, inr, All,
}
use omniverse_v.Promotion.{
  SupportRole, supports, qualifies, contradicts, other_role, TargetScope, Evidence, Check, passed,
  Ineligible, out_of_world, out_of_continuity, out_of_era, out_of_branch, out_of_conditions,
  out_of_subject, lost_limitation, lost_value, wrong_contradiction, unknown_evidence, ◌then◌,
  require, meets, look_up, sorted, Field, check_role, check_scope, check_support, is_contradiction,
  check_contradiction, check_found, check_each, is_unknown, validate_evidence_eligibility,
}
use omniverse_v.Promotion.Equality.{
  same_option_iff, same_list_iff, Shares, meets_iff, then_iff, require_iff,
}

-- Support, or a limitation that is kept with a value.
abbrev pub HasRole : Field → SupportRole → Type 0
HasRole field role =
    (role ≡ supports)
    ⊎ ((role ≡ qualifies) × (field.is_limitation ≡ true) × (field.has_value ≡ true))

abbrev pub InScope : TargetScope → Evidence → Type 0
InScope target item =
    (item.world_id ≡ target.world_id)
    × (item.continuity ≡ target.continuity)
    × (item.era_or_timepoint ≡ target.era_or_timepoint)
    × (item.branch_id ≡ target.branch_id)
    × (sorted item.conditions ≡ sorted target.conditions)

-- Evidence that may support a field of a target.
abbrev pub IsSupport : TargetScope → Field → Evidence → Type 0
IsSupport target field item =
    HasRole field item.support_role
    × InScope target item
    × Shares target.subject_ids item.subject_ids

abbrev pub IsContradiction : Evidence → Type 0
IsContradiction item = item.support_role ≡ contradicts

-- The evidence of an identifier is on record and satisfies a predicate.
abbrev pub OnRecord : (Evidence → Type 0) → List (ℕ × Evidence) → ℕ → Type 0
OnRecord P evidence i = (item : Evidence) × (look_up i evidence ≡ some item) × P item

check_role_iff :
    (field : Field) (role : SupportRole) → (check_role field role ≡ passed) ↔ HasRole field role
check_role_iff field supports = (λ h. inl refl, λ h. refl)
check_role_iff field qualifies = (
  λ h.
      let (a, b) =
        (then_iff (require field.is_limitation lost_limitation)
            (require field.has_value lost_value)).0
          h in
      inr (refl, (require_iff _ _).0 a, (require_iff _ _).0 b),
  λ h. elim h [ inl e ↦ cc | inr (e, a, b) ↦ rw (a, b) refl ],
)
check_role_iff field contradicts = (λ h. cc, λ h. elim h [ inl e ↦ cc | inr (e, a, b) ↦ cc ])
check_role_iff field other_role = (λ h. cc, λ h. elim h [ inl e ↦ cc | inr (e, a, b) ↦ cc ])

-- A requirement with what it decides, before other checks.
step :
    {P R : Type 0} (b : Bool) (e : Ineligible) (rest : Check)
    → ((b ≡ true) ↔ P)
    → ((rest ≡ passed) ↔ R)
    → ((require b e then rest) ≡ passed) ↔ (P × R)
step b e rest p r = (
  λ h.
      let (here, later) = (then_iff (require b e) rest).0 h in
      (p.0 ((require_iff b e).0 here), r.0 later),
  λ h. (then_iff (require b e) rest).1 ((require_iff b e).1 (p.1 h.0), r.1 h.1),
)

last : {P : Type 0} (b : Bool) (e : Ineligible) → ((b ≡ true) ↔ P) → (require b e ≡ passed) ↔ P
last b e p = (λ h. p.0 ((require_iff b e).0 h), λ h. (require_iff b e).1 (p.1 h))

check_scope_iff :
    (target : TargetScope) (item : Evidence)
    → (check_scope target item ≡ passed) ↔ InScope target item
check_scope_iff target item = (
  λ h. let (a, (b, (c, (d, e)))) = whole.0 h in (a, b, c, d, e),
  λ h. let (a, b, c, d, e) = h in whole.1 (a, (b, (c, (d, e)))),
)
  where
    whole : (check_scope target item ≡ passed) ↔ (
        (item.world_id ≡ target.world_id)
        × ((item.continuity ≡ target.continuity)
            × ((item.era_or_timepoint ≡ target.era_or_timepoint)
                × ((item.branch_id ≡ target.branch_id)
                    × (sorted item.conditions ≡ sorted target.conditions)))))
    whole = step _ out_of_world _ (same_option_iff item.world_id target.world_id) (
        step _ out_of_continuity _ (same_option_iff item.continuity target.continuity) (
          step _ out_of_era _ (same_option_iff item.era_or_timepoint target.era_or_timepoint) (
            step _ out_of_branch _ (same_option_iff item.branch_id target.branch_id) (
              last _ out_of_conditions
                (same_list_iff (sorted item.conditions) (sorted target.conditions))))))

check_support_iff :
    (target : TargetScope) (field : Field) (item : Evidence)
    → (check_support target field item ≡ passed) ↔ IsSupport target field item
check_support_iff target field item =
    let role = check_role field item.support_role in
    let scope = check_scope target item in
    let subject = require (meets target.subject_ids item.subject_ids) out_of_subject in
    let shared = last _ out_of_subject (meets_iff target.subject_ids item.subject_ids) in
    (
      λ h.
          let (a, later) = (then_iff role (scope then subject)).0 h in
          let (b, c) = (then_iff scope subject).0 later in
          (
            (check_role_iff field item.support_role).0 a,
            (check_scope_iff target item).0 b,
            shared.0 c,
          ),
      λ h.
          let (a, b, c) = h in
          let later = (then_iff scope subject).1 ((check_scope_iff target item).1 b, shared.1 c) in
          (then_iff role (scope then subject)).1
            ((check_role_iff field item.support_role).1 a, later),
    )

is_contradiction_iff : (role : SupportRole) → (is_contradiction role ≡ true) ↔ (role ≡ contradicts)
is_contradiction_iff supports = (λ h. cc, λ h. cc)
is_contradiction_iff qualifies = (λ h. cc, λ h. cc)
is_contradiction_iff contradicts = (λ h. refl, λ h. refl)
is_contradiction_iff other_role = (λ h. cc, λ h. cc)

check_contradiction_iff :
    (item : Evidence) → (check_contradiction item ≡ passed) ↔ IsContradiction item
check_contradiction_iff item = last _ wrong_contradiction (is_contradiction_iff item.support_role)

module _ (P : Evidence → Type 0) (check : Evidence → Check) (evidence : List (ℕ × Evidence))
    (decides : (item : Evidence) → (check item ≡ passed) ↔ P item) where
  found-OnRecord : (i : ℕ) → check_found check (look_up i evidence) ≡ passed → OnRecord P evidence i
  found-OnRecord i h = elim (Option-cases (look_up i evidence)) [
    | inl lost ↦ cc (rw lost at h)
    | inr (item, e) ↦ (item, e, (decides item).0 (rw e at h))
  ]

  OnRecord-found : (i : ℕ) → OnRecord P evidence i → check_found check (look_up i evidence) ≡ passed
  OnRecord-found i (item, e, p) = rw e ((decides item).1 p)

  check_each_iff :
      (ids : List ℕ) → (check_each check evidence ids ≡ passed) ↔ All (OnRecord P evidence) ids
  unfolding check_each
  check_each_iff [] = (λ h. tt, λ h. refl)
  check_each_iff (i ∷ ids) =
      let first = check_found check (look_up i evidence) in
      let others = check_each check evidence ids in
      (
        λ h.
            let (a, b) = (then_iff first others).0 h in
            (found-OnRecord i a, (check_each_iff ids).0 b),
        λ h. (then_iff first others).1 (OnRecord-found i h.0, (check_each_iff ids).1 h.1),
      )

  -- Evidence on record is not unknown.
  known :
      (ids rest : List ℕ)
      → All (OnRecord P evidence) ids
      → any (is_unknown evidence) rest ≡ false
      → any (is_unknown evidence) (ids ++ rest) ≡ false
  unfolding any
  known [] rest h r = r
  known (i ∷ ids) rest ((item, e, p), h) r = rw e (known ids rest h r)

append_nil : (ids : List ℕ) → ids ++ [] ≡ ids
append_nil [] = refl
append_nil (i ∷ ids) = ap (λ z. i ∷ z) (append_nil ids)

none_unknown : (evidence : List (ℕ × Evidence)) → any (is_unknown evidence) [] ≡ false
unfolding any
none_unknown evidence = refl

-- validate_evidence_eligibility raises no error exactly if every supporting identifier has evidence on
-- record that supports the field, or limits it where the field keeps a limitation with a value, in the
-- scope of the target and about a subject of it, and every contradicting one has evidence that
-- contradicts.
pub validate_evidence_eligibility_iff :
    (target : TargetScope) (supporting_ids contradicting_ids : List ℕ)
    (evidence : List (ℕ × Evidence)) (field : Field)
    → (validate_evidence_eligibility target supporting_ids contradicting_ids evidence field
        ≡ passed)
      ↔ (All (OnRecord (IsSupport target field) evidence) supporting_ids
          × All (OnRecord IsContradiction evidence) contradicting_ids)
unfolding validate_evidence_eligibility
validate_evidence_eligibility_iff target supporting_ids contradicting_ids evidence field =
    let unknown = any (is_unknown evidence) (supporting_ids ++ contradicting_ids) in
    let guard = require (not unknown) unknown_evidence in
    let first = check_each (check_support target field) evidence supporting_ids in
    let second = check_each check_contradiction evidence contradicting_ids in
    let support =
      check_each_iff (IsSupport target field) (check_support target field) evidence
        (check_support_iff target field) supporting_ids in
    let against =
      check_each_iff IsContradiction check_contradiction evidence check_contradiction_iff
        contradicting_ids in
    (
      λ h.
          let (a, later) = (then_iff guard (first then second)).0 h in
          let (b, c) = (then_iff first second).0 later in (support.0 b, against.0 c),
      λ h.
          let later = (then_iff first second).1 (support.1 h.0, against.1 h.1) in
          let rest =
            known IsContradiction check_contradiction evidence check_contradiction_iff
              contradicting_ids [] h.1 (none_unknown evidence) in
          let all_known =
            known (IsSupport target field) (check_support target field) evidence
              (check_support_iff target field) supporting_ids contradicting_ids h.0
              (rw (append_nil contradicting_ids) at rest) in
          let passes : guard ≡ passed = rw all_known refl in
          (then_iff guard (first then second)).1 (passes, later),
    )
