-- ===== src/Completion/Reasons.antt =====
-- What the tests of Completion.antt decide.
use omniverse_v.Prelude.{
  ℕ, ◌+◌, ◌-◌, ◌≤◌, ◌==◌, ◌≡◌, ◌↔◌, refl, Bool, true, false, not, List, [], ◌∷◌, filter, All,
  Bool-cases, inl, inr, arith, All-of, filter-has, has, has-All, has-filter, is_empty, none_left,
  none_of,
}
use omniverse_v.Promotion.{meets}
use omniverse_v.Promotion.Equality.{Shares, meets_iff}
use omniverse_v.Completion.{
  Reason, when, leaves, fragments_of, resolve_question_ids, count, extra_promotions,
  duplicate_promotions,
}

pub when_iff :
    {P R : Type 0} (b : Bool) (r : Reason) (rest : List Reason)
    → ((b ≡ false) ↔ P)
    → ((is_empty rest ≡ true) ↔ R)
    → (is_empty (when b r rest) ≡ true) ↔ (P × R)
when_iff true r rest p q = (λ h. cc, λ h. let no_b = p.1 h.0 in cc)
when_iff false r rest p q = (λ h. (p.0 refl, q.0 h), λ h. q.1 h.1)

pub not_iff : (b : Bool) → (not b ≡ false) ↔ (b ≡ true)
not_iff true = (λ h. refl, λ h. refl)
not_iff false = (λ h. cc, λ h. cc)

pub zero_iff : (n : ℕ) → (not (n == 0) ≡ false) ↔ (n ≡ 0)
zero_iff n = (λ h. ground arith, λ h. rw h refl)

-- A planned question with an accepted fragment.
abbrev pub IsAnswered : List (ℕ × List ℕ) → List ℕ → ℕ → Type 0
IsAnswered fragments accepted q = Shares (fragments_of q fragments) accepted

module _ (planned : List ℕ) (fragments : List (ℕ × List ℕ)) (accepted : List ℕ) where
  abbrev answers : ℕ → Bool
  answers q = meets (fragments_of q fragments) accepted

  -- No planned question is left exactly if each of them is answered.
  pub leaves_iff :
      (leaves planned (resolve_question_ids planned fragments accepted) ≡ false)
      ↔ All (IsAnswered fragments accepted) planned
  unfolding resolve_question_ids
  leaves_iff =
      let p : ℕ → Bool = λ q. not (has q (filter answers planned)) in
      (
        λ h. All-of (IsAnswered fragments accepted) planned (λ q m.
            let resolved =
              (not_iff (has q (filter answers planned))).0 (none_left p planned h q m) in
            (meets_iff (fragments_of q fragments) accepted).0
              (filter-has answers q planned resolved)),
        λ a. none_of p planned (
            All-of (λ q. p q ≡ false) planned
              (λ q m.
                let answer =
                  (meets_iff (fragments_of q fragments) accepted).1
                    (has-All (IsAnswered fragments accepted) planned q a m) in
                (not_iff (has q (filter answers planned))).1
                  (has-filter answers q planned answer m))),
      )

-- No proposal is promoted twice.
extra_promotions_iff :
    (all_rows rows : List ℕ)
    → (extra_promotions all_rows rows ≡ 0) ↔ All (λ p. count p all_rows ≤ 1) rows
unfolding extra_promotions
extra_promotions_iff all_rows [] = (λ h. tt, λ h. refl)
extra_promotions_iff all_rows (p ∷ rows) = elim (Bool-cases (has p rows)) [
  | inl later ↦ (
    λ h.
        let rest = (extra_promotions_iff all_rows rows).0 (rw later at h) in
        (has-All (λ q. count q all_rows ≤ 1) rows p rest later, rest),
    λ h. rw later ((extra_promotions_iff all_rows rows).1 h.1),
  )
  | inr only ↦ (
    λ h.
        let sum : (count p all_rows - 1) + extra_promotions all_rows rows ≡ 0 = rw only at h in
        (omega arith, (extra_promotions_iff all_rows rows).0 (omega arith)),
    λ h.
        let once : count p all_rows ≤ 1 = h.0 in
        let rest = (extra_promotions_iff all_rows rows).1 h.1 in
        let sum : (count p all_rows - 1) + extra_promotions all_rows rows ≡ 0 = omega arith in
        rw only sum,
  )
]

pub duplicate_promotions_iff :
    (rows : List ℕ) → (duplicate_promotions rows ≡ 0) ↔ All (λ p. count p rows ≤ 1) rows
duplicate_promotions_iff rows = extra_promotions_iff rows rows
