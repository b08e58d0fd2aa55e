-- ===== src/Promotion/Equality.antt =====
-- The tests that the checks of Promotion.antt make, and what they decide.
use mathlib.Core.Path.{subst}
use omniverse_v.Prelude.{
  ℕ, sym, ◌==◌, ◌≡◌, ◌↔◌, refl, ap, Bool, true, false, ◌&&◌, Option, none, some, List, [], ◌∷◌,
  same_option, Bool-cases, inl, inr, arith, ==_iff, has, has-head, has-tail,
}
use omniverse_v.Promotion.{Check, passed, refused, Ineligible, ◌then◌, require, same_list, meets}

pub same_option_iff : (a b : Option ℕ) → (same_option a b ≡ true) ↔ (a ≡ b)
same_option_iff none none = (λ h. refl, λ h. refl)
same_option_iff none (some b) = (λ h. cc, λ h. cc)
same_option_iff (some a) none = (λ h. cc, λ h. cc)
same_option_iff (some a) (some b) =
    (λ h. ap some ((==_iff a b).0 h), λ h. let same : a ≡ b = cc in (==_iff a b).1 same)

both : (b c : Bool) → ((b && c) ≡ true) ↔ ((b ≡ true) × (c ≡ true))
both true c = (λ h. (refl, h), λ h. h.1)
both false c = (λ h. cc, λ h. cc)

pub same_list_iff : (s t : List ℕ) → (same_list s t ≡ true) ↔ (s ≡ t)
unfolding same_list
same_list_iff [] [] = (λ h. refl, λ h. refl)
same_list_iff [] (b ∷ t) = (λ h. cc, λ h. cc)
same_list_iff (a ∷ s) [] = (λ h. cc, λ h. cc)
same_list_iff (a ∷ s) (b ∷ t) = (
  λ h.
      let (p, q) = (both (a == b) (same_list s t)).0 h in
      let p2 = (==_iff a b).0 p in let q2 = (same_list_iff s t).0 q in cc,
  λ h.
      let p : a ≡ b = cc in
      let q : s ≡ t = cc in
      (both (a == b) (same_list s t)).1 ((==_iff a b).1 p, (same_list_iff s t).1 q),
)

-- A common element.
abbrev pub Shares : List ℕ → List ℕ → Type 0
Shares s t = (i : ℕ) × (has i s ≡ true) × (has i t ≡ true)

meets-Shares : (s t : List ℕ) → meets s t ≡ true → Shares s t
unfolding meets
meets-Shares [] t h = cc
meets-Shares (a ∷ s) t h = elim (Bool-cases (has a t)) [
  | inl y ↦ (a, has-head a s, y)
  | inr n ↦ let (i, p, q) = meets-Shares s t (rw n at h) in (i, has-tail i a s p, q)
]

meets_of_common : (s t : List ℕ) (i : ℕ) → has i s ≡ true → has i t ≡ true → meets s t ≡ true
unfolding meets has
meets_of_common [] t i p q = cc
meets_of_common (a ∷ s) t i p q = elim (Bool-cases (a == i)) [
  | inl e ↦
      let there : has a t ≡ true = subst (λ z. has z t ≡ true) (sym ((==_iff a i).0 e)) q in
      rw there refl
  | inr o ↦ let rest = meets_of_common s t i (rw o at p) q in ground arith
]

pub meets_iff : (s t : List ℕ) → (meets s t ≡ true) ↔ Shares s t
meets_iff s t = (meets-Shares s t, λ h. let (i, p, q) = h in meets_of_common s t i p q)

-- Two checks that pass, and a requirement that holds.
pub then_iff : (a b : Check) → ((a then b) ≡ passed) ↔ ((a ≡ passed) × (b ≡ passed))
then_iff passed b = (λ h. (refl, h), λ h. h.1)
then_iff (refused e) b = (λ h. cc, λ h. cc)

pub require_iff : (b : Bool) (e : Ineligible) → (require b e ≡ passed) ↔ (b ≡ true)
require_iff true e = (λ h. refl, λ h. refl)
require_iff false e = (λ h. cc, λ h. cc)
