-- ===== src/Prelude/Members.antt =====
-- Membership in a list of identifiers: a set, or the keys of a table.
use mathlib.Core.Path.{◌≡◌, refl, sym, subst}
use mathlib.Core.Logic.{◌⊎◌, inl, inr}
use mathlib.Core.Bool.{Bool, true, false}
use mathlib.Core.List.{List, [], ◌∷◌}
use Prim.Native.Nat.{ℕ}
use native.Mathlib.Omega.{arith}
use omniverse_v.Prelude.Tests.{◌==◌, if◌then◌else◌, Bool-cases, ==_iff}
use omniverse_v.Prelude.Lists.{All, any, filter}

unfoldable pub has : ℕ → List ℕ → Bool
has i [] = false
has i (j ∷ js) = if j == i then true else has i js

pub has-head : (i : ℕ) (is : List ℕ) → has i (i ∷ is) ≡ true
unfolding has
has-head i is = rw ((==_iff i i).1 refl) refl

pub has-tail : (i j : ℕ) (is : List ℕ) → has i is ≡ true → has i (j ∷ is) ≡ true
unfolding has
has-tail i j is h = ground arith

pub has_split : (i j : ℕ) (is : List ℕ) → has i (j ∷ is) ≡ true → (j ≡ i) ⊎ (has i is ≡ true)
unfolding has
has_split i j is h = elim (Bool-cases (j == i)) [
  | inl e ↦ inl ((==_iff j i).0 e)
  | inr e ↦ inr (rw e at h)
]

pub has-filter :
    (p : ℕ → Bool) (q : ℕ) (qs : List ℕ) → p q ≡ true → has q qs ≡ true → has q (filter p qs) ≡ true
unfolding has filter
has-filter p q [] y h = cc
has-filter p q (r ∷ qs) y h = elim (Bool-cases (r == q)) [
  | inl e ↦
      let yes_r : p r ≡ true = subst (λ z. p z ≡ true) (sym ((==_iff r q).0 e)) y in
      rw (yes_r, e) refl
  | inr o ↦
      let rest = has-filter p q qs y (rw o at h) in
      elim (Bool-cases (p r)) [ inl yes_r ↦ rw (yes_r, o) rest | inr no_r ↦ rw no_r rest ]
]

pub filter-has : (p : ℕ → Bool) (q : ℕ) (qs : List ℕ) → has q (filter p qs) ≡ true → p q ≡ true
unfolding has filter
filter-has p q [] h = cc
filter-has p q (r ∷ qs) h = elim (Bool-cases (p r)) [
  | inr no_r ↦ filter-has p q qs (rw no_r at h)
  | inl yes_r ↦ elim (Bool-cases (r == q)) [
    | inl e ↦ subst (λ z. p z ≡ true) ((==_iff r q).0 e) yes_r
    | inr o ↦ filter-has p q qs (rw (yes_r, o) at h)
  ]
]

-- A test that no element fails.
pub none_left :
    (p : ℕ → Bool) (qs : List ℕ) → any p qs ≡ false → (q : ℕ) → has q qs ≡ true → p q ≡ false
unfolding any has
none_left p [] h q m = cc
none_left p (r ∷ qs) h q m = elim (Bool-cases (p r)) [
  | inl y ↦ cc (rw y at h)
  | inr n ↦ elim (Bool-cases (r == q)) [
    | inl e ↦ subst (λ z. p z ≡ false) ((==_iff r q).0 e) n
    | inr o ↦ none_left p qs (rw n at h) q (rw o at m)
  ]
]

-- `All` over the elements that a list has.
pub All-of : (P : ℕ → Type 0) (qs : List ℕ) → ((q : ℕ) → has q qs ≡ true → P q) → All P qs
All-of P [] f = tt
All-of P (q ∷ qs) f = (f q (has-head q qs), All-of P qs (λ r h. f r (has-tail r q qs h)))

pub has-All : (P : ℕ → Type 0) (qs : List ℕ) (q : ℕ) → All P qs → has q qs ≡ true → P q
unfolding has
has-All P [] q a h = cc
has-All P (r ∷ qs) q (p, a) h = elim (Bool-cases (r == q)) [
  | inl e ↦ subst P ((==_iff r q).0 e) p
  | inr o ↦ has-All P qs q a (rw o at h)
]

pub none_of : (p : ℕ → Bool) (qs : List ℕ) → All (λ q. p q ≡ false) qs → any p qs ≡ false
unfolding any
none_of p [] a = refl
none_of p (q ∷ qs) (h, a) = rw h (none_of p qs a)
