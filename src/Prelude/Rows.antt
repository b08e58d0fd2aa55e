-- ===== src/Prelude/Rows.antt =====
-- Membership in the result of a selection: `filter`, `map` and the first row that passes a test.
use mathlib.Core.Path.{◌≡◌, refl, sym, subst, ap, ◌∙◌}
use mathlib.Core.Logic.{inl, inr}
use mathlib.Core.Bool.{Bool, true}
use mathlib.Core.Option.{some}
use mathlib.Core.List.{List, [], ◌∷◌, map, Memᴰ}
use omniverse_v.Prelude.Tests.{Bool-cases}
use omniverse_v.Prelude.Lists.{All, find, filter}
use omniverse_v.Prelude.Sorting.{Sorted}

pub All_mem {ℓ κ} : {A : Type ℓ} (P : A → Type κ) (xs : List A) (y : A) → All P xs → Memᴰ y xs → P y
All_mem P [] y h m = elim m [ ]
All_mem P (x ∷ xs) y h (Memᴰ.head e) = subst P (sym e) h.0
All_mem P (x ∷ xs) y h (Memᴰ.tail m) = All_mem P xs y h.1 m

pub mem_All {ℓ κ} :
    {A : Type ℓ} (P : A → Type κ) (xs : List A) → ((y : A) → Memᴰ y xs → P y) → All P xs
mem_All P [] f = tt
mem_All P (x ∷ xs) f = (f x (Memᴰ.head refl), mem_All P xs (λ y m. f y (Memᴰ.tail m)))

module _ {ℓ} {A : Type ℓ} (p : A → Bool) where
  pub Memᴰ-filter : (xs : List A) (y : A) → p y ≡ true → Memᴰ y xs → Memᴰ y (filter p xs)
  unfolding filter
  Memᴰ-filter [] y h m = elim m [ ]
  Memᴰ-filter (x ∷ xs) y h (Memᴰ.head e) = elim (Bool-cases (p x)) [
    | inl kept ↦ rw kept (Memᴰ.head e)
    | inr out ↦ cc (h, out, e)
  ]
  Memᴰ-filter (x ∷ xs) y h (Memᴰ.tail m) = elim (Bool-cases (p x)) [
    | inl kept ↦ rw kept (Memᴰ.tail (Memᴰ-filter xs y h m))
    | inr out ↦ rw out (Memᴰ-filter xs y h m)
  ]

  pub filter-Memᴰ : (xs : List A) (y : A) → Memᴰ y (filter p xs) → Memᴰ y xs × (p y ≡ true)
  unfolding filter
  filter-Memᴰ [] y m = elim m [ ]
  filter-Memᴰ (x ∷ xs) y m = elim (Bool-cases (p x)) [
    | inr out ↦ let rest = filter-Memᴰ xs y (rw out at m) in (Memᴰ.tail rest.0, rest.1)
    | inl kept ↦ elim (rw kept at m) [
      | Memᴰ.head e ↦ (Memᴰ.head e, ap p e ∙ kept)
      | Memᴰ.tail k ↦ let rest = filter-Memᴰ xs y k in (Memᴰ.tail rest.0, rest.1)
    ]
  ]

  pub find-Memᴰ : (xs : List A) (c : A) → find p xs ≡ some c → Memᴰ c xs × (p c ≡ true)
  unfolding find
  find-Memᴰ [] c e = cc
  find-Memᴰ (x ∷ xs) c e = elim (Bool-cases (p x)) [
    | inl here ↦ let same : x ≡ c = cc (rw here at e) in (Memᴰ.head (sym same), cc)
    | inr there ↦ let rest = find-Memᴰ xs c (rw there at e) in (Memᴰ.tail rest.0, rest.1)
  ]

  -- In a sorted list the first row that passes a test comes before all others that do.
  pub find_first {κ} :
      (R : A → A → Type κ)
      → ((a : A) → R a a)
      → (xs : List A) (c y : A) → Sorted R xs
      → find p xs ≡ some c
      → Memᴰ y xs
      → p y ≡ true
      → R c y
  unfolding find
  find_first R reflexive [] c y h e m k = elim m [ ]
  find_first R reflexive (x ∷ xs) c y h e m k = elim (Bool-cases (p x)) [
    | inl here ↦
        let same : x ≡ c = cc (rw here at e) in
        subst (λ z. R z y) same (All_mem (R x) (x ∷ xs) y (reflexive x, h.0) m)
    | inr there ↦ elim m [
      | Memᴰ.head q ↦ cc (k, q, there)
      | Memᴰ.tail n ↦ find_first R reflexive xs c y h.1 (rw there at e) n k
    ]
  ]

pub Memᴰ-map {ℓ κ} :
    {A : Type ℓ} {B : Type κ} (f : A → B) (xs : List A) (y : A) → Memᴰ y xs → Memᴰ (f y) (map f xs)
Memᴰ-map f [] y m = elim m [ ]
Memᴰ-map f (x ∷ xs) y (Memᴰ.head e) = Memᴰ.head (ap f e)
Memᴰ-map f (x ∷ xs) y (Memᴰ.tail m) = Memᴰ.tail (Memᴰ-map f xs y m)

pub map-Memᴰ {ℓ κ} :
    {A : Type ℓ} {B : Type κ} (f : A → B) (xs : List A) (z : B)
    → Memᴰ z (map f xs)
    → (y : A) × Memᴰ y xs × (z ≡ f y)
map-Memᴰ f [] z m = elim m [ ]
map-Memᴰ f (x ∷ xs) z (Memᴰ.head e) = (x, Memᴰ.head refl, e)
map-Memᴰ f (x ∷ xs) z (Memᴰ.tail m) = let (y, k, e) = map-Memᴰ f xs z m in (y, Memᴰ.tail k, e)

pub All-map {ℓ κ μ} :
    {A : Type ℓ} {B : Type κ} (f : A → B) (P : B → Type μ) (xs : List A)
    → All (λ a. P (f a)) xs
    → All P (map f xs)
All-map f P [] h = tt
All-map f P (x ∷ xs) h = (h.0, All-map f P xs h.1)

-- A list is sorted by what the relation says of the images.
pub Sorted-map {ℓ κ μ} :
    {A : Type ℓ} {B : Type κ} (f : A → B) (R : B → B → Type μ) (xs : List A)
    → Sorted (λ a b. R (f a) (f b)) xs
    → Sorted R (map f xs)
Sorted-map f R [] h = tt
Sorted-map f R (x ∷ xs) h = (All-map f (R (f x)) xs h.0, Sorted-map f R xs h.1)
