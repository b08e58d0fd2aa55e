-- ===== src/Prelude/Sorting.antt =====
-- Insertion sort by a Boolean order, for `ORDER BY` and `sorted`. It is stable.
use mathlib.Core.Path.{◌≡◌}
use mathlib.Core.Logic.{inl, inr}
use mathlib.Core.Bool.{Bool, true, false}
use mathlib.Core.List.{List, [], ◌∷◌, Memᴰ}
use omniverse_v.Prelude.Tests.{if◌then◌else◌, Bool-cases}
use omniverse_v.Prelude.Lists.{All}

module _ {ℓ} {A : Type ℓ} (le : A → A → Bool) where
  unfoldable pub insert_by : A → List A → List A
  insert_by x [] = x ∷ []
  insert_by x (y ∷ ys) = if le x y then x ∷ y ∷ ys else y ∷ insert_by x ys

  unfoldable pub sort_by : List A → List A
  unfolding insert_by
  sort_by [] = []
  sort_by (x ∷ xs) = insert_by x (sort_by xs)

-- `x` is inserted before the rest, or behind its head.
swapped {ℓ} :
    {A : Type ℓ} (x z : A) (zs rest : List A) (y : A)
    → (Memᴰ y (x ∷ zs) → Memᴰ y rest)
    → Memᴰ y (x ∷ z ∷ zs)
    → Memᴰ y (z ∷ rest)
swapped x z zs rest y inner (Memᴰ.head e) = Memᴰ.tail (inner (Memᴰ.head e))
swapped x z zs rest y inner (Memᴰ.tail (Memᴰ.head e)) = Memᴰ.head e
swapped x z zs rest y inner (Memᴰ.tail (Memᴰ.tail m)) = Memᴰ.tail (inner (Memᴰ.tail m))

Memᴰ-insert_by {ℓ} :
    {A : Type ℓ} (le : A → A → Bool) (x : A) (xs : List A) (y : A)
    → Memᴰ y (x ∷ xs)
    → Memᴰ y (insert_by le x xs)
unfolding insert_by
Memᴰ-insert_by le x [] y m = m
Memᴰ-insert_by le x (z ∷ zs) y m = elim (Bool-cases (le x z)) [
  | inl first ↦ rw first m
  | inr later ↦ rw later (swapped x z zs (insert_by le x zs) y (Memᴰ-insert_by le x zs y) m)
]

-- Sorting keeps every element.
pub Memᴰ-sort_by {ℓ} :
    {A : Type ℓ} (le : A → A → Bool) (xs : List A) (y : A) → Memᴰ y xs → Memᴰ y (sort_by le xs)
unfolding sort_by
Memᴰ-sort_by le [] y m = elim m [ ]
Memᴰ-sort_by le (x ∷ xs) y (Memᴰ.head e) = Memᴰ-insert_by le x (sort_by le xs) y (Memᴰ.head e)
Memᴰ-sort_by le (x ∷ xs) y (Memᴰ.tail m) =
    Memᴰ-insert_by le x (sort_by le xs) y (Memᴰ.tail (Memᴰ-sort_by le xs y m))

insert_by-Memᴰ {ℓ} :
    {A : Type ℓ} (le : A → A → Bool) (x : A) (xs : List A) (y : A)
    → Memᴰ y (insert_by le x xs)
    → Memᴰ y (x ∷ xs)
unfolding insert_by
insert_by-Memᴰ le x [] y m = m
insert_by-Memᴰ le x (z ∷ zs) y m = elim (Bool-cases (le x z)) [
  | inl first ↦ rw first at m
  | inr later ↦ elim (rw later at m) [
    | Memᴰ.head e ↦ Memᴰ.tail (Memᴰ.head e)
    | Memᴰ.tail k ↦ elim (insert_by-Memᴰ le x zs y k) [
      | Memᴰ.head e ↦ Memᴰ.head e
      | Memᴰ.tail n ↦ Memᴰ.tail (Memᴰ.tail n)
    ]
  ]
]

-- Sorting adds no element.
pub sort_by-Memᴰ {ℓ} :
    {A : Type ℓ} (le : A → A → Bool) (xs : List A) (y : A) → Memᴰ y (sort_by le xs) → Memᴰ y xs
unfolding sort_by
sort_by-Memᴰ le [] y m = m
sort_by-Memᴰ le (x ∷ xs) y m = elim (insert_by-Memᴰ le x (sort_by le xs) y m) [
  | Memᴰ.head e ↦ Memᴰ.head e
  | Memᴰ.tail k ↦ Memᴰ.tail (sort_by-Memᴰ le xs y k)
]

-- Every element stands before all that follow it.
abbrev pub Sorted {ℓ κ} : {A : Type ℓ} → (A → A → Type κ) → List A → Type κ
Sorted le [] = Unit
Sorted le (x ∷ xs) = All (le x) xs × Sorted le xs

-- What `sort_by` returns is sorted, for a relation that the test decides.
module _ {ℓ κ} {A : Type ℓ} (le : A → A → Bool) (R : A → A → Type κ)
    (said : (a b : A) → le a b ≡ true → R a b) (other : (a b : A) → le a b ≡ false → R b a)
    (trans : (a b c : A) → R a b → R b c → R a c) where
  All-trans : (a b : A) (xs : List A) → R a b → All (R b) xs → All (R a) xs
  All-trans a b [] h k = tt
  All-trans a b (x ∷ xs) h k = (trans a b x h k.0, All-trans a b xs h k.1)

  All-insert_by : (a x : A) (xs : List A) → R a x → All (R a) xs → All (R a) (insert_by le x xs)
  unfolding insert_by
  All-insert_by a x [] h k = (h, tt)
  All-insert_by a x (y ∷ ys) h k = elim (Bool-cases (le x y)) [
    | inl first ↦ rw first (h, k)
    | inr later ↦ rw later (k.0, All-insert_by a x ys h k.1)
  ]

  Sorted-insert_by : (x : A) (xs : List A) → Sorted R xs → Sorted R (insert_by le x xs)
  unfolding insert_by
  Sorted-insert_by x [] h = (tt, tt)
  Sorted-insert_by x (y ∷ ys) h = elim (Bool-cases (le x y)) [
    | inl first ↦ let r = said x y first in rw first ((r, All-trans x y ys r h.0), h)
    | inr later ↦ rw later (All-insert_by y x ys (other x y later) h.0, Sorted-insert_by x ys h.1)
  ]

  pub Sorted-sort_by : (xs : List A) → Sorted R (sort_by le xs)
  unfolding sort_by
  Sorted-sort_by [] = tt
  Sorted-sort_by (x ∷ xs) = Sorted-insert_by x (sort_by le xs) (Sorted-sort_by xs)
