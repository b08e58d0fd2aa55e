-- ===== src/Gateway/Fitting.antt =====
-- The evidence that the gateway keeps is the longest prefix with which the request fits the window.
use mathlib.Core.Path.{subst}
use omniverse_v.Prelude.{
  ℕ, ◌==◌, ==_iff, zero, suc, ◌≤◌, ◌<◌, ◌≡◌, refl, sym, ap, Bool, true, false, List, [], ◌∷◌,
  length, Bool-cases, inl, inr, arith,
}
use omniverse_v.Context.{Text, take, EvidenceItem, BudgetResult, ok, overflow}
use omniverse_v.Gateway.{Formats, Call, pop}
use omniverse_v.Gateway.Service.{fits_with, shrink}

pop-take :
    {A : Type 0} (n : ℕ) (xs : List A) → suc n ≤ length xs → pop (take (suc n) xs) ≡ take n xs
unfolding pop
pop-take zero [] h = refl
pop-take zero (x ∷ xs) h = refl
pop-take (suc n) [] h = refl
pop-take (suc n) (x ∷ []) h = absurd (omega arith)
pop-take (suc n) (x ∷ y ∷ xs) h = ap (λ z. x ∷ z) (pop-take n (y ∷ xs) (omega arith))

take-length : {A : Type 0} (xs : List A) → take (length xs) xs ≡ xs
take-length [] = refl
take-length (x ∷ xs) = ap (λ z. x ∷ z) (take-length xs)

near : (n m : ℕ) → (m == suc n) ≡ false → m ≤ suc n → m ≤ n
near n m o le = ground arith

-- A test that fails at a bound and below it.
fails_up_to :
    (p : ℕ → Bool) (n m : ℕ) → p (suc n) ≡ false → (m ≤ n → p m ≡ false) → m ≤ suc n → p m ≡ false
fails_up_to p n m top below le = elim (Bool-cases (m == suc n)) [
  | inl e ↦ subst (λ z. p z ≡ false) (sym ((==_iff m (suc n)).0 e)) top
  | inr o ↦ below (near n m o le)
]

fails_at_zero : (p : ℕ → Bool) (m : ℕ) → p 0 ≡ false → m ≤ 0 → p m ≡ false
fails_at_zero p zero h le = h
fails_at_zero p (suc m) h le = absurd (omega arith)

module _ {Output : Type 0} (formats : Formats Output) (c : Call) (instructions : Text)
    (items : List EvidenceItem) where
  -- Whether the request fits with the first so many items.
  abbrev holds : ℕ → Bool
  holds m = fits_with formats c instructions (take m items)

  -- The longest prefix, of at most so many items, with which the request fits.
  abbrev pub IsLongest : ℕ → BudgetResult (List EvidenceItem) → Type 0
  IsLongest n (ok kept) =
      (k : ℕ) × (k ≤ n)
      × (kept ≡ take k items)
      × (fits_with formats c instructions kept ≡ true)
      × ((m : ℕ) → k < m → m ≤ n → fits_with formats c instructions (take m items) ≡ false)
  IsLongest n overflow = (m : ℕ) → m ≤ n → fits_with formats c instructions (take m items) ≡ false

  wider :
      (n : ℕ) (r : BudgetResult (List EvidenceItem))
      → holds (suc n) ≡ false
      → IsLongest n r
      → IsLongest (suc n) r
  wider n (ok kept) top (k, le, e, y, f) =
      (k, omega arith, e, y, λ m a b. fails_up_to holds n m top (λ h. f m a h) b)
  wider n overflow top f = λ m le. fails_up_to holds n m top (f m) le

  shrink-take :
      (n : ℕ) → n ≤ length items → IsLongest n (shrink formats c n instructions (take n items))
  unfolding shrink
  shrink-take zero le = elim (Bool-cases (holds 0)) [
    | inl y ↦ rw y (0, omega arith, refl, y, λ m a b. absurd (omega arith))
    | inr n ↦ rw n (λ m a. fails_at_zero holds m n a)
  ]
  shrink-take (suc n) le = elim (Bool-cases (holds (suc n))) [
    | inl y ↦ rw y (suc n, omega arith, refl, y, λ m a b. absurd (omega arith))
    | inr top ↦
        let shorter = pop-take n items le in
        let rest = shrink-take n (omega arith) in
        rw (top, shorter) (wider n (shrink formats c n instructions (take n items)) top rest)
  ]

  -- Of the evidence that a built context selects, `call` keeps the longest prefix with which the
  -- serialized request fits the context window, and overflows only if no prefix fits, not even the
  -- empty one.
  pub shrink-IsLongest :
      IsLongest (length items) (shrink formats c (length items) instructions items)
  shrink-IsLongest =
      subst (λ z. IsLongest (length items) (shrink formats c (length items) instructions z))
        (take-length items) (shrink-take (length items) (omega arith))
