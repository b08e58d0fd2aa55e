-- ===== src/Kernel/Respects.antt =====
-- Two-state properties of transactions: what holds between the database before a transaction and
-- the one that it commits, with a rule for each way to build a transaction.
use omniverse_v.Prelude.{
  ◌≡◌, refl, Bool, true, false, Option, none, some, List, [], ◌∷◌, arith, if◌then◌else◌,
}
use omniverse_v.Kernel.Tx.{
  Store, Tx, Result, ok, err, Error, pure, raise, gets, lift, required, modify, guard, continue,
  ◌>>=◌, when, case_option, for_each, settle, transact,
}

-- A relation between stores that a sequence of transactions keeps.
pub record Law : Type 1 where
  pub holds : Store → Store → Type 0
  pub same : (s : Store) → holds s s
  pub chain : (s t u : Store) → holds s t → holds t u → holds s u

-- The relation at a committed result; a transaction that raised commits nothing.
abbrev pub Post : {A : Type 0} → Law → Store → Result (A × Store) → Type 0
Post L s (ok (a, s')) = L.holds s s'
Post L s (err e) = Unit

pub record Respects {A : Type 0} (L : Law) (m : Tx A) : Type 0 where
  pub at : (s : Store) → Post L s (m s)

module _ {L : Law} {A : Type 0} where
  pub Respects-pure : (a : A) → Respects L (pure a)
  unfolding pure
  Respects-pure a = record { at = λ s. L.same s }

  pub Respects-raise : (e : Error) → Respects L (raise {A = A} e)
  unfolding raise
  Respects-raise e = record { at = λ s. tt }

  pub Respects-gets : (f : Store → A) → Respects L (gets f)
  unfolding gets
  Respects-gets f = record { at = λ s. L.same s }

  pub Respects-lift : (r : Result A) → Respects L (lift r)
  unfolding lift
  Respects-lift (ok a) = record { at = λ s. L.same s }
  Respects-lift (err e) = record { at = λ s. tt }

  pub Respects-required : (o : Option A) (e : Error) → Respects L (required o e)
  unfolding required
  Respects-required none e = record { at = λ s. tt }
  Respects-required (some a) e = record { at = λ s. L.same s }

module _ {L : Law} where
  pub Respects-modify :
      (f : Store → Store) → ((s : Store) → L.holds s (f s)) → Respects L (modify f)
  unfolding modify
  Respects-modify f h = record { at = h }

  pub Respects-guard : (b : Bool) (e : Error) → Respects L (guard b e)
  unfolding guard
  Respects-guard true e = record { at = λ s. L.same s }
  Respects-guard false e = record { at = λ s. tt }

Post-then :
    (L : Law) {B : Type 0} (s t : Store) (r : Result (B × Store))
    → L.holds s t
    → Post L t r
    → Post L s r
Post-then L s t (ok (b, u)) h k = L.chain s t u h k
Post-then L s t (err e) h k = tt

module _ {L : Law} {A B : Type 0} where
  Post-continue :
      (s : Store) (r : Result (A × Store)) (f : A → Tx B)
      → Post L s r
      → ((a : A) → Respects L (f a))
      → Post L s (continue r f)
  Post-continue s (ok (a, t)) f h k = Post-then L s t (f a t) h ((k a).at t)
  Post-continue s (err e) f h k = tt

  pub Respects-bind :
      (m : Tx A) (f : A → Tx B) → Respects L m → ((a : A) → Respects L (f a)) → Respects L (m >>= f)
  unfolding ◌>>=◌
  Respects-bind m f h k = record { at = λ s. Post-continue s (m s) f (h.at s) k }

  -- What follows a read may use what was read.
  pub Respects-gets-bind :
      (g : Store → A) (f : A → Tx B)
      → ((s : Store) → Post L s (f (g s) s))
      → Respects L (gets g >>= f)
  unfolding ◌>>=◌
  Respects-gets-bind g f h = record { at = h }

  -- What follows a value that may be an error may use that it was none.
  pub Respects-lift-bind :
      (r : Result A) (f : A → Tx B)
      → ((a : A) → r ≡ ok a → Respects L (f a))
      → Respects L (lift r >>= f)
  unfolding ◌>>=◌
  Respects-lift-bind (ok a) f h = record { at = λ s. (h a refl).at s }
  Respects-lift-bind (err e) f h = record { at = λ s. tt }

module _ {L : Law} {A : Type 0} where
  pub Respects-if :
      (b : Bool) (m n : Tx A) → Respects L m → Respects L n → Respects L (if b then m else n)
  Respects-if true m n h k = h
  Respects-if false m n h k = k

module _ {L : Law} {A B : Type 0} where
  pub Respects-case_option :
      (o : Option A) (m : Tx B) (f : A → Tx B)
      → Respects L m
      → ((a : A) → Respects L (f a))
      → Respects L (case_option o m f)
  Respects-case_option none m f h k = h
  Respects-case_option (some a) m f h k = k a

module _ {L : Law} where
  pub Respects-when : (b : Bool) (m : Tx (Unit {0})) → Respects L m → Respects L (when b m)
  Respects-when true m h = h
  Respects-when false m h = Respects-pure tt

  pub Respects-for_each :
      {A : Type 0} (xs : List A) (body : A → Tx (Unit {0}))
      → ((x : A) → Respects L (body x))
      → Respects L (for_each xs body)
  unfolding for_each
  Respects-for_each [] body h = Respects-pure tt
  Respects-for_each (x ∷ xs) body h =
      Respects-bind (body x) (λ _. for_each xs body) (h x) (λ _. Respects-for_each xs body h)

pub ruleset respects_rules = (
  Respects-pure, Respects-raise, Respects-gets, Respects-lift, Respects-required, Respects-guard,
  Respects-bind, Respects-if, Respects-case_option, Respects-when, Respects-for_each,
)

-- The two halves of a sequence that returned.
pub bind-ok :
    {A B : Type 0} (m : Tx A) (f : A → Tx B) (s t : Store) (b : B)
    → (m >>= f) s ≡ ok (b, t)
    → (a : A) × (u : Store) × (m s ≡ ok (a, u)) × (f a u ≡ ok (b, t))
unfolding ◌>>=◌
bind-ok {A} {B} m f s t b e = split (m s) refl e
  where
    split :
        (r : Result (A × Store))
        → m s ≡ r
        → continue r f ≡ ok (b, t)
        → (a : A) × (u : Store) × (m s ≡ ok (a, u)) × (f a u ≡ ok (b, t))
    split (ok (a, u)) p q = (a, u, p, q)
    split (err x) p q = cc

-- A call that returned is a transaction that committed.
pub settle-ok :
    {A : Type 0} (s t : Store) (r : Result (A × Store)) (a : A)
    → settle s r ≡ (ok a, t)
    → r ≡ ok (a, t)
settle-ok s t (ok (b, u)) a e = ground arith
settle-ok s t (err x) a e = ground arith

settle_law :
    (L : Law) {A : Type 0} (s : Store) (r : Result (A × Store))
    → Post L s r
    → L.holds s (settle s r).1
settle_law L s (ok (a, t)) h = h
settle_law L s (err e) h = L.same s

-- Between the database before a call and after it, whether it returned or raised.
pub transact_law :
    (L : Law) {A : Type 0} (m : Tx A) (s : Store) → Respects L m → L.holds s (transact m s).1
unfolding transact
transact_law L m s h = settle_law L s (m s) (h.at s)
