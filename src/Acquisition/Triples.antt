-- ===== src/Acquisition/Triples.antt =====
-- Statements on what a fetch of Acquisition.antt does to the log: from a log with `P`, a result with
-- `Q` of the log that is left, or an error with `E`.
use omniverse_v.Prelude.{◌≡◌, refl, ◌∷◌}
use omniverse_v.Acquisition.{Result, ok, error, Exchange, Log, Fetch, after, logged, ◌>>=◌}

abbrev pub Post : {A : Type 0} → (A → Log → Type 0) → (Log → Type 0) → Result A × Log → Type 0
Post Q E (ok a, log) = Q a log
Post Q E (error e, log) = E log

abbrev pub Runs :
    {A : Type 0} → (Log → Type 0) → Fetch A → (A → Log → Type 0) → (Log → Type 0) → Type 0
Runs P f Q E = (log : Log) → P log → Post Q E (f log)

pub Post-after :
    {A B : Type 0} (Q : A → Log → Type 0) (R : B → Log → Type 0) (E : Log → Type 0)
    (r : Result A × Log) (f : A → Fetch B)
    → Post Q E r
    → ((a : A) → Runs (Q a) (f a) R E)
    → Post R E (after r f)
Post-after Q R E (ok a, log) f h k = k a log h
Post-after Q R E (error e, log) f h k = h

pub Runs-bind :
    {A B : Type 0} (P : Log → Type 0) (Q : A → Log → Type 0) (R : B → Log → Type 0)
    (E : Log → Type 0) (m : Fetch A) (f : A → Fetch B)
    → Runs P m Q E
    → ((a : A) → Runs (Q a) (f a) R E)
    → Runs P (m >>= f) R E
unfolding ◌>>=◌
Runs-bind P Q R E m f h k log p = Post-after Q R E (m log) f (h log p) k

-- A result that no exchange takes part in.
pub Post-lift :
    {A : Type 0} (Q : A → Log → Type 0) (E : Log → Type 0) (r : Result A) (log : Log)
    → ((a : A) → r ≡ ok a → Q a log)
    → E log
    → Post Q E (r, log)
Post-lift Q E (ok a) log h e = h a refl
Post-lift Q E (error x) log h e = e

-- Such a result, and what follows it.
pub Post-then :
    {A B : Type 0} (R : B → Log → Type 0) (E : Log → Type 0) (r : Result A) (log : Log)
    (f : A → Fetch B)
    → ((a : A) → r ≡ ok a → Post R E (f a log))
    → E log
    → Post R E (after (r, log) f)
Post-then R E (ok a) log f h e = h a refl
Post-then R E (error x) log f h e = e

-- An exchange that is logged once it was made.
pub Post-logged :
    {A : Type 0} (Q : A → Log → Type 0) (E : Log → Type 0) (r : Result A) (log : Log)
    (f : A → Exchange)
    → ((a : A) → Q a (f a ∷ log))
    → E log
    → Post Q E (logged (r, log) f)
Post-logged Q E (ok a) log f h e = h a
Post-logged Q E (error x) log f h e = e
