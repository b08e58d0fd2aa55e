-- ===== src/Worker/Turns.antt =====
-- The choice of the next run in backend/app/v2/runtime.py is fair.
use omniverse_v.Prelude.{
  ℕ, zero, suc, ◌+◌, ◌-◌, ◌<◌, ◌≤◌, ◌≡◌, ◌==◌, refl, ◌∙◌, ap, Option, none, some, List, [], ◌∷◌,
  length, arith, Bool-cases, inl, inr, ==_iff,
}
use native.Mathlib.Decide.{dec_lt}
use omniverse_v.Worker.{index_of, get_or, wrap, choose}

-- No identifier stands twice in the list.
abbrev pub Distinct : List ℕ → Type 0
Distinct [] = Unit
Distinct (i ∷ ids) = (index_of i ids ≡ none) × Distinct ids

-- The cursor after so many choices among the same runs.
unfoldable pub turns : ℕ → List ℕ → Option ℕ → Option ℕ
turns zero ids cursor = cursor
turns (suc k) ids cursor = turns k ids (choose cursor ids)

index_of-get_or :
    (ids : List ℕ) (n : ℕ) → Distinct ids → n < length ids → index_of (get_or ids n 0) ids ≡ some n
unfolding index_of
index_of-get_or [] n h lt = elim lt [ ]
index_of-get_or (i ∷ ids) zero h lt = rw ((==_iff i i).1 refl) refl
index_of-get_or (i ∷ ids) (suc n) h lt =
    let ih = index_of-get_or ids n h.1 (omega arith) in
    elim (Bool-cases (i == get_or ids n 0)) [
      | inl same ↦ let e = (==_iff i (get_or ids n 0)).0 same in cc (h.0, ih, e)
      | inr differs ↦ rw (differs, ih)
    ]

get_or-default : (ids : List ℕ) (n d d' : ℕ) → n < length ids → get_or ids n d ≡ get_or ids n d'
get_or-default [] n d d' lt = elim lt [ ]
get_or-default (i ∷ ids) zero d d' lt = refl
get_or-default (i ∷ ids) (suc n) d d' lt = get_or-default ids n d d' (omega arith)

wrap-lt : (n size : ℕ) → n < size → wrap n size < size
wrap-lt n size h = ground arith

choose_next :
    (ids : List ℕ) (n : ℕ)
    → Distinct ids
    → n < length ids
    → choose (some (get_or ids n 0)) ids ≡ some (get_or ids (wrap n (length ids)) 0)
unfolding choose
choose_next [] n h lt = elim lt [ ]
choose_next (i ∷ ids) n h lt =
    let found = index_of-get_or (i ∷ ids) n h lt in
    rw found (
      ap some (
        get_or-default (i ∷ ids) (wrap n (length (i ∷ ids))) i 0 (wrap-lt n (length (i ∷ ids)) lt)))

-- Choices that do not reach the end of the list.
turns_ahead :
    (ids : List ℕ) (k n : ℕ)
    → Distinct ids
    → n + k < length ids
    → turns k ids (some (get_or ids n 0)) ≡ some (get_or ids (n + k) 0)
unfolding turns
turns_ahead ids zero n h lt = ap (λ m. some (get_or ids m 0)) (omega arith)
turns_ahead ids (suc k) n h lt =
    let step : choose (some (get_or ids n 0)) ids ≡ some (get_or ids (suc n) 0) =
      choose_next ids n h (omega arith) ∙ ap (λ m. some (get_or ids m 0)) (ground arith) in
    rw step
      (turns_ahead ids k (suc n) h (omega arith) ∙ ap (λ m. some (get_or ids m 0)) (omega arith))

turns-add :
    (k j : ℕ) (ids : List ℕ) (c : Option ℕ) → turns (k + j) ids c ≡ turns j ids (turns k ids c)
unfolding turns
turns-add zero j ids c = let e : 0 + j ≡ j = omega arith in ap (λ m. turns m ids c) e
turns-add (suc k) j ids c =
    let e : suc k + j ≡ suc (k + j) = omega arith in
    ap (λ m. turns m ids c) e ∙ turns-add k j ids (choose c ids)

-- The choices that come to the head of the list.
turns_home :
    (ids : List ℕ) (n : ℕ)
    → Distinct ids
    → n < length ids
    → turns (length ids - n) ids (some (get_or ids n 0)) ≡ some (get_or ids 0 0)
unfolding turns
turns_home ids n h lt =
    let last = length ids - 1 in
    let arrive = turns_ahead ids (last - n) n h (omega arith) in
    let over : choose (some (get_or ids (n + (last - n)) 0)) ids ≡ some (get_or ids 0 0) =
      choose_next ids (n + (last - n)) h (omega arith)
      ∙ ap (λ m. some (get_or ids m 0)) (ground arith) in
    let count : length ids - n ≡ last - n + 1 = omega arith in
    ap (λ m. turns m ids (some (get_or ids n 0))) count
    ∙ turns-add (last - n) 1 ids (some (get_or ids n 0))
    ∙ ap (λ c. choose c ids) arrive
    ∙ over

-- While the same runs are unfinished, each of them once in the list, each has its turn: from the
-- run at any place of the list the choice comes to the one at any other place, within as many
-- choices as there are runs.
pub turns_fair :
    (ids : List ℕ) (n m : ℕ)
    → Distinct ids
    → n < length ids
    → m < length ids
    → (k : ℕ) × (k ≤ length ids) × (turns k ids (some (get_or ids n 0)) ≡ some (get_or ids m 0))
turns_fair ids n m h hn hm = elim (dec_lt m n) [
  | yes back ↦ (
    length ids - n + m,
    omega arith,
    turns-add (length ids - n) m ids (some (get_or ids n 0))
        ∙ ap (turns m ids) (turns_home ids n h hn)
        ∙ turns_ahead ids m 0 h (omega arith)
        ∙ ap (λ j. some (get_or ids j 0)) (omega arith),
  )
  | no ahead ↦ (
    m - n,
    omega arith,
    turns_ahead ids (m - n) n h (omega arith) ∙ ap (λ j. some (get_or ids j 0)) (omega arith),
  )
]
