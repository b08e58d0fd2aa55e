-- ===== src/Search/Candidates.antt =====
-- What normalize_candidates of backend/app/v2/search.py keeps of its values.
use mathlib.Core.Path.{subst}
use mathlib.Core.List.{Memᴰ}
use omniverse_v.Prelude.{
  ℕ, suc, ◌≤◌, ◌==◌, ◌≡◌, refl, sym, ◌∙◌, ap, true, false, List, [], ◌∷◌, ltb, if◌then◌else◌,
  Bool-cases, inl, inr, arith, ==_iff, sort_by, insert_by, Memᴰ-sort_by,
}
use omniverse_v.Context.{take}
use omniverse_v.Search.{SearchCandidate, precedes, keep_better, keep_best, normalize_candidates}

-- How many candidates have a URL.
unfoldable pub occurrences : ℕ → List SearchCandidate → ℕ
occurrences url [] = 0
occurrences url (c ∷ cs) =
    let rest = occurrences url cs in if c.canonical_url == url then suc rest else rest

-- A candidate in the list has the URL of this one, and its rank or a lower one.
abbrev pub Beaten : List SearchCandidate → SearchCandidate → Type 0
Beaten ds c =
    (d : SearchCandidate) × Memᴰ d ds × (d.canonical_url ≡ c.canonical_url) × (d.rank ≤ c.rank)

-- The other URLs are as they were.
occurrences-other :
    (url : ℕ) (c : SearchCandidate) (ds : List SearchCandidate)
    → (c.canonical_url == url) ≡ false
    → occurrences url (keep_better c ds) ≡ occurrences url ds
unfolding occurrences keep_better
occurrences-other url c [] h = ground arith
occurrences-other url c (d ∷ ds) h = ground (arith, occurrences-other url c ds h)

occurrences-own :
    (url : ℕ) (c : SearchCandidate) (ds : List SearchCandidate)
    → (c.canonical_url == url) ≡ true
    → occurrences url ds ≤ 1
    → occurrences url (keep_better c ds) ≤ 1
unfolding occurrences keep_better
occurrences-own url c [] h few = ground arith
occurrences-own url c (d ∷ ds) h few = ground (arith, occurrences-own url c ds h)

occurrences-keep_better :
    (url : ℕ) (c : SearchCandidate) (ds : List SearchCandidate)
    → occurrences url ds ≤ 1
    → occurrences url (keep_better c ds) ≤ 1
occurrences-keep_better url c ds few = elim (Bool-cases (c.canonical_url == url)) [
  | inl own ↦ occurrences-own url c ds own few
  | inr other ↦ let same = occurrences-other url c ds other in omega arith
]

occurrences-keep_best :
    (url : ℕ) (cs ds : List SearchCandidate)
    → occurrences url ds ≤ 1
    → occurrences url (keep_best cs ds) ≤ 1
unfolding keep_best
occurrences-keep_best url [] ds h = h
occurrences-keep_best url (c ∷ cs) ds h =
    occurrences-keep_best url cs (keep_better c ds) (occurrences-keep_better url c ds h)

occurrences-insert_by :
    (url : ℕ) (c : SearchCandidate) (cs : List SearchCandidate)
    → occurrences url (insert_by precedes c cs) ≡ occurrences url (c ∷ cs)
unfolding occurrences insert_by
occurrences-insert_by url c [] = refl
occurrences-insert_by url c (d ∷ ds) = ground (arith, occurrences-insert_by url c ds)

occurrences-sort_by :
    (url : ℕ) (cs : List SearchCandidate)
    → occurrences url (sort_by precedes cs) ≡ occurrences url cs
unfolding occurrences sort_by
occurrences-sort_by url [] = refl
occurrences-sort_by url (c ∷ cs) =
    occurrences-insert_by url c (sort_by precedes cs)
    ∙ ap (λ n. if c.canonical_url == url then suc n else n) (occurrences-sort_by url cs)

Beaten-head :
    (c : SearchCandidate) (d : SearchCandidate) (ds : List SearchCandidate)
    → Beaten ds c
    → Beaten (d ∷ ds) c
Beaten-head c d ds (e, m, u, r) = (e, Memᴰ.tail m, u, r)

keep_better-Beaten : (c : SearchCandidate) (ds : List SearchCandidate) → Beaten (keep_better c ds) c
unfolding keep_better
keep_better-Beaten c [] = (c, Memᴰ.head refl, refl, omega arith)
keep_better-Beaten c (d ∷ ds) = elim (Bool-cases (d.canonical_url == c.canonical_url)) [
  | inr other ↦ rw other (Beaten-head c d (keep_better c ds) (keep_better-Beaten c ds))
  | inl same ↦ elim (Bool-cases (ltb c.rank d.rank)) [
    | inl lower ↦ rw (same, lower) (c, Memᴰ.head refl, refl, omega arith)
    | inr high ↦
        let order : d.rank ≤ c.rank = ground arith in
        rw (same, high) (d, Memᴰ.head refl, (==_iff _ _).0 same, order)
  ]
]

-- What was beaten stays beaten.
keep_better-keeps :
    (b c : SearchCandidate) (ds : List SearchCandidate) → Beaten ds b → Beaten (keep_better c ds) b
unfolding keep_better
keep_better-keeps b c [] (d, m, u, r) = elim m [ ]
keep_better-keeps b c (d ∷ ds) (e, Memᴰ.head p, u, r) =
    let own : d.canonical_url ≡ b.canonical_url = sym (ap (λ z. z.canonical_url) p) ∙ u in
    let low : d.rank ≤ b.rank = subst (λ (z : SearchCandidate). z.rank ≤ b.rank) p r in
    elim (Bool-cases (d.canonical_url == c.canonical_url)) [
      | inr other ↦ rw other (d, Memᴰ.head refl, own, low)
      | inl same ↦ elim (Bool-cases (ltb c.rank d.rank)) [
        | inl lower ↦
            let order : c.rank ≤ b.rank = ground arith in
            rw (same, lower) (c, Memᴰ.head refl, sym ((==_iff _ _).0 same) ∙ own, order)
        | inr high ↦ rw (same, high) (d, Memᴰ.head refl, own, low)
      ]
    ]
keep_better-keeps b c (d ∷ ds) (e, Memᴰ.tail m, u, r) =
    elim (Bool-cases (d.canonical_url == c.canonical_url)) [
      | inr other ↦
          rw other (Beaten-head b d (keep_better c ds) (keep_better-keeps b c ds (e, m, u, r)))
      | inl same ↦ elim (Bool-cases (ltb c.rank d.rank)) [
        | inl lower ↦ rw (same, lower) (e, Memᴰ.tail m, u, r)
        | inr high ↦ rw (same, high) (e, Memᴰ.tail m, u, r)
      ]
    ]

keep_best-keeps :
    (b : SearchCandidate) (cs ds : List SearchCandidate) → Beaten ds b → Beaten (keep_best cs ds) b
unfolding keep_best
keep_best-keeps b [] ds h = h
keep_best-keeps b (c ∷ cs) ds h =
    keep_best-keeps b cs (keep_better c ds) (keep_better-keeps b c ds h)

keep_best-Beaten :
    (c : SearchCandidate) (cs ds : List SearchCandidate) → Memᴰ c cs → Beaten (keep_best cs ds) c
unfolding keep_best
keep_best-Beaten c [] ds m = elim m [ ]
keep_best-Beaten c (b ∷ cs) ds (Memᴰ.head e) =
    keep_best-keeps c cs (keep_better b ds)
      (subst (λ z. Beaten (keep_better b ds) z) (sym e) (keep_better-Beaten b ds))
keep_best-Beaten c (b ∷ cs) ds (Memᴰ.tail m) = keep_best-Beaten c cs (keep_better b ds) m

none_yet : (url : ℕ) → occurrences url [] ≤ 1
unfolding occurrences
none_yet url = omega arith

-- For each of the first `limit` values, normalize_candidates keeps a candidate with its URL and at
-- most its rank, and it keeps no two candidates with one URL.
pub normalize_candidates-Beaten :
    (values : List SearchCandidate) (limit : ℕ)
    → ((url : ℕ) → occurrences url (normalize_candidates values limit) ≤ 1)
      × ((c : SearchCandidate)
          → Memᴰ c (take limit values)
          → Beaten (normalize_candidates values limit) c)
unfolding normalize_candidates
normalize_candidates-Beaten values limit = (
  λ url.
      let few = occurrences-keep_best url (take limit values) [] (none_yet url) in
      let same = occurrences-sort_by url (keep_best (take limit values) []) in omega arith,
  λ c m.
      let (d, n, u, r) = keep_best-Beaten c (take limit values) [] m in
      (d, Memᴰ-sort_by precedes (keep_best (take limit values) []) d n, u, r),
)
