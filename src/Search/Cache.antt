-- ===== src/Search/Cache.antt =====
-- The cache of the search in backend/app/v2/search.py: its size and its keys.
use mathlib.Core.Path.{subst}
use omniverse_v.Prelude.{
  ℕ, suc, ◌+◌, ◌≤◌, ◌≡◌, refl, ◌∙◌, ap, Bool, true, false, ◌||◌, Option, none, some, List, [], ◌∷◌,
  ◌++◌, any, ltb, find, filter, length, Bool-cases, Option-cases, inl, inr, arith, within,
}
use omniverse_v.Search.{
  Key, same_key, Entry, Cache, Answer, Ended, returned, raised, no_provider, Settings, has_key,
  lacks_key, remove, put_last, evict, look_up, ask, store, after_lookup, search,
}

pub same_key_refl : (a : Key) → same_key a a ≡ true
same_key_refl a = ground arith

same_key-sym : (a b : Key) → same_key a b ≡ false → same_key b a ≡ false
same_key-sym a b h = ground arith

pub neither : (a b : Bool) → (a || b) ≡ false → (a ≡ false) × (b ≡ false)
neither a b h = ground arith

pub both_false : (a b : Bool) → a ≡ false → b ≡ false → (a || b) ≡ false
both_false a b p q = rw (p, q) refl

module _ {V : Type 0} where
  -- No two entries have the same key.
  unfoldable pub Unique : Cache V → Type 0
  Unique [] = Unit
  Unique (e ∷ cache) = (any (has_key e.key) cache ≡ false) × Unique cache

  -- A cache of the search: its keys differ, and there are at most so many.
  abbrev pub IsCache : ℕ → Cache V → Type 0
  IsCache max_entries cache = Unique cache × (length cache ≤ max_entries)

  any-filter :
      (p q : Entry V → Bool) (cache : Cache V)
      → any p cache ≡ false
      → any p (filter q cache) ≡ false
  unfolding any filter
  any-filter p q [] h = refl
  any-filter p q (e ∷ cache) h = ground (arith, any-filter p q cache)

  pub any-remove : (k : Key) (cache : Cache V) → any (has_key k) (remove k cache) ≡ false
  unfolding any filter
  any-remove k [] = refl
  any-remove k (e ∷ cache) = ground (arith, any-remove k cache)

  Unique-filter : (q : Entry V → Bool) (cache : Cache V) → Unique cache → Unique (filter q cache)
  unfolding Unique filter
  Unique-filter q [] u = tt
  Unique-filter q (e ∷ cache) (f, u) = elim (Bool-cases (q e)) [
    | inl y ↦ rw y (any-filter (has_key e.key) q cache f, Unique-filter q cache u)
    | inr n ↦ rw n (Unique-filter q cache u)
  ]

  length-filter : (q : Entry V → Bool) (cache : Cache V) → length (filter q cache) ≤ length cache
  unfolding filter
  length-filter q [] = omega arith
  length-filter q (e ∷ cache) = ground (arith, length-filter q cache)

  -- To remove a key that is there makes room for an entry.
  length-remove :
      (k : Key) (e : Entry V) (cache : Cache V)
      → find (has_key k) cache ≡ some e
      → suc (length (remove k cache)) ≤ length cache
  unfolding find filter
  length-remove k e [] h = cc
  length-remove k e (f ∷ cache) h = elim (Bool-cases (has_key k f)) [
    | inl y ↦ let shorter = length-filter (lacks_key k) cache in rw y (omega arith)
    | inr n ↦ let shorter = length-remove k e cache (rw n at h) in rw n (omega arith)
  ]

  any-append :
      (p : Entry V → Bool) (e : Entry V) (cache : Cache V)
      → any p (cache ++ e ∷ []) ≡ any p cache || p e
  unfolding any
  any-append p e [] = ground arith
  any-append p e (f ∷ cache) = ground (arith, any-append p e cache)

  length-append : (e : Entry V) (cache : Cache V) → length (cache ++ e ∷ []) ≡ suc (length cache)
  length-append e [] = refl
  length-append e (f ∷ cache) = ap suc (length-append e cache)

  Unique-append :
      (e : Entry V) (cache : Cache V)
      → any (has_key e.key) cache ≡ false
      → Unique cache
      → Unique (cache ++ e ∷ [])
  unfolding Unique any
  Unique-append e [] f u = (refl, tt)
  Unique-append e (d ∷ cache) f (g, u) =
      let (here, rest) = neither (has_key e.key d) (any (has_key e.key) cache) f in
      let fresh = same_key-sym d.key e.key here in
      (
        any-append (has_key d.key) e cache
            ∙ both_false (any (has_key d.key) cache) (has_key d.key e) g fresh,
        Unique-append e cache rest u,
      )

  any-evict :
      (max_entries : ℕ) (p : Entry V → Bool) (cache : Cache V)
      → any p cache ≡ false
      → any p (evict max_entries cache) ≡ false
  unfolding any evict
  any-evict max_entries p [] h = refl
  any-evict max_entries p (e ∷ cache) h = ground (arith, any-evict max_entries p cache)

  evict-IsCache :
      (max_entries : ℕ) (cache : Cache V)
      → Unique cache
      → IsCache max_entries (evict max_entries cache)
  unfolding Unique evict
  evict-IsCache max_entries [] u = (tt, omega arith)
  evict-IsCache max_entries (e ∷ cache) (f, u) =
      elim (Bool-cases (ltb max_entries (suc (length cache)))) [
        | inl large ↦ rw large (evict-IsCache max_entries cache u)
        | inr small ↦
            let few = within max_entries (suc (length cache)) small in rw small ((f, u), few)
      ]

  -- The key of an entry that was found.
  found_key :
      (k : Key) (e : Entry V) (cache : Cache V)
      → find (has_key k) cache ≡ some e
      → same_key e.key k ≡ true
  unfolding find
  found_key k e [] h = cc
  found_key k e (f ∷ cache) h = elim (Bool-cases (has_key k f)) [
    | inl y ↦
        let one : some f ≡ some e = rw y at h in
        let same : f ≡ e = cc in subst (λ (z : Entry V). same_key z.key k ≡ true) same y
    | inr n ↦ found_key k e cache (rw n at h)
  ]

  same_test :
      (k : Key) (e : Entry V) (cache : Cache V)
      → same_key e.key k ≡ true
      → any (has_key k) cache ≡ false
      → any (has_key e.key) cache ≡ false
  unfolding any
  same_test k e [] s h = refl
  same_test k e (f ∷ cache) s h = ground (arith, same_test k e cache)

  put_last-Unique :
      (k : Key) (e : Entry V) (cache : Cache V)
      → same_key e.key k ≡ true
      → Unique cache
      → Unique (put_last k e cache)
  put_last-Unique k e cache s u =
      Unique-append e (remove k cache) (same_test k e (remove k cache) s (any-remove k cache))
        (Unique-filter (lacks_key k) cache u)

  look_up-IsCache :
      (k : Key) (now n : ℕ) (cache : Cache V)
      → IsCache n cache
      → IsCache n (look_up k now (find (has_key k) cache) cache).1
  look_up-IsCache k now n cache (u, few) = elim (Option-cases (find (has_key k) cache)) [
    | inl none_there ↦ rw none_there (u, few)
    | inr (e, there) ↦
        let shorter = length-remove k e cache there in
        let size = length-append e (remove k cache) in
        elim (Bool-cases (ltb now e.expires_at)) [
          | inl fresh ↦
              let moved = put_last-Unique k e cache (found_key k e cache there) u in
              let room : length (put_last k e cache) ≤ n = omega arith in
              rw (there, fresh) (moved, room)
          | inr over ↦
              let kept = Unique-filter (lacks_key k) cache u in
              let room : length (remove k cache) ≤ n = omega arith in rw (there, over) (kept, room)
        ]
  ]

  store-IsCache :
      (w : Settings) (k : Key) (now : ℕ) (r : Ended V) (cache : Cache V)
      → IsCache w.max_entries cache
      → IsCache w.max_entries (store w k now r cache).1
  store-IsCache w k now (returned v) cache (u, few) =
      let e : Entry V = record { key = k; expires_at = now + w.ttl_seconds; values = v } in
      evict-IsCache w.max_entries (put_last k e cache)
        (put_last-Unique k e cache (same_key_refl k) u)
  store-IsCache w k now (raised e) cache c = c
  store-IsCache w k now no_provider cache c = c

  after_lookup-IsCache :
      (w : Settings) (k : Key) (answers : List (Answer V)) (stored_at : ℕ) (r : Option V × Cache V)
      → IsCache w.max_entries r.1
      → IsCache w.max_entries (after_lookup w k answers stored_at r).1
  after_lookup-IsCache w k answers stored_at (some v, cache) c = c
  after_lookup-IsCache w k answers stored_at (none, cache) c =
      store-IsCache w k stored_at (ask answers none) cache c

  -- A cache that has at most its number of entries, with no key twice, is still so after a search.
  pub search-IsCache :
      (w : Settings) (k : Key) (answers : List (Answer V)) (now stored_at : ℕ) (cache : Cache V)
      → IsCache w.max_entries cache
      → IsCache w.max_entries (search w k answers now stored_at cache).1
  unfolding search
  search-IsCache w k answers now stored_at cache c =
      after_lookup-IsCache w k answers stored_at (look_up k now (find (has_key k) cache) cache)
        (look_up-IsCache k now w.max_entries cache c)
