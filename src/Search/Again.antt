-- ===== src/Search/Again.antt =====
-- What the cache of the search in backend/app/v2/search.py remembers.
use mathlib.Core.Path.{subst}
use omniverse_v.Prelude.{
  ℕ, suc, ◌+◌, ◌<◌, ◌≡◌, refl, sym, ◌∙◌, Bool, true, false, none, some, List, [], ◌∷◌, ◌++◌, any,
  ltb, find, length, Bool-cases, inl, inr, arith,
}
use omniverse_v.Search.{
  Key, Entry, Cache, Answer, Ended, returned, raised, no_provider, Settings, has_key, remove,
  put_last, evict, ask, store, search,
}
use omniverse_v.Search.Cache.{any-remove, same_key_refl, neither, both_false}

module _ {V : Type 0} where
  find-append :
      (p : Entry V → Bool) (e : Entry V) (cache : Cache V)
      → any p cache ≡ false
      → p e ≡ true
      → find p (cache ++ e ∷ []) ≡ some e
  unfolding find any
  find-append p e [] h y = rw y refl
  find-append p e (f ∷ cache) h y =
      let (here, rest) = neither (p f) (any p cache) h in rw here (find-append p e cache rest y)

  -- The entry that was put last is not evicted.
  find-evict :
      (n : ℕ) (p : Entry V → Bool) (e : Entry V) (cache : Cache V)
      → 0 < n
      → any p cache ≡ false
      → p e ≡ true
      → find p (evict n (cache ++ e ∷ [])) ≡ some e
  unfolding find evict any
  find-evict n p e [] pos h y = let small : ltb n 1 ≡ false = ground arith in rw small (rw y refl)
  find-evict n p e (f ∷ cache) pos h y =
      let (here, rest) = neither (p f) (any p cache) h in
      elim (Bool-cases (ltb n (suc (length (cache ++ e ∷ []))))) [
        | inl large ↦ rw large (find-evict n p e cache pos rest y)
        | inr small ↦
            rw small (find-append p e (f ∷ cache) (both_false (p f) (any p cache) here rest) y)
      ]

  store-result :
      (w : Settings) (k : Key) (now : ℕ) (r : Ended V) (cache : Cache V)
      → (store w k now r cache).0 ≡ r
  store-result w k now (returned v) cache = refl
  store-result w k now (raised e) cache = refl
  store-result w k now no_provider cache = refl

  -- What a search leaves in the cache once the providers have answered.
  abbrev answered : Settings → Key → ℕ → V → Cache V → Cache V
  answered w k at v cache =
      evict w.max_entries
        (put_last k (record { key = k; expires_at = at + w.ttl_seconds; values = v }) cache)

  search_stores :
      (w : Settings) (k : Key) (answers : List (Answer V)) (now stored_at : ℕ) (cache : Cache V)
      (v : V)
      → find (has_key k) cache ≡ none
      → (search w k answers now stored_at cache).0 ≡ returned v
      → search w k answers now stored_at cache ≡ (returned v, answered w k stored_at v cache)
  unfolding search
  search_stores w k answers now stored_at cache v new first =
      let answer : ask answers none ≡ returned v =
        sym (store-result w k stored_at (ask answers none) cache) ∙ (rw new at first) in
      rw (new, answer) refl

  search_hits :
      (w : Settings) (k : Key) (answers : List (Answer V)) (now stored_at : ℕ) (cache : Cache V)
      (e : Entry V)
      → find (has_key k) cache ≡ some e
      → ltb now e.expires_at ≡ true
      → (search w k answers now stored_at cache).0 ≡ returned e.values
  unfolding search
  search_hits w k answers now stored_at cache e found fresh = rw (found, fresh) refl

  -- Once the providers have answered a search whose key was not in the cache, the same search
  -- returns that answer until its time is over, whatever the providers would answer by then. The
  -- cache may have one entry at least.
  pub search_again :
      (w : Settings) (k : Key) (answers later : List (Answer V)) (now stored_at now2 stored2 : ℕ)
      (cache : Cache V) (v : V)
      → 0 < w.max_entries
      → find (has_key k) cache ≡ none
      → (search w k answers now stored_at cache).0 ≡ returned v
      → now2 < stored_at + w.ttl_seconds
      → (search w k later now2 stored2 (search w k answers now stored_at cache).1).0 ≡ returned v
  search_again w k answers later now stored_at now2 stored2 cache v pos new first soon =
      let e : Entry V = record { key = k; expires_at = stored_at + w.ttl_seconds; values = v } in
      let there =
        find-evict w.max_entries (has_key k) e (remove k cache) pos (any-remove k cache)
          (same_key_refl k) in
      let fresh : ltb now2 e.expires_at ≡ true = ground arith in
      subst (λ (z : Ended V × Cache V). (search w k later now2 stored2 z.1).0 ≡ returned v)
        (sym (search_stores w k answers now stored_at cache v new first))
        (search_hits w k later now2 stored2 (answered w k stored_at v cache) e there fresh)
