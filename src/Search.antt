-- ===== src/Search.antt =====
-- CachedFallbackSearch and normalize_candidates of backend/app/v2/search.py. A query stands for its
-- digest. What a provider answers and the order in which the alternates are tried are parameters;
-- a provider that fails raises SearchError. One search is modelled at a time. Log entries are left out.
pub mod Cache
pub mod Again
pub mod Candidates
mod Tests
use omniverse_v.Prelude.{
  ℕ, zero, suc, ◌+◌, ◌-◌, ◌==◌, Bool, true, false, not, ◌&&◌, ◌||◌, Option, none, some, List, [],
  ◌∷◌, ◌++◌, ltb, leb, find, filter, length, sort_by, if◌then◌else◌,
}
use omniverse_v.Context.{take, drop}

-- The key of the cache: the query and the limit.
pub record Key : Type 0 where
  pub query : ℕ
  pub limit : ℕ

abbrev pub same_key : Key → Key → Bool
same_key a b = a.query == b.query && a.limit == b.limit

pub record Entry (V : Type 0) : Type 0 where
  pub key : Key
  pub expires_at : ℕ
  pub values : V

-- An OrderedDict, from the least to the most recently used entry.
abbrev pub Cache : Type 0 → Type 0
Cache V = List (Entry V)

-- A provider's answer, or SearchError.
pub data Answer (V : Type 0) : Type 0 where
  found : V → Answer V
  search_error : ℕ → Answer V

-- How a search ends. `no_provider` is the failed assertion.
pub data Ended (V : Type 0) : Type 0 where
  returned : V → Ended V
  raised : ℕ → Ended V
  no_provider : Ended V

pub record Settings : Type 0 where
  pub ttl_seconds : ℕ
  pub max_entries : ℕ

module _ {V : Type 0} where
  abbrev pub has_key : Key → Entry V → Bool
  has_key k e = same_key e.key k

  abbrev pub lacks_key : Key → Entry V → Bool
  lacks_key k e = not (same_key e.key k)

  -- `del self._cache[key]`.
  abbrev pub remove : Key → Cache V → Cache V
  remove k cache = filter (lacks_key k) cache

  -- `move_to_end` of the entry, or an assignment to its key and then `move_to_end`.
  abbrev pub put_last : Key → Entry V → Cache V → Cache V
  put_last k e cache = remove k cache ++ e ∷ []

  -- `popitem(last=False)` while there are too many.
  unfoldable pub evict : ℕ → Cache V → Cache V
  evict max_entries [] = []
  evict max_entries (e ∷ cache) =
      let rest = evict max_entries cache in
      if ltb max_entries (suc (length cache)) then rest else e ∷ cache

  -- A hit is used last; an entry that is over is deleted.
  abbrev pub look_up : Key → ℕ → Option (Entry V) → Cache V → Option V × Cache V
  look_up k now none cache = (none, cache)
  look_up k now (some e) cache =
      if ltb now e.expires_at then (some e.values, put_last k e cache) else (none, remove k cache)

  -- The loop over providers, with the last error, and the clock at the end.
  unfoldable pub ask : List (Answer V) → Option ℕ → Ended V
  ask [] none = no_provider
  ask [] (some e) = raised e
  ask (found v ∷ rest) last_error = returned v
  ask (search_error e ∷ rest) last_error = ask rest (some e)

  abbrev pub store : Settings → Key → ℕ → Ended V → Cache V → Ended V × Cache V
  store w k now (returned v) cache = (
    returned v,
    evict w.max_entries
        (put_last k (record { key = k; expires_at = now + w.ttl_seconds; values = v }) cache),
  )
  store w k now (raised e) cache = (raised e, cache)
  store w k now no_provider cache = (no_provider, cache)

  abbrev pub after_lookup :
      Settings → Key → List (Answer V) → ℕ → Option V × Cache V → Ended V × Cache V
  after_lookup w k answers stored_at (some v, cache) = (returned v, cache)
  after_lookup w k answers stored_at (none, cache) = store w k stored_at (ask answers none) cache

  -- `search`, with the answers of the providers in the order in which they are asked.
  unfoldable pub search : Settings → Key → List (Answer V) → ℕ → ℕ → Cache V → Ended V × Cache V
  search w k answers now stored_at cache =
      after_lookup w k answers stored_at (look_up k now (find (has_key k) cache) cache)

-- The fields of a candidate that its place goes by. A URL is a number in the order of the texts.
pub record SearchCandidate : Type 0 where
  pub canonical_url : ℕ
  pub rank : ℕ
  pub title : ℕ

abbrev pub precedes : SearchCandidate → SearchCandidate → Bool
precedes a b = ltb a.rank b.rank || (a.rank == b.rank && leb a.canonical_url b.canonical_url)

-- A candidate replaces the one of its URL if it has a lower rank, in the place of that one.
unfoldable pub keep_better : SearchCandidate → List SearchCandidate → List SearchCandidate
keep_better c [] = c ∷ []
keep_better c (d ∷ ds) =
    let rest = keep_better c ds in
    if d.canonical_url == c.canonical_url
    then (if ltb c.rank d.rank then c ∷ ds else d ∷ ds)
    else d ∷ rest

unfoldable pub keep_best : List SearchCandidate → List SearchCandidate → List SearchCandidate
keep_best [] normalized = normalized
keep_best (c ∷ cs) normalized = keep_best cs (keep_better c normalized)

-- `normalize_candidates`, of values that are read as candidates already.
unfoldable pub normalize_candidates : List SearchCandidate → ℕ → List SearchCandidate
normalize_candidates values limit = sort_by precedes (keep_best (take limit values) [])
