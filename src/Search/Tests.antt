-- ===== src/Search/Tests.antt =====
-- Searches with a cache of one entry.
use mathlib.Core.List.{Memᴰ}
use omniverse_v.Prelude.{
  ℕ, ◌≤◌, ◌≡◌, refl, none, List, [], ◌∷◌, arith, find, filter, any, sort_by, insert_by,
}
use omniverse_v.Context.{take}
use omniverse_v.Search
use omniverse_v.Search.{
  Key, Entry, Cache, Answer, found, search_error, returned, Settings, evict, ask, search,
  SearchCandidate, keep_better, keep_best, normalize_candidates,
}
use omniverse_v.Search.Cache.{Unique, IsCache, search-IsCache}
use omniverse_v.Search.Again.{search_again}
use omniverse_v.Search.Candidates.{occurrences, Beaten, normalize_candidates-Beaten}

abbrev settings : Settings
settings = record { ttl_seconds = 60; max_entries = 1 }

abbrev key : Key
key = record { query = 8; limit = 5 }

abbrev older : Entry ℕ
older = record { key = record key { query = 9 }; expires_at = 40; values = 3 }

-- The first provider fails.
abbrev answers : List (Answer ℕ)
answers = search_error 1 ∷ found 7 ∷ []

older-IsCache : IsCache 1 (older ∷ [])
unfolding Unique any
older-IsCache = ((refl, tt), omega arith)

search-IsCache_example : IsCache 1 (search settings key answers 10 11 (older ∷ [])).1
search-IsCache_example = search-IsCache settings key answers 10 11 (older ∷ []) older-IsCache

not_there : find (Search.has_key key) (older ∷ []) ≡ none
unfolding find
not_there = refl

second_answers : (search settings key answers 10 11 (older ∷ [])).0 ≡ returned 7
unfolding search ask evict find filter
second_answers = refl

search_again_example :
    (search settings key [] 70 70 (search settings key answers 10 11 (older ∷ [])).1).0 ≡ returned 7
search_again_example =
    search_again settings key answers [] 10 11 70 70 (older ∷ []) 7 (omega arith) not_there
      second_answers (omega arith)

abbrev candidate : ℕ → ℕ → SearchCandidate
candidate url rank = record { canonical_url = url; rank = rank; title = 0 }

abbrev values : List SearchCandidate
values = candidate 4 3 ∷ candidate 2 2 ∷ candidate 4 1 ∷ candidate 1 0 ∷ []

best_first : normalize_candidates values 3 ≡ candidate 4 1 ∷ candidate 2 2 ∷ []
unfolding normalize_candidates keep_best keep_better sort_by insert_by
best_first = refl

normalize_candidates-Beaten_example :
    ((url : ℕ) → occurrences url (normalize_candidates values 3) ≤ 1)
    × ((c : SearchCandidate) → Memᴰ c (take 3 values) → Beaten (normalize_candidates values 3) c)
normalize_candidates-Beaten_example = normalize_candidates-Beaten values 3
