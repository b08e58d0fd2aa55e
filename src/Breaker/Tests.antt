-- ===== src/Breaker/Tests.antt =====
-- Concrete runs of the circuit breaker.
use omniverse_v.Prelude.{◌≡◌, List, [], ◌∷◌, true, false, All, arith}
use omniverse_v.Breaker.{Use, closed, half_open, allow_request, use_all, fresh, fail, ask, succeed}
use omniverse_v.Breaker.Laws.{IsSound, breaker-IsSound}
use omniverse_v.Breaker.Tripping.{
  IsOpenSince, trips_at_threshold, failures, answers, opened_by, opens_until_timeout,
}

abbrev uses : List Use
uses = fail 1 ∷ fail 5 ∷ ask 20 21 ∷ succeed ∷ []

breaker-IsSound_example : IsSound uses (use_all (fresh 2 60) uses)
breaker-IsSound_example = breaker-IsSound 2 60 uses (omega arith)

trips_at_threshold_example :
    ((use_all (fresh 3 60) (failures (4 ∷ 9 ∷ []))).state ≡ closed)
    × IsOpenSince 60 30 (use_all (fresh 3 60) (failures (7 ∷ 11 ∷ 30 ∷ [])))
trips_at_threshold_example = trips_at_threshold 60 (4 ∷ 9 ∷ []) (7 ∷ 11 ∷ []) 30 (omega arith)

opens_until_timeout_example :
    All
      (λ allowed. allowed ≡ false)
      (answers (opened_by 60 (7 ∷ 11 ∷ []) 30) ((40, 41) ∷ (88, 89) ∷ [])).0
    × ((allow_request
          (answers (opened_by 60 (7 ∷ 11 ∷ []) 30) ((40, 41) ∷ (88, 89) ∷ [])).1
          95
          96).0
        ≡ true)
    × ((allow_request
          (answers (opened_by 60 (7 ∷ 11 ∷ []) 30) ((40, 41) ∷ (88, 89) ∷ [])).1
          95
          96).1.state
        ≡ half_open)
opens_until_timeout_example =
    opens_until_timeout 60 (7 ∷ 11 ∷ []) 30 ((40, 41) ∷ (88, 89) ∷ []) 95 96 (omega arith)
      ((omega arith, omega arith), ((omega arith, omega arith), tt)) (omega arith)
