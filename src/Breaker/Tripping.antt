-- ===== src/Breaker/Tripping.antt =====
-- How failures in a row open the circuit breaker, and for how long.
use omniverse_v.Prelude.{
  ℕ, suc, ◌+◌, ◌≤◌, ◌<◌, ◌≡◌, refl, Bool, true, false, some, List, [], ◌∷◌, ◌++◌, arith, All,
  length,
}
use omniverse_v.Breaker.{
  closed, tripped, half_open, CircuitBreaker, allow_request, record_failure, use_breaker, use_all,
  fresh, Use, fail,
}

-- Failures in a row, at these readings of the clock.
abbrev pub failures : List ℕ → List Use
failures [] = []
failures (t ∷ ts) = fail t ∷ failures ts

failures_close :
    (ts : List ℕ) (b : CircuitBreaker)
    → b.state ≡ closed
    → b.failure_count + length ts < b.failure_threshold
    → (use_all b (failures ts)).state ≡ closed
unfolding use_all use_breaker
failures_close [] b p h = p
failures_close (t ∷ ts) b p h = failures_close ts (record_failure b t) (ground arith) (ground arith)

-- The breaker that the last of these failures opens.
abbrev pub IsOpenSince : ℕ → ℕ → CircuitBreaker → Type 0
IsOpenSince timeout start b =
    (b.state ≡ tripped) × (b.failure_start_time ≡ some start) × (b.recovery_timeout ≡ timeout)

failures_trip :
    (timeout : ℕ) (ts : List ℕ) (t : ℕ) (b : CircuitBreaker)
    → b.state ≡ closed
    → b.recovery_timeout ≡ timeout
    → b.failure_count + suc (length ts) ≡ b.failure_threshold
    → IsOpenSince timeout t (use_all b (failures (ts ++ t ∷ [])))
unfolding use_all use_breaker record_failure
failures_trip timeout [] t b p q h = ground arith
failures_trip timeout (u ∷ ts) t b p q h =
    failures_trip timeout ts t (record_failure b u) (ground arith) (ground arith) (ground arith)

-- A new breaker with the threshold k + 1 is closed after k or fewer failures in a row, and after
-- k + 1 of them it is open, with the time of the last.
pub trips_at_threshold :
    (timeout : ℕ) (few ts : List ℕ) (t : ℕ)
    → length few ≤ length ts
    → ((use_all (fresh (suc (length ts)) timeout) (failures few)).state ≡ closed)
      × IsOpenSince timeout t (use_all (fresh (suc (length ts)) timeout) (failures (ts ++ t ∷ [])))
trips_at_threshold timeout few ts t h = (
  failures_close few (fresh (suc (length ts)) timeout) refl (omega arith),
  failures_trip timeout ts t (fresh (suc (length ts)) timeout) refl refl (omega arith),
)

-- The answers to requests, each with its two readings of the clock, and the breaker after them.
abbrev pub answers : CircuitBreaker → List (ℕ × ℕ) → List Bool × CircuitBreaker
answers b [] = ([], b)
answers b ((now, later) ∷ asks) =
    let one = allow_request b now later in let rest = answers one.1 asks in (one.0 ∷ rest.0, rest.1)

-- Both readings are before the timeout.
abbrev pub IsEarly : ℕ → ℕ → ℕ × ℕ → Type 0
IsEarly timeout start (now, later) = (now < start + timeout) × (later < start + timeout)

refuses_early :
    (timeout start : ℕ) (b : CircuitBreaker) (now later : ℕ)
    → IsOpenSince timeout start b
    → 0 < timeout
    → IsEarly timeout start (now, later)
    → allow_request b now later ≡ (false, b)
unfolding allow_request
refuses_early timeout start b now later (p, q, r) some_time (early, later_early) = ground arith

refuses-All :
    (timeout start : ℕ) (b : CircuitBreaker) (asks : List (ℕ × ℕ))
    → IsOpenSince timeout start b
    → 0 < timeout
    → All (IsEarly timeout start) asks
    → All (λ allowed. allowed ≡ false) (answers b asks).0 × ((answers b asks).1 ≡ b)
refuses-All timeout start b [] o h k = (tt, refl)
refuses-All timeout start b ((now, later) ∷ asks) o h k =
    rw (refuses_early timeout start b now later o h k.0)
      (let rest = refuses-All timeout start b asks o h k.1 in ((refl, rest.0), rest.1))

-- A request that comes when the timeout has passed is allowed, and the breaker is half open.
allows_late :
    (timeout start : ℕ) (b : CircuitBreaker) (now later : ℕ)
    → IsOpenSince timeout start b
    → start + timeout ≤ now
    → ((allow_request b now later).0 ≡ true) × ((allow_request b now later).1.state ≡ half_open)
unfolding allow_request
allows_late timeout start b now later (p, q, r) late = ground arith

-- A new breaker with the threshold k + 1 after k + 1 failures, the last of them at `t`.
abbrev pub opened_by : ℕ → List ℕ → ℕ → CircuitBreaker
opened_by timeout ts t = use_all (fresh (suc (length ts)) timeout) (failures (ts ++ t ∷ []))

-- When k + 1 failures in a row have opened a new breaker with the threshold k + 1, it refuses every
-- request of any sequence that comes before its positive timeout has passed since the last failure,
-- and allows the first request after that, which makes it half open.
pub opens_until_timeout :
    (timeout : ℕ) (ts : List ℕ) (t : ℕ) (asks : List (ℕ × ℕ)) (now later : ℕ)
    → 0 < timeout
    → All (IsEarly timeout t) asks
    → t + timeout ≤ now
    → All (λ allowed. allowed ≡ false) (answers (opened_by timeout ts t) asks).0
      × ((allow_request (answers (opened_by timeout ts t) asks).1 now later).0 ≡ true)
      × ((allow_request (answers (opened_by timeout ts t) asks).1 now later).1.state ≡ half_open)
opens_until_timeout timeout ts t asks now later h early late =
    let opened = opened_by timeout ts t in
    let o = failures_trip timeout ts t (fresh (suc (length ts)) timeout) refl refl (omega arith) in
    let (refused, same) = refuses-All timeout t opened asks o h early in
    let after = allows_late timeout t opened now later o late in
    (refused, rw same after.0, rw same after.1)
