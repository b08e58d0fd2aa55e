-- ===== src/Breaker/Laws.antt =====
-- The circuit breaker's states over any sequence of uses, and what an open breaker's time is.
use omniverse_v.Prelude.{
  ℕ, suc, ◌-◌, ◌<◌, ◌≡◌, refl, ap, sym, ◌∙◌, false, some, List, [], ◌∷◌, ◌++◌, arith, All, leb,
  Bool-cases, inl, inr,
}
use mathlib.Core.List.{append_assoc, append-nil}
use mathlib.Core.Path.{subst}
use omniverse_v.Breaker.{
  BreakerState, closed, tripped, half_open, CircuitBreaker, allow_request, record_failure,
  record_success, use_breaker, use_all, fresh, Use, fail, ask, succeed,
}

-- A use that leaves a breaker open that opened at `start`: a request must come before the timeout.
abbrev pub LeavesOpen : ℕ → ℕ → Use → Type 0
LeavesOpen timeout start (ask now later) = (now - start < timeout) × (later - start < timeout)
LeavesOpen timeout start succeed = Unit
LeavesOpen timeout start (fail now) = Unit

-- One of the uses is a failure at this time, and every request after it came before the timeout.
abbrev pub OpenedAt : ℕ → List Use → ℕ → Type 0
OpenedAt timeout us start =
    (earlier : List Use) × (after : List Use) × (us ≡ earlier ++ fail start ∷ after)
    × All (LeavesOpen timeout start) after

-- A closed breaker has room for a failure, an open one knows when it opened, and a half-open one
-- counts from zero.
abbrev pub StateFits : List Use → BreakerState → CircuitBreaker → Type 0
StateFits us closed b = b.failure_count < b.failure_threshold
StateFits us tripped b =
    (start : ℕ) × (b.failure_start_time ≡ some start) × OpenedAt b.recovery_timeout us start
StateFits us half_open b = b.failure_count ≡ 0

abbrev pub IsSound : List Use → CircuitBreaker → Type 0
IsSound us b = StateFits us b.state b × (0 < b.failure_threshold)

All-append {ℓ} :
    {A : Type ℓ} (P : A → Type 0) (xs : List A) (y : A) → All P xs → P y → All P (xs ++ y ∷ [])
All-append P [] y h k = (k, tt)
All-append P (x ∷ xs) y h k = (h.0, All-append P xs y h.1 k)

-- The breaker stays open.
OpenedAt-append :
    (timeout : ℕ) (us : List Use) (start : ℕ) (u : Use)
    → OpenedAt timeout us start
    → LeavesOpen timeout start u
    → OpenedAt timeout (us ++ u ∷ []) start
OpenedAt-append timeout us start u (earlier, after, e, h) k = (
  earlier,
  after ++ u ∷ [],
  ap (λ z. z ++ u ∷ []) e ∙ append_assoc earlier (fail start ∷ after) (u ∷ []),
  All-append (LeavesOpen timeout start) after u h k,
)

OpenedAt-last : (timeout : ℕ) (us : List Use) (now : ℕ) → OpenedAt timeout (us ++ fail now ∷ []) now
OpenedAt-last timeout us now = (us, [], refl, tt)

not_reached : (a b : ℕ) → leb a b ≡ false → b < a
not_reached a b h = ground arith

ask-IsSound :
    (us : List Use) (b : CircuitBreaker) (now later : ℕ) (s : BreakerState)
    → b.state ≡ s
    → StateFits us s b
    → 0 < b.failure_threshold
    → IsSound (us ++ ask now later ∷ []) (allow_request b now later).1
unfolding allow_request
ask-IsSound us b now later closed e h k = rw e (h, k)
ask-IsSound us b now later half_open e h k = rw e (h, k)
ask-IsSound us b now later tripped e (start, p, h) k =
    elim (Bool-cases (leb b.recovery_timeout (now - start))) [
      | inl first ↦ rw (e, p, first) (refl, k)
      | inr early ↦ elim (Bool-cases (leb b.recovery_timeout (later - start))) [
        | inl second ↦ rw (e, p, early) (rw second (refl, k))
        | inr later_early ↦
            rw (e, p, early)
              (rw later_early (
                (
                  start,
                  refl,
                  OpenedAt-append b.recovery_timeout us start (ask now later) h
                      (not_reached _ _ early, not_reached _ _ later_early),
                ),
                k,
              ))
      ]
    ]

fail-IsSound :
    (us : List Use) (b : CircuitBreaker) (now : ℕ) (s : BreakerState)
    → b.state ≡ s
    → StateFits us s b
    → 0 < b.failure_threshold
    → IsSound (us ++ fail now ∷ []) (record_failure b now)
unfolding record_failure
fail-IsSound us b now closed e h k =
    elim (Bool-cases (leb b.failure_threshold (suc b.failure_count))) [
      | inl full ↦ rw full ((now, refl, OpenedAt-last b.recovery_timeout us now), k)
      | inr room ↦ rw (room, e) (not_reached _ _ room, k)
    ]
fail-IsSound us b now half_open e h k =
    elim (Bool-cases (leb b.failure_threshold (suc b.failure_count))) [
      | inl full ↦ rw full ((now, refl, OpenedAt-last b.recovery_timeout us now), k)
      | inr room ↦ rw (room, e) ((now, refl, OpenedAt-last b.recovery_timeout us now), k)
    ]
fail-IsSound us b now tripped e (start, p, h) k =
    elim (Bool-cases (leb b.failure_threshold (suc b.failure_count))) [
      | inl full ↦ rw full ((now, refl, OpenedAt-last b.recovery_timeout us now), k)
      | inr room ↦
          rw (room, e) ((start, p, OpenedAt-append b.recovery_timeout us start (fail now) h tt), k)
    ]

succeed-IsSound :
    (us : List Use) (b : CircuitBreaker) (s : BreakerState)
    → b.state ≡ s
    → StateFits us s b
    → 0 < b.failure_threshold
    → IsSound (us ++ succeed ∷ []) (record_success b)
unfolding record_success
succeed-IsSound us b closed e h k = rw e (k, k)
succeed-IsSound us b half_open e h k = rw e (k, k)
succeed-IsSound us b tripped e (start, p, h) k =
    rw e ((start, p, OpenedAt-append b.recovery_timeout us start succeed h tt), k)

use_breaker-IsSound :
    (us : List Use) (b : CircuitBreaker) (u : Use)
    → IsSound us b
    → IsSound (us ++ u ∷ []) (use_breaker b u)
unfolding use_breaker
use_breaker-IsSound us b (ask now later) h = ask-IsSound us b now later b.state refl h.0 h.1
use_breaker-IsSound us b succeed h = succeed-IsSound us b b.state refl h.0 h.1
use_breaker-IsSound us b (fail now) h = fail-IsSound us b now b.state refl h.0 h.1

use_all-IsSound :
    (done : List Use) (b : CircuitBreaker) (us : List Use)
    → IsSound done b
    → IsSound (done ++ us) (use_all b us)
unfolding use_all
use_all-IsSound done b [] h = subst (λ z. IsSound z b) (sym (append-nil done)) h
use_all-IsSound done b (u ∷ us) h =
    subst (λ z. IsSound z (use_all (use_breaker b u) us)) (append_assoc done (u ∷ []) us)
      (use_all-IsSound (done ++ u ∷ []) (use_breaker b u) us (use_breaker-IsSound done b u h))

-- After any sequence of uses of a new breaker with a positive threshold, a closed breaker has counted
-- fewer failures than its threshold, and a half-open one has a count of zero. The time of an open
-- breaker is that of one of the failures, and the readings of every request after that failure are
-- before its timeout.
pub breaker-IsSound :
    (threshold timeout : ℕ) (us : List Use)
    → 0 < threshold
    → IsSound us (use_all (fresh threshold timeout) us)
breaker-IsSound threshold timeout us h = use_all-IsSound [] (fresh threshold timeout) us (h, h)
