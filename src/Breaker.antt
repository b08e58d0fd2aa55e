-- ===== src/Breaker.antt =====
-- CircuitBreaker of backend/app/v2/providers.py. The readings of `monotonic()` are arguments: a
-- whole number of some unit of time, such as a microsecond. The lock makes each method one step.
pub mod Laws
pub mod Tripping
mod Tests
use omniverse_v.Prelude.{
  ℕ, suc, ◌+◌, ◌-◌, ◌≤◌, ◌<◌, ◌≡◌, refl, Bool, true, false, ◌||◌, Option, none, some, List, [], ◌∷◌,
  arith, leb, if◌then◌else◌,
}

pub data BreakerState : Type 0 where
  closed tripped half_open : BreakerState

pub record CircuitBreaker : Type 0 where
  pub failure_threshold : ℕ
  pub recovery_timeout : ℕ
  pub state : BreakerState
  pub failure_count : ℕ
  pub failure_start_time : Option ℕ

-- `elapsed >= self._recovery_timeout`.
abbrev elapsed : CircuitBreaker → ℕ → ℕ → Bool
elapsed b start now = leb b.recovery_timeout (now - start)

abbrev probe : CircuitBreaker → CircuitBreaker
probe b = record b { state = half_open; failure_count = 0 }

abbrev read_tripped : CircuitBreaker → ℕ → Option ℕ → CircuitBreaker
read_tripped b now none = b
read_tripped b now (some start) = if elapsed b start now then probe b else b

abbrev read_from : BreakerState → CircuitBreaker → ℕ → CircuitBreaker
read_from tripped b now = read_tripped b now b.failure_start_time
read_from closed b now = b
read_from half_open b now = b

-- The property `state`: an open breaker becomes half open when its timeout has passed.
unfoldable pub read_state : CircuitBreaker → ℕ → CircuitBreaker
read_state b now = read_from b.state b now

abbrev still_tripped : CircuitBreaker → ℕ → Option ℕ → Bool × CircuitBreaker
still_tripped b now none = (false, b)
still_tripped b now (some start) = if elapsed b start now then (true, probe b) else (false, b)

abbrev allow_from : BreakerState → CircuitBreaker → ℕ → Bool × CircuitBreaker
allow_from closed b now = (true, b)
allow_from tripped b now = still_tripped b now b.failure_start_time
allow_from half_open b now = (true, b)

-- `allow_request`, with one reading of the clock for the property and one for its own test.
unfoldable pub allow_request : CircuitBreaker → ℕ → ℕ → Bool × CircuitBreaker
unfolding read_state
allow_request b now later = let c = read_state b now in allow_from c.state c later

abbrev success_from : BreakerState → CircuitBreaker → CircuitBreaker
success_from half_open b = record b { state = closed; failure_count = 0 }
success_from closed b = record b { failure_count = 0 }
success_from tripped b = b

unfoldable pub record_success : CircuitBreaker → CircuitBreaker
record_success b = success_from b.state b

abbrev is_half_open : BreakerState → Bool
is_half_open half_open = true
is_half_open _ = false

unfoldable pub record_failure : CircuitBreaker → ℕ → CircuitBreaker
record_failure b now =
    let c = record b { failure_count = suc b.failure_count } in
    if leb c.failure_threshold c.failure_count || is_half_open c.state
    then record c { state = tripped; failure_start_time = some now }
    else c

-- `CircuitBreaker(…)`.
abbrev pub fresh : ℕ → ℕ → CircuitBreaker
fresh threshold timeout = record {
  failure_threshold = threshold;
  recovery_timeout = timeout;
  state = closed;
  failure_count = 0;
  failure_start_time = none;
}

-- What callers do with a breaker, with the readings of the clock.
pub data Use : Type 0 where
  ask : ℕ → ℕ → Use
  succeed : Use
  fail : ℕ → Use

unfoldable pub use_breaker : CircuitBreaker → Use → CircuitBreaker
unfolding allow_request record_success record_failure
use_breaker b (ask now later) = (allow_request b now later).1
use_breaker b succeed = record_success b
use_breaker b (fail now) = record_failure b now

unfoldable pub use_all : CircuitBreaker → List Use → CircuitBreaker
unfolding use_breaker
use_all b [] = b
use_all b (u ∷ us) = use_all (use_breaker b u) us
