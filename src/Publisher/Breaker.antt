-- ===== src/Publisher/Breaker.antt =====
-- `CircuitBreaker` (src/infrastructure/nats_publisher.py). Times are whole milliseconds of the
-- monotonic clock. The lock makes each method one step.
pub mod Invariant
pub mod Runs
use xiaoy_md.Prelude.{ℕ, ◌+◌, ◌-◌, Bool, true, false, List, [], ◌∷◌, ltb, leb, if◌then◌else◌}

pub data CircuitState : Type 0 where
  closed open_ half_open : CircuitState

-- `CircuitBreakerConfig`
pub record Config : Type 0 where
  pub failure_threshold : ℕ
  pub recovery_timeout : ℕ
  pub half_open_max_attempts : ℕ

pub record Breaker : Type 0 where
  pub state : CircuitState
  pub failure_count : ℕ
  pub last_failure_time : ℕ
  pub half_open_attempts : ℕ

-- the values of the dataclass fields at the start
abbrev pub initial : Breaker
initial = record {
  state = closed;
  failure_count = 0;
  last_failure_time = 0;
  half_open_attempts = 0;
}

can_execute_in : CircuitState → Config → ℕ → Breaker → Bool × Breaker
can_execute_in closed c now b = (true, b)
can_execute_in open_ c now b =
    if ltb c.recovery_timeout (now - b.last_failure_time)
    then (true, record b { state = half_open; half_open_attempts = 0 })
    else (false, b)
can_execute_in half_open c now b = (ltb b.half_open_attempts c.half_open_max_attempts, b)

-- the answer, and the breaker afterwards
unfoldable pub can_execute : Config → ℕ → Breaker → Bool × Breaker
unfolding can_execute_in
can_execute c now b = can_execute_in b.state c now b

record_success_in : CircuitState → Breaker → Breaker
record_success_in half_open b = record b {
  state = closed;
  failure_count = 0;
  half_open_attempts = 0;
}
record_success_in closed b = record b { failure_count = 0 }
record_success_in open_ b = b

unfoldable pub record_success : Breaker → Breaker
unfolding record_success_in
record_success b = record_success_in b.state b

-- behind the count and the time, which every failure changes
record_failure_in : CircuitState → Config → Breaker → Breaker
record_failure_in half_open c b =
    let attempts = b.half_open_attempts + 1 in
    if leb c.half_open_max_attempts attempts
    then record b { state = open_; half_open_attempts = attempts }
    else record b { half_open_attempts = attempts }
record_failure_in closed c b =
    if leb c.failure_threshold b.failure_count then record b { state = open_ } else b
record_failure_in open_ c b = b

unfoldable pub record_failure : Config → ℕ → Breaker → Breaker
unfolding record_failure_in
record_failure c now b =
    record_failure_in b.state c
      (record b { failure_count = b.failure_count + 1; last_failure_time = now })

-- What happens to a breaker: a caller asks, or reports the end of an operation.
pub data Event : Type 0 where
  asked succeeded failed : ℕ → Event

unfoldable pub after : Config → Event → Breaker → Breaker
after c (asked now) b = (can_execute c now b).1
after c (succeeded now) b = record_success b
after c (failed now) b = record_failure c now b

unfoldable pub after_all : Config → List Event → Breaker → Breaker
after_all c [] b = b
after_all c (e ∷ events) b = after_all c events (after c e b)

-- One attempt of a caller that the breaker refuses: `_retry_with_backoff` reports the refusal as
-- one more failure.
unfoldable pub attempt_refused : Config → ℕ → Breaker → Bool × Breaker
attempt_refused c now b =
    let (allowed, b') = can_execute c now b in
    if allowed then (true, b') else (false, record_failure c now b')
