-- ===== src/Publisher/Retry.antt =====
-- `NATSPublisher._retry_with_backoff` (src/infrastructure/nats_publisher.py). The operation, its
-- duration, the sleeps and the jitter are parameters: the n-th attempt's result, the clock after
-- an attempt and after a sleep, and the jittered form of a delay. Delays are whole milliseconds,
-- and the base of the exponent is a whole number, as the default of 2.
pub mod Schedule
pub mod Success
use xiaoy_md.Prelude.{
  ℕ, zero, suc, ◌+◌, ◌*◌, Bool, true, false, List, [], ◌∷◌, Option, none, some, min, if◌then◌else◌,
}
use xiaoy_md.Publisher.Breaker.{Config, Breaker, can_execute, record_success, record_failure}

pub record RetryConfig : Type 0 where
  pub max_attempts : ℕ
  pub initial_delay : ℕ
  pub max_delay : ℕ
  pub exponential_base : ℕ
  pub jitter : Bool

-- what the loop raises at its end
pub data Failure : Type 0 where
  circuit_open : Failure
  operation_failed : Failure
  -- `RuntimeError`, with no attempt made
  no_attempt : Failure

pub data Outcome (A : Type 0) : Type 0 where
  returned : A → Outcome A
  raised : Failure → Outcome A

-- the outcome, the breaker, and what the loop did: the operations called, and the sleeps in order
pub record Run (A : Type 0) : Type 0 where
  pub outcome : Outcome A
  pub breaker : Breaker
  pub calls : ℕ
  pub sleeps : List ℕ

module _ {A : Type 0} (operation : ℕ → Option A) (after_operation : ℕ → ℕ → ℕ)
    (after_sleep : ℕ → ℕ → ℕ) (jittered : ℕ → ℕ → ℕ) (r : RetryConfig) (c : Config) where
  -- `jitter_delay` of an attempt
  unfoldable pub pause : ℕ → ℕ → ℕ
  pause attempt delay = if r.jitter then jittered attempt delay else delay

  -- an attempt: the operation's result or the failure, the clock, the breaker, and 1 for a call
  unfoldable pub attempt_once : ℕ → ℕ → Breaker → Outcome A × ℕ × Breaker × ℕ
  attempt_once attempt now b =
      let (allowed, b') = can_execute c now b in
      if allowed
      then elim (operation attempt) [
        | some a ↦ (returned a, after_operation attempt now, record_success b', 1)
        | none ↦
            let later = after_operation attempt now in
            (raised operation_failed, later, record_failure c later b', 1)
      ]
      else (raised circuit_open, now, record_failure c now b', 0)

  -- the attempts left, the number of the next one, the delay, the clock, the breaker, and the
  -- exception so far
  unfoldable pub retry_loop : ℕ → ℕ → ℕ → ℕ → Breaker → Failure → Run A
  retry_loop zero attempt delay now b last = record {
    outcome = raised last;
    breaker = b;
    calls = 0;
    sleeps = [];
  }
  retry_loop (suc zero) attempt delay now b last =
      let (outcome, later, b', called) = attempt_once attempt now b in
      record { outcome = outcome; breaker = b'; calls = called; sleeps = [] }
  retry_loop (suc (suc left)) attempt delay now b last =
      let (outcome, later, b', called) = attempt_once attempt now b in
      elim outcome [
        | returned a ↦ record { outcome = returned a; breaker = b'; calls = called; sleeps = [] }
        | raised e ↦
            let slept = pause attempt delay in
            let rest =
              retry_loop (suc left) (attempt + 1) (min (delay * r.exponential_base) r.max_delay)
                (after_sleep later slept) b' e in
            record {
              outcome = rest.outcome;
              breaker = rest.breaker;
              calls = called + rest.calls;
              sleeps = slept ∷ rest.sleeps;
            }
      ]

  unfoldable pub retry_with_backoff : ℕ → Breaker → Run A
  retry_with_backoff now b = retry_loop r.max_attempts 1 r.initial_delay now b no_attempt
