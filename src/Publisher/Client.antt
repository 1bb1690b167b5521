-- ===== src/Publisher/Client.antt =====
-- `NATSPublisher` (src/infrastructure/nats_publisher.py): `connect`, `disconnect`, `publish` and
-- the callbacks. The NATS client, the clock and the sleeps are parameters, as in the retry loop;
-- the health check responder changes no state that is modelled.
pub mod Counts
use xiaoy_md.Prelude.{
  ℕ, ◌+◌, Bool, true, false, ◌&&◌, ◌||◌, not, Option, none, some, ltb, if◌then◌else◌,
}
use xiaoy_md.Publisher.Breaker.{Config, Breaker, record_success, record_failure}
use xiaoy_md.Publisher.Retry.{
  RetryConfig, Failure, Outcome, returned, raised, Run, retry_with_backoff,
}

-- `_connected`, whether `_nc` is set, the three counts of `_connection_stats`, and the breaker
pub record Publisher : Type 0 where
  pub connected : Bool
  pub has_client : Bool
  pub connect_attempts : ℕ
  pub successful_publishes : ℕ
  pub failed_publishes : ℕ
  pub breaker : Breaker

pub data Published : Type 0 where
  sent : Published
  not_connected : Published
  publish_failed : Failure → Published

module _ (operation : ℕ → Option (Unit {0})) (after_operation : ℕ → ℕ → ℕ) (after_sleep : ℕ → ℕ → ℕ)
    (jittered : ℕ → ℕ → ℕ) (r : RetryConfig) (c : Config) (now : ℕ) where
  abbrev pub attempts : Publisher → Run (Unit {0})
  attempts p = retry_with_backoff operation after_operation after_sleep jittered r c now p.breaker

  -- the `try`/`except` of `publish`
  after_publish : Outcome (Unit {0}) → Publisher → Published × Publisher
  after_publish (returned _) p = (sent, p)
  after_publish (raised f) p =
      (publish_failed f, record p { failed_publishes = p.failed_publishes + 1 })

  unfoldable pub publish : Publisher → Published × Publisher
  unfolding after_publish
  publish p =
      if not p.connected || not p.has_client
      then (not_connected, p)
      else let run = attempts p in
        after_publish run.outcome
          (record p { successful_publishes = p.successful_publishes + 1; breaker = run.breaker })

  -- behind the retry loop: each call of the operation counts and sets a new client
  after_connect : Outcome (Unit {0}) → Publisher → Option Failure × Publisher
  after_connect (returned _) p = (none, record p { connected = true })
  after_connect (raised f) p = (some f, p)

  -- `connect`: the exception, if any
  unfoldable pub connect : Publisher → Option Failure × Publisher
  unfolding after_connect
  connect p =
      if p.connected
      then (none, p)
      else let run = attempts p in
        after_connect run.outcome (record p {
          has_client = p.has_client || ltb 0 run.calls;
          connect_attempts = p.connect_attempts + run.calls;
          breaker = run.breaker;
        })

-- `disconnect`: whatever the client does, it is dropped
unfoldable pub disconnect : Publisher → Publisher
disconnect p = if p.has_client then record p { connected = false; has_client = false } else p

-- the callbacks of the client
unfoldable pub error_callback : Config → ℕ → Publisher → Publisher
error_callback c now p = record p { breaker = record_failure c now p.breaker }

unfoldable pub disconnected_callback : Publisher → Publisher
disconnected_callback p = record p { connected = false }

unfoldable pub reconnected_callback : Publisher → Publisher
reconnected_callback p = record p { connected = true; breaker = record_success p.breaker }

unfoldable pub closed_callback : Publisher → Publisher
closed_callback p = record p { connected = false }
