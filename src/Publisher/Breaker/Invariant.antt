-- ===== src/Publisher/Breaker/Invariant.antt =====
-- What holds of a breaker at any time.
use xiaoy_md.Prelude.{ℕ, ◌<◌, ◌≡◌, List, [], ◌∷◌, arith}
use xiaoy_md.Publisher.Breaker.{
  closed, half_open, Config, Breaker, can_execute, record_success, record_failure, Event, asked,
  succeeded, failed, after, after_all,
}

pub record IsValid (c : Config) (b : Breaker) : Type 0 where
  -- below the threshold as long as it is closed
  pub below : b.state ≡ closed → b.failure_count < c.failure_threshold
  -- attempts left as long as it is half open
  pub trial : b.state ≡ half_open → b.half_open_attempts < c.half_open_max_attempts

module _ (c : Config) (some_failures : 0 < c.failure_threshold)
    (some_attempts : 0 < c.half_open_max_attempts) where
  can_execute-IsValid : (now : ℕ) (b : Breaker) → IsValid c b → IsValid c (can_execute c now b).1
  unfolding can_execute
  can_execute-IsValid now b v = record {
    below = ground (arith, v.below, v.trial);
    trial = ground (arith, v.below, v.trial);
  }

  record_success-IsValid : (b : Breaker) → IsValid c b → IsValid c (record_success b)
  unfolding record_success
  record_success-IsValid b v = record {
    below = ground (arith, v.below, v.trial);
    trial = ground (arith, v.below, v.trial);
  }

  record_failure-IsValid :
      (now : ℕ) (b : Breaker) → IsValid c b → IsValid c (record_failure c now b)
  unfolding record_failure
  record_failure-IsValid now b v = record {
    below = ground (arith, v.below, v.trial);
    trial = ground (arith, v.below, v.trial);
  }

  -- Whatever happens in any order to a breaker with a positive threshold and positive trial
  -- attempts, it keeps two promises: while it is closed its failures are below the threshold, and
  -- while it is half open trial attempts are left.
  pub after_all-IsValid :
      (events : List Event) (b : Breaker) → IsValid c b → IsValid c (after_all c events b)
  unfolding after_all after
  after_all-IsValid [] b v = v
  after_all-IsValid (asked now ∷ events) b v =
      after_all-IsValid events _ (can_execute-IsValid now b v)
  after_all-IsValid (succeeded now ∷ events) b v =
      after_all-IsValid events _ (record_success-IsValid b v)
  after_all-IsValid (failed now ∷ events) b v =
      after_all-IsValid events _ (record_failure-IsValid now b v)
