-- ===== src/Publisher/Client/Counts.antt =====
-- What the counts of the publisher count.
use xiaoy_md.Prelude.{ℕ, ◌+◌, ◌≡◌, true, Option, arith}
use xiaoy_md.Publisher.Breaker.{Config}
use xiaoy_md.Publisher.Retry.{RetryConfig, Failure, raised}
use xiaoy_md.Publisher.Client.{Publisher, Published, publish_failed, attempts, publish}

module _ (operation : ℕ → Option (Unit {0})) (after_operation : ℕ → ℕ → ℕ) (after_sleep : ℕ → ℕ → ℕ)
    (jittered : ℕ → ℕ → ℕ) (r : RetryConfig) (c : Config) (now : ℕ) where
  abbrev publish_now : Publisher → Published × Publisher
  publish_now = publish operation after_operation after_sleep jittered r c now

  -- A publish over a connection whose retries all fail raises, and counts as a failed and also as
  -- a successful publish.
  pub publish-both_counts :
      (p : Publisher) (f : Failure)
      → p.connected ≡ true
      → p.has_client ≡ true
      → (attempts operation after_operation after_sleep jittered r c now p).outcome ≡ raised f
      → ((publish_now p).0 ≡ publish_failed f)
        × ((publish_now p).1.failed_publishes ≡ p.failed_publishes + 1)
        × ((publish_now p).1.successful_publishes ≡ p.successful_publishes + 1)
  unfolding publish
  publish-both_counts p f up client e = ground arith
