-- ===== src/Tests/Publishing.antt =====
-- The circuit breaker, the retry loop and the publisher on small inputs.
use xiaoy_md.Prelude.{
  ℕ, zero, suc, ◌+◌, ◌<◌, ◌≡◌, refl, true, false, [], ◌∷◌, Option, none, some, arith,
}
use xiaoy_md.Publisher.Breaker.{
  closed, open_, Config, Breaker, initial, can_execute, record_success, record_failure, asked,
  succeeded, failed, after, after_all,
}
use xiaoy_md.Publisher.Breaker.Invariant.{IsValid, after_all-IsValid}
use xiaoy_md.Publisher.Retry.{RetryConfig, pause, attempt_once, retry_loop, retry_with_backoff}
use xiaoy_md.Publisher.Retry.Success.{Succeeds, retry_with_backoff-Succeeds}
use xiaoy_md.Publisher.Client.{Publisher}

abbrev config : Config
config = record { failure_threshold = 2; recovery_timeout = 1000; half_open_max_attempts = 1 }

-- one failure opens half way; the second opens, and after the timeout a trial is allowed
after_all_run :
    after_all config (failed 10 ∷ failed 20 ∷ asked 1500 ∷ succeeded 1501 ∷ []) initial
    ≡ record { state = closed; failure_count = 0; last_failure_time = 20; half_open_attempts = 0 }
unfolding after_all after can_execute record_success record_failure
after_all_run = refl

initial-IsValid : IsValid config initial
initial-IsValid = record { below = λ h. omega arith; trial = λ h. absurd (cc) }

after_all-IsValid_example :
    IsValid config
      (after_all config (failed 10 ∷ failed 20 ∷ asked 1500 ∷ failed 1501 ∷ []) initial)
after_all-IsValid_example =
    after_all-IsValid config (omega arith) (omega arith)
      (failed 10 ∷ failed 20 ∷ asked 1500 ∷ failed 1501 ∷ []) initial initial-IsValid

abbrev opened : Breaker
opened = record { state = open_; failure_count = 2; last_failure_time = 20; half_open_attempts = 0 }

abbrev plain : RetryConfig
plain = record {
  max_attempts = 3;
  initial_delay = 100;
  max_delay = 150;
  exponential_base = 2;
  jitter = false;
}

abbrev slower : ℕ → ℕ → ℕ
slower n now = now + n

abbrev same : ℕ → ℕ → ℕ
same n delay = delay

abbrev never : ℕ → Option (Unit {0})
never k = none

-- succeeds at the second attempt
abbrev second : ℕ → Option ℕ
second zero = none
second (suc zero) = none
second (suc (suc k)) = some k

retry_run :
    (retry_with_backoff never slower slower same plain config 0 initial).sleeps ≡ 100 ∷ 150 ∷ []
unfolding retry_with_backoff retry_loop attempt_once pause can_execute record_failure
retry_run = refl

second_fails : (j : ℕ) → j < 1 → second (1 + j) ≡ none
second_fails zero lt = refl
second_fails (suc j) lt = absurd (omega arith)

retry_with_backoff-Succeeds_example :
    Succeeds second slower slower same plain config
      (retry_with_backoff second slower slower same plain config 0 initial)
      0
      2
retry_with_backoff-Succeeds_example =
    retry_with_backoff-Succeeds second slower slower same plain config 1 0 initial 0 (omega arith)
      refl (omega arith) second_fails refl

abbrev publisher : Publisher
publisher = record {
  connected = true;
  has_client = true;
  connect_attempts = 1;
  successful_publishes = 0;
  failed_publishes = 0;
  breaker = initial;
}
