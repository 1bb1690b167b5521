-- ===== src/Publisher/Retry/Schedule.antt =====
-- How often the retry loop tries, how long it waits, and what its result rests on.
use xiaoy_md.Prelude.{
  ℕ, zero, suc, ◌+◌, ◌-◌, ◌*◌, ◌≤◌, ◌<◌, ◌≡◌, refl, inl, inr, ◌⊎◌, false, List, [], ◌∷◌, Option,
  none, some, arith, min, length, take, Bool-cases, Option-cases,
}
use xiaoy_md.Publisher.Breaker.{Config, Breaker, can_execute, record_failure}
use xiaoy_md.Publisher.Retry.{
  RetryConfig, Failure, circuit_open, operation_failed, no_attempt, Outcome, returned, raised, Run,
  pause, attempt_once, retry_loop, retry_with_backoff,
}

-- the delays with no jitter: the first, and each of the others a multiple of the one before it, up to the maximum
unfoldable pub schedule : RetryConfig → ℕ → ℕ → List ℕ
schedule r zero delay = []
schedule r (suc n) delay = delay ∷ schedule r n (min (delay * r.exponential_base) r.max_delay)

can_execute-failure_count :
    (c : Config) (now : ℕ) (b : Breaker) → (can_execute c now b).1.failure_count ≡ b.failure_count
unfolding can_execute
can_execute-failure_count c now b = ground arith

record_failure-failure_count :
    (c : Config) (now : ℕ) (b : Breaker)
    → (record_failure c now b).failure_count ≡ b.failure_count + 1
unfolding record_failure
record_failure-failure_count c now b = ground arith

module _ {A : Type 0} (operation : ℕ → Option A) (after_operation : ℕ → ℕ → ℕ)
    (after_sleep : ℕ → ℕ → ℕ) (jittered : ℕ → ℕ → ℕ) (r : RetryConfig) (c : Config) where
  abbrev loop : ℕ → ℕ → ℕ → ℕ → Breaker → Failure → Run A
  loop = retry_loop operation after_operation after_sleep jittered r c

  abbrev once : ℕ → ℕ → Breaker → Outcome A × ℕ × Breaker × ℕ
  once = attempt_once operation after_operation after_sleep jittered r c

  -- one attempt: the operation's result, or one more failure
  once-cases :
      (attempt now : ℕ) (b : Breaker)
      → ((a : A) × (operation attempt ≡ some a) × ((once attempt now b).0 ≡ returned a))
        ⊎ ((e : Failure) × ((once attempt now b).0 ≡ raised e)
            × ((once attempt now b).2.failure_count ≡ b.failure_count + 1))
  unfolding attempt_once
  once-cases attempt now b = elim (Bool-cases (can_execute c now b).0) [
    | inr refused ↦ inr (
      circuit_open,
      ground arith,
      ground (
        arith,
        can_execute-failure_count c now b,
        record_failure-failure_count c now (can_execute c now b).1,
        record_failure-failure_count c (after_operation attempt now) (can_execute c now b).1,
      ),
    )
    | inl allowed ↦ elim (Option-cases (operation attempt)) [
      | inl e ↦ inr (
        operation_failed,
        ground arith,
        ground (
          arith,
          can_execute-failure_count c now b,
          record_failure-failure_count c now (can_execute c now b).1,
          record_failure-failure_count c (after_operation attempt now) (can_execute c now b).1,
        ),
      )
      | inr (a, e) ↦ inl (a, e, ground arith)
    ]
  ]

  abbrev wait : ℕ → ℕ → ℕ
  wait = pause operation after_operation after_sleep jittered r c

  pause_plain : (attempt delay : ℕ) → r.jitter ≡ false → wait attempt delay ≡ delay
  unfolding pause
  pause_plain attempt delay plain = ground arith

  -- Without jitter the loop sleeps for the first delays of the schedule, and less often than it may
  -- try.
  retry_loop-sleeps :
      (n attempt delay now : ℕ) (b : Breaker) (last : Failure)
      → r.jitter ≡ false
      → let run = loop n attempt delay now b last in
        (run.sleeps ≡ take (length run.sleeps) (schedule r n delay)) × (length run.sleeps ≤ n - 1)
  unfolding retry_loop schedule
  retry_loop-sleeps zero attempt delay now b last plain = (refl, omega arith)
  retry_loop-sleeps (suc zero) attempt delay now b last plain = (refl, omega arith)
  retry_loop-sleeps (suc (suc n)) attempt delay now b last plain = elim (once-cases attempt now b) [
    | inl (a, found, e) ↦ rw (e, retry_loop) (refl, omega arith)
    | inr (f, e, more) ↦
        let rest =
          retry_loop-sleeps (suc n) (attempt + 1) (min (delay * r.exponential_base) r.max_delay)
            (after_sleep (once attempt now b).1 (wait attempt delay)) (once attempt now b).2 f
            plain in
        rw (e, retry_loop) (cc (pause_plain attempt delay plain, rest.0), omega (arith, rest.1))
  ]

  -- An operation that never succeeds is tried as often as it may be: the loop raises, sleeps once
  -- between two attempts, and every attempt counts as a failure, made or refused.
  retry_loop-raised :
      (n attempt delay now : ℕ) (b : Breaker) (last : Failure)
      → ((k : ℕ) → operation k ≡ none)
      → let run = loop n attempt delay now b last in
        ((f : Failure) × (run.outcome ≡ raised f))
        × (length run.sleeps ≡ n - 1)
        × (run.breaker.failure_count ≡ b.failure_count + n)
  unfolding retry_loop
  retry_loop-raised zero attempt delay now b last never = ((last, refl), refl, omega arith)
  retry_loop-raised (suc zero) attempt delay now b last never = elim (once-cases attempt now b) [
    | inl (a, found, e) ↦ absurd (let no = never attempt in ground arith)
    | inr (f, e, more) ↦ ((f, e), refl, more)
  ]
  retry_loop-raised (suc (suc n)) attempt delay now b last never = elim (once-cases attempt now b) [
    | inl (a, found, e) ↦ absurd (let no = never attempt in ground arith)
    | inr (f, e, more) ↦
        let rest =
          retry_loop-raised (suc n) (attempt + 1) (min (delay * r.exponential_base) r.max_delay)
            (after_sleep (once attempt now b).1 (wait attempt delay)) (once attempt now b).2 f
            never in
        rw (e, retry_loop) (rest.0, omega (arith, rest.1), omega (arith, more, rest.2))
  ]

  -- What the loop returns is what one of its attempts returned.
  retry_loop-returned :
      (n attempt delay now : ℕ) (b : Breaker) (last : Failure) (a : A)
      → (loop n attempt delay now b last).outcome ≡ returned a
      → (k : ℕ) × (k < n) × (operation (attempt + k) ≡ some a)
  unfolding retry_loop
  retry_loop-returned zero attempt delay now b last a h = absurd (cc)
  retry_loop-returned (suc zero) attempt delay now b last a h = elim (once-cases attempt now b) [
    | inl (a', found, e) ↦
        (0, omega arith, let z : attempt + 0 ≡ attempt = omega arith in rw z (ground arith))
    | inr (f, e, more) ↦ absurd (ground arith)
  ]
  retry_loop-returned (suc (suc n)) attempt delay now b last a h = elim (once-cases attempt now b) [
    | inl (a', found, e) ↦
        (0, omega arith, let z : attempt + 0 ≡ attempt = omega arith in rw z (ground arith))
    | inr (f, e, more) ↦
        let (k, lt, found) =
          retry_loop-returned (suc n) (attempt + 1) (min (delay * r.exponential_base) r.max_delay)
            (after_sleep (once attempt now b).1 (wait attempt delay)) (once attempt now b).2 f a
            (rw (e, retry_loop) at h) in
        (
          k + 1,
          omega arith,
          let z : attempt + (k + 1) ≡ attempt + 1 + k = omega arith in rw z found,
        )
  ]

  -- With jitter off, the sleeps of a run are the first delays of the schedule that starts at the
  -- initial delay, and there is at most one less of them than attempts allowed.
  retry_with_backoff-sleeps :
      (now : ℕ) (b : Breaker)
      → r.jitter ≡ false
      → let run = retry_with_backoff operation after_operation after_sleep jittered r c now b in
        (run.sleeps ≡ take (length run.sleeps) (schedule r r.max_attempts r.initial_delay))
        × (length run.sleeps ≤ r.max_attempts - 1)
  unfolding retry_with_backoff
  retry_with_backoff-sleeps now b plain =
      retry_loop-sleeps r.max_attempts 1 r.initial_delay now b no_attempt plain

  -- When no attempt of the operation succeeds, the run raises, sleeps once between two attempts,
  -- and adds every attempt to the failure count of the breaker, also those that the breaker
  -- refused.
  retry_with_backoff-raised :
      (now : ℕ) (b : Breaker)
      → ((k : ℕ) → operation k ≡ none)
      → let run = retry_with_backoff operation after_operation after_sleep jittered r c now b in
        ((f : Failure) × (run.outcome ≡ raised f))
        × (length run.sleeps ≡ r.max_attempts - 1)
        × (run.breaker.failure_count ≡ b.failure_count + r.max_attempts)
  unfolding retry_with_backoff
  retry_with_backoff-raised now b never =
      retry_loop-raised r.max_attempts 1 r.initial_delay now b no_attempt never

  -- What a run returns is the result of one of its attempts, the first to the last allowed.
  retry_with_backoff-returned :
      (now : ℕ) (b : Breaker) (a : A)
      → (retry_with_backoff operation after_operation after_sleep jittered r c now b).outcome
        ≡ returned a
      → (k : ℕ) × (k < r.max_attempts) × (operation (1 + k) ≡ some a)
  unfolding retry_with_backoff
  retry_with_backoff-returned now b a h =
      retry_loop-returned r.max_attempts 1 r.initial_delay now b no_attempt a h
