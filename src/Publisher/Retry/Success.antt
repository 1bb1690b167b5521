-- ===== src/Publisher/Retry/Success.antt =====
-- The retry loop succeeds when the operation does before the attempts and the breaker run out.
use xiaoy_md.Prelude.{ℕ, zero, suc, ◌+◌, ◌*◌, ◌<◌, ◌≡◌, refl, ap, Option, none, some, arith, min}
use xiaoy_md.Publisher.Breaker.{
  closed, Config, Breaker, can_execute, record_success, record_failure,
}
use xiaoy_md.Publisher.Retry.{
  RetryConfig, Failure, operation_failed, no_attempt, Outcome, returned, raised, Run, pause,
  attempt_once, retry_loop, retry_with_backoff,
}

module _ {A : Type 0} (operation : ℕ → Option A) (after_operation : ℕ → ℕ → ℕ)
    (after_sleep : ℕ → ℕ → ℕ) (jittered : ℕ → ℕ → ℕ) (r : RetryConfig) (c : Config) where
  abbrev once : ℕ → ℕ → Breaker → Outcome A × ℕ × Breaker × ℕ
  once = attempt_once operation after_operation after_sleep jittered r c

  once_found :
      (attempt now : ℕ) (b : Breaker) (a : A)
      → b.state ≡ closed
      → operation attempt ≡ some a
      → once attempt now b ≡ (returned a, after_operation attempt now, record_success b, 1)
  unfolding attempt_once can_execute
  once_found attempt now b a h e = ground arith

  once_failed :
      (attempt now : ℕ) (b : Breaker)
      → b.state ≡ closed
      → operation attempt ≡ none
      → once attempt now b ≡ (
        raised operation_failed,
        after_operation attempt now,
        record_failure c (after_operation attempt now) b,
        1,
      )
  unfolding attempt_once can_execute
  once_failed attempt now b h e = ground arith

  record_success_closed : (b : Breaker) → b.state ≡ closed → (record_success b).state ≡ closed
  unfolding record_success
  record_success_closed b h = ground arith

  record_failure_closed :
      (now : ℕ) (b : Breaker)
      → b.state ≡ closed
      → b.failure_count + 1 < c.failure_threshold
      → ((record_failure c now b).state ≡ closed)
        × ((record_failure c now b).failure_count ≡ b.failure_count + 1)
  unfolding record_failure
  record_failure_closed now b h lt = ground arith

  -- What a run comes to: the result, the calls made, and a closed breaker.
  abbrev pub Succeeds : Run A → A → ℕ → Type 0
  Succeeds run a calls =
      (run.outcome ≡ returned a) × (run.calls ≡ calls) × (run.breaker.state ≡ closed)

  retry_loop-Succeeds :
      (k n attempt delay now : ℕ) (b : Breaker) (last : Failure) (a : A)
      → k < n
      → b.state ≡ closed
      → b.failure_count + k < c.failure_threshold
      → ((j : ℕ) → j < k → operation (attempt + j) ≡ none)
      → operation (attempt + k) ≡ some a
      → Succeeds
          (retry_loop operation after_operation after_sleep jittered r c n attempt delay now b last)
          a
          (k + 1)
  unfolding retry_loop
  retry_loop-Succeeds k zero attempt delay now b last a lt h room fails found = absurd (omega arith)
  retry_loop-Succeeds zero (suc zero) attempt delay now b last a lt h room fails found =
      let z : attempt + 0 ≡ attempt = omega arith in
      let o = once_found attempt now b a h (rw z at found) in
      rw (ap (λ p. p.0) o, retry_loop)
        (refl, ap (λ p. p.3) o, rw (ap (λ p. p.2) o) (record_success_closed b h))
  retry_loop-Succeeds (suc k) (suc zero) attempt delay now b last a lt h room fails found =
      absurd (omega arith)
  retry_loop-Succeeds zero (suc (suc n)) attempt delay now b last a lt h room fails found =
      let z : attempt + 0 ≡ attempt = omega arith in
      let o = once_found attempt now b a h (rw z at found) in
      rw (ap (λ p. p.0) o, retry_loop)
        (refl, ap (λ p. p.3) o, rw (ap (λ p. p.2) o) (record_success_closed b h))
  retry_loop-Succeeds (suc k) (suc (suc n)) attempt delay now b last a lt h room fails found =
      let z : attempt + 0 ≡ attempt = omega arith in
      let o = once_failed attempt now b h (rw z at (fails 0 (omega arith))) in
      let next = record_failure_closed (after_operation attempt now) b h (omega arith) in
      let rest =
        retry_loop-Succeeds k (suc n) (attempt + 1) (min (delay * r.exponential_base) r.max_delay)
          (after_sleep (once attempt now b).1
            (pause operation after_operation after_sleep jittered r c attempt delay))
          (once attempt now b).2 operation_failed a (omega arith) (rw (ap (λ p. p.2) o) next.0)
          (rw (ap (λ p. p.2) o) (omega (arith, next.1)))
          (λ j lt'.
            let w : attempt + 1 + j ≡ attempt + suc j = omega arith in
            rw w (fails (suc j) (omega arith)))
          (let w : attempt + 1 + k ≡ attempt + suc k = omega arith in rw w found) in
      rw (ap (λ p. p.0) o, retry_loop)
        (rest.0, (let one = ap (λ p. p.3) o in omega (arith, one, rest.1)), rest.2)

  -- Through a closed breaker, an operation that fails k times and then succeeds is called k + 1
  -- times and its result returned, with the breaker closed, when more than k attempts are allowed
  -- and the failures stay below the threshold of the breaker.
  pub retry_with_backoff-Succeeds :
      (k now : ℕ) (b : Breaker) (a : A)
      → k < r.max_attempts
      → b.state ≡ closed
      → b.failure_count + k < c.failure_threshold
      → ((j : ℕ) → j < k → operation (1 + j) ≡ none)
      → operation (1 + k) ≡ some a
      → Succeeds
          (retry_with_backoff operation after_operation after_sleep jittered r c now b)
          a
          (k + 1)
  unfolding retry_with_backoff
  retry_with_backoff-Succeeds k now b a lt h room fails found =
      retry_loop-Succeeds k r.max_attempts 1 r.initial_delay now b no_attempt a lt h room fails
        found
