-- ===== src/FullFeed/Request/Attempts.antt =====
-- How often a request is sent, and what is slept (src/operations/full_feed_subscription.py,
-- `_request_json`).
use xiaoy_md.Prelude.{
  ℕ, zero, suc, ◌+◌, ◌-◌, ◌≤◌, ◌≡◌, ◌⊎◌, refl, inl, inr, Bool, true, false, max, ◌&&◌, arith,
  Bool-cases, List, [], ◌++◌, ◌==◌, length, All, if◌then◌else◌, ℤ, pos, negsuc,
}
use xiaoy_md.FullFeed.Request.{
  Meets, Result, is_retryable, ending_of, sleep_for, try_again, delay_of, request_loop,
  request_json,
}

one_plus : (n : ℕ) → 1 + (max 1 n - 1) ≡ max 1 n
one_plus n = omega arith

-- the delay between two attempts: none where it is not positive
abbrev pub delay_between : ℤ → ℕ
delay_between (pos n) = n
delay_between (negsuc n) = 0

delay_of-delay_between : (d : ℤ) → delay_of d ≡ delay_between d
unfolding delay_of
delay_of-delay_between (pos n) = refl
delay_of-delay_between (negsuc n) = refl

sleeps_more :
    (delay : ℕ) (slept : List ℕ)
    → All (λ d. d ≡ delay) slept
    → All (λ d. d ≡ delay) (sleep_for delay ++ slept)
unfolding sleep_for
sleeps_more delay slept h = elim (Bool-cases (delay == 0)) [
  | inl e ↦ rw (sleep_for, e) h
  | inr e ↦ rw (sleep_for, e) (refl, h)
]

length-sleeps_more :
    (delay failed : ℕ) (slept : List ℕ)
    → length slept ≡ (if delay == 0 then 0 else failed)
    → length (sleep_for delay ++ slept) ≡ (if delay == 0 then 0 else suc failed)
unfolding sleep_for
length-sleeps_more delay failed slept h = elim (Bool-cases (delay == 0)) [
  | inl e ↦ rw (sleep_for, e) (ground (arith, h, e))
  | inr e ↦ rw (sleep_for, e) (ground (arith, h, e))
]

plus_zero : (n : ℕ) → n + 0 ≡ n
plus_zero n = omega arith

no_sleep : (delay : ℕ) → length {A = ℕ} [] ≡ (if delay == 0 then 0 else 0)
no_sleep delay = ground arith

module _ {R : Type 0} (meets : ℕ → Meets R) where
  -- all attempts from one on, so many of them, meet an error that is tried again
  abbrev pub all_retryable : ℕ → ℕ → Bool
  all_retryable zero attempt = true
  all_retryable (suc n) attempt = is_retryable (meets attempt) && all_retryable n (attempt + 1)

  -- the call ends with an attempt, as that attempt does: all attempts before it, from the first one
  -- on, met an error that is tried again, and it did not, or is the last; between each two attempts
  -- there is one sleep of the delay, where it is not 0
  pub record EndsAt (delay first last : ℕ) (r : Result R) : Type 0 where
    pub failed : ℕ
    pub ending : r.0 ≡ ending_of (meets (first + failed))
    pub sent : r.1 ≡ failed + 1
    pub within : first + failed ≤ last
    pub before : all_retryable failed first ≡ true
    pub stops : (is_retryable (meets (first + failed)) ≡ false) ⊎ (first + failed ≡ last)
    pub slept : length r.2 ≡ (if delay == 0 then 0 else failed)
    pub each_slept : All (λ d. d ≡ delay) r.2

  next : (first n : ℕ) → first + 1 + n ≡ first + suc n
  next first n = omega arith

  request_loop-EndsAt :
      (delay left attempt : ℕ)
      → EndsAt delay attempt (attempt + left) (request_loop meets delay left attempt)
  unfolding request_loop try_again
  request_loop-EndsAt delay zero attempt = record {
    failed = 0;
    ending = rw (plus_zero attempt) refl;
    sent = omega arith;
    within = omega arith;
    before = refl;
    stops = inr refl;
    slept = no_sleep delay;
    each_slept = tt;
  }
  request_loop-EndsAt delay (suc left) attempt = elim (Bool-cases (is_retryable (meets attempt))) [
    | inl h ↦
        let r = request_loop-EndsAt delay left (attempt + 1) in
        rw h record {
          failed = suc r.failed;
          ending = rw (next attempt r.failed) at r.ending;
          sent = omega (arith, r.sent);
          within = omega (arith, r.within);
          before = ground (arith, h, r.before);
          stops = rw (next attempt r.failed, next attempt left) at r.stops;
          slept =
              length-sleeps_more delay r.failed (request_loop meets delay left (attempt + 1)).2
                r.slept;
          each_slept =
              sleeps_more delay (request_loop meets delay left (attempt + 1)).2 r.each_slept;
        }
    | inr h ↦ rw h record {
      failed = 0;
      ending = rw (plus_zero attempt) refl;
      sent = omega arith;
      within = omega arith;
      before = refl;
      stops = inl (rw (plus_zero attempt) h);
      slept = no_sleep delay;
      each_slept = tt;
    }
  ]

  -- A request that may be sent several times ends: it is sent at most as often as allowed, and at
  -- least once; every attempt but the last one sent met no responder or a timeout, the last one did
  -- not or is the last allowed; the call returns or raises what the last one gives. Between each two
  -- attempts it has slept once, for the delay, and never where the delay is not positive.
  pub request_json-EndsAt :
      (retry_delay : ℤ) (max_attempts : ℕ)
      → EndsAt
          (delay_between retry_delay)
          1
          (max 1 max_attempts)
          (request_json meets retry_delay max_attempts)
  unfolding request_json delay_of
  request_json-EndsAt retry_delay max_attempts =
      rw (one_plus max_attempts, delay_of-delay_between retry_delay) at
        (request_loop-EndsAt (delay_of retry_delay) (max 1 max_attempts - 1) 1)
