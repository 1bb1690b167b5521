-- ===== src/FullFeed/Request.antt =====
-- `_request_json` (src/operations/full_feed_subscription.py): a request to NATS that is sent again
-- when nobody answers. What each attempt meets is a function of its number.
pub mod Attempts
use xiaoy_md.Prelude.{
  ℕ, zero, suc, ◌+◌, ◌-◌, Bool, true, false, max, ◌==◌, if◌then◌else◌, List, [], ◌∷◌, ◌++◌, ℤ, pos,
  negsuc,
}

-- what an attempt meets: the two errors that are tried again, another exception of the request, an
-- answer that is no JSON, one that is no object, or an object
pub data Meets (R : Type 0) : Type 0 where
  no_responders : Meets R
  timed_out : Meets R
  other_error : Meets R
  not_json : Meets R
  not_object : Meets R
  object : R → Meets R

-- how the call ends
pub data Requested (R : Type 0) : Type 0 where
  no_responders_error : Requested R
  timeout_error : Requested R
  request_error : Requested R
  decode_error : Requested R
  payload_error : Requested R
  returned : R → Requested R

abbrev pub is_retryable : {R : Type 0} → Meets R → Bool
is_retryable no_responders = true
is_retryable timed_out = true
is_retryable _ = false

-- the end that an attempt gives when it is the last
unfoldable pub ending_of : {R : Type 0} → Meets R → Requested R
ending_of no_responders = no_responders_error
ending_of timed_out = timeout_error
ending_of other_error = request_error
ending_of not_json = decode_error
ending_of not_object = payload_error
ending_of (object r) = returned r

-- the end, the number of requests sent, and the sleeps in their order
abbrev pub Result : Type 0 → Type 0
Result R = Requested R × ℕ × List ℕ

-- `retry_delay if retry_delay >= 0 else 0.0`
unfoldable pub delay_of : ℤ → ℕ
delay_of (pos n) = n
delay_of (negsuc n) = 0

-- `if delay: await asyncio.sleep(delay)`
unfoldable pub sleep_for : ℕ → List ℕ
sleep_for delay = if delay == 0 then [] else delay ∷ []

-- an attempt that is tried again: one more request and its sleep, before the others
unfoldable pub try_again : {R : Type 0} → ℕ → Result R → Result R
unfolding sleep_for
try_again delay (ending, sent, slept) = (ending, sent + 1, sleep_for delay ++ slept)

module _ {R : Type 0} (meets : ℕ → Meets R) (delay : ℕ) where
  -- from an attempt on, with the attempts left behind it
  unfoldable pub request_loop : ℕ → ℕ → Result R
  request_loop zero attempt = (ending_of (meets attempt), 1, [])
  request_loop (suc left) attempt =
      let rest = request_loop left (attempt + 1) in
      if is_retryable (meets attempt)
      then try_again delay rest
      else (ending_of (meets attempt), 1, [])

module _ {R : Type 0} (meets : ℕ → Meets R) (retry_delay : ℤ) where
  unfoldable pub request_json : ℕ → Result R
  request_json max_attempts = request_loop meets (delay_of retry_delay) (max 1 max_attempts - 1) 1
