-- ===== src/FullFeed/Limiter.antt =====
-- `RateLimiter` (src/operations/full_feed_subscription.py). Times are whole milliseconds; the
-- limiter is disabled by a maximum or a window of zero. The event loop's clock and `asyncio.sleep`
-- are a parameter: the reading of the clock after a sleep that began at a given time.
pub mod Prune
pub mod Acquire
use xiaoy_md.Prelude.{
  ℕ, zero, suc, ◌+◌, ◌-◌, Bool, ◌&&◌, ◌||◌, not, List, [], ◌∷◌, ◌++◌, ltb, leb, ◌==◌, min, max,
  length, take, replicate, if◌then◌else◌,
}

pub record Limits : Type 0 where
  pub max_per_window : ℕ
  pub window : ℕ

abbrev pub enabled : Limits → Bool
enabled c = ltb 0 c.max_per_window && ltb 0 c.window

-- the loop of `_prune`: times up to the cutoff leave at the left
unfoldable pub prune : ℕ → ℕ → List ℕ → List ℕ
prune window now [] = []
prune window now (t ∷ ts) =
    let rest = prune window now ts in if leb (t + window) now then rest else t ∷ ts

-- `max(wait, 0.01)`
abbrev pub min_sleep : ℕ
min_sleep = 10

pub data Outcome : Type 0 where
  acquired : (now : ℕ) → List ℕ → Outcome
  index_error : Outcome
  out_of_fuel : Outcome

-- `release`: the newest times leave at the right
unfoldable pub release : ℕ → List ℕ → List ℕ
release count timestamps = take (length timestamps - min count (length timestamps)) timestamps

module _ (after_sleep : ℕ → ℕ → ℕ) where
  -- the `while True` of `acquire`; each round but the last sleeps once
  unfoldable pub acquire_loop : ℕ → Limits → ℕ → ℕ → List ℕ → Outcome
  unfolding prune
  acquire_loop zero c now pending timestamps = out_of_fuel
  acquire_loop (suc fuel) c now pending timestamps =
      let held = prune c.window now timestamps in
      if leb (length held + pending) c.max_per_window
      then acquired now (held ++ replicate pending now)
      else elim held [
        | [] ↦ index_error
        | t ∷ ts ↦
            let wait = max (t + c.window - now) min_sleep in
            acquire_loop fuel c (after_sleep now wait) pending (t ∷ ts)
      ]

  -- `acquire`, called at the time `now`
  unfoldable pub acquire : Limits → ℕ → ℕ → List ℕ → Outcome
  unfolding acquire_loop
  acquire c now count timestamps =
      if not (enabled c) || count == 0
      then acquired now timestamps
      else acquire_loop (length timestamps + 1) c now count timestamps
