-- ===== src/Tests/RateLimits.antt =====
-- The two rate limiters on small inputs.
use xiaoy_md.Prelude.{ℕ, ◌+◌, ◌≤◌, ◌≡◌, refl, true, false, List, [], ◌∷◌, arith}
use xiaoy_md.RateWindow.{IsSorted, Respects}
use xiaoy_md.RateWindow.Tracks.{Tracks}
use xiaoy_md.Service.RateLimit.{append_bounded, check_rate_limit, decide_all, admit_all}
use xiaoy_md.Service.RateLimit.Answers.{decide_all-admit_all}
use xiaoy_md.FullFeed.Limiter.{Limits, acquired, prune, acquire_loop, acquire, release}
use xiaoy_md.FullFeed.Limiter.Acquire.{Grants, acquire-Grants}

abbrev times : List ℕ
times = 0 ∷ 10 ∷ 20 ∷ 105 ∷ 106 ∷ []

-- two calls in 100 milliseconds
decide_all_run : decide_all 100 2 times [] ≡ true ∷ true ∷ false ∷ true ∷ false ∷ []
unfolding decide_all check_rate_limit append_bounded
decide_all_run = refl

times-IsSorted : IsSorted times
times-IsSorted = omega arith

decide_all-admit_all_example : decide_all 100 2 times [] ≡ admit_all 100 2 times []
decide_all-admit_all_example = decide_all-admit_all 100 2 times (omega arith) times-IsSorted

-- a sleep that takes as long as it is asked to
abbrev exact : ℕ → ℕ → ℕ
exact now delay = now + delay

exact_sleeps : (now delay : ℕ) → now + delay ≤ exact now delay
exact_sleeps now delay = omega arith

abbrev limits : Limits
limits = record { max_per_window = 3; window = 1000 }

abbrev earlier : List ℕ
earlier = 100 ∷ 200 ∷ []

earlier-Tracks : Tracks 1000 300 earlier earlier
earlier-Tracks = record {
  forgotten = [];
  split = refl;
  expired = tt;
  sorted = omega arith;
  past = omega arith;
}

earlier-Respects : Respects 1000 3 earlier
earlier-Respects t = ground arith

-- the call waits for the first time to leave the window
acquire_run : acquire exact limits 300 2 earlier ≡ acquired 1100 (200 ∷ 1100 ∷ 1100 ∷ [])
unfolding acquire acquire_loop prune
acquire_run = refl

release_run : release 1 (200 ∷ 1100 ∷ 1100 ∷ []) ≡ 200 ∷ 1100 ∷ []
unfolding release
release_run = refl

acquire-Grants_example :
    Grants exact exact_sleeps limits 300 2 earlier (acquire exact limits 300 2 earlier)
acquire-Grants_example =
    acquire-Grants exact exact_sleeps limits 300 2 earlier earlier refl (omega arith) earlier-Tracks
      earlier-Respects
