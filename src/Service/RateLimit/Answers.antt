-- ===== src/Service/RateLimit/Answers.antt =====
-- The answers of the rate limiter are those of the specification.
use mathlib.Core.Path.{subst}
use xiaoy_md.Prelude.{
  ℕ, ◌≤◌, ◌<◌, ◌≡◌, refl, inl, inr, List, [], ◌∷◌, ◌++◌, append-nil, append_assoc, arith, leb,
  Bool-cases, All, All-append, All-append_right, not, if◌then◌else◌,
}
use xiaoy_md.RateWindow.{IsSorted, Respects, admits, admits-Respects}
use xiaoy_md.RateWindow.Tracks.{load-Tracks, Tracks-later, All-past}
use xiaoy_md.Service.RateLimit.{recent_count, check_rate_limit, decide_all, admit_all, allowed_at}
use xiaoy_md.Service.RateLimit.Window.{IsValid, recent_count-load, append_bounded-IsValid}

-- one call answers as the specification does
check_rate_limit-admits :
    (w limit now : ℕ) (granted deque : List ℕ)
    → IsValid w limit now granted deque
    → leb limit (recent_count w now deque) ≡ not (admits w limit granted now 1)
unfolding admits
check_rate_limit-admits w limit now granted deque v =
    let held : All (λ g. g ≤ now) deque =
      All-append_right _ v.tracks.forgotten deque
        (subst (All (λ g. g ≤ now)) v.tracks.split v.tracks.past) in
    ground (
      arith,
      recent_count-load w now deque held,
      load-Tracks w now now granted deque v.tracks (omega arith),
    )

-- and one call keeps the invariant
check_rate_limit-IsValid :
    (w limit now : ℕ) (granted deque : List ℕ)
    → 0 < limit
    → IsValid w limit now granted deque
    → let (allowed, deque') = check_rate_limit w limit now deque in
      (allowed ≡ admits w limit granted now 1)
      × IsValid w limit now (if allowed then granted ++ now ∷ [] else granted) deque'
unfolding check_rate_limit
check_rate_limit-IsValid w limit now granted deque pos v =
    elim (Bool-cases (leb limit (recent_count w now deque))) [
      | inl e ↦ rw e (ground (arith, check_rate_limit-admits w limit now granted deque v), v)
      | inr e ↦ rw e (
        ground (arith, check_rate_limit-admits w limit now granted deque v),
        append_bounded-IsValid w limit now granted deque pos v e,
      )
    ]

-- a later call starts from the same invariant
IsValid-later :
    (w limit now later : ℕ) (granted deque : List ℕ)
    → IsValid w limit now granted deque
    → now ≤ later
    → IsValid w limit later granted deque
IsValid-later w limit now later granted deque v le = record {
  tracks = Tracks-later w now later granted deque v.tracks le;
  bounded = v.bounded;
}

pub IsValid-empty : (w limit now : ℕ) → IsValid w limit now [] []
IsValid-empty w limit now = record {
  tracks = record { forgotten = []; split = refl; expired = tt; sorted = tt; past = tt };
  bounded = omega arith;
}

-- no time lies before the start
All-zero : (times : List ℕ) → All (λ y. 0 ≤ y) times
All-zero [] = tt
All-zero (t ∷ times) = (omega arith, All-zero times)

-- A service whose deque is bounded by the limit answers every row of calls, made at times that
-- do not go back, exactly as a limiter that remembers every accepted call.
decide_all-admit_all_from :
    (w limit : ℕ) (times : List ℕ) (now : ℕ) (granted deque : List ℕ)
    → 0 < limit
    → IsSorted (now ∷ times)
    → IsValid w limit now granted deque
    → decide_all w limit times deque ≡ admit_all w limit times granted
unfolding decide_all admit_all
decide_all-admit_all_from w limit [] now granted deque pos s v = refl
decide_all-admit_all_from w limit (t ∷ times) now granted deque pos s v =
    let v' = IsValid-later w limit now t granted deque v s.0.0 in
    let (same, next) = check_rate_limit-IsValid w limit t granted deque pos v' in
    rw (decide_all-admit_all_from w limit times t _ _ pos s.1 next) (rw same)

-- The calls that are allowed, at times that do not go back, never exceed the limit in any window.
admit_all-Respects :
    (w limit : ℕ) (times : List ℕ) (now : ℕ) (granted : List ℕ)
    → IsSorted (now ∷ times)
    → All (λ g. g ≤ now) granted
    → Respects w limit granted
    → Respects w limit (granted ++ allowed_at times (admit_all w limit times granted))
unfolding admit_all allowed_at
admit_all-Respects w limit [] now granted s past r = rw append-nil r
admit_all-Respects w limit (t ∷ times) now granted s past r =
    let past' = All-past now t granted s.0.0 past in
    elim (Bool-cases (admits w limit granted t 1)) [
      | inl e ↦
          let all = All-append _ granted (t ∷ []) past' (omega arith) in
          let rest =
            admit_all-Respects w limit times t (granted ++ t ∷ []) s.1 all
              (admits-Respects w limit t 1 granted past' r e) in
          rw e (rw append_assoc at rest)
      | inr e ↦ rw e (admit_all-Respects w limit times t granted s.1 past' r)
    ]

-- With a positive limit, a service that starts with an empty deque answers every row of calls, made
-- at times that do not go back, exactly as a limiter that remembers every accepted call and counts
-- those in the window.
pub decide_all-admit_all :
    (w limit : ℕ) (times : List ℕ)
    → 0 < limit
    → IsSorted times
    → decide_all w limit times [] ≡ admit_all w limit times []
decide_all-admit_all w limit times pos s =
    decide_all-admit_all_from w limit times 0 [] [] pos (All-zero times, s)
      (IsValid-empty w limit 0)

-- With a positive limit and at times that do not go back, no window holds more accepted calls than
-- the limit allows.
decide_all-Respects :
    (w limit : ℕ) (times : List ℕ)
    → 0 < limit
    → IsSorted times
    → Respects w limit (allowed_at times (decide_all w limit times []))
decide_all-Respects w limit times pos s =
    rw (decide_all-admit_all w limit times pos s)
      (admit_all-Respects w limit times 0 [] (All-zero times, s) tt (λ t. omega arith))
