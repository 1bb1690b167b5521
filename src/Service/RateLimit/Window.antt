-- ===== src/Service/RateLimit/Window.antt =====
-- The bounded deque decides as the limiter that forgets nothing.
use xiaoy_md.Prelude.{
  ℕ, suc, ◌+◌, ◌-◌, ◌≤◌, ◌<◌, ◌≡◌, refl, inl, inr, false, List, [], ◌∷◌, ◌++◌, arith, ltb, leb,
  Bool-cases, length, length-append, All,
}
use xiaoy_md.RateWindow.{IsSorted, load}
use xiaoy_md.RateWindow.Tracks.{Tracks, Tracks-tail, Tracks-append}
use xiaoy_md.Service.RateLimit.{append_bounded, recent_count}

-- with no time in the future, what is after the cutoff is what is in the window
pub recent_count-load :
    (w now : ℕ) (xs : List ℕ) → All (λ g. g ≤ now) xs → recent_count w now xs ≡ load w now xs
recent_count-load w now [] h = refl
recent_count-load w now (x ∷ xs) h = ground (arith, recent_count-load w now xs h.1)

-- behind a time in the window all later times are in it
recent_count-eq-length :
    (w now x : ℕ) (xs : List ℕ)
    → All (λ y. x ≤ y) xs
    → now < x + w
    → recent_count w now xs ≡ length xs
recent_count-eq-length w now x [] h k = refl
recent_count-eq-length w now x (y ∷ xs) h k =
    ground (arith, recent_count-eq-length w now x xs h.1 k)

-- When the deque is full and one more call is allowed, the oldest time has left the window.
head_expired :
    (w now limit x : ℕ) (xs : List ℕ)
    → IsSorted (x ∷ xs)
    → length (x ∷ xs) ≡ limit
    → leb limit (recent_count w now (x ∷ xs)) ≡ false
    → x + w ≤ now
head_expired w now limit x xs s len h = ground (arith, recent_count-eq-length w now x xs s.0)

-- The invariant: the deque tracks the grants, and is no longer than the limit.
pub record IsValid (w limit now : ℕ) (granted deque : List ℕ) : Type 0 where
  pub tracks : Tracks w now granted deque
  pub bounded : length deque ≤ limit

append_bounded-room :
    (limit : ℕ) (xs : List ℕ) (x : ℕ) → length xs < limit → append_bounded limit xs x ≡ xs ++ x ∷ []
unfolding append_bounded
append_bounded-room limit xs x h = let e : length xs + 1 - limit ≡ 0 = omega arith in rw e

append_bounded_full :
    (limit y : ℕ) (xs : List ℕ) (x : ℕ)
    → length (y ∷ xs) ≡ limit
    → append_bounded limit (y ∷ xs) x ≡ xs ++ x ∷ []
unfolding append_bounded
append_bounded_full limit y xs x h = let e : suc (length xs) + 1 - limit ≡ 1 = omega arith in rw e

IsValid-room :
    (w limit now : ℕ) (granted deque : List ℕ)
    → IsValid w limit now granted deque
    → length deque < limit
    → IsValid w limit now (granted ++ now ∷ []) (append_bounded limit deque now)
IsValid-room w limit now granted deque v room =
    rw (append_bounded-room limit deque now room) (record {
      tracks = Tracks-append w now 1 granted deque v.tracks;
      bounded = omega (arith, length-append deque (now ∷ []));
    })

pub append_bounded-IsValid :
    (w limit now : ℕ) (granted deque : List ℕ)
    → 0 < limit
    → IsValid w limit now granted deque
    → leb limit (recent_count w now deque) ≡ false
    → IsValid w limit now (granted ++ now ∷ []) (append_bounded limit deque now)
append_bounded-IsValid w limit now granted [] pos v h =
    IsValid-room w limit now granted [] v (omega arith)
append_bounded-IsValid w limit now granted (x ∷ xs) pos v h =
    elim (Bool-cases (ltb (length (x ∷ xs)) limit)) [
      | inl room ↦ IsValid-room w limit now granted (x ∷ xs) v (ground arith)
      | inr full ↦
          let len : length (x ∷ xs) ≡ limit = let b = v.bounded in ground arith in
          let gone = head_expired w now limit x xs v.tracks.sorted len h in
          rw (append_bounded_full limit x xs now len) (record {
            tracks =
                Tracks-append w now 1 granted xs (Tracks-tail w now x granted xs v.tracks gone);
            bounded = omega (arith, length-append xs (now ∷ []));
          })
    ]
