-- ===== src/RateWindow.antt =====
-- What a sliding-window rate limiter promises, for the two limiters of the repository:
-- `MarketDataService._check_rate_limit` (src/application/services.py) and `RateLimiter`
-- (src/operations/full_feed_subscription.py). Times are whole milliseconds of a monotonic clock.
pub mod Tracks
use xiaoy_md.Prelude.{
  ℕ, zero, suc, ◌+◌, ◌≤◌, ◌<◌, ◌≡◌, refl, inl, inr, Bool, true, ◌&&◌, List, [], ◌∷◌, ◌++◌, arith,
  ltb, leb, ltb→lt, leb→le, Bool-cases, length, replicate, All, count_if, count_if-append,
}

-- a grant at `g` counts in the window that ends at `t`
abbrev pub in_window : ℕ → ℕ → ℕ → Bool
in_window window t g = leb g t && ltb t (g + window)

abbrev pub load : ℕ → ℕ → List ℕ → ℕ
load window t = count_if (in_window window t)

-- No window of the given length holds more than `limit` grants, wherever it ends.
abbrev pub Respects : ℕ → ℕ → List ℕ → Type 0
Respects window limit granted = (t : ℕ) → load window t granted ≤ limit

abbrev pub IsSorted : List ℕ → Type 0
IsSorted [] = Unit
IsSorted (x ∷ xs) = All (λ y. x ≤ y) xs × IsSorted xs

-- The specification: a limiter that forgets nothing and counts what lies in the window.
unfoldable pub admits : ℕ → ℕ → List ℕ → ℕ → ℕ → Bool
admits window limit granted now n = leb (load window now granted + n) limit

pub load-append : (w t : ℕ) (xs ys : List ℕ) → load w t (xs ++ ys) ≡ load w t xs + load w t ys
load-append w t xs ys = count_if-append (in_window w t) xs ys

-- what has left the window does not come back
pub load_expired :
    (w now t : ℕ) (xs : List ℕ) → All (λ g. g + w ≤ now) xs → now ≤ t → load w t xs ≡ 0
load_expired w now t [] h le = refl
load_expired w now t (x ∷ xs) h le = ground (arith, load_expired w now t xs h.1 le)

-- what is in the window now is counted
pub load-eq-length :
    (w now : ℕ) (xs : List ℕ)
    → All (λ g. g ≤ now) xs
    → All (λ g. now < g + w) xs
    → load w now xs ≡ length xs
load-eq-length w now [] h k = refl
load-eq-length w now (x ∷ xs) h k = ground (arith, load-eq-length w now xs h.1 k.1)

-- a grant at a later time does not count in an earlier window
load_later : (w now t n : ℕ) → t < now → load w t (replicate n now) ≡ 0
load_later w now t zero lt = refl
load_later w now t (suc n) lt = ground (arith, load_later w now t n lt)

load-replicate-le : (w t now n : ℕ) → load w t (replicate n now) ≤ n
load-replicate-le w t now zero = omega arith
load-replicate-le w t now (suc n) = ground (arith, load-replicate-le w t now n)

-- with no new grant the load only falls
pub load_falls :
    (w now t : ℕ) (xs : List ℕ) → All (λ g. g ≤ now) xs → now ≤ t → load w t xs ≤ load w now xs
load_falls w now t [] h le = omega arith
load_falls w now t (x ∷ xs) h le = ground (arith, load_falls w now t xs h.1 le)

-- `n` grants that the specification admits keep every window within the limit.
pub admits-Respects :
    (w limit now n : ℕ) (granted : List ℕ)
    → All (λ g. g ≤ now) granted
    → Respects w limit granted
    → admits w limit granted now n ≡ true
    → Respects w limit (granted ++ replicate n now)
unfolding admits
admits-Respects w limit now n granted past r ok t =
    let fit : load w now granted + n ≤ limit = leb→le _ _ ok in
    elim (Bool-cases (ltb t now)) [
      | inl e ↦ omega (
        arith,
        r t,
        load-append w t granted (replicate n now),
        load_later w now t n (ltb→lt t now e),
      )
      | inr e ↦
          let le : now ≤ t = ground arith in
          omega (
            arith,
            load_falls w now t granted past le,
            load-append w t granted (replicate n now),
            load-replicate-le w t now n,
          )
    ]
