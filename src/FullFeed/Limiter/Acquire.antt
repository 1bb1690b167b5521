-- ===== src/FullFeed/Limiter/Acquire.antt =====
-- `acquire` ends, waits only as long as it must, and keeps every window within the maximum.
use mathlib.Core.Path.{subst}
use xiaoy_md.Prelude.{
  ℕ, zero, suc, ◌+◌, ◌-◌, ◌≤◌, ◌<◌, ◌≡◌, refl, ap, not, ◌||◌, ◌==◌, append-nil, inl, inr, true,
  false, List, [], ◌∷◌, ◌++◌, arith, max, leb, Bool-cases, List-cases, length, replicate,
}
use xiaoy_md.RateWindow.{Respects, admits, admits-Respects}
use xiaoy_md.RateWindow.Tracks.{Tracks, Tracks-later, Tracks-append}
use xiaoy_md.FullFeed.Limiter.{
  Limits, enabled, prune, min_sleep, Outcome, acquired, index_error, acquire_loop, acquire,
}
use xiaoy_md.FullFeed.Limiter.Prune.{length-prune, prune-Tracks, length-prune-lt, length-prune-le}

module _ (after_sleep : ℕ → ℕ → ℕ) (c : Limits) (fuel now pending : ℕ) (timestamps : List ℕ) where
  open c use {max_per_window, window}

  abbrev pruned : List ℕ
  pruned = prune window now timestamps

  round_fits :
      leb (length pruned + pending) max_per_window ≡ true
      → acquire_loop after_sleep (suc fuel) c now pending timestamps
        ≡ acquired now (pruned ++ replicate pending now)
  unfolding acquire_loop
  round_fits e = rw e

  round_empty :
      leb (length pruned + pending) max_per_window ≡ false
      → pruned ≡ []
      → acquire_loop after_sleep (suc fuel) c now pending timestamps ≡ index_error
  unfolding acquire_loop
  round_empty e n = ground arith

  round_waits :
      (t : ℕ) (ts : List ℕ)
      → leb (length pruned + pending) max_per_window ≡ false
      → pruned ≡ t ∷ ts
      → acquire_loop after_sleep (suc fuel) c now pending timestamps
        ≡ acquire_loop after_sleep fuel c
            (after_sleep now (max (t + window - now) min_sleep))
            pending
            (t ∷ ts)
  unfolding acquire_loop
  round_waits t ts e n = ground arith

module _ (after_sleep : ℕ → ℕ → ℕ) (sleeps : (now delay : ℕ) → now + delay ≤ after_sleep now delay)
    (c : Limits) where
  open c use {max_per_window, window}

  -- What a call at `now` comes to, for the list of all grants before it.
  abbrev pub Grants : ℕ → ℕ → List ℕ → Outcome → Type 0
  Grants now count before r =
      (t : ℕ) × (held : List ℕ) × (r ≡ acquired t held)
      × (now ≤ t)
      × Tracks window t (before ++ replicate count t) held
      × Respects window max_per_window (before ++ replicate count t)

  Grants-immediate :
      (now count : ℕ) (before timestamps : List ℕ)
      → leb (length (prune window now timestamps) + count) max_per_window ≡ true
      → Tracks window now before timestamps
      → Respects window max_per_window before
      → Grants now count before (acquired now (prune window now timestamps ++ replicate count now))
  unfolding admits
  Grants-immediate now count before timestamps e k r =
      let k' = prune-Tracks window now before timestamps k in
      (
        now,
        prune window now timestamps ++ replicate count now,
        refl,
        omega arith,
        Tracks-append window now count before (prune window now timestamps) k',
        admits-Respects window max_per_window now count before k.past r
            (rw (← length-prune window now before timestamps k) e),
      )

  acquire_loop-Grants :
      (fuel now count : ℕ) (before timestamps : List ℕ)
      → length (prune window now timestamps) < fuel
      → count ≤ max_per_window
      → Tracks window now before timestamps
      → Respects window max_per_window before
      → Grants now count before (acquire_loop after_sleep fuel c now count timestamps)
  acquire_loop-Grants zero now count before timestamps h le k r = absurd (omega arith)
  acquire_loop-Grants (suc fuel) now count before timestamps h le k r =
      elim (Bool-cases (leb (length (prune window now timestamps) + count) max_per_window)) [
        | inl e ↦
            rw (round_fits after_sleep c fuel now count timestamps e)
              (Grants-immediate now count before timestamps e k r)
        | inr e ↦ elim (List-cases (prune window now timestamps)) [
          | inl n ↦ absurd (ground (arith, n))
          | inr (t, ts, n) ↦
              let later = after_sleep now (max (t + window - now) min_sleep) in
              let le' : now ≤ later =
                omega (arith, sleeps now (max (t + window - now) min_sleep)) in
              let gone : t + window ≤ later =
                omega (arith, sleeps now (max (t + window - now) min_sleep)) in
              let k' =
                Tracks-later window now later before (t ∷ ts)
                  (subst (Tracks window now before) n (prune-Tracks window now before timestamps k))
                  le' in
              let (t', held, eq, ge, tracks, respects) =
                acquire_loop-Grants fuel later count before (t ∷ ts)
                  (omega (arith, length-prune-lt window later t ts gone, ap length n)) le k' r in
              rw (round_waits after_sleep c fuel now count timestamps t ts e n)
                (t', held, eq, omega arith, tracks, respects)
        ]
      ]

  acquire_loop-index_error :
      (fuel now count : ℕ) (timestamps : List ℕ)
      → length (prune window now timestamps) < fuel
      → max_per_window < count
      → acquire_loop after_sleep fuel c now count timestamps ≡ index_error
  acquire_loop-index_error zero now count timestamps h lt = absurd (omega arith)
  acquire_loop-index_error (suc fuel) now count timestamps h lt =
      let e : leb (length (prune window now timestamps) + count) max_per_window ≡ false =
        ground arith in
      elim (List-cases (prune window now timestamps)) [
        | inl n ↦ round_empty after_sleep c fuel now count timestamps e n
        | inr (t, ts, n) ↦
            let later = after_sleep now (max (t + window - now) min_sleep) in
            let gone : t + window ≤ later =
              omega (arith, sleeps now (max (t + window - now) min_sleep)) in
            rw (round_waits after_sleep c fuel now count timestamps t ts e n) (
              acquire_loop-index_error fuel later count (t ∷ ts)
                (omega (arith, length-prune-lt window later t ts gone, ap length n)) lt)
      ]

  -- When a sleep takes at least as long as it is asked to, a call for at most the maximum, on an
  -- enabled limiter that knows its earlier grants and whose earlier grants keep the limit, returns:
  -- after the grants that it makes then, no window holds more than the maximum, and the
  -- limiter still knows every grant that counts.
  pub acquire-Grants :
      (now count : ℕ) (before timestamps : List ℕ)
      → enabled c ≡ true
      → count ≤ max_per_window
      → Tracks window now before timestamps
      → Respects window max_per_window before
      → Grants now count before (acquire after_sleep c now count timestamps)
  unfolding acquire
  acquire-Grants now count before timestamps on le k r = elim (Bool-cases (count == 0)) [
    | inl e ↦
        rw (on, e)
          (let z : count ≡ 0 = ground arith in
            rw (z, append-nil) (now, timestamps, refl, omega arith, k, r))
    | inr e ↦
        rw (on, e)
          (acquire_loop-Grants (length timestamps + 1) now count before timestamps
            (omega (arith, length-prune-le window now timestamps)) le k r)
  ]

  -- A call that the specification admits at once, on the grants that the limiter has made, returns
  -- at once.
  acquire_at_once :
      (now count : ℕ) (before timestamps : List ℕ)
      → Tracks window now before timestamps
      → admits window max_per_window before now count ≡ true
      → (held : List ℕ) × (acquire after_sleep c now count timestamps ≡ acquired now held)
  unfolding acquire admits
  acquire_at_once now count before timestamps k ok =
      let fits : leb (length (prune window now timestamps) + count) max_per_window ≡ true =
        rw (length-prune window now before timestamps k) ok in
      let one_more : length timestamps + 1 ≡ suc (length timestamps) = omega arith in
      elim (Bool-cases (not (enabled c) || count == 0)) [
        | inl e ↦ (timestamps, rw e)
        | inr e ↦ (
          prune window now timestamps ++ replicate count now,
          rw (e, one_more) (round_fits after_sleep c (length timestamps) now count timestamps fits),
        )
      ]

  -- When a sleep takes at least as long as it is asked to, a call for more than the maximum, on an
  -- enabled limiter, raises IndexError, once the deque has run empty.
  pub acquire-index_error :
      (now count : ℕ) (timestamps : List ℕ)
      → enabled c ≡ true
      → max_per_window < count
      → acquire after_sleep c now count timestamps ≡ index_error
  unfolding acquire
  acquire-index_error now count timestamps on lt =
      let e : (count == 0) ≡ false = ground arith in
      rw (on, e)
        (acquire_loop-index_error (length timestamps + 1) now count timestamps
          (omega (arith, length-prune-le window now timestamps)) lt)
