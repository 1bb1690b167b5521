-- ===== src/Console/Prometheus/Greatest.antt =====
-- The value that is taken is the greatest (src/application/prometheus_client.py).
use xiaoy_md.Prelude.{
  ℕ, ◌+◌, ◌≡◌, refl, ap, inl, inr, true, List, [], ◌∷◌, Option, none, some, ◌==◌, max, Bool-cases,
  ==_iff, arith, if◌then◌else◌,
}
use xiaoy_md.Console.Prometheus.{
  Entry, is_better, value_of, best_loop, query_latest, best_at, put_at, range_loop,
}

module _ {V : Type 0} (magnitude : V → ℕ) where
  -- the greatest magnitude plus one, and zero where nothing parses; for all entries, or for those of
  -- one time
  abbrev pub height : Option V → ℕ
  height none = 0
  height (some v) = magnitude v + 1

  abbrev pub highest : List (Entry magnitude) → ℕ
  highest [] = 0
  highest (none ∷ entries) = highest entries
  highest (some (at, v) ∷ entries) = max (magnitude v + 1) (highest entries)

  abbrev pub highest_at : ℕ → List (Entry magnitude) → ℕ
  highest_at at [] = 0
  highest_at at (none ∷ entries) = highest_at at entries
  highest_at at (some (t, v) ∷ entries) =
      if t == at then max (magnitude v + 1) (highest_at at entries) else highest_at at entries

  best_loop-height :
      (entries : List (Entry magnitude)) (best : Option (ℕ × V))
      → height (value_of magnitude (best_loop magnitude entries best))
        ≡ max (height (value_of magnitude best)) (highest entries)
  unfolding best_loop is_better
  best_loop-height [] best = omega arith
  best_loop-height (none ∷ entries) best = best_loop-height entries best
  best_loop-height (some (at, v) ∷ entries) none =
      omega (arith, best_loop-height entries (some (at, v)))
  best_loop-height (some (at, v) ∷ entries) (some (t, w)) =
      ground
        (arith, best_loop-height entries (some (at, v)), best_loop-height entries (some (t, w)))

  best_at-put_at :
      (at t : ℕ) (v : V) (best : List (ℕ × V))
      → best_at magnitude t (put_at magnitude at v best)
        ≡ (if at == t then some v else best_at magnitude t best)
  unfolding best_at put_at
  best_at-put_at at t v [] = refl
  best_at-put_at at t v ((u, w) ∷ best) = ground (arith, best_at-put_at at t v best)

  range_loop-height :
      (t : ℕ) (entries : List (Entry magnitude)) (best : List (ℕ × V))
      → height (best_at magnitude t (range_loop magnitude entries best))
        ≡ max (height (best_at magnitude t best)) (highest_at t entries)
  unfolding range_loop is_better
  range_loop-height t [] best = omega arith
  range_loop-height t (none ∷ entries) best = range_loop-height t entries best
  range_loop-height t (some (at, v) ∷ entries) best =
      let known = range_loop-height t entries best in
      let put = range_loop-height t entries (put_at magnitude at v best) in
      let found = best_at-put_at at t v best in
      let same : (at == t) ≡ true → best_at magnitude at best ≡ best_at magnitude t best =
        λ e. ap (λ u. best_at magnitude u best) ((==_iff at t).0 e) in
      elim (Bool-cases (at == t)) [
        | inl e ↦ ground (arith, e, known, put, found, same e)
        | inr e ↦ ground (arith, e, known, put, found)
      ]

  -- The latest query gives a value exactly when an entry parses, and then one of the greatest
  -- magnitude; the range query keeps, for each time, a value of the greatest magnitude among the
  -- entries of that time, and none for a time without an entry.
  pub query_latest-range_loop :
      (entries : List (Entry magnitude)) (t : ℕ)
      → (height (value_of magnitude (query_latest magnitude entries)) ≡ highest entries)
        × (height (best_at magnitude t (range_loop magnitude entries [])) ≡ highest_at t entries)
  unfolding query_latest best_at
  query_latest-range_loop entries t =
      (omega (arith, best_loop-height entries none), omega (arith, range_loop-height t entries []))
