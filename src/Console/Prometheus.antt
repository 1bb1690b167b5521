-- ===== src/Console/Prometheus.antt =====
-- The samples of Prometheus (src/application/prometheus_client.py): which value of an answer is
-- taken. An entry that does not parse is none; a time is whole microseconds; values are compared by
-- their absolute value, a whole number of some unit.
pub mod Greatest
use xiaoy_md.Prelude.{
  ℕ, Bool, true, false, List, [], ◌∷◌, ◌++◌, Option, none, some, ltb, ◌==◌, max, if◌then◌else◌,
}

module _ {V : Type 0} (magnitude : V → ℕ) where
  abbrev pub Entry : Type 0
  Entry = Option (ℕ × V)

  -- the test `best is None or abs(value) > abs(best[1])`
  unfoldable pub is_better : V → Option V → Bool
  is_better value none = true
  is_better value (some best) = ltb (magnitude best) (magnitude value)

  abbrev pub value_of : Option (ℕ × V) → Option V
  value_of none = none
  value_of (some (at, value)) = some value

  -- the loop of `query_latest`
  unfoldable pub best_loop : List Entry → Option (ℕ × V) → Option (ℕ × V)
  best_loop [] best = best
  best_loop (none ∷ entries) best = best_loop entries best
  best_loop (some (at, value) ∷ entries) best =
      best_loop entries (if is_better value (value_of best) then some (at, value) else best)

  -- `query_latest`, for the entries of a successful answer
  unfoldable pub query_latest : List Entry → Option (ℕ × V)
  query_latest entries = best_loop entries none

  -- `best_by_ts.get` and the assignment
  unfoldable pub best_at : ℕ → List (ℕ × V) → Option V
  best_at at [] = none
  best_at at ((t, v) ∷ best) = if t == at then some v else best_at at best

  unfoldable pub put_at : ℕ → V → List (ℕ × V) → List (ℕ × V)
  put_at at value [] = (at, value) ∷ []
  put_at at value ((t, v) ∷ best) =
      if t == at then (t, value) ∷ best else (t, v) ∷ put_at at value best

  -- the loop of `query_range`
  unfoldable pub range_loop : List Entry → List (ℕ × V) → List (ℕ × V)
  range_loop [] best = best
  range_loop (none ∷ entries) best = range_loop entries best
  range_loop (some (at, value) ∷ entries) best =
      range_loop entries (if is_better value (best_at at best) then put_at at value best else best)

  unfoldable pub insert_by_time : ℕ × V → List (ℕ × V) → List (ℕ × V)
  insert_by_time (at, v) [] = (at, v) ∷ []
  insert_by_time (at, v) ((t, w) ∷ best) =
      if ltb at t then (at, v) ∷ (t, w) ∷ best else (t, w) ∷ insert_by_time (at, v) best

  unfoldable pub sort_by_time : List (ℕ × V) → List (ℕ × V)
  sort_by_time [] = []
  sort_by_time (p ∷ best) = insert_by_time p (sort_by_time best)

  -- `query_range`, for the values of a successful answer
  unfoldable pub query_range : List Entry → List (ℕ × V)
  query_range entries = sort_by_time (range_loop entries [])

-- `max(1, minutes)` and `max(1, step_seconds)`
abbrev pub at_least_one : ℕ → ℕ
at_least_one n = max 1 n
