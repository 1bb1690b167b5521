-- ===== src/Health/Totals.antt =====
-- What the lists and totals of a health report hold.
use xiaoy_md.Prelude.{ℕ, ◌+◌, ◌≡◌, refl, Bool, false, ◌&&◌, ◌||◌, not, List, [], ◌∷◌, arith, length}
use xiaoy_md.Text.{Str, str_eq, is_empty, strip}
use xiaoy_md.Dict.{mem}
use xiaoy_md.Dict.Sets.{mem-add}
use xiaoy_md.Health.Records.{SubscriptionRecord, vt_symbol, EvaluationConfig}
use xiaoy_md.Health.Evaluate.{ignored_set, active_set, HealthReport, evaluate_health}
use xiaoy_md.Health.Sorted.{mem-sorted, length-sorted, mem-keep_if, length-keep_if-not}

-- an active record has this symbol
abbrev pub is_active : Str → List SubscriptionRecord → Bool
is_active x [] = false
is_active x (r ∷ records) = (r.active && str_eq (vt_symbol r) x) || is_active x records

mem-active_set :
    (x : Str) (records : List SubscriptionRecord) → mem x (active_set records) ≡ is_active x records
unfolding active_set mem
mem-active_set x [] = refl
mem-active_set x (r ∷ records) =
    ground (arith, mem-active_set x records, mem-add x (vt_symbol r) (active_set records))

-- a name that is not empty is this symbol, without the space around it
abbrev pub is_ignored : Str → List Str → Bool
is_ignored x [] = false
is_ignored x (s ∷ ignored) = (not (is_empty s) && str_eq (strip s) x) || is_ignored x ignored

mem-ignored_set :
    (x : Str) (ignored : List Str) → mem x (ignored_set ignored) ≡ is_ignored x ignored
unfolding ignored_set mem
mem-ignored_set x [] = refl
mem-ignored_set x (s ∷ ignored) =
    ground (arith, mem-ignored_set x ignored, mem-add x (strip s) (ignored_set ignored))

module _ (now : ℕ) (c : EvaluationConfig) (expected : List Str) (records : List SubscriptionRecord)
    (ignored : List Str) where
  abbrev report : HealthReport
  report = evaluate_health now c expected records ignored

  -- A contract is ignored when it is one of the ignored names that are not empty, without the space
  -- around it. A contract is reported missing exactly when it is expected, not ignored, and no active
  -- record has its symbol; it is reported unexpected exactly when an active record has its symbol
  -- and it is not both expected and not ignored.
  pub evaluate_health-mem :
      (x : Str)
      → (mem x report.missing
          ≡ (not (is_active x records) && (not (is_ignored x ignored) && mem x expected)))
        × (mem x report.unexpected
            ≡ (not (not (is_ignored x ignored) && mem x expected) && is_active x records))
  unfolding evaluate_health
  evaluate_health-mem x = (
    rw (mem-sorted, mem-keep_if, mem-keep_if, mem-active_set, mem-ignored_set) refl,
    simp (mem-sorted, mem-keep_if, mem-active_set, mem-ignored_set),
  )

  -- Every expected contract is ignored, matched or missing: the totals add up.
  pub evaluate_health-totals :
      (report.matched_total + length report.missing ≡ report.expected_total)
      × (report.expected_total + length report.ignored_symbols ≡ length expected)
  unfolding evaluate_health
  evaluate_health-totals = (
    rw length-sorted (length-keep_if-not _ _),
    rw length-sorted
        (omega (arith, length-keep_if-not (λ s. mem s (ignored_set ignored)) expected)),
  )
