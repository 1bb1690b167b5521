-- ===== src/Health/Exit.antt =====
-- The exit code of a health report.
use xiaoy_md.Prelude.{
  ℕ, zero, suc, ◌+◌, ◌≤◌, ◌≡◌, refl, Bool, true, false, ◌||◌, not, List, [], ◌∷◌, ◌++◌, arith, ltb,
  length, count_if, if◌then◌else◌,
}
use xiaoy_md.Text.{Str}
use xiaoy_md.Health.Records.{SubscriptionRecord, EvaluationConfig}
use xiaoy_md.Health.Evaluate.{
  is_below_threshold, is_critical, coverage_below, missing_contracts, critical_streams,
  stalled_streams, unexpected_contracts, message_if, exit_of, HealthReport, evaluate_health,
}
use xiaoy_md.Health.Totals.{evaluate_health-totals}

-- with a threshold of at most 1 full coverage is not below it
not_below_of_full :
    (c : EvaluationConfig) (total : ℕ)
    → c.threshold ≤ c.scale
    → is_below_threshold c total total ≡ false
unfolding is_below_threshold
not_below_of_full c zero h = ground arith
not_below_of_full c (suc total) h = grind arith

exit_of-messages :
    (below : Bool) (missing critical stalled unexpected : ℕ)
    → exit_of
        ((if below then coverage_below ∷ [] else [])
          ++ (message_if missing missing_contracts ++ message_if critical critical_streams))
        (message_if stalled stalled_streams ++ message_if unexpected unexpected_contracts)
      ≡ (if below || (ltb 0 missing || ltb 0 critical)
          then 2
          else if ltb 0 stalled || ltb 0 unexpected
          then 1
          else 0)
exit_of-messages true missing critical stalled unexpected = refl
exit_of-messages false (suc missing) critical stalled unexpected = ground arith
exit_of-messages false zero (suc critical) stalled unexpected = ground arith
exit_of-messages false zero zero (suc stalled) unexpected = ground arith
exit_of-messages false zero zero zero (suc unexpected) = ground arith
exit_of-messages false zero zero zero zero = refl

count_if-not {ℓ} :
    {A : Type ℓ} (p : A → Bool) (xs : List A)
    → count_if p xs + count_if (λ x. not (p x)) xs ≡ length xs
count_if-not p [] = refl
count_if-not p (x ∷ xs) = ground (arith, count_if-not p xs)

module _ (now : ℕ) (c : EvaluationConfig) (expected : List Str) (records : List SubscriptionRecord)
    (ignored : List Str) where
  abbrev report : HealthReport
  report = evaluate_health now c expected records ignored

  exit_code-messages : report.exit_code ≡ (
      if is_below_threshold c report.matched_total report.expected_total
        || (ltb 0 (length report.missing) || ltb 0 (count_if is_critical report.stalled))
      then 2
      else if ltb 0 (count_if (λ e. not (is_critical e)) report.stalled)
          || ltb 0 (length report.unexpected)
      then 1
      else 0)
  unfolding evaluate_health
  exit_code-messages = exit_of-messages _ _ _ _ _

  -- With a coverage threshold of at most 1, the check ends with an error exactly when a contract is
  -- missing or a stream is critically stalled, otherwise with a warning exactly when a stream is
  -- stalled or a contract is unexpected, and else with success.
  pub evaluate_health-exit_code :
      c.threshold ≤ c.scale
      → report.exit_code ≡ (
          if ltb 0 (length report.missing) || ltb 0 (count_if is_critical report.stalled)
          then 2
          else if ltb 0 (length report.stalled) || ltb 0 (length report.unexpected)
          then 1
          else 0)
  evaluate_health-exit_code h = ground (
    arith,
    exit_code-messages,
    count_if-not is_critical report.stalled,
    evaluate_health-totals now c expected records ignored,
    not_below_of_full c report.expected_total h,
  )
