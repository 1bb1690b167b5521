-- ===== src/Health/Remediation.antt =====
-- The run of the feed health check (src/operations/check_feed_health.py): `_perform_remediation`,
-- the loop of `run_health_check`, `_escalate`'s marks and the exit code of `main`. The world behind
-- it answers the bulk request and lists the active subscriptions; `none` is an exception.
pub mod Verdict
use xiaoy_md.Prelude.{
  ℕ, zero, suc, ◌+◌, Bool, true, false, not, ◌&&◌, List, [], ◌∷◌, Option, none, some, max, ◌==◌,
  ltb, count_if, length, map, take, ◌-◌, if◌then◌else◌,
}
use xiaoy_md.Text.{Str, codes}
use xiaoy_md.Dict.{add}
use xiaoy_md.FullFeed.Reasons.{lower, contains}
use xiaoy_md.Health.Records.{SubscriptionRecord, StalledContract, EvaluationConfig}
use xiaoy_md.Health.Evaluate.{HealthReport, is_critical, evaluate_health, exit_error, sorted}

-- the answer of `md.subscribe.bulk`: the accepted symbols, and the rejected ones with their reasons
abbrev pub Answer : Type 0
Answer = List Str × List (Str × Str)

pub record World (W : Type 0) : Type 0 where
  pub clock : W → ℕ
  pub subscribe_bulk : List Str → W → Option Answer × W
  pub load_active : W → Option (List SubscriptionRecord) × W

pub record RemediationResult : Type 0 where
  pub attempted : Bool
  pub resubscribed : List Str
  pub failed : List (Str × Str)
  pub rate_limit_events : ℕ
  pub retries : ℕ
  pub escalated : Bool

unfoldable pub succeeded : RemediationResult → Bool
succeeded r = elim r.failed [ [] ↦ r.attempted | f ∷ rest ↦ false ]

-- what a new `RemediationResult(attempted=True)` holds, after the attempt of the given number
unfoldable pub attempted_result : ℕ → RemediationResult
attempted_result number = record {
  attempted = true;
  resubscribed = [];
  failed = [];
  rate_limit_events = 0;
  retries = number;
  escalated = false;
}

-- the symbols of critical entries, added to a set
unfoldable pub add_critical : List StalledContract → List Str → List Str
add_critical [] symbols = symbols
add_critical (e ∷ stalled) symbols =
    add_critical stalled (if is_critical e then add e.symbol symbols else symbols)

-- `"rate limit" in reason.lower()`
abbrev pub is_rate_limit_event : Str × Str → Bool
is_rate_limit_event (symbol, reason) = contains (lower reason) (codes "rate limit")

module _ {W : Type 0} (world : World W) where
  unfoldable pub perform_remediation : ℕ → HealthReport → W → Option RemediationResult × W
  unfolding add_critical attempted_result
  perform_remediation number report w = elim (sorted (add_critical report.stalled report.missing)) [
    | [] ↦ (some (attempted_result number), w)
    | s ∷ batch ↦
        let (answer, w') = world.subscribe_bulk (s ∷ batch) w in
        elim answer [
          | none ↦ (none, w')
          | some (accepted, rejected) ↦ (
            some record (attempted_result number) {
              resubscribed = accepted;
              failed = rejected;
              rate_limit_events = count_if is_rate_limit_event rejected;
            },
            w',
          )
        ]
  ]

-- a report with what `report.metadata` and `report.remediation` say
pub record Checked : Type 0 where
  pub report : HealthReport
  pub remediation : Option RemediationResult
  pub ignored_count : Option ℕ
  pub remediation_attempts : ℕ
  pub remediated : Bool
  pub escalated : Bool

-- the end of the run: the checked report, or an exception
pub data Outcome : Type 0 where
  raised : Outcome
  checked : Checked → Outcome

-- `remediation.escalated = True`, where there is one
unfoldable pub marked : Option RemediationResult → Option RemediationResult
marked none = none
marked (some r) = some (record r { escalated = true })

-- the settings of the run: `--mode enforce`, `--max-remediation-attempts`, and the evaluation's
pub record Run : Type 0 where
  pub enforce : Bool
  pub max_remediation_attempts : ℕ
  pub config : EvaluationConfig
  pub expected : List Str
  pub ignored : List Str

unfoldable pub is_error : HealthReport → Bool
is_error report = report.exit_code == exit_error

module _ {W : Type 0} (world : World W) (run : Run) where
  -- the active subscriptions are listed, and evaluated
  unfoldable pub evaluate_now : W → Option HealthReport × W
  evaluate_now w =
      let (records, w') = world.load_active w in
      elim records [
        | none ↦ (none, w')
        | some active ↦
            (some (evaluate_health (world.clock w') run.config run.expected active run.ignored), w')
      ]

  -- the loop, for the attempts that are left, after some attempts
  unfoldable pub remediation_loop : ℕ → ℕ → Checked → W → Outcome × W
  unfolding perform_remediation evaluate_now is_error
  remediation_loop zero attempts c w = (checked c, w)
  remediation_loop (suc left) attempts c w =
      let (result, w') = perform_remediation world (attempts + 1) c.report w in
      let (report, w'') = evaluate_now w' in
      let next : RemediationResult → HealthReport → Outcome × W = λ remediation updated.
        remediation_loop left (attempts + 1)
          record {
            report = updated;
            remediation = some remediation;
            ignored_count = none;
            remediation_attempts = attempts + 1;
            remediated = not (is_error updated);
            escalated = false;
          }
          w'' in
      elim (is_error c.report) [
        | false ↦ (checked c, w)
        | true ↦ elim result [
          | none ↦ (raised, w')
          | some remediation ↦ elim report [
            | none ↦ (raised, w'')
            | some updated ↦ next remediation updated
          ]
        ]
      ]

  -- `_escalate`, where the report is still an error
  unfoldable pub escalate : Checked → Checked
  escalate c =
      if is_error c.report
      then record c { escalated = true; remediation = marked c.remediation }
      else c

  unfoldable pub escalated_outcome : Outcome × W → Outcome × W
  unfolding escalate
  escalated_outcome (raised, w) = (raised, w)
  escalated_outcome (checked c, w) = (checked (escalate c), w)

  -- the first evaluation, before any attempt
  unfoldable pub first_check : HealthReport → Checked
  first_check report = record {
    report = report;
    remediation = none;
    ignored_count = some (length run.ignored);
    remediation_attempts = 0;
    remediated = false;
    escalated = false;
  }

  -- after the first evaluation
  unfoldable pub enforce_check : HealthReport → W → Outcome × W
  unfolding remediation_loop escalated_outcome first_check is_error
  enforce_check report w =
      if run.enforce && is_error report
      then escalated_outcome
          (remediation_loop (max 1 run.max_remediation_attempts) 0 (first_check report) w)
      else (checked (first_check report), w)

  unfoldable pub run_health_check : W → Outcome × W
  unfolding evaluate_now enforce_check
  run_health_check w =
      let (report, w') = evaluate_now w in
      elim report [ none ↦ (raised, w') | some r ↦ enforce_check r w' ]

-- the exit code of `main`, for the exceptions that it names
unfoldable pub main : Outcome → ℕ
main raised = exit_error
main (checked c) = c.report.exit_code

-- `summarize_to_stdout`: what is displayed of a list that is longer than the limit, and the number
-- of the items cut
unfoldable pub display : {A : Type 0} → ℕ → List A → Option (List A × ℕ)
display zero items = none
display (suc limit) items =
    if ltb (suc limit) (length items)
    then some (take (suc limit) items, length items - suc limit)
    else none
