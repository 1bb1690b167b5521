-- ===== src/Health/Evaluate.antt =====
-- `evaluate_health` (src/operations/check_feed_health.py). A set is a list with no item twice. The
-- coverage ratio is kept as its two numbers, and the messages as the numbers that they report.
use xiaoy_md.Prelude.{
  ℕ, zero, suc, ◌*◌, Bool, true, false, ◌&&◌, ◌||◌, not, List, [], ◌∷◌, ◌++◌, none, some, ltb, ◌==◌,
  length, keep_if, count_if, if◌then◌else◌,
}
use xiaoy_md.Text.{Str, is_empty, strip}
use xiaoy_md.Dict.{mem, add}
use xiaoy_md.Health.Records.{
  SubscriptionRecord, vt_symbol, warning, critical, StalledContract, EvaluationConfig,
  classify_stalled_contract,
}

-- `s <= t` of texts, by code points
unfoldable pub str_le : Str → Str → Bool
str_le [] t = true
str_le (c ∷ s) [] = false
str_le (c ∷ s) (d ∷ t) = ltb c d || (c == d && str_le s t)

unfoldable pub insert_sorted : Str → List Str → List Str
insert_sorted x [] = x ∷ []
insert_sorted x (y ∷ ys) = if str_le x y then x ∷ y ∷ ys else y ∷ insert_sorted x ys

-- `sorted(s)`
unfoldable pub sorted : List Str → List Str
sorted [] = []
sorted (x ∷ xs) = insert_sorted x (sorted xs)

-- `{symbol.strip() for symbol in ignored if symbol}`
unfoldable pub ignored_set : List Str → List Str
ignored_set [] = []
ignored_set (s ∷ ignored) =
    let rest = ignored_set ignored in if is_empty s then rest else add (strip s) rest

-- `{record.vt_symbol for record in active_records if record.active}`
unfoldable pub active_set : List SubscriptionRecord → List Str
active_set [] = []
active_set (r ∷ records) =
    let rest = active_set records in if r.active then add (vt_symbol r) rest else rest

-- the loop over the records
unfoldable pub stalled_of : ℕ → EvaluationConfig → List SubscriptionRecord → List StalledContract
stalled_of now c [] = []
stalled_of now c (r ∷ records) = elim (classify_stalled_contract r now c) [
  | none ↦ stalled_of now c records
  | some entry ↦ entry ∷ stalled_of now c records
]

abbrev pub is_critical : StalledContract → Bool
is_critical e = elim e.severity [ critical ↦ true | warning ↦ false ]

-- `coverage_ratio < config.coverage_threshold`
unfoldable pub is_below_threshold : EvaluationConfig → ℕ → ℕ → Bool
is_below_threshold c covered expected_total =
    if expected_total == 0
    then ltb c.scale c.threshold
    else ltb (covered * c.scale) (c.threshold * expected_total)

-- an entry of `errors` or `warnings`
pub data Message : Type 0 where
  coverage_below : Message
  missing_contracts critical_streams stalled_streams unexpected_contracts : ℕ → Message

-- `if n: messages.append(...)`
abbrev pub message_if : ℕ → (ℕ → Message) → List Message
message_if zero m = []
message_if (suc n) m = m (suc n) ∷ []

pub record HealthReport : Type 0 where
  pub expected_total : ℕ
  pub active_total : ℕ
  pub matched_total : ℕ
  pub ignored_symbols : List Str
  pub missing : List Str
  pub unexpected : List Str
  pub stalled : List StalledContract
  pub warnings : List Message
  pub errors : List Message
  pub exit_code : ℕ

-- EXIT_SUCCESS, EXIT_WARNING and EXIT_ERROR
abbrev pub exit_success : ℕ
exit_success = 0

abbrev pub exit_warning : ℕ
exit_warning = 1

abbrev pub exit_error : ℕ
exit_error = 2

abbrev pub exit_of : List Message → List Message → ℕ
exit_of [] [] = exit_success
exit_of [] (w ∷ warnings) = exit_warning
exit_of (e ∷ errors) warnings = exit_error

unfoldable pub evaluate_health :
    ℕ → EvaluationConfig → List Str → List SubscriptionRecord → List Str → HealthReport
evaluate_health now c expected records ignored =
    let ignored' = ignored_set ignored in
    let active = active_set records in
    let filtered = keep_if (λ s. not (mem s ignored')) expected in
    let covered = keep_if (λ s. mem s active) filtered in
    let expected_total = length filtered in
    let missing = sorted (keep_if (λ s. not (mem s active)) filtered) in
    let unexpected = sorted (keep_if (λ s. not (mem s filtered)) active) in
    let stalled = stalled_of now c records in
    let critical_count = count_if is_critical stalled in
    let warning_count = count_if (λ e. not (is_critical e)) stalled in
    let below = is_below_threshold c (length covered) expected_total in
    let errors =
      (if below then coverage_below ∷ [] else [])
      ++ (message_if (length missing) missing_contracts
          ++ message_if critical_count critical_streams) in
    let warnings =
      message_if warning_count stalled_streams
      ++ message_if (length unexpected) unexpected_contracts in
    record {
      expected_total = expected_total;
      active_total = length active;
      matched_total = length covered;
      ignored_symbols = sorted (keep_if (λ s. mem s ignored') expected);
      missing = missing;
      unexpected = unexpected;
      stalled = stalled;
      warnings = warnings;
      errors = errors;
      exit_code = exit_of errors warnings;
    }
