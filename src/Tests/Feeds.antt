-- ===== src/Tests/Feeds.antt =====
-- The health check, the service and its server on small inputs.
use xiaoy_md.Prelude.{
  ℕ, ◌+◌, ◌≡◌, refl, true, false, ◌||◌, List, [], ◌∷◌, Option, none, some, arith, ltb, length,
  count_if, if◌then◌else◌,
}
use xiaoy_md.Text.{Str, codes, str_eq, strip, is_space, lstrip, rstrip, has_char, split_first}
use xiaoy_md.Dict.{lookup, insert, erase, set_default, mem, add}
use xiaoy_md.Domain.{MarketDataSubscription}
use xiaoy_md.Health.Records.{
  SubscriptionRecord, EvaluationConfig, vt_symbol, ends_with, classify_stalled_contract,
}
use xiaoy_md.Health.Evaluate.{
  str_le, insert_sorted, sorted, ignored_set, active_set, stalled_of, is_critical,
  is_below_threshold, evaluate_health,
}
use xiaoy_md.Health.Totals.{evaluate_health-mem}
use xiaoy_md.Health.Exit.{evaluate_health-exit_code}
use xiaoy_md.Service.RateLimit.{append_bounded, check_rate_limit}
use xiaoy_md.Service.State.{
  Port, Ports, Service, key_from_parts, enter, leave, subscribe_allowed, subscribe_to_symbol,
  unsubscribe_allowed, unsubscribe,
}
use xiaoy_md.Service.State.Agreement.{IsAligned}
use xiaoy_md.Rpc.{
  natural, text, nothing, listed, handle_subscribe_bulk, bulk_loop, service_call, normalized,
  normalize_subscription_symbol, handle_active_subscriptions,
}
use xiaoy_md.Rpc.Bulk.{
  occurrences, handle_subscribe_bulk-occurrences, handle_subscribe_bulk-IsAligned,
}

program : Unit {0}
unfolding str_eq strip is_space lstrip rstrip has_char split_first lookup insert erase set_default
    mem add vt_symbol ends_with classify_stalled_contract str_le insert_sorted sorted ignored_set
    active_set stalled_of is_below_threshold evaluate_health append_bounded check_rate_limit
    key_from_parts enter leave subscribe_allowed subscribe_to_symbol unsubscribe_allowed unsubscribe
    handle_subscribe_bulk bulk_loop service_call normalized normalize_subscription_symbol
    handle_active_subscriptions
program = tt

-- the threshold is 0.995
abbrev thresholds : EvaluationConfig
thresholds = record { threshold = 995; scale = 1000; warning_lag = 120; critical_lag = 300 }

abbrev record_of : Str → Option ℕ → SubscriptionRecord
record_of name seen = record {
  symbol = name;
  subscription_id = name;
  created_at = 0;
  last_tick_at = seen;
  active = true;
  exchange = some (codes "SHFE");
}

abbrev expected : List Str
expected = codes "rb2401.SHFE" ∷ codes "au2402.SHFE" ∷ codes "cu2403.SHFE" ∷ []

abbrev records : List SubscriptionRecord
records = record_of (codes "rb2401") (some 900) ∷ record_of (codes "au2402") (some 1000) ∷ []

abbrev ignored : List Str
ignored = codes " cu2403.SHFE " ∷ []

-- a stalled stream is a warning
evaluate_health_run : (evaluate_health 1025 thresholds expected records ignored).exit_code ≡ 1
unfolding program
evaluate_health_run = refl

evaluate_health-mem_example :
    let report = evaluate_health 1025 thresholds expected records ignored in
    (mem (codes "cu2403.SHFE") report.missing ≡ false)
    × (mem (codes "cu2403.SHFE") report.unexpected ≡ false)
unfolding program
evaluate_health-mem_example =
    evaluate_health-mem 1025 thresholds expected records ignored (codes "cu2403.SHFE")

evaluate_health-exit_code_example :
    let report = evaluate_health 1025 thresholds expected records ignored in
    report.exit_code ≡ (
      if ltb 0 (length report.missing) || ltb 0 (count_if is_critical report.stalled)
      then 2
      else if ltb 0 (length report.stalled) || ltb 0 (length report.unexpected)
      then 1
      else 0)
evaluate_health-exit_code_example =
    evaluate_health-exit_code 1025 thresholds expected records ignored (omega arith)

-- a port that names each subscription after its symbol and counts the calls
abbrev port : Port ℕ
port = record {
  subscribe = λ name calls.
      let sub : MarketDataSubscription = record {
        subscription_id = name;
        symbol = name;
        exchange = codes "SHFE";
        active = true;
      } in
      (some (sub, 7), calls + 1);
  unsubscribe = λ id calls. (true, calls + 1);
}

abbrev ports : Ports ℕ
ports = record { market_data = some port; repository = none }

abbrev started : Service
started = record {
  subscriptions = [];
  symbol_by_id = [];
  last_seen = [];
  subscribe_timestamps = [];
  unsubscribe_timestamps = [];
  rate_limit_window = 1000;
  rate_limit_max = 2;
}

started-IsAligned : IsAligned started
unfolding lookup
started-IsAligned = record { distinct = tt; distinct_symbols = tt; aligned = λ id. refl }

abbrev served : Service
served = (subscribe_to_symbol ports 100 (codes "rb2401") started 0).1

subscribe_to_symbol_run : served.symbol_by_id ≡ (codes "rb2401", codes "rb2401.SHFE") ∷ []
unfolding program
subscribe_to_symbol_run = refl

abbrev wanted : List Str
wanted = codes "rb2401" ∷ codes "au2402" ∷ codes "rb2401" ∷ codes "cu2403" ∷ []

abbrev still : ℕ → ℕ
still calls = 100

-- the third symbol meets the rate limit
handle_subscribe_bulk_run :
    (handle_subscribe_bulk (service_call ports still) wanted (started, 0)).0.accepted
    ≡ codes "rb2401" ∷ codes "au2402" ∷ []
unfolding program
handle_subscribe_bulk_run = refl

handle_subscribe_bulk-occurrences_example :
    occurrences
      (codes "rb2401")
      (handle_subscribe_bulk (service_call ports still) wanted (started, 0)).0
    ≡ 1
unfolding program
handle_subscribe_bulk-occurrences_example =
    handle_subscribe_bulk-occurrences (service_call ports still) (codes "rb2401") wanted
      (started, 0)

handle_subscribe_bulk-IsAligned_example :
    IsAligned (handle_subscribe_bulk (service_call ports still) wanted (started, 0)).1.0
handle_subscribe_bulk-IsAligned_example =
    handle_subscribe_bulk-IsAligned ports still wanted (started, 0) started-IsAligned

handle_active_subscriptions_run :
    handle_active_subscriptions
      (natural 1)
      (listed (text (codes "a") ∷ nothing ∷ text (codes "b ") ∷ []))
    ≡ record { subscriptions = codes "a" ∷ []; total = 3; truncated = true }
unfolding program
handle_active_subscriptions_run = refl
