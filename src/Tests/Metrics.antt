-- ===== src/Tests/Metrics.antt =====
-- The ticks, the metrics and the failover of the service on small inputs.
use xiaoy_md.Prelude.{
  ℕ, ◌*◌, ◌+◌, ◌≤◌, ◌<◌, ◌≡◌, refl, true, false, List, [], ◌∷◌, none, some, ℤ, pos, negsuc, length,
  count_if, ltb, leb, arith, ◌||◌,
}
use xiaoy_md.Text.{
  codes, str_eq, is_space, lstrip, rstrip, strip, has_char, split_first, split_last,
}
use xiaoy_md.Dict.{lookup, insert, set_default}
use xiaoy_md.Domain.{MarketDataSubscription}
use xiaoy_md.Service.RateLimit.{append_bounded}
use xiaoy_md.Service.State.{Service, resolve_tick_symbol, mark_subscription_activity}
use xiaoy_md.Service.Latency.{
  Sample, popleft_before, insert_value, sorted_values, latencies, rank_of, get_value,
  compute_latency_p99,
}
use xiaoy_md.Service.Latency.Rank.{compute_latency_p99-rank}
use xiaoy_md.Service.Feed as F
use xiaoy_md.Service.Feed.{
  Settings, Feed, bump, record_error, TickEvent, Publication, no_publisher, published_at,
  publish_raised, measure_latency, after_publication, after_saving, process_tick, minus,
  AdapterMetrics, dropped_total, queue_fill, Snapshot, emit_metrics_snapshot, max_samples_of,
}
use xiaoy_md.Service.Feed.Counted.{Counts, process_all, process_all-Counts}
use xiaoy_md.Service.Feed.Errors.{error_total}
use xiaoy_md.Service.Feed.Deltas.{Event, tick, report, run, Reports, run-Reports}
use xiaoy_md.Service.Feed.Failover.{
  target_of, handle_feed_stall, is_stalled, wake, Happening, wakes, happen,
}
use xiaoy_md.Service.Feed.Recovery.{rounds, wake-recovers, Holds, happen-Holds}

program : Unit {0}
unfolding str_eq is_space lstrip rstrip strip has_char split_first split_last lookup insert
    set_default append_bounded resolve_tick_symbol mark_subscription_activity popleft_before
    insert_value sorted_values rank_of get_value compute_latency_p99 bump record_error
    measure_latency after_publication after_saving process_tick minus dropped_total queue_fill
    emit_metrics_snapshot max_samples_of error_total run target_of handle_feed_stall is_stalled wake
    happen
program = tt

abbrev samples : List Sample
samples = (5, 90) ∷ (20, 30) ∷ (21, 10) ∷ (22, 20) ∷ []

-- the first sample is too old, and the percentile of three is the largest
p99_run : (compute_latency_p99 10 samples).0 ≡ 30
unfolding program
p99_run = refl

kept_run : 0 < length (compute_latency_p99 10 samples).1
unfolding program
kept_run = omega arith

compute_latency_p99-rank_example :
    let (p, kept) = compute_latency_p99 10 samples in
    (99 * length kept ≤ 100 * count_if (λ w. leb w p) (latencies kept))
    × (100 * count_if (λ w. ltb w p) (latencies kept) < 99 * length kept)
compute_latency_p99-rank_example = compute_latency_p99-rank 10 samples kept_run

abbrev subscription : MarketDataSubscription
subscription = record {
  subscription_id = codes "sub-1";
  symbol = codes "rb2401";
  exchange = codes "SHFE";
  active = true;
}

abbrev service : Service
service = record {
  subscriptions = (codes "sub-1", subscription) ∷ [];
  symbol_by_id = (codes "sub-1", codes "rb2401.SHFE") ∷ [];
  last_seen = [];
  subscribe_timestamps = [];
  unsubscribe_timestamps = [];
  rate_limit_window = 60000;
  rate_limit_max = 50;
}

abbrev settings : Settings
settings = record { route_selector = codes "primary"; has_backup_profile = true }

abbrev feed : Feed
feed = record {
  service = service;
  settings = some settings;
  published_total = 0;
  failed_publishes_total = 0;
  publish_timestamps = [];
  latency_samples = [];
  max_samples = 1000;
  metrics_window = 5000;
  last_published_total = 0;
  last_dropped_total = 0;
  last_failed_total = 0;
  error_totals = [];
  last_tick_seen_at = none;
  have_seen_live_tick = false;
  failover_threshold = 120000;
}

abbrev tick_at : ℕ → Publication → TickEvent
tick_at now publication = record {
  symbol = record {
    vt_symbol = codes "rb2401.SHFE";
    exchange = codes "SHFE";
    symbol = codes "rb2401";
  };
  timestamp = now;
  monotonic_now = now;
  now = now + 3;
  publication = publication;
  saved = some false;
}

abbrev ticks : List TickEvent
ticks = tick_at 1000 (published_at 1001) ∷ tick_at 2000 publish_raised ∷ []

process_all_run : (process_all ticks feed).published_total ≡ 1
unfolding program
process_all_run = refl

process_all-Counts_example : Counts ticks feed (process_all ticks feed)
process_all-Counts_example = process_all-Counts ticks feed (omega arith)

abbrev port : AdapterMetrics
port = record { dropped_ticks = some 4; tick_queue_size = some 1; tick_queue_capacity = some 10 }

abbrev events : List Event
events =
    tick (tick_at 1000 (published_at 1001))
    ∷ report 2000 (some port)
    ∷ tick (tick_at 3000 publish_raised)
    ∷ report 9000 none
    ∷ []

abbrev dropped_deltas : List Snapshot → List ℤ
dropped_deltas [] = []
dropped_deltas (s ∷ snapshots) = s.dropped_delta ∷ dropped_deltas snapshots

-- the dropped total falls when the port is gone
reported_deltas : dropped_deltas (run events feed).0 ≡ pos 4 ∷ negsuc 3 ∷ []
unfolding program
reported_deltas = refl

run-Reports_example : Reports events feed (run events feed).0 (run events feed).1
run-Reports_example =
    run-Reports events feed record { published = omega arith; failed = omega arith }

abbrev stalled : Feed
stalled = record feed { last_tick_seen_at = some 1000; have_seen_live_tick = true }

is_stalled_run : is_stalled 130000 stalled ≡ true
unfolding program
is_stalled_run = refl

wake-recovers_example :
    (happen
        (wakes 130000 130500 (some (λ s. true)) ∷ rounds ((160000, 160100, some (λ s. true)) ∷ []))
        stalled
      ≡ (
        target_of settings ∷ [],
        record stalled {
          settings = some (target_of settings);
          last_tick_seen_at = some 130500;
          have_seen_live_tick = false;
        },
      ))
    × (str_eq (target_of settings).route_selector (codes "backup")
        ≡ (true || str_eq settings.route_selector (codes "backup")))
wake-recovers_example =
    wake-recovers 130000 130500 (λ s. true) settings ((160000, 160100, some (λ s. true)) ∷ [])
      stalled is_stalled_run refl refl

abbrev on_backup : Settings
on_backup = record { route_selector = codes "backup"; has_backup_profile = true }

abbrev after_failover : Feed
after_failover = record stalled { settings = some on_backup }

abbrev happenings : List Happening
happenings =
    wakes 130000 130500 (some (λ s. false))
    ∷ F.Failover.tick (tick_at 131000 no_publisher)
    ∷ wakes 300000 300500 (some (λ s. true))
    ∷ []

on_backup_route : str_eq on_backup.route_selector (codes "backup") ≡ true
unfolding program
on_backup_route = refl

happen_run : length (happen happenings after_failover).0 ≡ 2
unfolding program
happen_run = refl

happen-Holds_example : Holds on_backup (happen happenings after_failover)
happen-Holds_example = happen-Holds happenings on_backup after_failover on_backup_route refl
