-- ===== src/Service/Feed.antt =====
-- The ticks of `MarketDataService` (src/application/services.py): `_process_tick`, `_record_error`,
-- `_emit_metrics_snapshot` and `get_metrics_snapshot`, over the state that they share with the
-- watchdog. Times are whole milliseconds. The publisher, the repository and the adapter are told by
-- what their calls do.
pub mod Errors
pub mod Counted
pub mod Deltas
pub mod Failover
pub mod Recovery
use xiaoy_md.Prelude.{
  ℕ, ◌+◌, ◌-◌, ◌*◌, ◌/◌, ◌&&◌, Bool, true, false, List, [], ◌∷◌, ◌++◌, Option, none, some, ℤ, pos,
  negsuc, max, ltb, leb, ◌==◌, length, if◌then◌else◌,
}
use xiaoy_md.Text.{Str, codes, str_eq}
use xiaoy_md.Dict.{lookup}
use xiaoy_md.Service.RateLimit.{append_bounded}
use xiaoy_md.Service.State.{Service, TickSymbol, mark_subscription_activity}
use xiaoy_md.Service.Latency.{Sample, compute_latency_p99}

-- what the watchdog reads of the settings: the route, and whether there is a backup profile
pub record Settings : Type 0 where
  pub route_selector : Str
  pub has_backup_profile : Bool

-- an error's component and severity
abbrev pub ErrorKey : Type 0
ErrorKey = Str × Str

pub record Feed : Type 0 where
  pub service : Service
  pub settings : Option Settings
  pub published_total : ℕ
  pub failed_publishes_total : ℕ
  pub publish_timestamps : List ℕ
  pub latency_samples : List Sample
  pub max_samples : ℕ
  pub metrics_window : ℕ
  pub last_published_total : ℕ
  pub last_dropped_total : ℕ
  pub last_failed_total : ℕ
  pub error_totals : List (ErrorKey × ℕ)
  pub last_tick_seen_at : Option ℕ
  pub have_seen_live_tick : Bool
  pub failover_threshold : ℕ

-- `maxlen * 10`, for the window in milliseconds
unfoldable pub max_samples_of : ℕ → ℕ
max_samples_of window = 10 * max 100 (window * 10 / 1000)

unfoldable pub bump : ErrorKey → ℕ → List (ErrorKey × ℕ) → List (ErrorKey × ℕ)
bump key count [] = (key, count) ∷ []
bump (component, severity) count (((c, s), n) ∷ totals) =
    if str_eq c component && str_eq s severity
    then ((c, s), n + count) ∷ totals
    else ((c, s), n) ∷ bump (component, severity) count totals

-- `_record_error`
unfoldable pub record_error : Str → Str → ℕ → Feed → Feed
unfolding bump
record_error component severity count f =
    if count == 0
    then f
    else record f { error_totals = bump (component, severity) count f.error_totals }

-- a tick, and what happens while it is processed: the times at its start by both clocks, the end of
-- `publish` (none without a publisher, else when it was published or that it raised), and the end
-- of `save_tick` (none without a repository)
pub data Publication : Type 0 where
  no_publisher : Publication
  published_at : ℕ → Publication
  publish_raised : Publication

pub record TickEvent : Type 0 where
  pub symbol : TickSymbol
  pub timestamp : ℕ
  pub monotonic_now : ℕ
  pub now : ℕ
  pub publication : Publication
  pub saved : Option Bool

-- `_measure_latency_ms`, which is zero for a tick from the future
unfoldable pub measure_latency : ℕ → ℕ → ℕ
measure_latency timestamp now = now - timestamp

-- the counts of a publication
unfoldable pub after_publication : Publication → Feed → Feed
unfolding record_error
after_publication no_publisher f = f
after_publication (published_at at) f = record f {
  published_total = f.published_total + 1;
  publish_timestamps = f.publish_timestamps ++ at ∷ [];
}
after_publication publish_raised f =
    record_error (codes "publisher") (codes "critical") 1
      (record f { failed_publishes_total = f.failed_publishes_total + 1 })

unfoldable pub after_saving : Option Bool → Feed → Feed
unfolding record_error
after_saving none f = f
after_saving (some true) f = f
after_saving (some false) f = record_error (codes "repository") (codes "error") 1 f

unfoldable pub process_tick : TickEvent → Feed → Feed
unfolding append_bounded measure_latency mark_subscription_activity after_publication after_saving
process_tick t f =
    let seen : Feed = record f {
      latency_samples =
          append_bounded f.max_samples f.latency_samples
            (t.monotonic_now, measure_latency t.timestamp t.now);
      service = mark_subscription_activity t.symbol t.timestamp f.service;
      last_tick_seen_at = some t.now;
      have_seen_live_tick = true;
    } in
    after_saving t.saved (after_publication t.publication seen)

-- `while deque and deque[0] < cutoff: deque.popleft()`
unfoldable pub popleft_before : ℕ → List ℕ → List ℕ
popleft_before cutoff [] = []
popleft_before cutoff (at ∷ rest) = if ltb at cutoff then popleft_before cutoff rest else at ∷ rest

-- `a - b`
unfoldable pub minus : ℕ → ℕ → ℤ
minus a b = if leb b a then pos (a - b) else negsuc (b - a - 1)

-- what the port shows of its queue: dropped ticks, size and capacity, where it has them
pub record AdapterMetrics : Type 0 where
  pub dropped_ticks : Option ℕ
  pub tick_queue_size : Option ℕ
  pub tick_queue_capacity : Option ℕ

-- `_adapter_metrics`: the dropped total, and size and capacity when the fill can be told
unfoldable pub dropped_total : Option AdapterMetrics → ℕ
dropped_total none = 0
dropped_total (some port) = elim port.dropped_ticks [ none ↦ 0 | some n ↦ n ]

unfoldable pub queue_fill : Option AdapterMetrics → Option (ℕ × ℕ)
queue_fill none = none
queue_fill (some port) = elim port.tick_queue_size [
  | none ↦ none
  | some size ↦ elim port.tick_queue_capacity [
    | none ↦ none
    | some capacity ↦ if capacity == 0 then none else some (size, capacity)
  ]
]

-- what a snapshot reports; `mps_window` is the count over the window
pub record Snapshot : Type 0 where
  pub count : ℕ
  pub published_total : ℕ
  pub published_delta : ℤ
  pub dropped_total : ℕ
  pub dropped_delta : ℤ
  pub failed_total : ℕ
  pub failed_delta : ℤ
  pub active_subscriptions : ℕ
  pub queue_fill_pct : Option (ℕ × ℕ)
  pub latency_p99 : ℕ

-- `_emit_metrics_snapshot` at a monotonic time
unfoldable pub emit_metrics_snapshot : ℕ → Option AdapterMetrics → Feed → Snapshot × Feed
unfolding popleft_before minus dropped_total queue_fill compute_latency_p99
emit_metrics_snapshot now port f =
    let cutoff = now - f.metrics_window in
    let timestamps = popleft_before cutoff f.publish_timestamps in
    let dropped = dropped_total port in
    let (p99, samples) = compute_latency_p99 cutoff f.latency_samples in
    (
      record {
        count = length timestamps;
        published_total = f.published_total;
        published_delta = minus f.published_total f.last_published_total;
        dropped_total = dropped;
        dropped_delta = minus dropped f.last_dropped_total;
        failed_total = f.failed_publishes_total;
        failed_delta = minus f.failed_publishes_total f.last_failed_total;
        active_subscriptions = length f.service.subscriptions;
        queue_fill_pct = queue_fill port;
        latency_p99 = p99;
      },
      record f {
        publish_timestamps = timestamps;
        latency_samples = samples;
        last_published_total = f.published_total;
        last_dropped_total = dropped;
        last_failed_total = f.failed_publishes_total;
      },
    )
