-- ===== src/Console/Metrics.antt =====
-- The metrics of the operations console (src/application/ops_console.py). A sample of Prometheus is
-- its time and its value, a type of the client's own; times are whole microseconds.
use xiaoy_md.Prelude.{ℕ, ◌-◌, Bool, true, List, [], Option, none, some, ltb, if◌then◌else◌}
use xiaoy_md.Text.{Str, codes, str_eq, or_else}
use xiaoy_md.Console.Reports.{HealthSnapshot, Ratio}

-- HEALTH_STALE_THRESHOLD_SECONDS and PROM_METRIC_STALE_THRESHOLD_SECONDS
abbrev pub stale_threshold : ℕ
stale_threshold = 300000000

pub record MetricPoint (V : Type 0) : Type 0 where
  pub metric : Str
  pub value : Option V
  pub unit : Option Str
  pub updated_at : Option ℕ
  pub stale : Bool
  pub source : Option Str

unfoldable pub is_stale : ℕ → ℕ → Bool
is_stale now at = ltb stale_threshold (now - at)

unfoldable pub metric_from_health : Option HealthSnapshot → ℕ → MetricPoint Ratio
unfolding is_stale
metric_from_health none now = record {
  metric = codes "md_subscription_coverage_ratio";
  value = none;
  unit = none;
  updated_at = none;
  stale = true;
  source = none;
}
metric_from_health (some snapshot) now = record {
  metric = codes "md_subscription_coverage_ratio";
  value = snapshot.coverage_ratio;
  unit = none;
  updated_at = some snapshot.generated_at;
  stale = is_stale now snapshot.generated_at;
  source = some (codes "health_report");
}

pub record PrometheusSample (V : Type 0) : Type 0 where
  pub timestamp : ℕ
  pub sample_value : V

-- the client: the latest sample of a query, and the samples of a range
pub record Client (V : Type 0) : Type 0 where
  pub query_latest : Str → Option (PrometheusSample V)
  pub query_range : Str → ℕ → ℕ → List (PrometheusSample V)

-- `query or metric`
unfoldable pub query_or : Option Str → Str → Str
query_or none metric = metric
query_or (some query) metric = or_else query metric

module _ {V : Type 0} (prometheus : Option (Client V)) where
  -- the point of a metric without a sample
  absent : Str → Option Str → MetricPoint V
  absent metric unit = record {
    metric = metric;
    value = none;
    unit = unit;
    updated_at = none;
    stale = true;
    source = none;
  }

  unfoldable pub metric_from_prom : ℕ → Str → Option Str → Option Str → MetricPoint V
  unfolding absent query_or is_stale
  metric_from_prom now metric unit query = elim prometheus [
    | none ↦ absent metric unit
    | some client ↦ elim (client.query_latest (query_or query metric)) [
      | none ↦ absent metric unit
      | some sample ↦ record {
        metric = metric;
        value = some sample.sample_value;
        unit = unit;
        updated_at = some sample.timestamp;
        stale = is_stale now sample.timestamp;
        source = some (codes "prometheus");
      }
    ]
  ]

  unfoldable pub timeseries_query : Str → Str
  timeseries_query metric =
      if str_eq metric (codes "md_throughput_mps")
      then codes "max_over_time(md_throughput_mps[1m])"
      else metric

  -- the points of a series
  unfoldable pub get_timeseries : Str → ℕ → ℕ → List (PrometheusSample V)
  unfolding timeseries_query
  get_timeseries metric minutes step_seconds = elim prometheus [
    | none ↦ []
    | some client ↦ client.query_range (timeseries_query metric) minutes step_seconds
  ]
