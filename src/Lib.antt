-- ===== src/Lib.antt =====
-- The market data service of this repository, modelled and verified: a Python program that takes
-- ticks from a CTP gateway, publishes them to NATS, and is driven by a control plane over NATS.
--
-- The parts, and the files that model them:
--
-- - Prelude, Text, Dict, RateWindow: shared names, Python's texts (lists of code points), `dict`
--   (association lists in insertion order), `set`, and the number of grants in a sliding window.
-- - Domain: the validation of symbols and the subscription of src/domain/models.py.
-- - Service: `MarketDataService` of src/application/services.py. Service.RateLimit models the
--   bounded deque and `_check_rate_limit`, with the limiter that remembers every grant as its
--   specification; Service.State models `subscribe_to_symbol`, `unsubscribe`, the activity marks
--   and `list_active_subscriptions` over a port, an interface with a state of its own.
--   Service.Feed models `_process_tick`, `_record_error` and `_emit_metrics_snapshot`, with
--   `_failover_watchdog` and `_handle_feed_stall` in Service.Feed.Failover; Service.Latency models
--   `_compute_latency_p99`; Service.Topic models `_build_publish_payload` and what it calls;
--   Service.Lifecycle models `initialize`, `shutdown` and the tasks that they and
--   `process_market_data` start and cancel.
-- - Adapter: `CTPGatewayAdapter` of src/infrastructure/ctp_adapter.py with the queue of
--   src/infrastructure/ctp_live_connector.py. Adapter.Subscriptions models `subscribe`,
--   `unsubscribe` and `resubscribe_all`; Adapter.Live models `request_subscribe`,
--   `_subscribe_live_hook` and `_drain_subscribe_queue`; Adapter.Supervisor models `_supervisor`;
--   Adapter.Ticks models `on_tick`, the puts that it schedules and `receive_ticks` as a step
--   relation of two threads; Adapter.Translate models the resolution of symbol and exchange and
--   the payload, Adapter.Translate.Market `_translate_vnpy_tick` with the validation of `MarketTick`
--   of src/domain/models.py. Adapter.Live.Session models the subscriptions of `live_gateway_connect`,
--   session after session, Adapter.Live.Contracts the polls of `query_all_contracts`.
-- - Publisher: src/infrastructure/nats_publisher.py. Publisher.Breaker models `CircuitBreaker`,
--   Publisher.Retry models `_retry_with_backoff`, Publisher.Client models `connect`, `publish`,
--   `disconnect` and the callbacks, Publisher.Options the connection options and `health_check`.
-- - Rpc: the handlers of src/infrastructure/rpc_nats.py. The bulk handler runs over any service,
--   and over the one of Service.State; Rpc.Server models `start`, `stop` and the list of contracts.
-- - FullFeed: src/operations/full_feed_subscription.py. FullFeed.Limiter models `RateLimiter`,
--   FullFeed.Selection models `_filter_symbols` and `_chunk`, FullFeed.Workflow models the loop of
--   `run_workflow` over the batches; FullFeed.Workflow.Served puts the bulk handler of Rpc behind
--   that loop; FullFeed.Request models `_request_json`, FullFeed.Connection `main` up to the run,
--   with `_load_env_file`.
-- - Health: src/operations/check_feed_health.py, the subscription records and `evaluate_health`;
--   Health.Remediation models `_perform_remediation` and the loop of `run_health_check` over a world
--   that answers its requests, Health.Ignored `_load_ignored_symbols`, Health.Catalogue
--   the loading of the catalogue and of the active subscriptions.
-- - Console: src/application/ops_console.py. Console.Records and Console.Reports model the requests,
--   the records and the two executors, Console.State the stored status with its caches,
--   Console.Service `execute`, and Console.Service.Interleaved calls of it that overlap;
--   Console.Metrics models the metric points, Console.Prometheus the choice of a sample in
--   src/application/prometheus_client.py, Console.Api the guard of the routes in
--   src/infrastructure/http/ops_api.py.
-- - Config: src/config.py, the credential profiles with their routes and the masking of secrets, and
--   in Config.Tokens the lists of tokens and methods; Config.External models the move of the keys of
--   the environment into the profiles. Config.Routing reads the settings as the watchdog of
--   Service.Feed.Failover does.
-- - Env: scripts/operations/validate_env.py, the file of the environment and the check of the
--   settings of Config that are read from it.
-- - Entry: src/main.py, the connections and the shutdown of the live process; Entry.Startup
--   models `run_service` of src/__main__.py.
-- - Architecture: scripts/check_architecture.py.
-- - Soak: the counters of scripts/perf/full_feed_soak.py, which reads the topics of Service.Topic.
-- - Tests: runs of the definitions, and inputs on which the theorems are applied.
--
-- A state of the program is a record, an operation a function from the state to its result and the
-- next state, an exception a constructor of the result. Times are whole milliseconds (whole seconds
-- in Health, microseconds in Console), where the program has floats; a difference of times stops at
-- zero, which only the tests for "more than" and "at least" read. Clocks, sleeps, the NATS client,
-- vn.py, `fnmatch`, `urlparse`, `model_validate` and `json.loads` are parameters.
--
-- Bounds and fuel: the loop of `RateLimiter.acquire` runs on as much fuel as the deque has entries,
-- and one more, since every sleep lets the oldest entry leave; the supervisor's loop runs on one
-- more than the retries allowed; the loop of `run_workflow` runs on the potential of its start, the
-- batch limit and for each pending symbol its request and the retries left, which every round
-- lowers when retries are bounded; all other loops are structural.
--
-- Not modelled: the imports, the connection and the waits of the live connector, which are calls of
-- vn.py; the conversion of a tick's time to its zone; the files, subprocesses, metrics servers
-- and the wiring of HTTP routes around the health check, the full feed run, the soak run and the
-- console; the declarations of the settings' fields, which pydantic reads; the percentiles of the
-- soak run; the construction of the components and the exporter, which wire libraries; the other
-- scripts, which are smoke tests and dialogues, and the user interface. The files under references are copies of
-- vn.py's.
pub mod Prelude
pub mod Text
pub mod Dict
pub mod Console
pub mod Config
pub mod Env
pub mod Domain
pub mod Adapter
pub mod Publisher
pub mod Health
pub mod RateWindow
pub mod Service
pub mod FullFeed
pub mod Rpc
pub mod Soak
pub mod Entry
pub mod Architecture
pub mod Tests
