-- ===== src/Tests/Guards.antt =====
-- The life of the service, the end of the live process, the guard of the API and the check of the
-- layers on small inputs.
use xiaoy_md.Prelude.{◌≡◌, ◌==◌, refl, Bool, true, false, not, ◌&&◌, [], ◌∷◌, some}
use xiaoy_md.Text.{codes, str_eq, split_first, split_last}
use xiaoy_md.Dict.{mem, add}
use xiaoy_md.Service.State.{Service}
use xiaoy_md.Service.Lifecycle.{
  Running, new_running, processing, processed, start_metrics_reporter, process_begin, happen,
  happen_all,
}
use xiaoy_md.Service.Lifecycle.Watched.{processed-unwatched}
use xiaoy_md.Entry.{
  Action, connect_adapter, connect_publisher, start_processing, start_rpc, read_duration, wait_stop,
  cancel_processing, await_processing, disconnect_adapter, disconnect_publisher, setup, teardown,
  run_calls, behind_setup, run_live, seed_contract_map, connector_path,
}
use xiaoy_md.Entry.Released.{
  is_adapter_end, is_publisher_end, is_listener_end, any, reaches_end, run_live-released,
}
use xiaoy_md.Console.Api.{
  granted, partition_space, check_token, check_header, check_configured, require_token,
}
use xiaoy_md.Architecture.{
  detect_layer, forbidden_imports, import_from, validate_patterns, validate_import, validate_names,
  visit, visit_each, File, file_violations, validate_architecture, domain_crosses,
  application_crosses, crossings, Tree, main,
}
use xiaoy_md.Architecture.Clean.{all, is_clean, has_text, main-clean}

abbrev service : Service
service = record {
  subscriptions = [];
  symbol_by_id = [];
  last_seen = [];
  subscribe_timestamps = [];
  unsubscribe_timestamps = [];
  rate_limit_window = 60000;
  rate_limit_max = 50;
}

abbrev running : Running
running = new_running service true true

-- a backup, a port, and two runs over the ticks: the second has no watchdog
watched_run : (happen processing running).tasks.watchdog ≡ true
unfolding new_running start_metrics_reporter process_begin happen
watched_run = refl

port_given : running.has_market_data ≡ true
unfolding new_running
port_given = refl

processed-unwatched_example :
    (happen_all (processing ∷ processed ∷ processing ∷ []) running).tasks.watchdog ≡ false
processed-unwatched_example = processed-unwatched (processing ∷ []) running port_given (refl, tt)

-- the processing had failed
abbrev failed_processing : Action → Bool
failed_processing await_processing = true
failed_processing _ = false

run_live_run : run_live failed_processing ≡ (
  connect_adapter ∷ connect_publisher ∷ start_processing ∷ start_rpc ∷ read_duration ∷ wait_stop
      ∷ cancel_processing ∷ await_processing ∷ [],
  false,
)
unfolding setup teardown run_calls behind_setup run_live
run_live_run = refl

run_live-released_example :
    (any is_adapter_end (run_live failed_processing).0 ≡ reaches_end failed_processing)
    × (any is_publisher_end (run_live failed_processing).0
        ≡ (reaches_end failed_processing && not (failed_processing disconnect_adapter)))
    × (any is_listener_end (run_live failed_processing).0 ≡ reaches_end failed_processing)
    × ((run_live failed_processing).1 ≡ (
        reaches_end failed_processing
        && not (failed_processing disconnect_adapter)
        && not (failed_processing disconnect_publisher)
        && not (failed_processing wait_stop)))
run_live-released_example = run_live-released failed_processing

seed_contract_map_run :
    seed_contract_map (some (codes "rb.SHFE")) [] ≡ codes "rb.SHFE" ∷ codes "rb" ∷ []
unfolding seed_contract_map split_last add mem str_eq
seed_contract_map_run = refl

connector_path_run : connector_path (codes "a.b:c") ≡ some (codes "a.b", codes "c")
unfolding connector_path split_first
connector_path_run = refl

require_token_run :
    require_token (codes "t" ∷ []) (codes "GET") (some (codes "Bearer t")) ≡ granted (codes "t")
unfolding require_token check_configured check_header check_token partition_space split_first str_eq
    mem
require_token_run = refl

-- `api` in a name counts, wherever it stands in it
abbrev file : File
file = record {
  parts = codes "src" ∷ codes "domain" ∷ codes "models.py" ∷ [];
  content = [];
  imports = some (import_from (some (codes "rapidjson")) ∷ []);
}

abbrev tree : Tree
tree = record {
  has_domain = true;
  has_application = true;
  has_infrastructure = true;
  files = file ∷ [];
  domain_files = file ∷ [];
  application_files = [];
}

check_run : main tree ≡ 1
unfolding detect_layer forbidden_imports validate_patterns validate_import validate_names visit
    visit_each file_violations validate_architecture domain_crosses application_crosses crossings
    main mem str_eq
check_run = refl

main-clean_example : (main tree == 0) ≡ (
    true
    && all is_clean (file ∷ [])
    && all
        (λ f.
          not (has_text (codes "from src.infrastructure") f)
          && not (has_text (codes "from src.application") f))
        (file ∷ [])
    && all (λ f. not (has_text (codes "from src.infrastructure") f)) [])
main-clean_example = main-clean tree
