-- ===== src/Console/Reports.antt =====
-- The health checks of the operations console (src/application/ops_console.py):
-- `HealthCheckExecution` with its two views, and `HealthCheckExecutor`. Of a report's dictionary the
-- model keeps the entries that the console reads, with a constructor for an absent one; a ratio is
-- its two numbers, a time whole microseconds.
use xiaoy_md.Prelude.{ℕ, List, [], ◌∷◌, ◌++◌, Option, none, some, ℤ, pos, if◌then◌else◌}
use xiaoy_md.Text.{Str, codes, str_eq}
use xiaoy_md.Console.Records.{
  health_check, RunbookRequest, RunbookExecution, normalized_config, status_of, duration_of,
}

abbrev pub Ratio : Type 0
Ratio = ℕ × ℕ

pub record Report : Type 0 where
  pub generated_at : Option ℕ
  pub coverage_ratio : Option Ratio
  pub expected_total : Option ℕ
  pub active_total : Option ℕ
  pub matched_total : Option ℕ
  pub ignored_total : Option ℕ
  pub ignored_symbols : Option (List Str)
  pub missing_contracts : Option (List Str)
  pub stalled_contracts : Option (List Str)
  pub warnings : Option (List Str)
  pub errors : Option (List Str)

pub record HealthSnapshot : Type 0 where
  pub request_id : Str
  pub mode : Str
  pub generated_at : ℕ
  pub exit_code : ℤ
  pub coverage_ratio : Option Ratio
  pub expected_total : Option ℕ
  pub active_total : Option ℕ
  pub matched_total : Option ℕ
  pub ignored_total : Option ℕ
  pub ignored_symbols : List Str
  pub missing_contracts : List Str
  pub stalled_contracts : List Str
  pub warnings : List Str
  pub errors : List Str
  pub report : Report

pub record HealthCheckExecution : Type 0 where
  pub request_id : Str
  pub mode : Str
  pub started_at : ℕ
  pub finished_at : ℕ
  pub exit_code : ℤ
  pub report : Report

-- `list(payload.get(...) or [])`
abbrev pub list_or_empty : Option (List Str) → List Str
list_or_empty none = []
list_or_empty (some items) = items

unfoldable pub to_snapshot : HealthCheckExecution → HealthSnapshot
to_snapshot e = record {
  request_id = e.request_id;
  mode = e.mode;
  generated_at = elim e.report.generated_at [ none ↦ e.finished_at | some at ↦ at ];
  exit_code = e.exit_code;
  coverage_ratio = e.report.coverage_ratio;
  expected_total = e.report.expected_total;
  active_total = e.report.active_total;
  matched_total = e.report.matched_total;
  ignored_total = e.report.ignored_total;
  ignored_symbols = list_or_empty e.report.ignored_symbols;
  missing_contracts = list_or_empty e.report.missing_contracts;
  stalled_contracts = list_or_empty e.report.stalled_contracts;
  warnings = list_or_empty e.report.warnings;
  errors = list_or_empty e.report.errors;
  report = e.report;
}

-- `to_runbook_execution`, given `json.dumps`
unfoldable pub to_runbook_execution :
    {Json : Type 0} → (Report → Str) → RunbookRequest → HealthCheckExecution → RunbookExecution Json
to_runbook_execution dumps r e = record {
  request_id = e.request_id;
  command = health_check;
  mode = e.mode;
  window = r.window;
  profile = r.profile;
  config = normalized_config r;
  exit_code = e.exit_code;
  status = status_of e.exit_code;
  started_at = e.started_at;
  finished_at = e.finished_at;
  duration_ms = duration_of e.started_at e.finished_at;
  logs = [];
  raw_output = dumps e.report ∷ [];
  metadata = record {
    reason = r.reason;
    enforce = r.enforce;
    dry_run = r.dry_run;
    confirmation_token = r.confirmation_token;
  };
}

-- the report of `_mock_execution`
unfoldable pub mock_report : ℕ → Report
mock_report now = record {
  generated_at = some now;
  coverage_ratio = some (9985, 10000);
  expected_total = some 1280;
  active_total = some 1278;
  matched_total = some 1276;
  ignored_total = none;
  ignored_symbols = none;
  missing_contracts = some (codes "ag2412.SHFE" ∷ codes "cu2501.SHFE" ∷ []);
  stalled_contracts = some [];
  warnings = some (codes "mock_mode" ∷ []);
  errors = some [];
}

-- `HealthCheckExecutor.run`, given the report and the exit code of the check, or its exception
unfoldable pub run_check :
    ℕ → ℕ → Option (Report × ℕ) → RunbookRequest → Option HealthCheckExecution
run_check started_at finished_at outcome r =
    if str_eq r.mode (codes "mock")
    then some record {
      request_id = r.request_id;
      mode = codes "mock";
      started_at = started_at;
      finished_at = started_at;
      exit_code = pos 0;
      report = mock_report started_at;
    }
    else elim outcome [
      | none ↦ none
      | some (report, code) ↦ some record {
        request_id = r.request_id;
        mode = r.mode;
        started_at = started_at;
        finished_at = finished_at;
        exit_code = pos code;
        report = report;
      }
    ]

-- `HealthCheckExecutor._build_cli_args`
unfoldable pub build_cli_args : Str → Str → RunbookRequest → List Str
build_cli_args output_dir log_prefix r =
    codes "--mode"
      ∷ (if r.enforce then codes "enforce" else codes "dry-run")
      ∷ codes "--session-window"
      ∷ r.window
      ∷ codes "--out-dir"
      ∷ output_dir
      ∷ codes "--log-prefix"
      ∷ log_prefix
      ∷ codes "--json-indent"
      ∷ codes "2"
      ∷ []
    ++ (if r.dry_run then codes "--skip-metrics" ∷ [] else [])
