-- ===== src/Console/Records.antt =====
-- The requests and records of the operations console (src/application/ops_console.py):
-- `RunbookRequest`, `RunbookExecution`, `HealthCheckExecution`, `HealthSnapshot`, and the two
-- executors with the arguments that they pass on. Times are whole microseconds; the reports and
-- parsed log lines are a type of JSON objects with its parser and printer as parameters.
use xiaoy_md.Prelude.{
  ℕ, ◌-◌, ◌/◌, Bool, List, [], ◌∷◌, ◌++◌, Option, none, some, ℤ, pos, is_zero, if◌then◌else◌,
}
use xiaoy_md.Text.{Str, codes, str_eq, is_empty, or_else}
use xiaoy_md.FullFeed.Reasons.{lower}

pub data RunbookCommand : Type 0 where
  start stop restart failover failback drill health_check : RunbookCommand

-- `command.value`
unfoldable pub value : RunbookCommand → Str
value start = codes "start"
value stop = codes "stop"
value restart = codes "restart"
value failover = codes "failover"
value failback = codes "failback"
value drill = codes "drill"
value health_check = codes "health_check"

-- a request with its identifier
pub record RunbookRequest : Type 0 where
  pub command : RunbookCommand
  pub mode : Str
  pub window : Str
  pub profile : Str
  pub config : Option Str
  pub request_id : Str
  pub reason : Option Str
  pub enforce : Bool
  pub dry_run : Bool
  pub confirmation_token : Option Str

-- `ensure_request_id`, given the new identifier of `uuid4`
unfoldable pub ensure_request_id : Str → RunbookRequest → RunbookRequest
ensure_request_id fresh r = record r { request_id = or_else r.request_id fresh }

-- `(self.config or "primary").lower()`
unfoldable pub configured : Option Str → Str
configured none = lower (codes "primary")
configured (some config) = lower (or_else config (codes "primary"))

unfoldable pub normalized_config : RunbookRequest → Str
unfolding configured
normalized_config r = elim r.command [
  | failover ↦ codes "backup"
  | failback ↦ codes "primary"
  | _ ↦ configured r.config
]

-- what `metadata` keeps of the request: the entries that are not None
pub record Metadata : Type 0 where
  pub reason : Option Str
  pub enforce : Bool
  pub dry_run : Bool
  pub confirmation_token : Option Str

-- `"success" if exit_code == 0 else "failed"`
pub data Status : Type 0 where
  success failed : Status

unfoldable pub status_of : ℤ → Status
status_of exit_code = if is_zero exit_code then success else failed

pub record RunbookExecution (Json : Type 0) : Type 0 where
  pub request_id : Str
  pub command : RunbookCommand
  pub mode : Str
  pub window : Str
  pub profile : Str
  pub config : Str
  pub exit_code : ℤ
  pub status : Status
  pub started_at : ℕ
  pub finished_at : ℕ
  pub duration_ms : ℕ
  pub logs : List Json
  pub raw_output : List Str
  pub metadata : Metadata

-- `max(0, int((finished_at - started_at).total_seconds() * 1000))`
unfoldable pub duration_of : ℕ → ℕ → ℕ
duration_of started_at finished_at = (finished_at - started_at) / 1000

-- what the process of a runbook does: it does not start, or it prints its lines and exits
pub data Process : Type 0 where
  spawn_failure : Str → Process
  exited : List Str → ℤ → Process

module _ {Json : Type 0} (try_parse : Str → Option Json) where
  -- the parsed lines
  unfoldable pub parsed : List Str → List Json
  parsed [] = []
  parsed (line ∷ lines) = elim (try_parse line) [
    | none ↦ parsed lines
    | some entry ↦ entry ∷ parsed lines
  ]

  -- the lines and the exit code of the process; a failure to start gives one line of its own
  abbrev pub output : Process → List Str × ℤ
  output (spawn_failure message) = (message ∷ [], pos 127)
  output (exited lines code) = (lines, code)

  -- `RunbookExecutor.execute`, given the process, the start and the end
  unfoldable pub run_script : ℕ → ℕ → Process → RunbookRequest → RunbookExecution Json
  run_script started_at finished_at process r =
      let (lines, exit_code) = output process in
      record {
        request_id = r.request_id;
        command = r.command;
        mode = r.mode;
        window = r.window;
        profile = r.profile;
        config = normalized_config r;
        exit_code = exit_code;
        status = status_of exit_code;
        started_at = started_at;
        finished_at = finished_at;
        duration_ms = duration_of started_at finished_at;
        logs = parsed lines;
        raw_output = lines;
        metadata = record {
          reason = r.reason;
          enforce = r.enforce;
          dry_run = r.dry_run;
          confirmation_token = none;
        };
      }

-- the argument of a command, if it has one
unfoldable pub command_args : RunbookCommand → List Str
command_args restart = codes "--restart" ∷ []
command_args stop = codes "--stop" ∷ []
command_args failover = codes "--failover" ∷ []
command_args failback = codes "--failback" ∷ []
command_args drill = codes "--drill" ∷ []
command_args _ = []

-- `RunbookExecutor._build_args`
unfoldable pub build_args : Str → RunbookRequest → List Str
unfolding command_args
build_args log_dir r =
    let config = normalized_config r in
    codes "--window" ∷ r.window ∷ codes "--profile" ∷ r.profile ∷ []
    ++ ((if is_empty config then [] else codes "--config" ∷ config ∷ [])
        ++ (codes "--log-dir" ∷ log_dir ∷ []
            ++ (command_args r.command
                ++ ((if str_eq r.mode (codes "mock") then codes "--mock" ∷ [] else [])
                    ++ (if r.dry_run then codes "--debug" ∷ [] else [])))))
