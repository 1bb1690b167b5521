-- ===== src/Tests/Console.antt =====
-- The operations console on small inputs.
use xiaoy_md.Prelude.{
  ℕ, ◌≡◌, ◌≢◌, refl, true, false, List, [], ◌∷◌, Option, none, some, pos, length, arith,
}
use xiaoy_md.Text.{Str, codes, str_eq}
use xiaoy_md.Dict.{Dict, lookup, insert}
use xiaoy_md.Dict.Laws.{Distinct}
use xiaoy_md.Console.Records.{
  RunbookCommand, start, failover, RunbookRequest, RunbookExecution, Process, spawn_failure, exited,
  value, configured, normalized_config, ensure_request_id, status_of, duration_of, parsed,
  run_script, command_args, build_args,
}
use xiaoy_md.Console.Reports.{
  Report, to_snapshot, to_runbook_execution, mock_report, run_check, build_cli_args,
}
use xiaoy_md.Console.State.{
  OperationsStatusState, last_items, pick, cache, default_state, append_runbook, cache_runbook,
  cache_health,
}
use xiaoy_md.Console.Service.{
  Call, ExecutionEnvelope, Reply, answered, update_active_profile, checked_execution, execute_check,
  execute_script, execute_new, answer, execute, execute_all,
}
use xiaoy_md.Console.Api.{execute_runbook}
use xiaoy_md.Console.Api.Guarded.{Guarded, execute_runbook-Guarded}
use xiaoy_md.Console.Service.Bounds.{IsBounded, execute_all-IsBounded}
use xiaoy_md.Console.Service.Remembered.{execute-again}
use xiaoy_md.Console.Metrics.{is_stale, timeseries_query}

program : Unit {0}
unfolding str_eq lookup insert value configured normalized_config ensure_request_id status_of
    duration_of parsed run_script command_args build_args to_snapshot to_runbook_execution
    mock_report run_check build_cli_args last_items pick cache default_state append_runbook
    cache_runbook cache_health update_active_profile checked_execution execute_check execute_script
    execute_new answer execute execute_all is_stale timeseries_query
program = tt

-- a JSON object is its text, and every line that opens a brace parses
abbrev parse : Str → Option Str
parse [] = none
parse (c ∷ s) = some (c ∷ s)

abbrev dumps : Report → Str
dumps r = codes "report"

abbrev request : RunbookCommand → Str → RunbookRequest
request command id = record {
  command = command;
  mode = codes "live";
  window = codes "day";
  profile = codes "live";
  config = none;
  request_id = id;
  reason = none;
  enforce = false;
  dry_run = false;
  confirmation_token = none;
}

abbrev call : Process → Call
call process = record {
  fresh = codes "new";
  started_at = 0;
  finished_at = 2500;
  now = 2500;
  process = process;
  outcome = none;
}

abbrev stored : OperationsStatusState Str
stored = default_state 0

build_args_run :
    build_args (codes "logs") (request failover (codes "r1"))
    ≡ codes "--window"
      ∷ codes "day"
      ∷ codes "--profile"
      ∷ codes "live"
      ∷ codes "--config"
      ∷ codes "backup"
      ∷ codes "--log-dir"
      ∷ codes "logs"
      ∷ codes "--failover"
      ∷ []
unfolding program
build_args_run = refl

build_cli_args_run :
    length (build_cli_args (codes "out") (codes "log") (request start (codes "r1"))) ≡ 10
unfolding program
build_cli_args_run = refl

-- the third item of a cache for two pushes out the first
abbrev two : Dict ℕ
two = (codes "a", 1) ∷ (codes "b", 2) ∷ []

abbrev cut : Dict ℕ
cut = (codes "b", 2) ∷ (codes "c", 3) ∷ []

cache_run : cache 2 (codes "c") 3 two ≡ cut
unfolding program
cache_run = refl

abbrev first_reply : Reply Str × OperationsStatusState Str
first_reply =
    execute parse dumps (call (exited (codes "{}" ∷ []) (pos 1))) (request failover (codes "r1"))
      stored

-- a failed failover switches the active profile all the same
failover_run : first_reply.1.active_profile ≡ codes "backup"
unfolding program
failover_run = refl

abbrev envelope_of : RunbookExecution Str → ExecutionEnvelope Str
envelope_of e = record { runbook = e; health = none }

abbrev first_record : RunbookExecution Str
first_record =
    run_script parse 0 2500 (exited (codes "{}" ∷ []) (pos 1)) (request failover (codes "r1"))

first_reply_run : first_reply.0 ≡ answered (envelope_of first_record)
unfolding program
first_reply_run = refl

execute_all-IsBounded_example : IsBounded (
    execute_all parse dumps
      ((call (spawn_failure (codes "x")), request start (codes "r1"))
        ∷ (call (exited [] (pos 0)), request failover (codes "r2"))
        ∷ [])
      (default_state 7))
execute_all-IsBounded_example = execute_all-IsBounded parse dumps 7 (
    (call (spawn_failure (codes "x")), request start (codes "r1"))
    ∷ (call (exited [] (pos 0)), request failover (codes "r2"))
    ∷ [])

stored_new : lookup (codes "r1") stored.executions_by_request ≡ none
unfolding program
stored_new = refl

stored-Distinct : Distinct stored.executions_by_request
unfolding program
stored-Distinct = tt

abbrev between : List (Call × RunbookRequest)
between = (call (exited [] (pos 0)), request start (codes "r2")) ∷ []

abbrev state_between : OperationsStatusState Str
state_between = execute_all parse dumps between first_reply.1

execute-again_example :
    execute parse dumps
      (call (spawn_failure (codes "y")))
      (request failover (codes "r1"))
      state_between
    ≡ (
      answered record {
        runbook = first_record;
        health = lookup (codes "r1") state_between.health_by_request;
      },
      state_between,
    )
execute-again_example =
    execute-again parse dumps (call (exited (codes "{}" ∷ []) (pos 1)))
      (request failover (codes "r1")) stored (envelope_of first_record) between
      (call (spawn_failure (codes "y"))) refl stored-Distinct stored_new first_reply_run
      (omega arith)

other_id : codes "r1b" ≢ codes "r1"
other_id h = cc h

stored_new_other : lookup (codes "r1b") stored.executions_by_request ≡ none
unfolding program
stored_new_other = refl

abbrev ran : Call
ran = call (exited [] (pos 0))

is_stale_run : is_stale 300000001 0 ≡ true
unfolding program
is_stale_run = refl

execute_runbook-Guarded_example :
    Guarded parse dumps
      (codes "t" ∷ [])
      (some (codes "Bearer t"))
      (call (exited (codes "{}" ∷ []) (pos 1)))
      (request failover (codes "r1"))
      stored
      (execute_runbook parse dumps
        (codes "t" ∷ [])
        (some (codes "Bearer t"))
        (call (exited (codes "{}" ∷ []) (pos 1)))
        (request failover (codes "r1"))
        stored)
execute_runbook-Guarded_example =
    execute_runbook-Guarded parse dumps (codes "t" ∷ []) (some (codes "Bearer t"))
      (call (exited (codes "{}" ∷ []) (pos 1))) (request failover (codes "r1")) stored
