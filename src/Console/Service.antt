-- ===== src/Console/Service.antt =====
-- `OperationsConsoleService.execute` (src/application/ops_console.py) over a stored status. The
-- process of a runbook, the report of a check, the clock and `uuid4` are what a call meets outside.
pub mod Bounds
pub mod Answers
pub mod Remembered
pub mod Interleaved
use xiaoy_md.Prelude.{ℕ, Bool, true, false, if◌then◌else◌, List, [], ◌∷◌, Option, none, some}
use xiaoy_md.Text.{Str, codes}
use xiaoy_md.Dict.{lookup}
use xiaoy_md.Console.Records.{
  start, stop, restart, failover, failback, drill, health_check, RunbookCommand, RunbookRequest,
  RunbookExecution, Process, ensure_request_id, normalized_config, run_script,
}
use xiaoy_md.Console.Reports.{
  Report, HealthSnapshot, HealthCheckExecution, run_check, to_snapshot, to_runbook_execution,
}
use xiaoy_md.Console.State.{OperationsStatusState, cache_runbook, cache_health}

-- what a call meets: a new identifier, the times of its start, its end and its record, the process
-- that it would start and the outcome of the check that it would run
pub record Call : Type 0 where
  pub fresh : Str
  pub started_at : ℕ
  pub finished_at : ℕ
  pub now : ℕ
  pub process : Process
  pub outcome : Option (Report × ℕ)

pub record ExecutionEnvelope (Json : Type 0) : Type 0 where
  pub runbook : RunbookExecution Json
  pub health : Option HealthSnapshot

pub data Reply (Json : Type 0) : Type 0 where
  raised : Reply Json
  answered : ExecutionEnvelope Json → Reply Json

-- `request.command == RunbookCommand.HEALTH_CHECK`
abbrev pub is_health_check : RunbookCommand → Bool
is_health_check health_check = true
is_health_check _ = false

module _ {Json : Type 0} (try_parse : Str → Option Json) (dumps : Report → Str) where
  unfoldable pub update_active_profile :
      RunbookRequest
      → RunbookExecution Json
      → OperationsStatusState Json
      → OperationsStatusState Json
  update_active_profile r e s = record s {
    active_profile = elim e.command [
      | failover ↦ codes "backup"
      | failback ↦ codes "primary"
      | start ↦ normalized_config r
      | restart ↦ normalized_config r
      | drill ↦ normalized_config r
      | stop ↦ s.active_profile
      | health_check ↦ s.active_profile
    ];
  }

  -- the branch of a health check, given its execution or its exception
  unfoldable pub checked_execution :
      Call
      → RunbookRequest
      → OperationsStatusState Json
      → Option HealthCheckExecution
      → Reply Json × OperationsStatusState Json
  checked_execution call r s none = (raised, s)
  checked_execution call r s (some e) =
      let runbook : RunbookExecution Json = to_runbook_execution dumps r e in
      let snapshot = to_snapshot e in
      (
        answered record { runbook = runbook; health = some snapshot },
        cache_health call.now snapshot (cache_runbook call.now runbook s),
      )

  unfoldable pub execute_check :
      Call → RunbookRequest → OperationsStatusState Json → Reply Json × OperationsStatusState Json
  unfolding checked_execution
  execute_check call r s =
      checked_execution call r s (run_check call.started_at call.finished_at call.outcome r)

  -- the branch of the other commands
  unfoldable pub execute_script :
      Call → RunbookRequest → OperationsStatusState Json → Reply Json × OperationsStatusState Json
  unfolding update_active_profile
  execute_script call r s =
      let runbook = run_script try_parse call.started_at call.finished_at call.process r in
      let cached = cache_runbook call.now runbook s in
      (
        answered record { runbook = runbook; health = none },
        update_active_profile r runbook
            (record cached { environment_mode = r.mode; active_window = r.window }),
      )

  -- a request that is not cached
  unfoldable pub execute_new :
      Call → RunbookRequest → OperationsStatusState Json → Reply Json × OperationsStatusState Json
  unfolding execute_check execute_script
  execute_new call r s =
      if is_health_check r.command then execute_check call r s else execute_script call r s

  -- a cached execution is answered as it is
  unfoldable pub answer :
      Call
      → RunbookRequest
      → OperationsStatusState Json
      → Option (RunbookExecution Json)
      → Reply Json × OperationsStatusState Json
  unfolding lookup execute_new
  answer call r s none = execute_new call r s
  answer call r s (some existing) =
      (answered record { runbook = existing; health = lookup r.request_id s.health_by_request }, s)

  -- the reply, and the status that is stored after the call
  unfoldable pub execute :
      Call → RunbookRequest → OperationsStatusState Json → Reply Json × OperationsStatusState Json
  unfolding answer ensure_request_id lookup
  execute call request s =
      let r = ensure_request_id call.fresh request in
      answer call r s (lookup r.request_id s.executions_by_request)

  -- calls one after the other
  unfoldable pub execute_all :
      List (Call × RunbookRequest) → OperationsStatusState Json → OperationsStatusState Json
  unfolding execute
  execute_all [] s = s
  execute_all ((call, r) ∷ calls) s = execute_all calls (execute call r s).1
