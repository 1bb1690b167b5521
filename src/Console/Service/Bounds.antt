-- ===== src/Console/Service/Bounds.antt =====
-- The stored status stays bounded (src/application/ops_console.py).
use xiaoy_md.Prelude.{
  ℕ, ◌-◌, ◌≤◌, List, [], ◌∷◌, ◌++◌, Option, none, some, length, arith, length-append, length-drop,
  Bool-cases, Option-cases, inl, inr,
}
use xiaoy_md.Text.{Str}
use xiaoy_md.Dict.{lookup}
use xiaoy_md.Dict.Laws.{Distinct}
use xiaoy_md.Console.Records.{run_script, ensure_request_id, RunbookRequest, RunbookExecution}
use xiaoy_md.Console.Reports.{run_check, to_snapshot, to_runbook_execution, Report, HealthSnapshot}
use xiaoy_md.Console.State.{
  OperationsStatusState, last_items, append_runbook, cache_runbook, cache_health, default_state,
}
use xiaoy_md.Console.State.Trim.{length-cache, cache-Distinct}
use xiaoy_md.Console.Service.{
  Call, is_health_check, checked_execution, update_active_profile, execute_check, execute_script,
  execute_new, answer, execute, execute_all,
}

module _ {Json : Type 0} where
  pub record IsBounded (s : OperationsStatusState Json) : Type 0 where
    pub history : length s.runbook_history ≤ 40
    pub executions : length s.executions_by_request ≤ 80
    pub distinct_executions : Distinct s.executions_by_request
    pub health : length s.health_by_request ≤ 20
    pub distinct_health : Distinct s.health_by_request

  append_runbook-le :
      (e : RunbookExecution Json) (s : OperationsStatusState Json)
      → length s.runbook_history ≤ 40
      → length (append_runbook e s).runbook_history ≤ 40
  unfolding append_runbook last_items
  append_runbook-le e s h = ground (
    arith,
    length-append s.runbook_history (e ∷ []),
    length-drop (length (s.runbook_history ++ e ∷ []) - 40) (s.runbook_history ++ e ∷ []),
  )

  cache_runbook-IsBounded :
      (now : ℕ) (e : RunbookExecution Json) (s : OperationsStatusState Json)
      → IsBounded s
      → IsBounded (cache_runbook now e s)
  unfolding cache_runbook append_runbook
  cache_runbook-IsBounded now e s b = record {
    history = append_runbook-le e s b.history;
    executions = length-cache 80 e.request_id e s.executions_by_request b.distinct_executions;
    distinct_executions =
        cache-Distinct 80 e.request_id e s.executions_by_request b.distinct_executions;
    health = b.health;
    distinct_health = b.distinct_health;
  }

  cache_health-IsBounded :
      (now : ℕ) (h : HealthSnapshot) (s : OperationsStatusState Json)
      → IsBounded s
      → IsBounded (cache_health now h s)
  unfolding cache_health
  cache_health-IsBounded now h s b = record {
    history = b.history;
    executions = b.executions;
    distinct_executions = b.distinct_executions;
    health = length-cache 20 h.request_id h s.health_by_request b.distinct_health;
    distinct_health = cache-Distinct 20 h.request_id h s.health_by_request b.distinct_health;
  }

  pub default_state-IsBounded : (now : ℕ) → IsBounded (default_state now)
  unfolding default_state
  default_state-IsBounded now = record {
    history = omega arith;
    executions = omega arith;
    distinct_executions = tt;
    health = omega arith;
    distinct_health = tt;
  }

module _ {Json : Type 0} (try_parse : Str → Option Json) (dumps : Report → Str) where
  execute_check-IsBounded :
      (call : Call) (r : RunbookRequest) (s : OperationsStatusState Json)
      → IsBounded s
      → IsBounded (execute_check try_parse dumps call r s).1
  unfolding execute_check checked_execution
  execute_check-IsBounded call r s b =
      elim (run_check call.started_at call.finished_at call.outcome r)
        as (λ o. IsBounded (checked_execution try_parse dumps call r s o).1) [
          | none ↦ b
          | some e ↦
              cache_health-IsBounded call.now (to_snapshot e)
                (cache_runbook call.now (to_runbook_execution dumps r e) s)
                (cache_runbook-IsBounded call.now (to_runbook_execution dumps r e) s b)
        ]

  execute_script-IsBounded :
      (call : Call) (r : RunbookRequest) (s : OperationsStatusState Json)
      → IsBounded s
      → IsBounded (execute_script try_parse dumps call r s).1
  unfolding execute_script update_active_profile
  execute_script-IsBounded call r s b =
      let e = run_script try_parse call.started_at call.finished_at call.process r in
      let c = cache_runbook-IsBounded call.now e s b in
      record {
        history = c.history;
        executions = c.executions;
        distinct_executions = c.distinct_executions;
        health = c.health;
        distinct_health = c.distinct_health;
      }

  execute_new-IsBounded :
      (call : Call) (r : RunbookRequest) (s : OperationsStatusState Json)
      → IsBounded s
      → IsBounded (execute_new try_parse dumps call r s).1
  unfolding execute_new
  execute_new-IsBounded call r s b = elim (Bool-cases (is_health_check r.command)) [
    | inl h ↦ rw h (execute_check-IsBounded call r s b)
    | inr h ↦ rw h (execute_script-IsBounded call r s b)
  ]

  pub execute-IsBounded :
      (call : Call) (r : RunbookRequest) (s : OperationsStatusState Json)
      → IsBounded s
      → IsBounded (execute try_parse dumps call r s).1
  unfolding execute answer
  execute-IsBounded call r s b =
      let r' = ensure_request_id call.fresh r in
      elim (Option-cases (lookup r'.request_id s.executions_by_request)) [
        | inl h ↦ rw (execute, h) (execute_new-IsBounded call r' s b)
        | inr h ↦ rw (execute, h.1) b
      ]

  execute_all-keeps :
      (calls : List (Call × RunbookRequest)) (s : OperationsStatusState Json)
      → IsBounded s
      → IsBounded (execute_all try_parse dumps calls s)
  unfolding execute_all
  execute_all-keeps [] s b = b
  execute_all-keeps ((call, r) ∷ calls) s b =
      execute_all-keeps calls (execute try_parse dumps call r s).1 (execute-IsBounded call r s b)

  -- After any calls from the default status, with any requests, processes and reports, the runbook
  -- history has at most 40 records, the cache of executions at most 80, the cache of health
  -- snapshots at most 20, and no request stands twice in a cache.
  pub execute_all-IsBounded :
      (now : ℕ) (calls : List (Call × RunbookRequest))
      → IsBounded (execute_all try_parse dumps calls (default_state now))
  execute_all-IsBounded now calls =
      execute_all-keeps calls (default_state now) (default_state-IsBounded now)
