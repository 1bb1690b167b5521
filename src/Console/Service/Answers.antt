-- ===== src/Console/Service/Answers.antt =====
-- What a request leaves in the cache and how it is answered (src/application/ops_console.py).
use xiaoy_md.Prelude.{
  ℕ, ◌≡◌, refl, ap, sym, ◌∙◌, ◌⊎◌, inl, inr, false, [], ◌∷◌, Option, none, some, Bool-cases,
  Option-cases,
}
use xiaoy_md.Text.{Str, codes, str_eq, or_else, is_empty}
use xiaoy_md.Dict.{lookup}
use xiaoy_md.Console.Records.{RunbookRequest, RunbookExecution, run_script, ensure_request_id}
use xiaoy_md.Console.Reports.{
  Report, HealthCheckExecution, run_check, to_snapshot, to_runbook_execution,
}
use xiaoy_md.Console.State.{
  OperationsStatusState, cache, append_runbook, cache_runbook, cache_health,
}
use xiaoy_md.Console.Service.{
  Call, ExecutionEnvelope, Reply, raised, answered, is_health_check, checked_execution,
  execute_check, execute_script, execute_new, execute, answer, update_active_profile,
}

module _ {Json : Type 0} (try_parse : Str → Option Json) (dumps : Report → Str) where
  -- what a new request leaves in the cache, if it answers: its record, under its identifier
  pub record Records (r : RunbookRequest) (s : OperationsStatusState Json)
      (result : Reply Json × OperationsStatusState Json) : Type 0 where
    pub envelope : ExecutionEnvelope Json
    pub reply : result.0 ≡ answered envelope
    pub cached :
        result.1.executions_by_request
        ≡ cache 80 r.request_id envelope.runbook s.executions_by_request

  run_check-request_id :
      (a b : ℕ) (o : Option (Report × ℕ)) (r : RunbookRequest) (e : HealthCheckExecution)
      → run_check a b o r ≡ some e
      → e.request_id ≡ r.request_id
  unfolding run_check
  run_check-request_id a b o r e h =
      ap {B = Str} (λ x. elim x [ none ↦ r.request_id | some y ↦ y.request_id ]) (sym h)
      ∙ elim (Bool-cases (str_eq r.mode (codes "mock"))) [
        | inl m ↦ rw (run_check, m) refl
        | inr m ↦ elim (Option-cases o) [
          | inl none_o ↦ rw (run_check, m, none_o) refl
          | inr (a, some_o) ↦ rw (run_check, m, some_o) refl
        ]
      ]

  execute_check-Records :
      (call : Call) (r : RunbookRequest) (s : OperationsStatusState Json)
      → (execute_check try_parse dumps call r s ≡ (raised, s))
        ⊎ Records r s (execute_check try_parse dumps call r s)
  unfolding execute_check checked_execution cache_runbook cache_health append_runbook
      to_runbook_execution
  execute_check-Records call r s =
      elim (Option-cases (run_check call.started_at call.finished_at call.outcome r)) [
        | inl h ↦ inl (rw (execute_check, h) refl)
        | inr (e, h) ↦ inr record {
          envelope = record {
            runbook = to_runbook_execution dumps r e;
            health = some (to_snapshot e);
          };
          reply = rw (execute_check, h) refl;
          cached =
              rw (execute_check, h)
                (ap (λ k. cache 80 k (to_runbook_execution dumps r e) s.executions_by_request)
                  (run_check-request_id call.started_at call.finished_at call.outcome r e h));
        }
      ]

  execute_script-Records :
      (call : Call) (r : RunbookRequest) (s : OperationsStatusState Json)
      → Records r s (execute_script try_parse dumps call r s)
  unfolding execute_script update_active_profile cache_runbook append_runbook run_script
  execute_script-Records call r s = record {
    envelope = record {
      runbook = run_script try_parse call.started_at call.finished_at call.process r;
      health = none;
    };
    reply = refl;
    cached = refl;
  }

  pub execute_new-Records :
      (call : Call) (r : RunbookRequest) (s : OperationsStatusState Json)
      → (execute_new try_parse dumps call r s ≡ (raised, s))
        ⊎ Records r s (execute_new try_parse dumps call r s)
  unfolding execute_new
  execute_new-Records call r s = elim (Bool-cases (is_health_check r.command)) [
    | inl h ↦ rw (execute_new, h) (execute_check-Records call r s)
    | inr h ↦ rw (execute_new, h) (inr (execute_script-Records call r s))
  ]

  or_else_nonempty : (a b : Str) → is_empty a ≡ false → or_else a b ≡ a
  or_else_nonempty [] b h = absurd (cc)
  or_else_nonempty (c ∷ a) b h = refl

  pub request_id_kept :
      (fresh : Str) (r : RunbookRequest)
      → is_empty r.request_id ≡ false
      → (ensure_request_id fresh r).request_id ≡ r.request_id
  unfolding ensure_request_id
  request_id_kept fresh r h = or_else_nonempty r.request_id fresh h

  pub execute_cached :
      (call : Call) (r : RunbookRequest) (s : OperationsStatusState Json)
      (v : RunbookExecution Json)
      → is_empty r.request_id ≡ false
      → lookup r.request_id s.executions_by_request ≡ some v
      → execute try_parse dumps call r s
        ≡ (answered record { runbook = v; health = lookup r.request_id s.health_by_request }, s)
  unfolding execute answer
  execute_cached call r s v named h =
      let r' = ensure_request_id call.fresh r in
      let e = request_id_kept call.fresh r named in
      ap (answer try_parse dumps call r' s) (ap (λ k. lookup k s.executions_by_request) e ∙ h)
      ∙ ap {B = Reply Json × OperationsStatusState Json}
          (λ k. (answered record { runbook = v; health = lookup k s.health_by_request }, s)) e

  pub execute_uncached :
      (call : Call) (r : RunbookRequest) (s : OperationsStatusState Json)
      → is_empty r.request_id ≡ false
      → lookup r.request_id s.executions_by_request ≡ none
      → execute try_parse dumps call r s
        ≡ execute_new try_parse dumps call (ensure_request_id call.fresh r) s
  unfolding execute answer
  execute_uncached call r s named h =
      ap (answer try_parse dumps call (ensure_request_id call.fresh r) s)
        (ap (λ k. lookup k s.executions_by_request) (request_id_kept call.fresh r named) ∙ h)

  pub same_record :
      {r : RunbookRequest} {s : OperationsStatusState Json}
      {result : Reply Json × OperationsStatusState Json} {envelope : ExecutionEnvelope Json}
      (rec : Records r s result)
      → result.0 ≡ answered envelope
      → rec.envelope.runbook ≡ envelope.runbook
  same_record {envelope = envelope} rec h =
      ap {B = RunbookExecution Json}
        (λ x. elim x [ raised ↦ envelope.runbook | answered y ↦ y.runbook ]) (sym rec.reply ∙ h)
