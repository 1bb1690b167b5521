-- ===== src/Console/Service/Remembered.antt =====
-- A request that is sent again (src/application/ops_console.py).
use xiaoy_md.Prelude.{
  ℕ, suc, ◌+◌, ◌≤◌, ◌<◌, ◌≡◌, inl, inr, false, List, [], ◌∷◌, Option, none, length, arith,
  Option-cases,
}
use xiaoy_md.Text.{Str, is_empty}
use xiaoy_md.Dict.{lookup}
use xiaoy_md.Dict.Laws.{Distinct}
use xiaoy_md.Console.Records.{RunbookRequest, RunbookExecution, ensure_request_id}
use xiaoy_md.Console.Reports.{Report}
use xiaoy_md.Console.State.{OperationsStatusState}
use xiaoy_md.Console.State.Recent.{
  Recent, Recent-cache, Recent-cache_self, Recent-weaken, lookup-Recent,
}
use xiaoy_md.Console.Service.{
  Call, ExecutionEnvelope, answered, execute_new, execute, execute_all, answer,
}
use xiaoy_md.Console.Service.Answers.{
  execute_new-Records, request_id_kept, execute_cached, execute_uncached, same_record,
}

module _ {Json : Type 0} (try_parse : Str → Option Json) (dumps : Report → Str) where
  -- what a call does to a recent item of the cache
  execute-Recent :
      {k : Str} {v : RunbookExecution Json} {n : ℕ} (call : Call) (r : RunbookRequest)
      (s : OperationsStatusState Json)
      → n < 79
      → Recent k v n s.executions_by_request
      → Recent k v (suc n) (execute try_parse dumps call r s).1.executions_by_request
  unfolding execute answer
  execute-Recent {k} {v} {n} call r s lt recent =
      let r' = ensure_request_id call.fresh r in
      elim (Option-cases (lookup r'.request_id s.executions_by_request)) [
        | inr h ↦ rw (execute, answer, h.1) (Recent-weaken (omega arith) recent)
        | inl h ↦
            rw (execute, answer, h)
              (elim (execute_new-Records try_parse dumps call r' s) [
                | inl e ↦ rw e (Recent-weaken (omega arith) recent)
                | inr rec ↦
                    rw (rec.cached)
                      (Recent-cache r'.request_id rec.envelope.runbook (omega arith) h recent)
              ])
      ]

  execute_all-Recent :
      {k : Str} {v : RunbookExecution Json} {n : ℕ} (calls : List (Call × RunbookRequest))
      (s : OperationsStatusState Json)
      → n + length calls ≤ 79
      → Recent k v n s.executions_by_request
      → Recent k v (n + length calls) (execute_all try_parse dumps calls s).executions_by_request
  unfolding execute_all
  execute_all-Recent {k} {v} {n} [] s lt recent = Recent-weaken (omega arith) recent
  execute_all-Recent {k} {v} {n} ((call, r) ∷ calls) s lt recent = Recent-weaken (omega arith) (
      execute_all-Recent calls (execute try_parse dumps call r s).1 (omega arith)
        (execute-Recent call r s (omega arith) recent))

  execute-Recent_self :
      (call : Call) (r : RunbookRequest) (s : OperationsStatusState Json)
      (envelope : ExecutionEnvelope Json)
      → is_empty r.request_id ≡ false
      → Distinct s.executions_by_request
      → lookup r.request_id s.executions_by_request ≡ none
      → (execute try_parse dumps call r s).0 ≡ answered envelope
      → Recent r.request_id envelope.runbook 0
          (execute try_parse dumps call r s).1.executions_by_request
  unfolding execute answer
  execute-Recent_self call r s envelope named distinct new answer =
      let r' = ensure_request_id call.fresh r in
      let uncached = execute_uncached try_parse dumps call r s named new in
      let answer' : (execute_new try_parse dumps call r' s).0 ≡ answered envelope =
        rw uncached at answer in
      let new' : lookup r'.request_id s.executions_by_request ≡ none =
        rw (request_id_kept try_parse dumps call.fresh r named) new in
      rw uncached (elim (execute_new-Records try_parse dumps call r' s) [
        | inl e ↦ absurd (cc e)
        | inr rec ↦
            rw (rec.cached, request_id_kept try_parse dumps call.fresh r named)
              (rw (same_record try_parse dumps rec answer') (
                Recent-cache_self s.executions_by_request r.request_id envelope.runbook
                  (omega arith) distinct new))
      ])

  -- A new request with an identifier that is answered is answered with the same record when it is
  -- sent again after at most 79 other calls, whatever they are: the second call changes nothing of
  -- the status, whatever its process and check would do.
  pub execute-again :
      (call : Call) (r : RunbookRequest) (s : OperationsStatusState Json)
      (envelope : ExecutionEnvelope Json) (calls : List (Call × RunbookRequest)) (later : Call)
      → is_empty r.request_id ≡ false
      → Distinct s.executions_by_request
      → lookup r.request_id s.executions_by_request ≡ none
      → (execute try_parse dumps call r s).0 ≡ answered envelope
      → length calls ≤ 79
      → let s' = execute_all try_parse dumps calls (execute try_parse dumps call r s).1 in
        execute try_parse dumps later r s' ≡ (
          answered record {
            runbook = envelope.runbook;
            health = lookup r.request_id s'.health_by_request;
          },
          s',
        )
  execute-again call r s envelope calls later named distinct new answer few =
      let s₁ = (execute try_parse dumps call r s).1 in
      let recent =
        execute_all-Recent calls s₁ (omega arith)
          (execute-Recent_self call r s envelope named distinct new answer) in
      execute_cached try_parse dumps later r (execute_all try_parse dumps calls s₁) envelope.runbook
        named (lookup-Recent recent)
