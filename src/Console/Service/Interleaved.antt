-- ===== src/Console/Service/Interleaved.antt =====
-- Calls of `execute` that overlap (src/application/ops_console.py): the repository locks the load
-- and the save each on its own, so other calls run between the two.
use xiaoy_md.Prelude.{◌≡◌, ◌≢◌, inl, inr, false, List, [], ◌∷◌, ◌++◌, Option, none}
use xiaoy_md.Text.{Str, is_empty}
use xiaoy_md.Dict.{lookup}
use xiaoy_md.Dict.Laws.{Distinct}
use xiaoy_md.Console.Records.{RunbookRequest, ensure_request_id}
use xiaoy_md.Console.Reports.{Report}
use xiaoy_md.Console.State.{OperationsStatusState}
use xiaoy_md.Console.State.Trim.{lookup-cache-none}
use xiaoy_md.Console.Service.{Call, Reply, execute, execute_new}
use xiaoy_md.Console.Service.Answers.{execute_uncached, execute_new-Records, request_id_kept}

module _ {Json : Type 0} (try_parse : Str → Option Json) (dumps : Report → Str) where
  -- the stored status, and the statuses that the calls under way have loaded
  abbrev pub Sessions : Type 0
  Sessions = OperationsStatusState Json × List (OperationsStatusState Json)

  -- a request whose call has ended, with its reply
  abbrev pub Ended : Type 0
  Ended = RunbookRequest × Reply Json

  -- a call loads the stored status; a call under way ends and stores its own status
  pub data Step : Sessions → List Ended → Sessions → Type 0 where
    loads :
        {s : OperationsStatusState Json} {under_way : List (OperationsStatusState Json)}
        → Step (s, under_way) [] (s, s ∷ under_way)
    saves :
        {s : OperationsStatusState Json} (loaded : OperationsStatusState Json)
        (a b : List (OperationsStatusState Json)) (call : Call) (r : RunbookRequest)
        → Step
            (s, a ++ loaded ∷ b)
            ((r, (execute try_parse dumps call r loaded).0) ∷ [])
            ((execute try_parse dumps call r loaded).1, a ++ b)

  -- a run, with the calls that have ended in it, in their order
  pub data Steps : Sessions → List Ended → Sessions → Type 0 where
    done : {s : Sessions} → Steps s [] s
    next :
        {s u : Sessions} (t : Sessions) (e f : List Ended)
        → Step s e t
        → Steps t f u
        → Steps s (e ++ f) u

  execute-forgets :
      (call : Call) (r : RunbookRequest) (s : OperationsStatusState Json) (k : Str)
      → is_empty r.request_id ≡ false
      → Distinct s.executions_by_request
      → lookup r.request_id s.executions_by_request ≡ none
      → r.request_id ≢ k
      → lookup k s.executions_by_request ≡ none
      → lookup k (execute try_parse dumps call r s).1.executions_by_request ≡ none
  execute-forgets call r s k named distinct new ne h =
      let r' = ensure_request_id call.fresh r in
      rw (execute_uncached try_parse dumps call r s named new)
        (elim (execute_new-Records try_parse dumps call r' s) [
          | inl e ↦ rw e h
          | inr rec ↦
              rw (rec.cached, request_id_kept try_parse dumps call.fresh r named)
                (lookup-cache-none 80 k r.request_id rec.envelope.runbook s.executions_by_request
                  distinct ne h)
        ])

  overlap :
      (call₁ call₂ : Call) (r₁ r₂ : RunbookRequest) (s : OperationsStatusState Json)
      → Steps
          (s, [])
          ((r₁, (execute try_parse dumps call₁ r₁ s).0)
            ∷ (r₂, (execute try_parse dumps call₂ r₂ s).0)
            ∷ [])
          ((execute try_parse dumps call₂ r₂ s).1, [])
  overlap call₁ call₂ r₁ r₂ s =
      let x₁ : Ended = (r₁, (execute try_parse dumps call₁ r₁ s).0) in
      let x₂ : Ended = (r₂, (execute try_parse dumps call₂ r₂ s).0) in
      next (s, s ∷ []) [] (x₁ ∷ x₂ ∷ []) loads
        (next (s, s ∷ s ∷ []) [] (x₁ ∷ x₂ ∷ []) loads
          (next ((execute try_parse dumps call₁ r₁ s).1, s ∷ []) (x₁ ∷ []) (x₂ ∷ [])
            (saves s [] (s ∷ []) call₁ r₁)
            (next ((execute try_parse dumps call₂ r₂ s).1, []) (x₂ ∷ []) [] (saves s [] [] call₂ r₂)
              done)))

  -- From a status whose cached requests differ, two calls with different new requests, both with an
  -- identifier, have a run in which they overlap, and both end with the replies that they give on
  -- that status, and the status that is then stored knows nothing of the first one: when the first
  -- request is sent again, it is executed as a new one.
  pub execute-overlapping :
      (call₁ call₂ later : Call) (r₁ r₂ : RunbookRequest) (s : OperationsStatusState Json)
      → is_empty r₁.request_id ≡ false
      → is_empty r₂.request_id ≡ false
      → r₂.request_id ≢ r₁.request_id
      → Distinct s.executions_by_request
      → lookup r₁.request_id s.executions_by_request ≡ none
      → lookup r₂.request_id s.executions_by_request ≡ none
      → (s' : OperationsStatusState Json) × Steps
          (s, [])
          ((r₁, (execute try_parse dumps call₁ r₁ s).0)
            ∷ (r₂, (execute try_parse dumps call₂ r₂ s).0)
            ∷ [])
          (s', [])
        × (lookup r₁.request_id s'.executions_by_request ≡ none)
        × (execute try_parse dumps later r₁ s'
            ≡ execute_new try_parse dumps later (ensure_request_id later.fresh r₁) s')
  execute-overlapping call₁ call₂ later r₁ r₂ s named₁ named₂ ne distinct new₁ new₂ =
      let forgotten = execute-forgets call₂ r₂ s r₁.request_id named₂ distinct new₂ ne new₁ in
      (
        (execute try_parse dumps call₂ r₂ s).1,
        overlap call₁ call₂ r₁ r₂ s,
        forgotten,
        execute_uncached try_parse dumps later r₁ (execute try_parse dumps call₂ r₂ s).1 named₁
            forgotten,
      )
