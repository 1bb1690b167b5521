-- ===== src/FullFeed/Workflow.antt =====
-- The subscription loop of `run_workflow` (src/operations/full_feed_subscription.py), from the
-- filtered symbols and the active subscriptions on. The limiter and the server are an interface
-- over a state of their own. The files written, the metrics, the log and the sleeps between rounds
-- are left out.
pub mod Conserved
pub mod Served
pub mod Bounded
pub mod Counts
pub mod Potential
pub mod Finished
use xiaoy_md.Prelude.{
  ℕ, zero, suc, ◌+◌, ◌-◌, ◌/◌, Bool, true, false, not, ◌&&◌, ◌||◌, List, [], ◌∷◌, ◌++◌, Option,
  none, some, leb, ltb, ◌==◌, length, take, drop, ◌≡◌, keep_if, min, max, if◌then◌else◌,
}
use xiaoy_md.Text.{Str, codes, is_empty}
use xiaoy_md.FullFeed.Reasons.{lower, contains}
use xiaoy_md.Dict.{Dict, lookup, insert, erase, mem}

-- the arguments that the loop reads; `max_retries` of zero is no bound
pub record Options : Type 0 where
  pub batch_size : ℕ
  pub request_attempts : ℕ
  pub max_retries : ℕ

-- an item that the server rejects
pub record Rejection : Type 0 where
  pub symbol : Str
  pub reason : Str

-- the note of an item in the summary
pub data Note : Type 0 where
  no_note max_timeout_retries_exceeded max_rate_limit_retries_exceeded : Note

-- an entry of `rejected_items`
pub record RejectedItem : Type 0 where
  pub symbol : Str
  pub reason : Str
  pub note : Note

-- how `_bulk_subscribe` ends: a timeout, another exception, or an answer
pub data Response : Type 0 where
  timed_out failed : Response
  answered : List Str → List Rejection → Response

-- The limiter and the server, on a state W; `acquire` may raise.
pub record Outside (W : Type 0) : Type 0 where
  pub acquire : ℕ → W → Option W
  pub bulk_subscribe : List Str → W → Response × W
  pub release : ℕ → W → W

-- The state of the loop; `accepted_set` holds the items of `accepted`.
pub record Workflow : Type 0 where
  pub pending : List Str
  pub accepted : List Str
  pub retry_counts : Dict ℕ
  pub timeout_counts : Dict ℕ
  pub rejected_items : List RejectedItem
  pub batch_limit : ℕ
  pub rate_limit_hits : ℕ
  pub batches : ℕ

-- `symbol and "rate limit" in reason.lower()`
unfoldable pub is_rate_limited : Rejection → Bool
is_rate_limited item =
    not (is_empty item.symbol) && contains (lower item.reason) (codes "rate limit")

-- `counts.get(symbol, 0)`
abbrev pub count_of : Str → Dict ℕ → ℕ
count_of symbol counts = elim (lookup symbol counts) [ none ↦ 0 | some n ↦ n ]

-- `for symbol in reversed(symbols): if symbol not in accepted: pending.appendleft(symbol)`
unfoldable pub requeue : List Str → List Str → List Str → List Str
requeue [] accepted pending = pending
requeue (x ∷ symbols) accepted pending =
    let rest = requeue symbols accepted pending in if mem x accepted then rest else x ∷ rest

-- the loop over the accepted symbols, on the accepted ones so far and the timeout counts
unfoldable pub accept_each : List Str → List Str → Dict ℕ → List Str × Dict ℕ
accept_each [] accepted counts = (accepted, counts)
accept_each (x ∷ symbols) accepted counts = elim (mem x accepted) [
  | true ↦ accept_each symbols accepted counts
  | false ↦ accept_each symbols (accepted ++ x ∷ []) (erase x counts)
]

-- the loop over the rejected items: those to try again, those to report, and the retry counts
unfoldable pub sort_rejected :
    Options → List Rejection → Dict ℕ → List Str × List RejectedItem × Dict ℕ
sort_rejected o [] counts = ([], [], counts)
sort_rejected o (item ∷ items) counts =
    let retry_count = count_of item.symbol counts + 1 in
    elim (is_rate_limited item) [
      | false ↦
          let (limited, actionable, counts') = sort_rejected o items counts in
          (
            limited,
            record { symbol = item.symbol; reason = item.reason; note = no_note } ∷ actionable,
            counts',
          )
      | true ↦ elim (o.max_retries == 0 || leb retry_count o.max_retries) [
        | true ↦
            let (limited, actionable, counts') =
              sort_rejected o items (insert item.symbol retry_count counts) in
            (item.symbol ∷ limited, actionable, counts')
        | false ↦
            let (limited, actionable, counts') = sort_rejected o items counts in
            (
              limited,
              record {
                symbol = item.symbol;
                reason = item.reason;
                note = max_rate_limit_retries_exceeded;
              }
                  ∷ actionable,
              counts',
            )
      ]
    ]

-- the state before the first round; `active` holds the active subscriptions in some order
unfoldable pub start : Options → List Str → List Str → Workflow
unfolding accept_each
start o filtered active =
    let accepted = (accept_each (keep_if (λ s. mem s filtered) active) [] []).0 in
    let pending = keep_if (λ s. not (mem s accepted)) filtered in
    record {
      pending = pending;
      accepted = accepted;
      retry_counts = [];
      timeout_counts = [];
      rejected_items = [];
      batch_limit = max 1 (min o.batch_size (length pending));
      rate_limit_hits = 0;
      batches = 0;
    }

abbrev pub timeout_item : Str → RejectedItem
timeout_item sym = record {
  symbol = sym;
  reason = codes "timeout";
  note = max_timeout_retries_exceeded;
}

-- a timeout of the batch, which `pending` no longer holds
unfoldable pub on_timeout : Options → List Str → Workflow → Workflow
on_timeout o (sym ∷ []) w =
    let count = count_of sym w.timeout_counts + 1 in
    let w' : Workflow = record w { timeout_counts = insert sym count w.timeout_counts } in
    if leb o.request_attempts count
    then record w' { rejected_items = w.rejected_items ++ timeout_item sym ∷ [] }
    else record w' { pending = sym ∷ w.pending }
on_timeout o batch w = record w {
  batch_limit = max 1 (length batch / 2);
  pending = requeue batch w.accepted w.pending;
}

unfoldable pub on_answer : Options → List Str → List Rejection → Workflow → Workflow
on_answer o accepted rejected w =
    let (accepted', timeout_counts') = accept_each accepted w.accepted w.timeout_counts in
    let (limited, actionable, retry_counts') = sort_rejected o rejected w.retry_counts in
    record w {
      pending = requeue limited accepted' w.pending;
      accepted = accepted';
      retry_counts = retry_counts';
      timeout_counts = timeout_counts';
      rejected_items = w.rejected_items ++ actionable;
      rate_limit_hits = w.rate_limit_hits + length limited;
      batches = w.batches + 1;
    }

pub data Round (W : Type 0) : Type 0 where
  continues : Workflow → W → Round W
  raised : Round W

-- how the loop ends
pub data Ending (W : Type 0) : Type 0 where
  finished : Workflow → W → Ending W
  aborted out_of_fuel : Ending W

module _ {W : Type 0} (o : Options) (outside : Outside W) where
  unfoldable pub answer_round : List Str → Workflow → Response → W → Round W
  answer_round batch w timed_out s = continues (on_timeout o batch w) s
  answer_round batch w failed s = raised
  answer_round batch w (answered accepted rejected) s =
      continues (on_answer o accepted rejected w)
        (outside.release (length batch - length accepted) s)

  -- one round of `while pending`
  unfoldable pub round : Workflow → W → Round W
  round w s =
      let current_batch = min w.batch_limit (length w.pending) in
      let batch = take current_batch w.pending in
      elim (outside.acquire current_batch s) [
        | none ↦ raised
        | some s' ↦
            let (response, s'') = outside.bulk_subscribe batch s' in
            answer_round batch (record w { pending = drop current_batch w.pending }) response s''
      ]

  -- the `while` loop
  unfoldable pub run : ℕ → Workflow → W → Ending W
  run zero w s = out_of_fuel
  run (suc fuel) w s = elim w.pending [
    | [] ↦ finished w s
    | x ∷ rest ↦ elim (round w s) [ raised ↦ aborted | continues w' s' ↦ run fuel w' s' ]
  ]

  -- the states at the head of the loop
  pub data Reachable (filtered active : List Str) : Workflow → W → Type 0 where
    started : {s : W} → Reachable filtered active (start o filtered active) s
    rounded :
        {w w' : Workflow} {s s' : W}
        → Reachable filtered active w s
        → round w s ≡ continues w' s'
        → Reachable filtered active w' s'
