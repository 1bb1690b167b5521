-- ===== src/Tests/Flows.antt =====
-- The subscription workflow on small inputs.
use xiaoy_md.Prelude.{
  ℕ, zero, suc, ◌+◌, ◌≤◌, ◌≡◌, refl, Bool, true, false, List, [], ◌∷◌, Option, none, some, arith,
}
use xiaoy_md.Text.{Str, codes, str_eq, strip, is_space, lstrip, rstrip, has_char}
use xiaoy_md.Dict.{lookup, insert, erase, mem, add}
use xiaoy_md.Adapter.Supervisor.{out_of_fuel}
use xiaoy_md.FullFeed.Selection.{Selection, verdict, filter_loop, filter_symbols, chunk_loop, chunk}
use xiaoy_md.FullFeed.Workflow.{
  started, rounded, finished, aborted, out_of_fuel, run, Options, Rejection, Response, timed_out,
  answered, Outside, Workflow, is_rate_limited, requeue, accept_each, sort_rejected, start,
  on_timeout, on_answer, continues, answer_round, round, started, rounded,
}
use xiaoy_md.FullFeed.Workflow.Conserved.{names, has, NamesAll, round-Reachable}
use xiaoy_md.FullFeed.Workflow.Bounded.{IsBounded, round-Reachable-IsBounded}
use xiaoy_md.FullFeed.Workflow.Served.{answer, server, run-server}
use xiaoy_md.FullFeed.Workflow.Counts.{cnt, named}
use xiaoy_md.FullFeed.Workflow.Potential.{potential, IsFair}
use xiaoy_md.FullFeed.Workflow.Finished.{IsSettled, run-start-IsSettled}
use xiaoy_md.Dict.Sets.{Unique}
use xiaoy_md.Rpc.{handle_subscribe_bulk, bulk_loop}

program : Unit {0}
unfolding str_eq strip is_space lstrip rstrip has_char lookup insert erase mem add verdict
    filter_loop filter_symbols chunk_loop chunk is_rate_limited requeue accept_each sort_rejected
    start on_timeout on_answer answer_round round handle_subscribe_bulk bulk_loop answer
program = tt

-- a pattern that is a plain text
abbrev plainly : Str → Str → Bool
plainly text pattern = str_eq text pattern

abbrev selection : Selection
selection = record {
  included = [];
  excluded = codes "cu" ∷ [];
  limit = none;
  allow_ampersand = false;
}

abbrev listed : List Str
listed = codes "rb " ∷ codes "a&b" ∷ codes "cu" ∷ codes "rb" ∷ codes "au" ∷ []

filter_symbols_run :
    filter_symbols plainly selection listed ≡ (codes "rb" ∷ codes "au" ∷ [], codes "a&b" ∷ [])
unfolding program
filter_symbols_run = refl

chunk_run :
    chunk listed 2
    ≡ (codes "rb " ∷ codes "a&b" ∷ []) ∷ (codes "cu" ∷ codes "rb" ∷ []) ∷ (codes "au" ∷ []) ∷ []
unfolding program
chunk_run = refl

abbrev options : Options
options = record { batch_size = 2; request_attempts = 2; max_retries = 1 }

abbrev wanted : List Str
wanted = codes "rb" ∷ codes "au" ∷ codes "cu" ∷ []

abbrev refusal : Str → Rejection
refusal s = record { symbol = s; reason = codes "Rate limit exceeded" }

abbrev refusals : List Str → List Rejection
refusals [] = []
refusals (s ∷ symbols) = refusal s ∷ refusals symbols

-- the first request times out, the second meets the rate limit, the others are accepted
abbrev reply : ℕ → List Str → Response
reply zero batch = timed_out
reply (suc zero) batch = answered [] (refusals batch)
reply (suc (suc n)) batch = answered batch []

abbrev outside : Outside ℕ
outside = record {
  acquire = λ n s. some s;
  bulk_subscribe = λ batch s. (reply s batch, s + 1);
  release = λ n s. s;
}

names-refusals : (batch : List Str) (x : Str) → mem x batch ≡ true → names (refusals batch) x ≡ true
unfolding mem
names-refusals [] x h = absurd (cc h)
names-refusals (y ∷ batch) x h = ground (arith, names-refusals batch x)

outside-NamesAll : (batch : List Str) (s : ℕ) → NamesAll batch (outside.bulk_subscribe batch s).0
unfolding mem
outside-NamesAll batch zero = tt
outside-NamesAll batch (suc zero) = names-refusals batch
outside-NamesAll batch (suc (suc n)) = λ x h. ground (arith, h)

named-refusals : (batch : List Str) (x : Str) → 0 + named x (refusals batch) ≤ cnt x batch
named-refusals [] x = omega arith
named-refusals (y ∷ batch) x = ground (arith, named-refusals batch x)

wanted-Unique : Unique wanted
unfolding mem str_eq
wanted-Unique = (refl, (refl, (refl, tt)))

abbrev first : Workflow
first = start options wanted (codes "cu" ∷ [])

-- the round that times out halves the batches
abbrev second : Workflow
second = on_timeout options (codes "rb" ∷ codes "au" ∷ []) (record first { pending = [] })

opening_step : round options outside first 0 ≡ continues second 1
unfolding program
opening_step = refl

second_run : second.pending ≡ codes "rb" ∷ codes "au" ∷ []
unfolding program
second_run = refl

round-Reachable_example : has second (codes "au") ≡ true
unfolding program
round-Reachable_example =
    round-Reachable options outside outside-NamesAll wanted (codes "cu" ∷ []) (codes "au") second 1
      (rounded {s = 0} started opening_step) refl

round-Reachable-IsBounded_example : IsBounded options second
unfolding program
round-Reachable-IsBounded_example =
    round-Reachable-IsBounded options outside wanted (codes "cu" ∷ []) second 1
      (rounded {s = 0} started opening_step)

abbrev serve : Str → ℕ → Option Str × ℕ
serve s n = elim n [ zero ↦ (some (codes "rate limit"), 0) | suc k ↦ (none, k) ]

abbrev grant : ℕ → ℕ → Option ℕ
grant n s = some s

abbrev let_go : ℕ → ℕ → ℕ
let_go n s = s

abbrev same : Str → Str
same s = s

run-server_example :
    let w = start options wanted (codes "cu" ∷ []) in
    IsSettled wanted
      (run options (server same serve options grant let_go) (potential options w + 1) w 2)
unfolding program
run-server_example =
    run-server same serve options grant let_go wanted (codes "cu" ∷ []) 2 (omega arith)
      wanted-Unique

outside-IsFair : (batch : List Str) (s : ℕ) → IsFair batch (outside.bulk_subscribe batch s).0
outside-IsFair batch zero = tt
outside-IsFair batch (suc zero) = λ x. named-refusals batch x
outside-IsFair batch (suc (suc n)) = λ x. omega arith

run-start-IsSettled_example :
    let w = start options wanted (codes "cu" ∷ []) in
    IsSettled wanted (run options outside (potential options w + 1) w 0)
unfolding program
run-start-IsSettled_example =
    run-start-IsSettled options outside outside-IsFair (omega arith) outside-NamesAll wanted
      (codes "cu" ∷ []) 0 wanted-Unique

-- three requests: the first times out, the second meets the rate limit
whole_loop :
    elim (run options outside 9 first 0) [
      | finished w s ↦ w.accepted
      | aborted ↦ []
      | out_of_fuel ↦ []
    ]
    ≡ codes "cu" ∷ codes "rb" ∷ codes "au" ∷ []
unfolding program run
whole_loop = refl
