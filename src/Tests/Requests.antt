-- ===== src/Tests/Requests.antt =====
-- Requests, the RPC server, the soak run and the samples of Prometheus on small inputs.
use xiaoy_md.Prelude.{
  ℕ, ◌≡◌, refl, pos, List, [], ◌∷◌, Option, none, some, ◌==◌, length, if◌then◌else◌,
}
use xiaoy_md.Text.{codes, str_eq, is_space, lstrip, rstrip, strip, has_char}
use xiaoy_md.Dict.{lookup, insert, mem, add}
use xiaoy_md.FullFeed.Request.{
  Meets, timed_out, no_responders, object, returned, ending_of, delay_of, sleep_for, try_again,
  request_loop, request_json,
}
use xiaoy_md.FullFeed.Request.Attempts.{EndsAt, request_json-EndsAt}
use xiaoy_md.Rpc.Server.{
  subjects, initial_server, listen, start_server, stop_server, start_all, timeout_of,
  handle_contracts_list, live_query,
}
use xiaoy_md.Health.Evaluate.{str_le, insert_sorted, sorted}
use xiaoy_md.Health.Ignored.{Summary, items_of, symbols_of, first_ignored, load_ignored_symbols}
use xiaoy_md.Service.Feed as F
use xiaoy_md.Service.Topic.{topic_of}
use xiaoy_md.Soak.{
  min_with, max_with, add_latency, split_dots, third_and_fourth, subject_parts, increment,
  initial_soak, Message, json_error, stamped_at, overflow_error, set_item, sample_latency,
  count_subject, count_stamp, ingest_tick, record_mps_snapshot, ingest_all,
}
use xiaoy_md.Soak.Counted.{IsCounted, ingest_all-IsCounted}
use xiaoy_md.Console.Prometheus.{
  is_better, best_loop, query_latest, best_at, put_at, range_loop, insert_by_time, sort_by_time,
  query_range,
}

program : Unit {0}
unfolding str_eq is_space lstrip rstrip strip has_char lookup insert mem add ending_of request_loop
    delay_of sleep_for try_again request_json subjects initial_server listen start_server
    stop_server start_all timeout_of handle_contracts_list str_le insert_sorted sorted items_of
    symbols_of first_ignored load_ignored_symbols topic_of F.popleft_before min_with max_with
    add_latency split_dots third_and_fourth subject_parts increment initial_soak set_item
    sample_latency count_subject count_stamp ingest_tick record_mps_snapshot ingest_all is_better
    best_loop query_latest best_at put_at range_loop insert_by_time sort_by_time query_range
program = tt

-- the first attempt meets a timeout, and the second nobody
abbrev meets : ℕ → Meets ℕ
meets attempt = if attempt == 1 then timed_out else if attempt == 2 then no_responders else object 7

request_json_returns : request_json meets (pos 500) 5 ≡ (returned 7, 3, 500 ∷ 500 ∷ [])
unfolding program
request_json_returns = refl

request_json-EndsAt_example : EndsAt meets 500 1 2 (request_json meets (pos 500) 2)
request_json-EndsAt_example = request_json-EndsAt meets (pos 500) 2

contracts_run :
    handle_contracts_list []
      (some 100)
      (λ t. if t == 500 then some (codes "b" ∷ codes "a" ∷ []) else none)
    ≡ (codes "a" ∷ codes "b" ∷ [], live_query, some (codes "b" ∷ codes "a" ∷ []))
unfolding program
contracts_run = refl

abbrev summary : Summary
summary = record { rejected_items = []; rejected = some (codes " x ") ∷ none ∷ [] }

ignored_run : load_ignored_symbols (some (none ∷ some summary ∷ [])) ≡ codes "x" ∷ []
unfolding program
ignored_run = refl

abbrev messages : List Message
messages =
    record {
      subject = codes "market.tick.SHFE.rb2401";
      stamp = stamped_at 5;
      monotonic_now = 10;
      utc_now = 9;
      drawn = 0;
    }
    ∷ record {
      subject = codes "market.tick.SHFE.rb2401";
      stamp = stamped_at 2;
      monotonic_now = 20;
      utc_now = 19;
      drawn = 0;
    }
    ∷ record {
      subject = codes "other";
      stamp = json_error;
      monotonic_now = 30;
      utc_now = 29;
      drawn = 0;
    }
    ∷ record {
      subject = codes "market.tick.SHFE.rb2401";
      stamp = overflow_error;
      monotonic_now = 31;
      utc_now = 30;
      drawn = 0;
    }
    ∷ []

sample_run : (ingest_all 5 1 messages initial_soak).latency_sample ≡ 17 ∷ []
unfolding program
sample_run = refl

ingest_all-IsCounted_example :
    IsCounted 1 1 (ingest_all 5 1 messages initial_soak)
    × ((ingest_all 5 1 messages initial_soak).total ≡ length messages)
ingest_all-IsCounted_example = ingest_all-IsCounted 5 1 messages

abbrev entries : List (Option (ℕ × ℕ))
entries = some (20, 3) ∷ none ∷ some (10, 5) ∷ some (20, 4) ∷ []

abbrev points : List (ℕ × ℕ)
points = (10, 5) ∷ (20, 4) ∷ []

query_range_run : query_range (λ v. v) entries ≡ points
unfolding program
query_range_run = refl
