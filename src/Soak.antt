-- ===== src/Soak.antt =====
-- The soak run that measures a full feed (scripts/perf/full_feed_soak.py): the counters of the
-- received ticks, the latency sample of bounded size, and the parts of a subject. Times are whole
-- milliseconds; the parsing of a message and the random index are what a message brings.
pub mod Counted
pub mod Parts
use xiaoy_md.Prelude.{
  ℕ, zero, suc, ◌+◌, ◌-◌, ◌*◌, ◌/◌, ◌%◌, Bool, true, false, List, [], ◌∷◌, ◌++◌, Option, none, some,
  min, max, ltb, leb, ◌==◌, length, if◌then◌else◌,
}
use xiaoy_md.Text.{Str, codes, is_empty}
use xiaoy_md.Dict.{Dict, lookup, insert}
use xiaoy_md.FullFeed.Reasons.{starts_with}
use xiaoy_md.Service.Feed.{popleft_before}

pub record LatencyStats : Type 0 where
  pub count : ℕ
  pub min_ms : Option ℕ
  pub max_ms : Option ℕ
  pub sum_ms : ℕ

unfoldable pub min_with : ℕ → Option ℕ → ℕ
min_with ms none = ms
min_with ms (some m) = min m ms

unfoldable pub max_with : ℕ → Option ℕ → ℕ
max_with ms none = ms
max_with ms (some m) = max m ms

-- `LatencyStats.add`
unfoldable pub add_latency : ℕ → LatencyStats → LatencyStats
add_latency ms s = record {
  count = s.count + 1;
  min_ms = some (min_with ms s.min_ms);
  max_ms = some (max_with ms s.max_ms);
  sum_ms = s.sum_ms + ms;
}

-- `subject.split(".")`
unfoldable pub split_dots : Str → List Str
split_dots [] = [] ∷ []
split_dots (c ∷ s) = elim (split_dots s) [
  | [] ↦ (c ∷ []) ∷ []
  | part ∷ parts ↦ if c == b'.' then [] ∷ part ∷ parts else (c ∷ part) ∷ parts
]

-- the third and the fourth part, where they are
unfoldable pub third_and_fourth : List Str → Option Str × Option Str
third_and_fourth (a ∷ b ∷ c ∷ d ∷ parts) = (some c, some d)
third_and_fourth (a ∷ b ∷ c ∷ []) = (some c, none)
third_and_fourth _ = (none, none)

-- `_subject_parts`
unfoldable pub subject_parts : Str → Option Str × Option Str
subject_parts subject =
    if starts_with subject (codes "market.tick.")
    then third_and_fourth (split_dots subject)
    else (none, none)

-- `counter[key] += 1`
unfoldable pub increment : Str → Dict ℕ → Dict ℕ
increment key d = elim (lookup key d) [ none ↦ insert key 1 d | some n ↦ insert key (n + 1) d ]

pub record SoakState : Type 0 where
  pub ts_window : List ℕ
  pub mps_series : List ℕ
  pub by_subject : Dict ℕ
  pub by_exchange : Dict ℕ
  pub total : ℕ
  pub json_errors : ℕ
  pub missing_timestamp : ℕ
  pub latency_stats : LatencyStats
  pub latency_sample : List ℕ

unfoldable pub initial_soak : SoakState
initial_soak = record {
  ts_window = [];
  mps_series = [];
  by_subject = [];
  by_exchange = [];
  total = 0;
  json_errors = 0;
  missing_timestamp = 0;
  latency_stats = record { count = 0; min_ms = none; max_ms = none; sum_ms = 0 };
  latency_sample = [];
}

-- what the message says of its time: no JSON, no timestamp that parses, the time, or what leaves the
-- callback: an exception of `json.loads` that is no JSONDecodeError (for an integer with too many
-- digits, or too deep a nesting), or the OverflowError of `astimezone` for a time that UTC cannot
-- hold
pub data Stamp : Type 0 where
  json_error : Stamp
  no_timestamp : Stamp
  stamped_at : ℕ → Stamp
  load_error : Stamp
  overflow_error : Stamp

-- a message, with the clocks at its arrival and the index that `randint` draws for it
pub record Message : Type 0 where
  pub subject : Str
  pub stamp : Stamp
  pub monotonic_now : ℕ
  pub utc_now : ℕ
  pub drawn : ℕ

-- `xs[i] = x`, for an index in range
unfoldable pub set_item : ℕ → ℕ → List ℕ → List ℕ
set_item i x [] = []
set_item zero x (y ∷ xs) = x ∷ xs
set_item (suc i) x (y ∷ xs) = y ∷ set_item i x xs

-- the sample after a latency: it grows to its capacity, and then an item is replaced where the
-- drawn index is in range
unfoldable pub sample_latency : ℕ → ℕ → ℕ → List ℕ → List ℕ
sample_latency capacity drawn ms sample =
    if capacity == 0
    then sample
    else if ltb (length sample) capacity
    then sample ++ ms ∷ []
    else if ltb drawn capacity
    then set_item drawn ms sample
    else sample

-- the window, the total and the counters of the subject
unfoldable pub count_subject : ℕ → Message → SoakState → SoakState
count_subject window m s = record s {
  ts_window = popleft_before (m.monotonic_now - window) (s.ts_window ++ m.monotonic_now ∷ []);
  total = s.total + 1;
  by_subject = increment m.subject s.by_subject;
  by_exchange = elim (subject_parts m.subject).0 [
    | none ↦ s.by_exchange
    | some exchange ↦ if is_empty exchange then s.by_exchange else increment exchange s.by_exchange
  ];
}

-- its time; an exception leaves the rest as it was
unfoldable pub count_stamp : ℕ → ℕ → ℕ → Stamp → SoakState → SoakState
count_stamp capacity utc_now drawn json_error s = record s { json_errors = s.json_errors + 1 }
count_stamp capacity utc_now drawn no_timestamp s = record s {
  missing_timestamp = s.missing_timestamp + 1;
}
count_stamp capacity utc_now drawn (stamped_at at) s = record s {
  latency_stats = add_latency (utc_now - at) s.latency_stats;
  latency_sample = sample_latency capacity drawn (utc_now - at) s.latency_sample;
}
count_stamp capacity utc_now drawn load_error s = s
count_stamp capacity utc_now drawn overflow_error s = s

-- `_ingest_tick`: the state that it leaves, also when it raises
unfoldable pub ingest_tick : ℕ → ℕ → Message → SoakState → SoakState
ingest_tick window capacity m s =
    count_stamp capacity m.utc_now m.drawn m.stamp (count_subject window m s)

-- `_record_mps_snapshot`: the number of messages in the window
unfoldable pub record_mps_snapshot : ℕ → ℕ → SoakState → SoakState
record_mps_snapshot window now s =
    let kept = popleft_before (now - window) s.ts_window in
    record s { ts_window = kept; mps_series = s.mps_series ++ length kept ∷ [] }

-- messages one after the other
unfoldable pub ingest_all : ℕ → ℕ → List Message → SoakState → SoakState
ingest_all window capacity [] s = s
ingest_all window capacity (m ∷ messages) s =
    ingest_all window capacity messages (ingest_tick window capacity m s)
