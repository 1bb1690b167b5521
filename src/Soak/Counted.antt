-- ===== src/Soak/Counted.antt =====
-- What the counters and the sample of a soak run hold (scripts/perf/full_feed_soak.py).
use xiaoy_md.Prelude.{
  ℕ, zero, suc, ◌+◌, ◌-◌, ◌≡◌, refl, ap, inl, inr, List, [], ◌∷◌, none, some, min, length, arith,
  length-append, Option-cases,
}
use xiaoy_md.Text.{Str}
use xiaoy_md.Dict.{Dict, lookup, insert}
use xiaoy_md.Soak.{
  add_latency, SoakState, initial_soak, Message, Stamp, json_error, no_timestamp, stamped_at,
  load_error, overflow_error, set_item, sample_latency, increment, count_subject, count_stamp,
  ingest_tick, ingest_all,
}

-- the sum of a counter
abbrev pub sum : Dict ℕ → ℕ
sum [] = 0
sum ((k, n) ∷ d) = n + sum d

sum-insert_new : (k : Str) (v : ℕ) (d : Dict ℕ) → lookup k d ≡ none → sum (insert k v d) ≡ sum d + v
unfolding insert lookup
sum-insert_new k v [] h = omega arith
sum-insert_new k v ((j, w) ∷ d) h = ground (arith, sum-insert_new k v d)

sum-insert_known :
    (k : Str) (n : ℕ) (d : Dict ℕ) → lookup k d ≡ some n → sum (insert k (n + 1) d) ≡ sum d + 1
unfolding insert lookup
sum-insert_known k n [] h = absurd (cc h)
sum-insert_known k n ((j, w) ∷ d) h = ground (arith, sum-insert_known k n d)

sum-increment : (k : Str) (d : Dict ℕ) → sum (increment k d) ≡ sum d + 1
unfolding increment
sum-increment k d = elim (Option-cases (lookup k d)) [
  | inl e ↦ rw (increment, e) (sum-insert_new k 1 d e)
  | inr e ↦ rw (increment, e.1) (sum-insert_known k e.0 d e.1)
]

length-set_item : (i x : ℕ) (xs : List ℕ) → length (set_item i x xs) ≡ length xs
unfolding set_item
length-set_item i x [] = refl
length-set_item zero x (y ∷ xs) = refl
length-set_item (suc i) x (y ∷ xs) = ap suc (length-set_item i x xs)

length-sample_latency :
    (capacity drawn ms n : ℕ) (sample : List ℕ)
    → length sample ≡ min capacity n
    → length (sample_latency capacity drawn ms sample) ≡ min capacity (n + 1)
unfolding sample_latency
length-sample_latency capacity drawn ms n sample h =
    ground (arith, length-append sample (ms ∷ []), length-set_item drawn ms sample)

-- a message on which the callback raises
abbrev pub raises : Stamp → ℕ
raises json_error = 0
raises no_timestamp = 0
raises (stamped_at at) = 0
raises load_error = 1
raises overflow_error = 1

abbrev pub count_raised : List Message → ℕ
count_raised [] = 0
count_raised (m ∷ messages) = raises m.stamp + count_raised messages

-- The counters agree, behind so many messages that raised: every message counts for one subject, and
-- is a JSON error, has no time, adds a latency, or raised; the sample has as many items as there are
-- latencies, up to its capacity.
pub record IsCounted (capacity raised : ℕ) (s : SoakState) : Type 0 where
  pub subjects : sum s.by_subject ≡ s.total
  pub outcomes : s.json_errors + (s.missing_timestamp + s.latency_stats.count) + raised ≡ s.total
  pub sampled : length s.latency_sample ≡ min capacity s.latency_stats.count

count_stamp-IsCounted :
    (capacity utc_now drawn raised : ℕ) (stamp : Stamp) (s : SoakState)
    → sum s.by_subject ≡ s.total
    → s.json_errors + (s.missing_timestamp + s.latency_stats.count) + raised + 1 ≡ s.total
    → length s.latency_sample ≡ min capacity s.latency_stats.count
    → IsCounted capacity (raised + raises stamp) (count_stamp capacity utc_now drawn stamp s)
unfolding count_stamp add_latency
count_stamp-IsCounted capacity utc_now drawn raised json_error s a b c = record {
  subjects = a;
  outcomes = omega (arith, b);
  sampled = c;
}
count_stamp-IsCounted capacity utc_now drawn raised no_timestamp s a b c = record {
  subjects = a;
  outcomes = omega (arith, b);
  sampled = c;
}
count_stamp-IsCounted capacity utc_now drawn raised (stamped_at at) s a b c = record {
  subjects = a;
  outcomes = omega (arith, b);
  sampled =
      length-sample_latency capacity drawn (utc_now - at) s.latency_stats.count s.latency_sample c;
}
count_stamp-IsCounted capacity utc_now drawn raised load_error s a b c = record {
  subjects = a;
  outcomes = omega (arith, b);
  sampled = c;
}
count_stamp-IsCounted capacity utc_now drawn raised overflow_error s a b c = record {
  subjects = a;
  outcomes = omega (arith, b);
  sampled = c;
}

ingest_tick-IsCounted :
    (window capacity raised : ℕ) (m : Message) (s : SoakState)
    → IsCounted capacity raised s
    → IsCounted capacity (raised + raises m.stamp) (ingest_tick window capacity m s)
unfolding ingest_tick count_subject
ingest_tick-IsCounted window capacity raised m s c =
    count_stamp-IsCounted capacity m.utc_now m.drawn raised m.stamp (count_subject window m s)
      (omega (arith, sum-increment m.subject s.by_subject, c.subjects)) (omega (arith, c.outcomes))
      c.sampled

count_stamp-total :
    (capacity utc_now drawn : ℕ) (stamp : Stamp) (s : SoakState)
    → (count_stamp capacity utc_now drawn stamp s).total ≡ s.total
unfolding count_stamp
count_stamp-total capacity utc_now drawn json_error s = refl
count_stamp-total capacity utc_now drawn no_timestamp s = refl
count_stamp-total capacity utc_now drawn (stamped_at at) s = refl
count_stamp-total capacity utc_now drawn load_error s = refl
count_stamp-total capacity utc_now drawn overflow_error s = refl

ingest_tick-total :
    (window capacity : ℕ) (m : Message) (s : SoakState)
    → (ingest_tick window capacity m s).total ≡ s.total + 1
unfolding ingest_tick count_subject
ingest_tick-total window capacity m s =
    count_stamp-total capacity m.utc_now m.drawn m.stamp (count_subject window m s)

plus_zero : (a : ℕ) → a + 0 ≡ a
plus_zero a = omega arith

zero_plus : (a : ℕ) → 0 + a ≡ a
zero_plus a = omega arith

plus_assoc : (a b c : ℕ) → a + b + c ≡ a + (b + c)
plus_assoc a b c = omega arith

ingest_all-keeps :
    (window capacity raised : ℕ) (messages : List Message) (s : SoakState)
    → IsCounted capacity raised s
    → IsCounted capacity (raised + count_raised messages) (ingest_all window capacity messages s)
      × ((ingest_all window capacity messages s).total ≡ s.total + length messages)
unfolding ingest_all
ingest_all-keeps window capacity raised [] s c = (rw (plus_zero raised) c, omega arith)
ingest_all-keeps window capacity raised (m ∷ messages) s c =
    let rest =
      ingest_all-keeps window capacity (raised + raises m.stamp) messages
        (ingest_tick window capacity m s) (ingest_tick-IsCounted window capacity raised m s c) in
    (
      rw (plus_assoc raised (raises m.stamp) (count_raised messages)) at rest.0,
      omega (arith, rest.1, ingest_tick-total window capacity m s),
    )

-- After any messages the total is their number; the counts of the subjects add up to it, and so do
-- the JSON errors, the messages without a time, the latencies and the messages on which the callback
-- raised, by an exception of the parser that it does not catch or for a time that UTC cannot hold;
-- the sample has as many items as there are latencies, and at most its capacity.
pub ingest_all-IsCounted :
    (window capacity : ℕ) (messages : List Message)
    → IsCounted capacity (count_raised messages) (ingest_all window capacity messages initial_soak)
      × ((ingest_all window capacity messages initial_soak).total ≡ length messages)
unfolding initial_soak
ingest_all-IsCounted window capacity messages =
    let r =
      ingest_all-keeps window capacity 0 messages initial_soak
        record { subjects = refl; outcomes = omega arith; sampled = omega arith } in
    (rw (zero_plus (count_raised messages)) at r.0, omega (arith, r.1))
