-- ===== src/Service/Feed/Deltas.antt =====
-- The deltas of the reported snapshots (src/application/services.py, `_emit_metrics_snapshot`).
use xiaoy_md.Prelude.{
  ℕ, ◌+◌, ◌-◌, ◌≤◌, ◌≡◌, refl, ap, All, List, [], ◌∷◌, Option, ℤ, pos, negsuc, arith,
}
use xiaoy_md.Service.Feed.{
  Feed, TickEvent, process_tick, minus, Snapshot, AdapterMetrics, emit_metrics_snapshot,
}
use xiaoy_md.Service.Feed.Counted.{published_in, raised_in, process_tick-Counts}

-- a tick is processed, or a snapshot is reported at a monotonic time
pub data Event : Type 0 where
  tick : TickEvent → Event
  report : ℕ → Option AdapterMetrics → Event

-- the reported snapshots, and the state afterwards
unfoldable pub run : List Event → Feed → List Snapshot × Feed
unfolding process_tick emit_metrics_snapshot
run [] f = ([], f)
run (tick t ∷ events) f = run events (process_tick t f)
run (report now port ∷ events) f =
    let (snapshot, f') = emit_metrics_snapshot now port f in
    let (snapshots, end) = run events f' in (snapshot ∷ snapshots, end)

abbrev pub ticks_of : List Event → List TickEvent
ticks_of [] = []
ticks_of (tick t ∷ events) = t ∷ ticks_of events
ticks_of (report now port ∷ events) = ticks_of events

-- no total that was reported is ahead of its counter
pub record IsCounted (f : Feed) : Type 0 where
  pub published : f.last_published_total ≤ f.published_total
  pub failed : f.last_failed_total ≤ f.failed_publishes_total

abbrev natural : ℤ → ℕ
natural (pos n) = n
natural (negsuc n) = 0

-- the sum of a delta over the snapshots, and that none is negative
abbrev pub total : (Snapshot → ℤ) → List Snapshot → ℕ
total delta [] = 0
total delta (s ∷ snapshots) = natural (delta s) + total delta snapshots

abbrev pub IsNatural : ℤ → Type 0
IsNatural z = z ≡ pos (natural z)

minus-le : (a b : ℕ) → b ≤ a → minus a b ≡ pos (a - b)
unfolding minus
minus-le a b h = ground (arith, h)

minus-IsNatural : (a b : ℕ) → b ≤ a → IsNatural (minus a b)
minus-IsNatural a b h = rw (minus-le a b h) refl

natural-minus : (a b : ℕ) → b ≤ a → natural (minus a b) + b ≡ a
natural-minus a b h = omega (arith, ap natural (minus-le a b h), h)

-- what the reports tell, from one state to the next
pub record Reports (events : List Event) (f : Feed) (snapshots : List Snapshot) (f' : Feed)
    : Type 0 where
  pub counted : IsCounted f'
  pub published : f'.published_total ≡ f.published_total + published_in (ticks_of events)
  pub failed : f'.failed_publishes_total ≡ f.failed_publishes_total + raised_in (ticks_of events)
  pub published_balance :
      total (λ s. s.published_delta) snapshots + (f'.published_total - f'.last_published_total)
      ≡ published_in (ticks_of events) + (f.published_total - f.last_published_total)
  pub failed_balance :
      total (λ s. s.failed_delta) snapshots + (f'.failed_publishes_total - f'.last_failed_total)
      ≡ raised_in (ticks_of events) + (f.failed_publishes_total - f.last_failed_total)
  pub published_deltas :
      total (λ s. s.published_delta) snapshots + f.last_published_total ≡ f'.last_published_total
  pub failed_deltas :
      total (λ s. s.failed_delta) snapshots + f.last_failed_total ≡ f'.last_failed_total
  pub natural_published : All (λ s. IsNatural s.published_delta) snapshots
  pub natural_failed : All (λ s. IsNatural s.failed_delta) snapshots

-- From a state whose reported totals are not ahead of its counters, any row of ticks and reports
-- leads to such a state and reports deltas that are not negative and add up: the sum of the deltas
-- of the published total, with what is unreported at the end, is the number of published ticks with
-- what was unreported at the start; that sum is the growth of the total that was reported last, and
-- the counter grows by the number of published ticks. The same holds of failed publications.
pub run-Reports :
    (events : List Event) (f : Feed)
    → IsCounted f
    → Reports events f (run events f).0 (run events f).1
unfolding run emit_metrics_snapshot
run-Reports [] f c = record {
  counted = c;
  published = omega arith;
  failed = omega arith;
  published_balance = omega arith;
  failed_balance = omega arith;
  published_deltas = omega arith;
  failed_deltas = omega arith;
  natural_published = tt;
  natural_failed = tt;
}
run-Reports (tick t ∷ events) f c =
    let k = process_tick-Counts t f in
    let r = run-Reports events (process_tick t f) record {
      published = omega (arith, k.published, k.same_published, c.published);
      failed = omega (arith, k.failed, k.same_failed, c.failed);
    } in
    record {
      counted = r.counted;
      published = omega (arith, r.published, k.published);
      failed = omega (arith, r.failed, k.failed);
      published_balance =
          omega (arith, r.published_balance, k.published, k.same_published, c.published);
      failed_balance = omega (arith, r.failed_balance, k.failed, k.same_failed, c.failed);
      published_deltas = omega (arith, r.published_deltas, k.same_published);
      failed_deltas = omega (arith, r.failed_deltas, k.same_failed);
      natural_published = r.natural_published;
      natural_failed = r.natural_failed;
    }
run-Reports (report now port ∷ events) f c =
    let r =
      run-Reports events (emit_metrics_snapshot now port f).1
        record { published = omega arith; failed = omega arith } in
    record {
      counted = r.counted;
      published = r.published;
      failed = r.failed;
      published_balance = omega (
        arith,
        r.published_balance,
        natural-minus f.published_total f.last_published_total c.published,
      );
      failed_balance = omega (
        arith,
        r.failed_balance,
        natural-minus f.failed_publishes_total f.last_failed_total c.failed,
      );
      published_deltas = omega (
        arith,
        r.published_deltas,
        natural-minus f.published_total f.last_published_total c.published,
      );
      failed_deltas = omega (
        arith,
        r.failed_deltas,
        natural-minus f.failed_publishes_total f.last_failed_total c.failed,
      );
      natural_published = (
        minus-IsNatural f.published_total f.last_published_total c.published,
        r.natural_published,
      );
      natural_failed =
          (minus-IsNatural f.failed_publishes_total f.last_failed_total c.failed, r.natural_failed);
    }
