-- ===== src/Service/Feed/Counted.antt =====
-- What the counters of the service count (src/application/services.py).
use xiaoy_md.Prelude.{
  ℕ, ◌+◌, ◌-◌, ◌≤◌, ◌≡◌, refl, ap, ◌∙◌, Bool, true, false, List, [], ◌∷◌, ◌++◌, Option, none, some,
  length, arith, length-append, length-drop,
}
use xiaoy_md.Text.{codes, str_eq}
use xiaoy_md.Service.RateLimit.{append_bounded}
use xiaoy_md.Service.State.{mark_subscription_activity}
use xiaoy_md.Service.Feed.Errors.{error_total, error_total-bump, error_total-bump_ne}
use xiaoy_md.Service.Feed.{
  Feed, TickEvent, Publication, no_publisher, published_at, publish_raised, record_error,
  after_publication, after_saving, process_tick,
}

-- 1 where a publication went out, where it raised, and where the saving raised
abbrev published_one : Publication → ℕ
published_one no_publisher = 0
published_one (published_at at) = 1
published_one publish_raised = 0

abbrev raised_one : Publication → ℕ
raised_one no_publisher = 0
raised_one (published_at at) = 0
raised_one publish_raised = 1

abbrev unsaved_one : Option Bool → ℕ
unsaved_one none = 0
unsaved_one (some true) = 0
unsaved_one (some false) = 1

-- the numbers of ticks that were published, whose publication raised, whose saving raised
abbrev pub published_in : List TickEvent → ℕ
published_in [] = 0
published_in (t ∷ ticks) = published_one t.publication + published_in ticks

abbrev pub raised_in : List TickEvent → ℕ
raised_in [] = 0
raised_in (t ∷ ticks) = raised_one t.publication + raised_in ticks

abbrev pub unsaved_in : List TickEvent → ℕ
unsaved_in [] = 0
unsaved_in (t ∷ ticks) = unsaved_one t.saved + unsaved_in ticks

-- ticks one after the other
abbrev pub process_all : List TickEvent → Feed → Feed
process_all [] f = f
process_all (t ∷ ticks) f = process_all ticks (process_tick t f)

abbrev pub publisher_error : Feed → ℕ
publisher_error f = error_total (codes "publisher", codes "critical") f.error_totals

abbrev pub repository_error : Feed → ℕ
repository_error f = error_total (codes "repository", codes "error") f.error_totals

-- the counters grow by these numbers, and the samples stay
record Change (published raised unsaved : ℕ) (f f' : Feed) : Type 0 where
  pub published_total : f'.published_total ≡ f.published_total + published
  pub failed_total : f'.failed_publishes_total ≡ f.failed_publishes_total + raised
  pub publisher_errors : publisher_error f' ≡ publisher_error f + raised
  pub repository_errors : repository_error f' ≡ repository_error f + unsaved
  pub samples : f'.latency_samples ≡ f.latency_samples
  pub same_max : f'.max_samples ≡ f.max_samples
  pub same_published : f'.last_published_total ≡ f.last_published_total
  pub same_failed : f'.last_failed_total ≡ f.last_failed_total

same-Change : (f : Feed) → Change 0 0 0 f f
same-Change f = record {
  published_total = omega arith;
  failed_total = omega arith;
  publisher_errors = omega arith;
  repository_errors = omega arith;
  samples = refl;
  same_max = refl;
  same_published = refl;
  same_failed = refl;
}

names_differ : str_eq (codes "publisher") (codes "repository") ≡ false
unfolding str_eq
names_differ = refl

names_differ' : str_eq (codes "repository") (codes "publisher") ≡ false
unfolding str_eq
names_differ' = refl

after_publication-Change :
    (p : Publication) (f : Feed)
    → Change (published_one p) (raised_one p) 0 f (after_publication p f)
unfolding after_publication record_error
after_publication-Change no_publisher f = same-Change f
after_publication-Change (published_at at) f = record {
  published_total = refl;
  failed_total = omega arith;
  publisher_errors = omega arith;
  repository_errors = omega arith;
  samples = refl;
  same_max = refl;
  same_published = refl;
  same_failed = refl;
}
after_publication-Change publish_raised f = record {
  published_total = omega arith;
  failed_total = refl;
  publisher_errors = error_total-bump (codes "publisher") (codes "critical") 1 f.error_totals;
  repository_errors =
      error_total-bump_ne (codes "publisher") (codes "repository") (codes "critical")
        (codes "error") 1 f.error_totals names_differ
      ∙ omega arith;
  samples = refl;
  same_max = refl;
  same_published = refl;
  same_failed = refl;
}

after_saving-Change : (o : Option Bool) (f : Feed) → Change 0 0 (unsaved_one o) f (after_saving o f)
unfolding after_saving record_error
after_saving-Change none f = same-Change f
after_saving-Change (some true) f = same-Change f
after_saving-Change (some false) f = record {
  published_total = omega arith;
  failed_total = omega arith;
  publisher_errors =
      error_total-bump_ne (codes "repository") (codes "publisher") (codes "error")
        (codes "critical") 1 f.error_totals names_differ'
      ∙ omega arith;
  repository_errors = error_total-bump (codes "repository") (codes "error") 1 f.error_totals;
  samples = refl;
  same_max = refl;
  same_published = refl;
  same_failed = refl;
}

length-append_bounded :
    {A : Type 0} (m : ℕ) (xs : List A) (x : A) → length (append_bounded m xs x) ≤ m
unfolding append_bounded
length-append_bounded m xs x =
    omega (arith, length-drop (length xs + 1 - m) (xs ++ x ∷ []), length-append xs (x ∷ []))

-- what the counters of the second state hold
pub record Counts (ticks : List TickEvent) (f f' : Feed) : Type 0 where
  pub published : f'.published_total ≡ f.published_total + published_in ticks
  pub failed : f'.failed_publishes_total ≡ f.failed_publishes_total + raised_in ticks
  pub publisher_errors : publisher_error f' ≡ publisher_error f + raised_in ticks
  pub repository_errors : repository_error f' ≡ repository_error f + unsaved_in ticks
  pub samples : length f'.latency_samples ≤ f.max_samples
  pub same_max : f'.max_samples ≡ f.max_samples
  pub same_published : f'.last_published_total ≡ f.last_published_total
  pub same_failed : f'.last_failed_total ≡ f.last_failed_total

pub process_tick-Counts : (t : TickEvent) (f : Feed) → Counts (t ∷ []) f (process_tick t f)
unfolding process_tick
process_tick-Counts t f =
    let seen : Feed = record f {
      latency_samples =
          append_bounded f.max_samples f.latency_samples (t.monotonic_now, t.now - t.timestamp);
      service = mark_subscription_activity t.symbol t.timestamp f.service;
      last_tick_seen_at = some t.now;
      have_seen_live_tick = true;
    } in
    let c = after_publication-Change t.publication seen in
    let d = after_saving-Change t.saved (after_publication t.publication seen) in
    record {
      published = omega (arith, c.published_total, d.published_total);
      failed = omega (arith, c.failed_total, d.failed_total);
      publisher_errors = omega (arith, c.publisher_errors, d.publisher_errors);
      repository_errors = omega (arith, c.repository_errors, d.repository_errors);
      samples = omega (
        arith,
        ap length d.samples,
        ap length c.samples,
        length-append_bounded f.max_samples f.latency_samples
            (t.monotonic_now, t.now - t.timestamp),
      );
      same_max = d.same_max ∙ c.same_max;
      same_published = d.same_published ∙ c.same_published;
      same_failed = d.same_failed ∙ c.same_failed;
    }

-- Whatever ticks are processed, the published total grows by the number of ticks that were
-- published, the failed total and the count of critical publisher errors each by the number of
-- ticks whose publication raised, the count of repository errors by the number of ticks whose
-- saving raised, and the deque of latency samples, within its maximum before, stays within it.
pub process_all-Counts :
    (ticks : List TickEvent) (f : Feed)
    → length f.latency_samples ≤ f.max_samples
    → Counts ticks f (process_all ticks f)
process_all-Counts [] f h = record {
  published = omega arith;
  failed = omega arith;
  publisher_errors = omega arith;
  repository_errors = omega arith;
  samples = h;
  same_max = refl;
  same_published = refl;
  same_failed = refl;
}
process_all-Counts (t ∷ ticks) f h =
    let c = process_tick-Counts t f in
    let d = process_all-Counts ticks (process_tick t f) (omega (arith, c.samples, c.same_max)) in
    record {
      published = omega (arith, c.published, d.published);
      failed = omega (arith, c.failed, d.failed);
      publisher_errors = omega (arith, c.publisher_errors, d.publisher_errors);
      repository_errors = omega (arith, c.repository_errors, d.repository_errors);
      samples = omega (arith, c.same_max, d.samples);
      same_max = d.same_max ∙ c.same_max;
      same_published = d.same_published ∙ c.same_published;
      same_failed = d.same_failed ∙ c.same_failed;
    }
