-- ===== src/Service/Latency.antt =====
-- `_compute_latency_p99` of `MarketDataService` (src/application/services.py): the nearest-rank
-- percentile of the samples in the window. A sample is its time and its latency, in milliseconds;
-- 0.99 * n is computed exactly.
pub mod Rank
use xiaoy_md.Prelude.{
  ℕ, zero, suc, ◌+◌, ◌-◌, ◌*◌, ◌/◌, ◌≤◌, ◌<◌, min, max, Bool, true, false, List, [], ◌∷◌, ltb, leb,
  map, length, ◌==◌, if◌then◌else◌,
}

abbrev pub Sample : Type 0
Sample = ℕ × ℕ

-- `while samples and samples[0][0] < cutoff: samples.popleft()`
unfoldable pub popleft_before : ℕ → List Sample → List Sample
popleft_before cutoff [] = []
popleft_before cutoff ((at, latency) ∷ samples) =
    if ltb at cutoff then popleft_before cutoff samples else (at, latency) ∷ samples

unfoldable pub insert_value : ℕ → List ℕ → List ℕ
insert_value v [] = v ∷ []
insert_value v (w ∷ values) = if leb v w then v ∷ w ∷ values else w ∷ insert_value v values

-- `sorted` of the latencies
unfoldable pub sorted_values : List ℕ → List ℕ
unfolding insert_value
sorted_values [] = []
sorted_values (v ∷ values) = insert_value v (sorted_values values)

abbrev pub latencies : List Sample → List ℕ
latencies [] = []
latencies ((at, latency) ∷ samples) = latency ∷ latencies samples

-- `max(0, min(n - 1, math.ceil(0.99 * n) - 1))`
unfoldable pub rank_of : ℕ → ℕ
rank_of n = max 0 (min (n - 1) ((99 * n + 99) / 100 - 1))

-- `values[i]`; no index of the code is out of range
unfoldable pub get_value : ℕ → List ℕ → ℕ
get_value i [] = 0
get_value zero (v ∷ values) = v
get_value (suc i) (v ∷ values) = get_value i values

-- the percentile, and the samples that are left
unfoldable pub compute_latency_p99 : ℕ → List Sample → ℕ × List Sample
unfolding popleft_before sorted_values rank_of get_value
compute_latency_p99 cutoff samples =
    let kept = popleft_before cutoff samples in
    let values = sorted_values (latencies kept) in
    ((if length values == 0 then 0 else get_value (rank_of (length values)) values), kept)
