-- ===== src/Service/Latency/Rank.antt =====
-- The percentile is the nearest rank (src/application/services.py, `_compute_latency_p99`).
use xiaoy_md.Prelude.{
  ℕ, zero, suc, ◌+◌, ◌*◌, ◌≤◌, ◌<◌, ◌≡◌, refl, ap, ◌∙◌, Bool, false, List, [], ◌∷◌, ltb, leb, ◌==◌,
  length, count_if, All, arith,
}
use xiaoy_md.Service.Latency.{
  Sample, popleft_before, insert_value, sorted_values, latencies, rank_of, get_value,
  compute_latency_p99,
}

length-insert_value :
    (v : ℕ) (values : List ℕ) → length (insert_value v values) ≡ suc (length values)
unfolding insert_value
length-insert_value v [] = refl
length-insert_value v (w ∷ values) = ground (arith, length-insert_value v values)

pub length-sorted_values : (values : List ℕ) → length (sorted_values values) ≡ length values
unfolding sorted_values
length-sorted_values [] = refl
length-sorted_values (v ∷ values) =
    omega (arith, length-sorted_values values, length-insert_value v (sorted_values values))

count-insert_value :
    (p : ℕ → Bool) (v : ℕ) (values : List ℕ)
    → count_if p (insert_value v values) ≡ count_if p (v ∷ values)
unfolding insert_value
count-insert_value p v [] = refl
count-insert_value p v (w ∷ values) = ground (arith, count-insert_value p v values)

count-sorted_values :
    (p : ℕ → Bool) (values : List ℕ) → count_if p (sorted_values values) ≡ count_if p values
unfolding sorted_values
count-sorted_values p [] = refl
count-sorted_values p (v ∷ values) =
    ground (arith, count-sorted_values p values, count-insert_value p v (sorted_values values))

-- no value stands before a smaller one
abbrev IsSorted : List ℕ → Type 0
IsSorted [] = Unit
IsSorted (v ∷ values) = All (λ w. v ≤ w) values × IsSorted values

All-insert_value :
    (b v : ℕ) (values : List ℕ)
    → b ≤ v
    → All (λ w. b ≤ w) values
    → All (λ w. b ≤ w) (insert_value v values)
unfolding insert_value
All-insert_value b v [] h a = (h, tt)
All-insert_value b v (w ∷ values) h a = ground (arith, All-insert_value b v values h a.1)

All-le : (a b : ℕ) (values : List ℕ) → a ≤ b → All (λ w. b ≤ w) values → All (λ w. a ≤ w) values
All-le a b [] le h = tt
All-le a b (w ∷ values) le h = (omega (arith, h.0), All-le a b values le h.1)

insert_value-IsSorted :
    (v : ℕ) (values : List ℕ) → IsSorted values → IsSorted (insert_value v values)
unfolding insert_value
insert_value-IsSorted v [] h = (tt, tt)
insert_value-IsSorted v (w ∷ values) h =
    ground
      (arith, All-le v w values, All-insert_value w v values, insert_value-IsSorted v values h.1)

sorted_values-IsSorted : (values : List ℕ) → IsSorted (sorted_values values)
unfolding sorted_values
sorted_values-IsSorted [] = tt
sorted_values-IsSorted (v ∷ values) =
    insert_value-IsSorted v (sorted_values values) (sorted_values-IsSorted values)

count_none :
    (v : ℕ) (values : List ℕ) → All (λ w. v ≤ w) values → count_if (λ w. ltb w v) values ≡ 0
count_none v [] h = refl
count_none v (w ∷ values) h = ground (arith, count_none v values h.1, h.0)

get_value-le :
    (b i : ℕ) (values : List ℕ)
    → All (λ w. b ≤ w) values
    → i < length values
    → b ≤ get_value i values
unfolding get_value
get_value-le b i [] h lt = absurd (omega (arith, lt))
get_value-le b zero (w ∷ values) h lt = h.0
get_value-le b (suc i) (w ∷ values) h lt = get_value-le b i values h.1 (omega arith)

-- in a sorted list, at most i values are less than the one at i, and at least i + 1 are at most it
get_value-rank :
    (i : ℕ) (values : List ℕ)
    → IsSorted values
    → i < length values
    → (count_if (λ w. ltb w (get_value i values)) values ≤ i)
      × (i < count_if (λ w. leb w (get_value i values)) values)
unfolding get_value
get_value-rank i [] s lt = absurd (omega (arith, lt))
get_value-rank zero (v ∷ values) s lt = (ground (arith, count_none v values s.0), ground arith)
get_value-rank (suc i) (v ∷ values) s lt =
    ground (arith, get_value-rank i values s.1, get_value-le v i values s.0)

length-latencies : (samples : List Sample) → length (latencies samples) ≡ length samples
length-latencies [] = refl
length-latencies ((at, latency) ∷ samples) = ap suc (length-latencies samples)

rank_of-bounds :
    (n : ℕ)
    → 0 < n
    → (rank_of n < n) × (99 * n ≤ 100 * (rank_of n + 1)) × (100 * rank_of n < 99 * n)
unfolding rank_of
rank_of-bounds n h = (omega arith, omega arith, omega arith)

p99-rank :
    (kept : List Sample)
    → 0 < length kept
    → let p =
        get_value
          (rank_of (length (sorted_values (latencies kept))))
          (sorted_values (latencies kept)) in
      (99 * length kept ≤ 100 * count_if (λ w. leb w p) (latencies kept))
      × (100 * count_if (λ w. ltb w p) (latencies kept) < 99 * length kept)
p99-rank kept h =
    let values = sorted_values (latencies kept) in
    let n : length values ≡ length kept =
      length-sorted_values (latencies kept) ∙ length-latencies kept in
    let i = rank_of (length values) in
    let p = get_value i values in
    let b = rank_of-bounds (length values) (omega (arith, n, h)) in
    let r = get_value-rank i values (sorted_values-IsSorted (latencies kept)) b.0 in
    (
      omega (arith, n, b.1, r.1, count-sorted_values (λ w. leb w p) (latencies kept)),
      omega (arith, n, b.2, r.0, count-sorted_values (λ w. ltb w p) (latencies kept)),
    )

-- When a sample is left in the window, the reported latency is the nearest-rank 99th percentile of
-- the samples that are left: at least 99 percent of their latencies are at most it, and less than
-- 99 percent of them are less than it.
pub compute_latency_p99-rank :
    (cutoff : ℕ) (samples : List Sample)
    → 0 < length (compute_latency_p99 cutoff samples).1
    → let (p, kept) = compute_latency_p99 cutoff samples in
      (99 * length kept ≤ 100 * count_if (λ w. leb w p) (latencies kept))
      × (100 * count_if (λ w. ltb w p) (latencies kept) < 99 * length kept)
unfolding compute_latency_p99
compute_latency_p99-rank cutoff samples h =
    let kept = popleft_before cutoff samples in
    let values = sorted_values (latencies kept) in
    let n : length values ≡ length kept =
      length-sorted_values (latencies kept) ∙ length-latencies kept in
    let nonzero : (length values == 0) ≡ false = ground (arith, n, h) in
    rw (nonzero) (p99-rank kept h)
