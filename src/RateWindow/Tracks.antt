-- ===== src/RateWindow/Tracks.antt =====
-- The link between a limiter's own list of recent grants and the list of all grants.
use mathlib.Core.Path.{subst}
use xiaoy_md.Prelude.{
  ℕ, zero, suc, ◌+◌, ◌≤◌, ◌≡◌, ◌∙◌, sym, List, [], ◌∷◌, ◌++◌, append_assoc, arith, replicate, All,
  All-map, All-append, All-append_right, All-replicate,
}
use xiaoy_md.RateWindow.{IsSorted, load, load-append, load_expired}

-- What a limiter that keeps only its newest grants has to know: `held` is the end of the list of
-- all grants, what it has forgotten has left the window, and no grant lies in the future.
pub record Tracks (window now : ℕ) (granted held : List ℕ) : Type 0 where
  pub forgotten : List ℕ
  pub split : granted ≡ forgotten ++ held
  pub expired : All (λ g. g + window ≤ now) forgotten
  pub sorted : IsSorted held
  pub past : All (λ g. g ≤ now) granted

-- such a limiter counts what the specification counts
pub load-Tracks :
    (w now t : ℕ) (granted held : List ℕ)
    → Tracks w now granted held
    → now ≤ t
    → load w t granted ≡ load w t held
load-Tracks w now t granted held k le =
    rw k.split (
      omega
        (arith, load-append w t k.forgotten held, load_expired w now t k.forgotten k.expired le))

pub All-past :
    (now later : ℕ) (xs : List ℕ) → now ≤ later → All (λ g. g ≤ now) xs → All (λ g. g ≤ later) xs
All-past now later xs le = All-map _ _ xs (λ a h. omega arith)

All-expired :
    (w now later : ℕ) (xs : List ℕ)
    → now ≤ later
    → All (λ g. g + w ≤ now) xs
    → All (λ g. g + w ≤ later) xs
All-expired w now later xs le = All-map _ _ xs (λ a h. omega arith)

-- time passes
pub Tracks-later :
    (w now later : ℕ) (granted held : List ℕ)
    → Tracks w now granted held
    → now ≤ later
    → Tracks w later granted held
Tracks-later w now later granted held k le = record {
  forgotten = k.forgotten;
  split = k.split;
  expired = All-expired w now later k.forgotten le k.expired;
  sorted = k.sorted;
  past = All-past now later granted le k.past;
}

-- the oldest grant is forgotten once it has left the window
pub Tracks-tail :
    (w now x : ℕ) (granted held : List ℕ)
    → Tracks w now granted (x ∷ held)
    → x + w ≤ now
    → Tracks w now granted held
Tracks-tail w now x granted held k gone = record {
  forgotten = k.forgotten ++ x ∷ [];
  split = k.split ∙ sym (append_assoc k.forgotten (x ∷ []) held);
  expired = All-append _ k.forgotten (x ∷ []) k.expired (gone, tt);
  sorted = k.sorted.1;
  past = k.past;
}

IsSorted-replicate : (n now : ℕ) → IsSorted (replicate n now)
IsSorted-replicate zero now = tt
IsSorted-replicate (suc n) now = (All-replicate _ n now (omega arith), IsSorted-replicate n now)

IsSorted-append :
    (now n : ℕ) (xs : List ℕ)
    → IsSorted xs
    → All (λ g. g ≤ now) xs
    → IsSorted (xs ++ replicate n now)
IsSorted-append now n [] s h = IsSorted-replicate n now
IsSorted-append now n (x ∷ xs) s h = (
  All-append _ xs (replicate n now) s.0 (All-replicate _ n now h.0),
  IsSorted-append now n xs s.1 h.1,
)

-- new grants, made now
pub Tracks-append :
    (w now n : ℕ) (granted held : List ℕ)
    → Tracks w now granted held
    → Tracks w now (granted ++ replicate n now) (held ++ replicate n now)
Tracks-append w now n granted held k = record {
  forgotten = k.forgotten;
  split = rw k.split (append_assoc k.forgotten held (replicate n now));
  expired = k.expired;
  sorted =
      IsSorted-append now n held k.sorted
        (All-append_right _ k.forgotten held (subst (All (λ g. g ≤ now)) k.split k.past));
  past = All-append _ granted (replicate n now) k.past (All-replicate _ n now (omega arith));
}
