-- ===== src/FullFeed/Limiter/Prune.antt =====
-- What `_prune` keeps of the times of the limiter.
use mathlib.Core.Path.{subst}
use xiaoy_md.Prelude.{
  ℕ, ◌+◌, ◌≤◌, ◌<◌, ◌≡◌, refl, inl, inr, List, [], ◌∷◌, arith, leb, leb→le, Bool-cases, length, All,
  All-append_right,
}
use xiaoy_md.RateWindow.{IsSorted, load, load-eq-length}
use xiaoy_md.RateWindow.Tracks.{Tracks, load-Tracks, Tracks-tail}
use xiaoy_md.FullFeed.Limiter.{prune}

pub length-prune-le : (w now : ℕ) (ts : List ℕ) → length (prune w now ts) ≤ length ts
unfolding prune
length-prune-le w now [] = omega arith
length-prune-le w now (t ∷ ts) = ground (arith, length-prune-le w now ts)

-- the first time that is kept is in the window
pub prune_head : (w now t : ℕ) (ts rest : List ℕ) → prune w now ts ≡ t ∷ rest → now < t + w
unfolding prune
prune_head w now t [] rest h = cc
prune_head w now t (s ∷ ts) rest h = ground (arith, prune_head w now t ts rest)

-- once the first time has left the window, pruning takes it
pub length-prune-lt :
    (w now t : ℕ) (ts : List ℕ) → t + w ≤ now → length (prune w now (t ∷ ts)) ≤ length ts
unfolding prune
length-prune-lt w now t ts h = ground (arith, length-prune-le w now ts)

prune_idem : (w now : ℕ) (ts : List ℕ) → prune w now (prune w now ts) ≡ prune w now ts
unfolding prune
prune_idem w now [] = refl
prune_idem w now (t ∷ ts) = ground (arith, prune_idem w now ts)

-- pruning forgets what has left the window
pub prune-Tracks :
    (w now : ℕ) (granted held : List ℕ)
    → Tracks w now granted held
    → Tracks w now granted (prune w now held)
unfolding prune
prune-Tracks w now granted [] k = k
prune-Tracks w now granted (x ∷ held) k = elim (Bool-cases (leb (x + w) now)) [
  | inl e ↦
      rw e (prune-Tracks w now granted held (Tracks-tail w now x granted held k (leb→le _ _ e)))
  | inr e ↦ rw e k
]

-- what is behind a time in the window is in the window
above_head :
    (w now x : ℕ) (xs : List ℕ) → now < x + w → All (λ y. x ≤ y) xs → All (λ g. now < g + w) xs
above_head w now x [] h k = tt
above_head w now x (y ∷ xs) h k = (omega arith, above_head w now x xs h k.1)

prune_in_window :
    (w now : ℕ) (held : List ℕ) → IsSorted held → All (λ g. now < g + w) (prune w now held)
unfolding prune
prune_in_window w now [] s = tt
prune_in_window w now (x ∷ held) s = elim (Bool-cases (leb (x + w) now)) [
  | inl e ↦ rw e (prune_in_window w now held s.1)
  | inr e ↦ rw e (ground arith, above_head w now x held (ground arith) s.0)
]

-- After pruning the limiter counts exactly what the specification counts.
pub length-prune :
    (w now : ℕ) (granted held : List ℕ)
    → Tracks w now granted held
    → length (prune w now held) ≡ load w now granted
length-prune w now granted held k =
    let k' = prune-Tracks w now granted held k in
    let past =
      All-append_right _ k'.forgotten (prune w now held)
        (subst (All (λ g. g ≤ now)) k'.split k'.past) in
    omega (
      arith,
      load-Tracks w now now granted (prune w now held) k' (omega arith),
      load-eq-length w now (prune w now held) past (prune_in_window w now held k.sorted),
    )
