-- ===== src/FullFeed/Workflow/Counts.antt =====
-- Sums over lists of symbols, and how often a symbol stands in the lists of the workflow.
use xiaoy_md.Prelude.{
  ℕ, zero, suc, ◌+◌, ◌≤◌, ◌<◌, ◌≡◌, refl, ap, true, false, List, [], ◌∷◌, ◌++◌, arith, ltb, length,
  take, drop, count_if, if◌then◌else◌,
}
use xiaoy_md.Text.{Str, str_eq, str_eq_iff}
use xiaoy_md.Dict.{Dict, lookup, insert, erase, mem}
use xiaoy_md.Dict.Laws.{lookup-erase_ne}
use xiaoy_md.FullFeed.Workflow.{Options, Rejection, count_of, requeue, accept_each, sort_rejected}
use xiaoy_md.FullFeed.Workflow.Bounded.{count_of-insert}

-- how often a symbol stands in a list, and among the server's items
abbrev pub cnt : Str → List Str → ℕ
cnt x s = count_if (λ y. str_eq y x) s

abbrev pub named : Str → List Rejection → ℕ
named x items = count_if (λ item. str_eq item.symbol x) items

pub mem-cnt : (x : Str) (s : List Str) → mem x s ≡ ltb 0 (cnt x s)
unfolding mem
mem-cnt x [] = refl
mem-cnt x (y ∷ s) = ground (arith, mem-cnt x s)

pub cnt-take-drop : (x : Str) (n : ℕ) (s : List Str) → cnt x s ≡ cnt x (take n s) + cnt x (drop n s)
cnt-take-drop x zero s = omega arith
cnt-take-drop x (suc n) [] = refl
cnt-take-drop x (suc n) (y ∷ s) = ground (arith, cnt-take-drop x n s)

pub cnt-requeue :
    (x : Str) (symbols accepted pending : List Str)
    → cnt x (requeue symbols accepted pending)
      ≡ (if mem x accepted then 0 else cnt x symbols) + cnt x pending
unfolding requeue
cnt-requeue x [] accepted pending = ground arith
cnt-requeue x (y ∷ symbols) accepted pending =
    let same : str_eq y x ≡ true → mem y accepted ≡ mem x accepted =
      λ e. ap (λ s. mem s accepted) ((str_eq_iff y x).0 e) in
    ground (arith, cnt-requeue x symbols accepted pending, same)

pub cnt-sort_rejected :
    (o : Options) (x : Str) (items : List Rejection) (counts : Dict ℕ)
    → cnt x (sort_rejected o items counts).0 ≤ named x items
unfolding sort_rejected
cnt-sort_rejected o x [] counts = omega arith
cnt-sort_rejected o x (item ∷ items) counts = ground (
  arith,
  cnt-sort_rejected o x items counts,
  cnt-sort_rejected o x items (insert item.symbol (count_of item.symbol counts + 1) counts),
)

-- the retry counts only grow, by one at least for a symbol to try again
pub count_of-sort_rejected :
    (o : Options) (x : Str) (items : List Rejection) (counts : Dict ℕ)
    → let (limited, actionable, counts') = sort_rejected o items counts in
      count_of x counts + (if mem x limited then 1 else 0) ≤ count_of x counts'
unfolding sort_rejected mem
count_of-sort_rejected o x [] counts = omega arith
count_of-sort_rejected o x (item ∷ items) counts =
    let more = count_of item.symbol counts + 1 in
    let same : str_eq item.symbol x ≡ true → count_of item.symbol counts ≡ count_of x counts =
      λ e. ap (λ s. count_of s counts) ((str_eq_iff item.symbol x).0 e) in
    ground (
      arith,
      count_of-sort_rejected o x items counts,
      count_of-sort_rejected o x items (insert item.symbol more counts),
      count_of-insert x item.symbol more counts,
      same,
    )

-- accepting leaves the timeout counts of all other symbols
pub count_of-accept_each :
    (x : Str) (symbols accepted : List Str) (counts : Dict ℕ)
    → mem x symbols ≡ false
    → count_of x (accept_each symbols accepted counts).1 ≡ count_of x counts
unfolding accept_each mem
count_of-accept_each x [] accepted counts h = refl
count_of-accept_each x (y ∷ symbols) accepted counts h =
    let other : str_eq y x ≡ false → lookup x (erase y counts) ≡ lookup x counts =
      λ e. lookup-erase_ne y x counts (λ p. ground (arith, str_eq_iff y x)) in
    ground (
      arith,
      count_of-accept_each x symbols accepted counts,
      count_of-accept_each x symbols (accepted ++ y ∷ []) (erase y counts),
      other,
    )

-- the sum of a weight over a list
abbrev pub total : (Str → ℕ) → List Str → ℕ
total f [] = 0
total f (x ∷ s) = f x + total f s

pub total-le :
    (f g : Str → ℕ) (s : List Str)
    → ((x : Str) → mem x s ≡ true → f x ≤ g x)
    → total f s ≤ total g s
unfolding mem
total-le f g [] h = omega arith
total-le f g (x ∷ s) h =
    let rest = total-le f g s (λ y e. h y (ground (arith, e))) in
    let here = h x (ground (arith, str_eq_iff x x)) in omega (arith, rest, here)

pub total-take-drop :
    (f : Str → ℕ) (n : ℕ) (s : List Str) → total f s ≡ total f (take n s) + total f (drop n s)
total-take-drop f zero s = omega arith
total-take-drop f (suc n) [] = refl
total-take-drop f (suc n) (y ∷ s) = omega (arith, total-take-drop f n s)

pub length-le-total : (f : Str → ℕ) (s : List Str) → ((x : Str) → 1 ≤ f x) → length s ≤ total f s
length-le-total f [] h = omega arith
length-le-total f (x ∷ s) h = omega (arith, h x, length-le-total f s h)

-- a list without the first occurrence of a symbol
unfoldable remove : Str → List Str → List Str
remove x [] = []
remove x (y ∷ s) = if str_eq y x then s else y ∷ remove x s

total-remove :
    (f : Str → ℕ) (x : Str) (s : List Str) → 1 ≤ cnt x s → total f s ≡ f x + total f (remove x s)
unfolding remove
total-remove f x [] h = absurd (omega arith)
total-remove f x (y ∷ s) h =
    let same : str_eq y x ≡ true → f y ≡ f x = λ e. ap f ((str_eq_iff y x).0 e) in
    ground (arith, total-remove f x s, same)

cnt-remove :
    (x y : Str) (s : List Str) → cnt y s ≤ cnt y (remove x s) + (if str_eq x y then 1 else 0)
unfolding remove
cnt-remove x y [] = omega arith
cnt-remove x y (z ∷ s) =
    ground (arith, cnt-remove x y s, str_eq_iff z x, str_eq_iff z y, str_eq_iff x y)

-- a part of a list weighs no more
pub total-part :
    (f : Str → ℕ) (s t : List Str) → ((x : Str) → cnt x s ≤ cnt x t) → total f s ≤ total f t
total-part f [] t h = omega arith
total-part f (x ∷ s) t h =
    let here : 1 ≤ cnt x t = ground (arith, h x, str_eq_iff x x) in
    let fewer : (y : Str) → cnt y s ≤ cnt y (remove x t) =
      λ y. ground (arith, h y, cnt-remove x y t) in
    omega (arith, total-remove f x t here, total-part f s (remove x t) fewer)

pub total-requeue :
    (f : Str → ℕ) (symbols accepted pending : List Str)
    → total f (requeue symbols accepted pending) ≤ total f symbols + total f pending
unfolding requeue
total-requeue f [] accepted pending = omega arith
total-requeue f (x ∷ symbols) accepted pending =
    ground (arith, total-requeue f symbols accepted pending)

-- a weight that falls by one at least on every item
pub total-lt :
    (f g : Str → ℕ) (s : List Str)
    → ((x : Str) → mem x s ≡ true → f x < g x)
    → total f s + length s ≤ total g s
unfolding mem
total-lt f g [] h = omega arith
total-lt f g (x ∷ s) h =
    let rest = total-lt f g s (λ y e. h y (ground (arith, e))) in
    let here = h x (ground (arith, str_eq_iff x x)) in omega (arith, rest, here)

pub total-empty : (f : Str → ℕ) (s : List Str) → length s ≡ 0 → total f s ≡ 0
total-empty f [] h = refl
total-empty f (x ∷ s) h = absurd (omega arith)
