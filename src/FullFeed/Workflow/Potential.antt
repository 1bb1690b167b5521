-- ===== src/FullFeed/Workflow/Potential.antt =====
-- A bound on the rounds to come, and what it does in a round.
use xiaoy_md.Prelude.{
  ℕ, ◌+◌, ◌-◌, ◌≤◌, ◌<◌, ◌≡◌, ap, true, false, List, [], ◌∷◌, arith, length, if◌then◌else◌,
}
use xiaoy_md.Text.{Str, str_eq, str_eq_iff}
use xiaoy_md.Dict.{Dict, insert, mem}
use xiaoy_md.FullFeed.Workflow.{
  Options, Rejection, Response, timed_out, failed, answered, Workflow, count_of, accept_each,
  sort_rejected, on_timeout, on_answer,
}
use xiaoy_md.FullFeed.Workflow.Conserved.{mem-accept_each}
use xiaoy_md.FullFeed.Workflow.Bounded.{IsBounded, on_answer-IsBounded, count_of-insert}
use xiaoy_md.FullFeed.Workflow.Counts.{
  cnt, named, mem-cnt, cnt-requeue, cnt-sort_rejected, count_of-sort_rejected, count_of-accept_each,
  total, total-le, total-lt, length-le-total, total-empty, total-part, total-requeue,
}

-- what a pending symbol may still cost: its request, and the retries left of both kinds
abbrev pub weight : Options → Dict ℕ → Dict ℕ → Str → ℕ
weight o retry_counts timeout_counts x =
    1 + (o.max_retries - count_of x retry_counts) + (o.request_attempts - count_of x timeout_counts)

abbrev pub weight_in : Options → Workflow → Str → ℕ
weight_in o w = weight o w.retry_counts w.timeout_counts

-- a bound on the rounds to come
abbrev pub potential : Options → Workflow → ℕ
potential o w = w.batch_limit + total (weight_in o w) w.pending

-- no symbol is pending twice, or pending and accepted
abbrev pub IsOnce : Workflow → Type 0
IsOnce w = (x : Str) → cnt x w.pending + (if mem x w.accepted then 1 else 0) ≤ 1

-- An answer names no symbol more often than it is asked for.
abbrev pub IsFair : List Str → Response → Type 0
IsFair batch timed_out = Unit
IsFair batch failed = Unit
IsFair batch (answered accepted rejected) =
    (x : Str) → cnt x accepted + named x rejected ≤ cnt x batch

-- a batch, and the rest of the pending symbols
abbrev pub IsTaken : List Str → Workflow → Type 0
IsTaken batch w =
    (x : Str) → cnt x batch + cnt x w.pending + (if mem x w.accepted then 1 else 0) ≤ 1

pub on_answer-IsOnce :
    (o : Options) (batch accepted : List Str) (rejected : List Rejection) (w : Workflow)
    → IsTaken batch w
    → IsFair batch (answered accepted rejected)
    → IsOnce (on_answer o accepted rejected w)
unfolding on_answer
on_answer-IsOnce o batch accepted rejected w taken fair x =
    let accepted' = (accept_each accepted w.accepted w.timeout_counts).0 in
    let limited = (sort_rejected o rejected w.retry_counts).0 in
    ground (
      arith,
      taken x,
      fair x,
      mem-cnt x accepted,
      mem-accept_each x accepted w.accepted w.timeout_counts,
      cnt-requeue x limited accepted' w.pending,
      cnt-sort_rejected o x rejected w.retry_counts,
    )

pub on_answer-potential :
    (o : Options) (batch accepted : List Str) (rejected : List Rejection) (w : Workflow)
    → 0 < o.max_retries
    → 1 ≤ length batch
    → IsBounded o w
    → IsTaken batch w
    → IsFair batch (answered accepted rejected)
    → potential o (on_answer o accepted rejected w)
      < w.batch_limit + total (weight_in o w) batch + total (weight_in o w) w.pending
unfolding on_answer
on_answer-potential o batch accepted rejected w bounded asking bound taken fair =
    let accepted' = (accept_each accepted w.accepted w.timeout_counts).0 in
    let limited = (sort_rejected o rejected w.retry_counts).0 in
    let w' = on_answer o accepted rejected w in
    let f = weight_in o w' in
    let g = weight_in o w in
    let few : (x : Str) → count_of x w'.retry_counts ≤ o.max_retries =
      (on_answer-IsBounded o accepted rejected w bound).retries bounded in
    let kept : (x : Str)
        → mem x accepted ≡ false
        → count_of x w'.timeout_counts ≡ count_of x w.timeout_counts =
      λ x e. count_of-accept_each x accepted w.accepted w.timeout_counts e in
    let lighter : (x : Str) → mem x limited ≡ true → f x < g x = λ x e.
      let out : mem x accepted ≡ false = ground (
        arith,
        e,
        taken x,
        fair x,
        mem-cnt x accepted,
        mem-cnt x limited,
        cnt-sort_rejected o x rejected w.retry_counts,
      ) in
      let grown = count_of-sort_rejected o x rejected w.retry_counts in
      ground (arith, e, few x, kept x out, grown) in
    let no_heavier : (x : Str) → mem x w.pending ≡ true → f x ≤ g x = λ x e.
      let out : mem x accepted ≡ false =
        ground (arith, e, taken x, fair x, mem-cnt x accepted, mem-cnt x w.pending) in
      let grown = count_of-sort_rejected o x rejected w.retry_counts in
      ground (arith, kept x out, grown) in
    let part : (x : Str) → cnt x limited ≤ cnt x batch =
      λ x. omega (arith, fair x, cnt-sort_rejected o x rejected w.retry_counts) in
    let back = total-requeue f limited accepted' w.pending in
    let rest = total-le f g w.pending no_heavier in
    let again = total-lt f g limited lighter in
    let inside = total-part g limited batch part in
    let asked = length-le-total g batch (λ x. omega arith) in
    let empty = total-empty f limited in ground (arith, back, rest, again, inside, asked, empty)

pub on_timeout-IsOnce :
    (o : Options) (batch : List Str) (w : Workflow)
    → IsTaken batch w
    → IsOnce (on_timeout o batch w)
unfolding on_timeout
on_timeout-IsOnce o [] w taken x = ground (arith, taken x, cnt-requeue x [] w.accepted w.pending)
on_timeout-IsOnce o (y ∷ []) w taken x = ground (arith, taken x)
on_timeout-IsOnce o (y ∷ z ∷ batch) w taken x =
    ground (arith, taken x, cnt-requeue x (y ∷ z ∷ batch) w.accepted w.pending)

pub on_timeout-potential :
    (o : Options) (batch : List Str) (w : Workflow)
    → 1 ≤ length batch
    → length batch ≤ w.batch_limit
    → potential o (on_timeout o batch w)
      < w.batch_limit + total (weight_in o w) batch + total (weight_in o w) w.pending
unfolding on_timeout
on_timeout-potential o [] w asking fits = absurd (omega arith)
on_timeout-potential o (y ∷ []) w asking fits =
    let count = count_of y w.timeout_counts + 1 in
    let f = weight o w.retry_counts (insert y count w.timeout_counts) in
    let g = weight_in o w in
    let lighter : (x : Str) → f x ≤ g x = λ x.
      let same : str_eq y x ≡ true → count_of y w.timeout_counts ≡ count_of x w.timeout_counts =
        λ e. ap (λ s. count_of s w.timeout_counts) ((str_eq_iff y x).0 e) in
      ground (arith, count_of-insert x y count w.timeout_counts, same) in
    let rest = total-le f g w.pending (λ x e. lighter x) in
    let here = count_of-insert y y count w.timeout_counts in
    ground (arith, rest, here, str_eq_iff y y)
on_timeout-potential o (y ∷ z ∷ batch) w asking fits =
    let back = total-requeue (weight_in o w) (y ∷ z ∷ batch) w.accepted w.pending in
    omega (arith, back)
