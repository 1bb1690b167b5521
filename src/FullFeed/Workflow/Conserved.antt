-- ===== src/FullFeed/Workflow/Conserved.antt =====
-- No symbol of the workflow gets lost.
use xiaoy_md.Prelude.{
  ℕ, zero, suc, ◌+◌, ◌≡◌, refl, ap, inl, inr, Bool, true, false, not, ◌&&◌, ◌||◌, List, [], ◌∷◌,
  ◌++◌, arith, length, take, drop, keep_if, min, Option-cases,
}
use xiaoy_md.Text.{Str, str_eq, str_eq_iff}
use xiaoy_md.Dict.{Dict, insert, erase, mem}
use xiaoy_md.Dict.Sets.{mem-append}
use xiaoy_md.Health.Sorted.{mem-keep_if}
use xiaoy_md.FullFeed.Workflow.{
  Options, Rejection, RejectedItem, Response, timed_out, failed, answered, Outside, Workflow,
  count_of, requeue, accept_each, sort_rejected, start, timeout_item, on_timeout, on_answer,
  continues, answer_round, round, Reachable, started, rounded,
}

-- the symbols of the items
abbrev pub rejects : List RejectedItem → Str → Bool
rejects [] x = false
rejects (item ∷ items) x = str_eq item.symbol x || rejects items x

-- the symbols of the server's items
abbrev pub names : List Rejection → Str → Bool
names [] x = false
names (item ∷ items) x = str_eq item.symbol x || names items x

mem-requeue :
    (x : Str) (symbols accepted pending : List Str)
    → mem x (requeue symbols accepted pending)
      ≡ ((mem x symbols && not (mem x accepted)) || mem x pending)
unfolding requeue mem
mem-requeue x [] accepted pending = refl
mem-requeue x (y ∷ symbols) accepted pending =
    let same : str_eq y x ≡ true → mem y accepted ≡ mem x accepted =
      λ e. ap (λ s. mem s accepted) ((str_eq_iff y x).0 e) in
    ground (arith, mem-requeue x symbols accepted pending, same)

pub mem-accept_each :
    (x : Str) (symbols accepted : List Str) (counts : Dict ℕ)
    → mem x (accept_each symbols accepted counts).0 ≡ (mem x accepted || mem x symbols)
unfolding accept_each mem
mem-accept_each x [] accepted counts = ground arith
mem-accept_each x (y ∷ symbols) accepted counts =
    let same : str_eq y x ≡ true → mem y accepted ≡ mem x accepted =
      λ e. ap (λ s. mem s accepted) ((str_eq_iff y x).0 e) in
    ground (
      arith,
      mem-accept_each x symbols accepted counts,
      mem-accept_each x symbols (accepted ++ y ∷ []) (erase y counts),
      mem-append x accepted (y ∷ []),
      same,
    )

sort_rejected-names :
    (o : Options) (x : Str) (items : List Rejection) (counts : Dict ℕ)
    → let (limited, actionable, counts') = sort_rejected o items counts in
      names items x ≡ (mem x limited || rejects actionable x)
unfolding sort_rejected mem
sort_rejected-names o x [] counts = refl
sort_rejected-names o x (item ∷ items) counts = ground (
  arith,
  sort_rejected-names o x items counts,
  sort_rejected-names o x items (insert item.symbol (count_of item.symbol counts + 1) counts),
)

rejects-append :
    (items more : List RejectedItem) (x : Str)
    → rejects (items ++ more) x ≡ (rejects items x || rejects more x)
rejects-append [] more x = refl
rejects-append (item ∷ items) more x = ground (arith, rejects-append items more x)

mem-take-drop : (x : Str) (n : ℕ) (s : List Str) → mem x s ≡ (mem x (take n s) || mem x (drop n s))
unfolding mem
mem-take-drop x zero s = refl
mem-take-drop x (suc n) [] = refl
mem-take-drop x (suc n) (y ∷ s) = ground (arith, mem-take-drop x n s)

-- the workflow has the symbol: accepted, rejected or still to ask for
abbrev pub has : Workflow → Str → Bool
has w x = mem x w.accepted || (rejects w.rejected_items x || mem x w.pending)

on_timeout-has :
    (o : Options) (x : Str) (batch : List Str) (w : Workflow)
    → (mem x batch || has w x) ≡ true
    → has (on_timeout o batch w) x ≡ true
unfolding on_timeout mem
on_timeout-has o x [] w h = ground (arith, mem-requeue x [] w.accepted w.pending)
on_timeout-has o x (sym ∷ []) w h =
    ground (arith, rejects-append w.rejected_items (timeout_item sym ∷ []) x)
on_timeout-has o x (sym ∷ y ∷ batch) w h =
    ground (arith, mem-requeue x (sym ∷ y ∷ batch) w.accepted w.pending)

on_answer-has :
    (o : Options) (x : Str) (accepted : List Str) (rejected : List Rejection) (w : Workflow)
    → (mem x accepted || (names rejected x || has w x)) ≡ true
    → has (on_answer o accepted rejected w) x ≡ true
unfolding on_answer
on_answer-has o x accepted rejected w h =
    let (limited, actionable, counts) = sort_rejected o rejected w.retry_counts in
    ground (
      arith,
      mem-accept_each x accepted w.accepted w.timeout_counts,
      sort_rejected-names o x rejected w.retry_counts,
      rejects-append w.rejected_items actionable x,
      mem-requeue x limited (accept_each accepted w.accepted w.timeout_counts).0 w.pending,
    )

pub start-has :
    (o : Options) (x : Str) (filtered active : List Str)
    → mem x filtered ≡ true
    → has (start o filtered active) x ≡ true
unfolding start
start-has o x filtered active h =
    let accepted = (accept_each (keep_if (λ s. mem s filtered) active) [] []).0 in
    ground (arith, mem-keep_if (λ s. not (mem s accepted)) x filtered)

-- An answer names every symbol that it is asked for.
abbrev pub NamesAll : List Str → Response → Type 0
NamesAll batch timed_out = Unit
NamesAll batch failed = Unit
NamesAll batch (answered accepted rejected) =
    (x : Str) → mem x batch ≡ true → (mem x accepted || names rejected x) ≡ true

module _ {W : Type 0} (o : Options) (outside : Outside W)
    (complete : (batch : List Str) (s : W)
      → NamesAll batch (outside.bulk_subscribe batch s).0) where
  answer_round-has :
      (x : Str) (batch : List Str) (w w' : Workflow) (response : Response) (s s' : W)
      → answer_round o outside batch w response s ≡ continues w' s'
      → NamesAll batch response
      → (mem x batch || has w x) ≡ true
      → has w' x ≡ true
  unfolding answer_round
  answer_round-has x batch w w' timed_out s s' e all h =
      let same : on_timeout o batch w ≡ w' = cc e in rw (← same) (on_timeout-has o x batch w h)
  answer_round-has x batch w w' failed s s' e all h = absurd (cc e)
  answer_round-has x batch w w' (answered accepted rejected) s s' e all h =
      let same : on_answer o accepted rejected w ≡ w' = cc e in
      rw (← same) (on_answer-has o x accepted rejected w (ground (arith, all x)))

  pub round-has :
      (x : Str) (w w' : Workflow) (s s' : W)
      → round o outside w s ≡ continues w' s'
      → has w x ≡ true
      → has w' x ≡ true
  unfolding round
  round-has x w w' s s' e h =
      let n = min w.batch_limit (length w.pending) in
      let batch = take n w.pending in
      elim (Option-cases (outside.acquire n s)) [
        | inl refused ↦ absurd (cc (rw (refused, round) at e))
        | inr (t, granted) ↦
            answer_round-has x batch (record w { pending = drop n w.pending }) w'
              (outside.bulk_subscribe batch t).0 (outside.bulk_subscribe batch t).1 s'
              (rw (granted, round) at e) (complete batch t)
              (ground (arith, mem-take-drop x n w.pending))
      ]

  -- Whenever the loop looks at its pending symbols, every filtered symbol is accepted, rejected or
  -- pending, whatever times out, is rejected or is refused by the rate limit, when each answer of
  -- the server names the symbols that it was asked for.
  pub round-Reachable :
      (filtered active : List Str) (x : Str) (w : Workflow) (s : W)
      → Reachable o outside filtered active w s
      → mem x filtered ≡ true
      → has w x ≡ true
  round-Reachable filtered active x w s started h = start-has o x filtered active h
  round-Reachable filtered active x w s (rounded {w = v} {s = t} r e) h =
      round-has x v w t s e (round-Reachable filtered active x v t r h)
