-- ===== src/FullFeed/Workflow/Bounded.antt =====
-- The bounds of the workflow: the batch size, the retries, and each acceptance once.
use xiaoy_md.Prelude.{
  ℕ, ◌+◌, ◌≤◌, ◌<◌, ◌≡◌, refl, inl, inr, ◌||◌, List, [], ◌∷◌, ◌++◌, arith, leb, ◌==◌, length, take,
  drop, length-take, keep_if, min, max, Bool-cases, Option-cases, if◌then◌else◌,
}
use xiaoy_md.Text.{Str, str_eq}
use xiaoy_md.Dict.{Dict, lookup, insert, erase, mem}
use xiaoy_md.Dict.Laws.{lookup-insert}
use xiaoy_md.Dict.Sets.{Unique, Unique-append_one}
use xiaoy_md.FullFeed.Workflow.{
  Options, Rejection, Response, timed_out, failed, answered, Outside, Workflow, is_rate_limited,
  count_of, accept_each, sort_rejected, start, on_timeout, on_answer, continues, answer_round,
  round, Reachable, started, rounded,
}

pub record IsBounded (o : Options) (w : Workflow) : Type 0 where
  pub some_batch : 1 ≤ w.batch_limit
  pub full_batch : w.batch_limit ≤ max 1 o.batch_size
  pub once : Unique w.accepted
  -- no more retries than allowed, where they are bounded
  pub retries : 0 < o.max_retries → (x : Str) → count_of x w.retry_counts ≤ o.max_retries

-- the bounds speak of three fields
pub IsBounded-same :
    (o : Options) (w w' : Workflow)
    → w'.batch_limit ≡ w.batch_limit
    → w'.accepted ≡ w.accepted
    → w'.retry_counts ≡ w.retry_counts
    → IsBounded o w
    → IsBounded o w'
IsBounded-same o w w' limit accepted counts b = record {
  some_batch = rw limit b.some_batch;
  full_batch = rw limit b.full_batch;
  once = rw accepted b.once;
  retries = rw counts b.retries;
}

Unique-accept_each :
    (symbols accepted : List Str) (counts : Dict ℕ)
    → Unique accepted
    → Unique (accept_each symbols accepted counts).0
unfolding accept_each
Unique-accept_each [] accepted counts u = u
Unique-accept_each (y ∷ symbols) accepted counts u = elim (Bool-cases (mem y accepted)) [
  | inl known ↦ rw (known, accept_each) (Unique-accept_each symbols accepted counts u)
  | inr fresh ↦
      rw (fresh, accept_each)
        (Unique-accept_each symbols (accepted ++ y ∷ []) (erase y counts)
          (Unique-append_one accepted y u fresh))
]

pub count_of-insert :
    (x y : Str) (n : ℕ) (counts : Dict ℕ)
    → count_of x (insert y n counts) ≡ (if str_eq y x then n else count_of x counts)
count_of-insert x y n counts = ground (arith, lookup-insert y x n counts)

sort_rejected-retries :
    (o : Options) (x : Str) (items : List Rejection) (counts : Dict ℕ)
    → 0 < o.max_retries
    → ((y : Str) → count_of y counts ≤ o.max_retries)
    → count_of x (sort_rejected o items counts).2 ≤ o.max_retries
unfolding sort_rejected
sort_rejected-retries o x [] counts pos le = le x
sort_rejected-retries o x (item ∷ items) counts pos le =
    let more = count_of item.symbol counts + 1 in
    elim (Bool-cases (is_rate_limited item)) [
      | inr other ↦ rw (other, sort_rejected) (sort_rejected-retries o x items counts pos le)
      | inl limited ↦ elim (Bool-cases (o.max_retries == 0 || leb more o.max_retries)) [
        | inr spent ↦
            rw (limited, sort_rejected) (rw spent (sort_rejected-retries o x items counts pos le))
        | inl again ↦
            let kept : (y : Str) → count_of y (insert item.symbol more counts) ≤ o.max_retries =
              λ y. ground (arith, count_of-insert y item.symbol more counts, le y) in
            rw (limited, sort_rejected)
              (rw again (sort_rejected-retries o x items (insert item.symbol more counts) pos kept))
      ]
    ]

pub start-IsBounded :
    (o : Options) (filtered active : List Str) → IsBounded o (start o filtered active)
unfolding start lookup
start-IsBounded o filtered active = record {
  some_batch = omega arith;
  full_batch = omega arith;
  once = Unique-accept_each (keep_if (λ s. mem s filtered) active) [] [] tt;
  retries = λ pos x. omega arith;
}

-- a timeout of a batch that the limit allows
on_timeout-IsBounded :
    (o : Options) (batch : List Str) (w : Workflow)
    → length batch ≤ w.batch_limit
    → IsBounded o w
    → IsBounded o (on_timeout o batch w)
unfolding on_timeout
on_timeout-IsBounded o [] w le b = record {
  some_batch = omega arith;
  full_batch = omega arith;
  once = b.once;
  retries = b.retries;
}
on_timeout-IsBounded o (sym ∷ []) w le b =
    elim (Bool-cases (leb o.request_attempts (count_of sym w.timeout_counts + 1))) [
      | inl spent ↦ rw spent (IsBounded-same o w _ refl refl refl b)
      | inr again ↦ rw again (IsBounded-same o w _ refl refl refl b)
    ]
on_timeout-IsBounded o (sym ∷ y ∷ batch) w le b = record {
  some_batch = omega arith;
  full_batch = omega (arith, b.full_batch);
  once = b.once;
  retries = b.retries;
}

pub on_answer-IsBounded :
    (o : Options) (accepted : List Str) (rejected : List Rejection) (w : Workflow)
    → IsBounded o w
    → IsBounded o (on_answer o accepted rejected w)
unfolding on_answer
on_answer-IsBounded o accepted rejected w b = record {
  some_batch = b.some_batch;
  full_batch = b.full_batch;
  once = Unique-accept_each accepted w.accepted w.timeout_counts b.once;
  retries = λ pos x. sort_rejected-retries o x rejected w.retry_counts pos (b.retries pos);
}

answer_round-IsBounded :
    {W : Type 0} (o : Options) (outside : Outside W) (batch : List Str) (w w' : Workflow)
    (response : Response) (s s' : W)
    → answer_round o outside batch w response s ≡ continues w' s'
    → length batch ≤ w.batch_limit
    → IsBounded o w
    → IsBounded o w'
unfolding answer_round
answer_round-IsBounded o outside batch w w' timed_out s s' e le b =
    let same : on_timeout o batch w ≡ w' = cc e in rw (← same) (on_timeout-IsBounded o batch w le b)
answer_round-IsBounded o outside batch w w' failed s s' e le b = absurd (cc e)
answer_round-IsBounded o outside batch w w' (answered accepted rejected) s s' e le b =
    let same : on_answer o accepted rejected w ≡ w' = cc e in
    rw (← same) (on_answer-IsBounded o accepted rejected w b)

pub round-IsBounded :
    {W : Type 0} (o : Options) (outside : Outside W) (w w' : Workflow) (s s' : W)
    → round o outside w s ≡ continues w' s'
    → IsBounded o w
    → IsBounded o w'
unfolding round
round-IsBounded o outside w w' s s' e b =
    let n = min w.batch_limit (length w.pending) in
    let batch = take n w.pending in
    let rest : Workflow = record w { pending = drop n w.pending } in
    let b' : IsBounded o rest = IsBounded-same o w _ refl refl refl b in
    elim (Option-cases (outside.acquire n s)) [
      | inl refused ↦ absurd (cc (rw (refused, round) at e))
      | inr (t, granted) ↦
          answer_round-IsBounded o outside batch rest w' (outside.bulk_subscribe batch t).0
            (outside.bulk_subscribe batch t).1 s' (rw (granted, round) at e)
            (omega (arith, length-take n w.pending)) b'
    ]

-- Whenever the loop looks at its pending symbols, whatever the server answers and the limiter does,
-- a batch takes at least one symbol and no more than the batch size (one, where that is zero), no
-- symbol stands twice among the accepted ones, and none has been tried again more often than the
-- retries allowed, where these are bounded.
pub round-Reachable-IsBounded :
    {W : Type 0} (o : Options) (outside : Outside W) (filtered active : List Str) (w : Workflow)
    (s : W)
    → Reachable o outside filtered active w s
    → IsBounded o w
round-Reachable-IsBounded o outside filtered active w s started = start-IsBounded o filtered active
round-Reachable-IsBounded o outside filtered active w s (rounded {w = v} {s = t} r e) =
    round-IsBounded o outside v w t s e (round-Reachable-IsBounded o outside filtered active v t r)
