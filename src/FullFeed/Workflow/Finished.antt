-- ===== src/FullFeed/Workflow/Finished.antt =====
-- The workflow ends.
use xiaoy_md.Prelude.{
  ℕ, zero, suc, ◌+◌, ◌≤◌, ◌<◌, ◌≡◌, List-cases, refl, ◌⊎◌, ap, inl, inr, Bool, true, not, ◌||◌,
  List, [], ◌∷◌, arith, length, length-take, take, drop, keep_if, min, Option-cases,
}
use xiaoy_md.Text.{Str, str_eq, str_eq_iff}
use xiaoy_md.Dict.{mem}
use xiaoy_md.FullFeed.Workflow.{
  Options, Response, timed_out, failed, answered, Outside, Workflow, start, on_timeout, on_answer,
  Round, continues, raised, answer_round, round, Ending, finished, aborted, out_of_fuel, run,
}
use xiaoy_md.FullFeed.Workflow.Conserved.{rejects, has, NamesAll, start-has, round-has}
use xiaoy_md.Health.Sorted.{mem-keep_if}
use xiaoy_md.Dict.Sets.{Unique}
use xiaoy_md.FullFeed.Workflow.Bounded.{IsBounded-same, IsBounded, start-IsBounded, round-IsBounded}
use xiaoy_md.FullFeed.Workflow.Potential.{
  weight_in, potential, IsOnce, IsFair, IsTaken, on_answer-IsOnce, on_answer-potential,
  on_timeout-IsOnce, on_timeout-potential,
}
use xiaoy_md.FullFeed.Workflow.Counts.{cnt, mem-cnt, cnt-take-drop, total, total-take-drop}

cnt-keep_if : (p : Str → Bool) (x : Str) (s : List Str) → cnt x (keep_if p s) ≤ cnt x s
cnt-keep_if p x [] = omega arith
cnt-keep_if p x (y ∷ s) = ground (arith, cnt-keep_if p x s)

cnt-Unique : (x : Str) (s : List Str) → Unique s → cnt x s ≤ 1
cnt-Unique x [] u = omega arith
cnt-Unique x (y ∷ s) u =
    let same : str_eq y x ≡ true → mem y s ≡ mem x s =
      λ e. ap (λ z. mem z s) ((str_eq_iff y x).0 e) in
    ground (arith, cnt-Unique x s u.1, u.0, same, mem-cnt x s)

start-IsOnce :
    (o : Options) (filtered active : List Str) → Unique filtered → IsOnce (start o filtered active)
unfolding start
start-IsOnce o filtered active different x =
    let accepted = (start o filtered active).accepted in
    let p : Str → Bool = λ s. not (mem s accepted) in
    ground (
      arith,
      cnt-Unique x filtered different,
      cnt-keep_if p x filtered,
      mem-keep_if p x filtered,
      mem-cnt x (keep_if p filtered),
    )

-- The end of the loop: nothing is left open.
abbrev pub IsSettled : {W : Type 0} → List Str → Ending W → Type 0
IsSettled filtered (finished w s) =
    (x : Str) → mem x filtered ≡ true → (mem x w.accepted || rejects w.rejected_items x) ≡ true
IsSettled filtered aborted = Unit
IsSettled filtered out_of_fuel = ⊥

Round-cases :
    {W : Type 0} (r : Round W) → (r ≡ raised) ⊎ ((w : Workflow) × (s : W) × (r ≡ continues w s))
Round-cases raised = inl refl
Round-cases (continues w s) = inr (w, s, refl)

-- what a round does to the promises of the loop
abbrev Descends : Options → ℕ → Workflow → Type 0
Descends o bound w = IsOnce w × (potential o w < bound)

module _ {W : Type 0} (o : Options) (outside : Outside W)
    (fair : (batch : List Str) (s : W) → IsFair batch (outside.bulk_subscribe batch s).0)
    (bounded : 0 < o.max_retries) where
  answer_round-Descends :
      (batch : List Str) (w w' : Workflow) (response : Response) (s s' : W)
      → answer_round o outside batch w response s ≡ continues w' s'
      → 1 ≤ length batch
      → length batch ≤ w.batch_limit
      → IsBounded o w
      → IsTaken batch w
      → IsFair batch response
      → Descends o
          (w.batch_limit + total (weight_in o w) batch + total (weight_in o w) w.pending)
          w'
  unfolding answer_round
  answer_round-Descends batch w w' timed_out s s' e asking fits bound taken law =
      let same : on_timeout o batch w ≡ w' = cc e in
      rw (← same) (on_timeout-IsOnce o batch w taken, on_timeout-potential o batch w asking fits)
  answer_round-Descends batch w w' failed s s' e asking fits bound taken law = absurd (cc e)
  answer_round-Descends batch w w' (answered accepted rejected) s s' e asking fits bound taken law =
      let same : on_answer o accepted rejected w ≡ w' = cc e in
      rw (← same) (
        on_answer-IsOnce o batch accepted rejected w taken law,
        on_answer-potential o batch accepted rejected w bounded asking bound taken law,
      )

  round-Descends :
      (w w' : Workflow) (s s' : W)
      → round o outside w s ≡ continues w' s'
      → 1 ≤ length w.pending
      → IsBounded o w
      → IsOnce w
      → Descends o (potential o w) w'
  unfolding round
  round-Descends w w' s s' e asking b once =
      let n = min w.batch_limit (length w.pending) in
      let batch = take n w.pending in
      let rest : Workflow = record w { pending = drop n w.pending } in
      let size = length-take n w.pending in
      let b' : IsBounded o rest = IsBounded-same o w rest refl refl refl b in
      let taken : IsTaken batch rest = λ x. ground (arith, once x, cnt-take-drop x n w.pending) in
      let whole = total-take-drop (weight_in o w) n w.pending in
      elim (Option-cases (outside.acquire n s)) [
        | inl refused ↦ absurd (cc (rw (refused, round) at e))
        | inr (t, granted) ↦
            let (only, less) =
              answer_round-Descends batch rest w' (outside.bulk_subscribe batch t).0
                (outside.bulk_subscribe batch t).1 s' (rw (granted, round) at e)
                (omega (arith, size, b.some_batch)) (omega (arith, size)) b' taken (fair batch t) in
            (only, omega (arith, less, whole))
      ]

  module _
      (complete : (batch : List Str) (s : W)
        → NamesAll batch (outside.bulk_subscribe batch s).0) where
    run-IsSettled :
        (fuel : ℕ) (filtered : List Str) (w : Workflow) (s : W)
        → potential o w < fuel
        → IsBounded o w
        → IsOnce w
        → ((x : Str) → mem x filtered ≡ true → has w x ≡ true)
        → IsSettled filtered (run o outside fuel w s)
    unfolding run mem
    run-IsSettled zero filtered w s lt b once all = absurd (omega arith)
    run-IsSettled (suc fuel) filtered w s lt b once all = elim (List-cases w.pending) [
      | inl e ↦ rw (e, run) (λ x h. let known = rw e at (all x h) in ground (arith, known))
      | inr (y, rest, e) ↦ elim (Round-cases (round o outside w s)) [
        | inl f ↦ rw (e, run) (rw f tt)
        | inr (w', s', f) ↦
            let (only, less) = round-Descends w w' s s' f (rw e (omega arith)) b once in
            let next =
              run-IsSettled fuel filtered w' s' (omega (arith, less))
                (round-IsBounded o outside w w' s s' f b) only
                (λ x h. round-has o outside complete x w w' s s' f (all x h)) in
            rw (e, run) (rw f next)
      ]
    ]

    -- When retries are bounded, the filtered symbols differ, and each answer of the server names
    -- the symbols that it was asked for, none more often than asked, the loop ends, whatever times
    -- out, is rejected or is refused: it lets an exception through, or every filtered symbol is
    -- accepted or among the rejected items. The potential of the start bounds the rounds.
    pub run-start-IsSettled :
        (filtered active : List Str) (s : W)
        → Unique filtered
        → let w = start o filtered active in
          IsSettled filtered (run o outside (potential o w + 1) w s)
    run-start-IsSettled filtered active s different =
        let w = start o filtered active in
        run-IsSettled (potential o w + 1) filtered w s (omega arith)
          (start-IsBounded o filtered active) (start-IsOnce o filtered active different)
          (λ x h. start-has o x filtered active h)
