-- ===== src/FullFeed/Workflow/Served.antt =====
-- The workflow over the bulk handler of the server.
use xiaoy_md.Prelude.{ℕ, ◌+◌, ◌<◌, ◌≡◌, refl, List, [], ◌∷◌, Option, arith, ltb, count_if}
use xiaoy_md.Text.{Str, str_eq, str_eq_iff}
use xiaoy_md.Dict.{mem}
use xiaoy_md.Rpc.{handle_subscribe_bulk}
use xiaoy_md.Rpc.Bulk.{handle_subscribe_bulk-occurrences}
use xiaoy_md.FullFeed.Workflow.{Options, Rejection, Response, answered, Outside, start, run}
use xiaoy_md.FullFeed.Workflow.Conserved.{names, NamesAll}
use xiaoy_md.FullFeed.Workflow.Counts.{cnt, named, mem-cnt}
use xiaoy_md.FullFeed.Workflow.Potential.{potential, IsFair}
use xiaoy_md.FullFeed.Workflow.Finished.{IsSettled, run-start-IsSettled}
use xiaoy_md.Dict.Sets.{Unique}

-- the rejected items with the text of the exception
abbrev pub items : {R : Type 0} → (R → Str) → List (Str × R) → List Rejection
items message [] = []
items message ((symbol, reason) ∷ rejected) =
    record { symbol = symbol; reason = message reason } ∷ items message rejected

mem-count_if : (x : Str) (s : List Str) → ltb 0 (count_if (str_eq x) s) ≡ mem x s
unfolding mem
mem-count_if x [] = refl
mem-count_if x (y ∷ s) = ground (arith, mem-count_if x s, str_eq_iff x y, str_eq_iff y x)

cnt-count_if : (x : Str) (s : List Str) → count_if (str_eq x) s ≡ cnt x s
cnt-count_if x [] = refl
cnt-count_if x (y ∷ s) = ground (arith, cnt-count_if x s, str_eq_iff x y, str_eq_iff y x)

module _ {R S : Type 0} (message : R → Str) (subscribe_one : Str → S → Option R × S) where
  names-items :
      (x : Str) (rejected : List (Str × R))
      → names (items message rejected) x ≡ ltb 0 (count_if (λ e. str_eq x e.0) rejected)
  names-items x [] = refl
  names-items x ((y, reason) ∷ rejected) =
      ground (arith, names-items x rejected, str_eq_iff x y, str_eq_iff y x)

  named-items :
      (x : Str) (rejected : List (Str × R))
      → named x (items message rejected) ≡ count_if (λ e. str_eq x e.0) rejected
  named-items x [] = refl
  named-items x ((y, reason) ∷ rejected) =
      ground (arith, named-items x rejected, str_eq_iff x y, str_eq_iff y x)

  -- the server's side of `_bulk_subscribe`
  unfoldable pub answer : List Str → S → Response × S
  answer batch s =
      let (response, s') = handle_subscribe_bulk subscribe_one batch s in
      (answered response.accepted (items message response.rejected), s')

  answer-NamesAll : (batch : List Str) (s : S) → NamesAll batch (answer batch s).0
  unfolding answer
  answer-NamesAll batch s x h =
      let response = (handle_subscribe_bulk subscribe_one batch s).0 in
      ground (
        arith,
        handle_subscribe_bulk-occurrences subscribe_one x batch s,
        mem-count_if x response.accepted,
        names-items x response.rejected,
      )

  answer-IsFair : (batch : List Str) (s : S) → IsFair batch (answer batch s).0
  unfolding answer
  answer-IsFair batch s x =
      let response = (handle_subscribe_bulk subscribe_one batch s).0 in
      ground (
        arith,
        handle_subscribe_bulk-occurrences subscribe_one x batch s,
        mem-cnt x batch,
        cnt-count_if x response.accepted,
        named-items x response.rejected,
      )

  module _ (o : Options) (acquire : ℕ → S → Option S) (release : ℕ → S → S) where
    abbrev pub server : Outside S
    server = record { acquire = acquire; bulk_subscribe = answer; release = release }

    -- Over the server's own bulk handler, with any service behind it and any limiter, and with
    -- bounded retries, the loop ends on a list of different symbols: it lets an exception through,
    -- or every symbol is accepted or among the rejected items.
    pub run-server :
        (filtered active : List Str) (s : S)
        → 0 < o.max_retries
        → Unique filtered
        → let w = start o filtered active in
          IsSettled filtered (run o server (potential o w + 1) w s)
    run-server filtered active s bounded different =
        run-start-IsSettled o server answer-IsFair bounded answer-NamesAll filtered active s
          different
