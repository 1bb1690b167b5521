-- ===== src/Adapter/Live/Requests.antt =====
-- A name is queued once, and never again.
use xiaoy_md.Prelude.{
  ◌≡◌, refl, ap, inl, inr, Bool, true, false, ◌||◌, not, List, [], ◌∷◌, ◌++◌, arith, All,
  All-append, Bool-cases,
}
use xiaoy_md.Text.{Str, strip, str_eq, str_eq_iff}
use xiaoy_md.Dict.{mem}
use xiaoy_md.Dict.Sets.{mem-append, Unique, Unique-append_one}
use xiaoy_md.Adapter.Live.{
  Live, is_vt, enqueue, request_subscribe, live_symbol, subscribe_live_hook,
}

-- the hook has nothing left to ask for
abbrev pub is_requested : Live → Str → Str → Bool
is_requested live symbol exchange =
    let vt = live_symbol symbol exchange in
    not (is_vt vt) || not (is_vt (strip vt)) || mem (strip vt) live.seen

pub subscribe_live_hook_again :
    (symbol exchange : Str) (live : Live)
    → is_requested live symbol exchange ≡ true
    → subscribe_live_hook symbol exchange live ≡ live
unfolding subscribe_live_hook request_subscribe enqueue
subscribe_live_hook_again symbol exchange live h = ground arith

pub subscribe_live_hook-is_requested :
    (symbol exchange : Str) (live : Live)
    → is_requested (subscribe_live_hook symbol exchange live) symbol exchange ≡ true
unfolding subscribe_live_hook request_subscribe enqueue mem
subscribe_live_hook-is_requested symbol exchange live =
    let vt = strip (live_symbol symbol exchange) in
    ground (arith, mem-append vt live.seen (vt ∷ []), str_eq_iff vt vt)

-- and what has been asked for stays so
pub is_requested-hook :
    (symbol exchange s e : Str) (live : Live)
    → is_requested live symbol exchange ≡ true
    → is_requested (subscribe_live_hook s e live) symbol exchange ≡ true
unfolding subscribe_live_hook request_subscribe enqueue
is_requested-hook symbol exchange s e live h =
    let vt = strip (live_symbol symbol exchange) in
    let vt' = strip (live_symbol s e) in ground (arith, mem-append vt live.seen (vt' ∷ []))

-- The queue holds no name twice, and only names that are marked as seen.
pub record IsValid (live : Live) : Type 0 where
  pub once : Unique live.queue
  pub marked : All (λ vt. mem vt live.seen ≡ true) live.queue
  pub dotted : All (λ vt. is_vt vt ≡ true) live.queue

mem-here : (vt : Str) → mem vt (vt ∷ []) ≡ true
unfolding mem
mem-here vt = ground (arith, str_eq_iff vt vt)

marked-later :
    (vt : Str) (seen names : List Str)
    → All (λ x. mem x seen ≡ true) names
    → All (λ x. mem x (seen ++ vt ∷ []) ≡ true) names
marked-later vt seen [] a = tt
marked-later vt seen (y ∷ names) a =
    (ground (arith, mem-append y seen (vt ∷ []), a.0), marked-later vt seen names a.1)

not_queued :
    (vt : Str) (seen names : List Str)
    → All (λ x. mem x seen ≡ true) names
    → mem vt seen ≡ false
    → mem vt names ≡ false
unfolding mem
not_queued vt seen [] a h = refl
not_queued vt seen (y ∷ names) a h =
    let same : str_eq y vt ≡ true → mem y seen ≡ mem vt seen =
      λ e. ap (λ s. mem s seen) ((str_eq_iff y vt).0 e) in
    ground (arith, same, a.0, not_queued vt seen names a.1 h)

enqueue-IsValid : (vt : Str) (live : Live) → IsValid live → IsValid (enqueue vt live)
unfolding enqueue
enqueue-IsValid vt live v = elim (Bool-cases (is_vt vt)) [
  | inr no_vt ↦ rw (no_vt, enqueue) v
  | inl fine ↦ elim (Bool-cases (mem vt live.seen)) [
    | inl known ↦ rw (fine, enqueue) (rw known v)
    | inr fresh ↦
        rw (fine, enqueue)
          (rw fresh (record {
            once =
                Unique-append_one live.queue vt v.once
                  (not_queued vt live.seen live.queue v.marked fresh);
            marked =
                All-append (λ x. mem x (live.seen ++ vt ∷ []) ≡ true) live.queue (vt ∷ [])
                  (marked-later vt live.seen live.queue v.marked)
                  (ground (arith, mem-append vt live.seen (vt ∷ []), mem-here vt), tt);
            dotted = All-append (λ x. is_vt x ≡ true) live.queue (vt ∷ []) v.dotted (fine, tt);
          }))
  ]
]

-- Asking for a name, whether it is queued or not, keeps the queue free of doubles, of names that
-- are not marked as seen, and of names with no dot.
request_subscribe-IsValid :
    (vt : Str) (live : Live) → IsValid live → IsValid (request_subscribe vt live)
unfolding request_subscribe
request_subscribe-IsValid vt live v = enqueue-IsValid (strip vt) live v
