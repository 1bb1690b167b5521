-- ===== src/Adapter/Subscriptions/Replay.antt =====
-- What `resubscribe_all` asks of the connector. `_SEEN_SUBS` is never emptied, so a name that was
-- asked for once is not queued again.
use xiaoy_md.Prelude.{
  ◌≡◌, refl, ap, Bool, true, false, List, [], ◌∷◌, All, All-map, Option-cases, inl, inr, Bool-cases,
}
use xiaoy_md.Text.{Str, strip, str_eq}
use xiaoy_md.Text.Strip.{strip_idem}
use xiaoy_md.Dict.{Dict, lookup, insert, erase, values}
use xiaoy_md.Domain.{
  MarketDataSubscription, Validated, valid, empty_symbol, invalid_symbol, validate_symbol,
}
use xiaoy_md.Domain.Symbols.{validate_symbol-IsSymbol}
use xiaoy_md.Adapter.Live.{Live, live_symbol, subscribe_live_hook, drain_subscribe_queue}
use xiaoy_md.Adapter.Live.Requests.{
  is_requested, subscribe_live_hook_again, subscribe_live_hook-is_requested, is_requested-hook,
}
use xiaoy_md.Adapter.Subscriptions.{
  State, join_key, split_symbol, record_new, subscribe, unsubscribe, replay, resubscribe_all,
}

module _ {ℓ} (P : MarketDataSubscription → Type ℓ) where
  All-values-insert :
      (k : Str) (v : MarketDataSubscription) (d : Dict MarketDataSubscription)
      → P v
      → All P (values d)
      → All P (values (insert k v d))
  unfolding insert
  All-values-insert k v [] p h = (p, tt)
  All-values-insert k v ((j, w) ∷ d) p h = elim (Bool-cases (str_eq j k)) [
    | inl e ↦ rw e (p, h.1)
    | inr e ↦ rw e (h.0, All-values-insert k v d p h.1)
  ]

  All-values-erase :
      (k : Str) (d : Dict MarketDataSubscription) → All P (values d) → All P (values (erase k d))
  unfolding erase
  All-values-erase k [] h = tt
  All-values-erase k ((j, w) ∷ d) h = elim (Bool-cases (str_eq j k)) [
    | inl e ↦ rw e h.1
    | inr e ↦ rw e (h.0, All-values-erase k d h.1)
  ]

abbrev Asked : Live → MarketDataSubscription → Type 0
Asked live sub = is_requested live sub.symbol sub.exchange ≡ true

-- every subscription of the adapter has been asked for
abbrev pub AllRequested : State → Type 0
AllRequested s = All (Asked s.live) (values s.subs_by_id)

live_symbol-strip : (s e : Str) → live_symbol (strip s) e ≡ live_symbol s e
unfolding live_symbol
live_symbol-strip s e = rw (strip_idem s)

record_new-AllRequested :
    (base exchange : Str) (s : State) → AllRequested s → AllRequested (record_new base exchange s).1
unfolding record_new
record_new-AllRequested base exchange s h = go (validate_symbol base) refl
  where
    go : (r : Validated) → validate_symbol base ≡ r → AllRequested (record_new base exchange s).1
    go (valid symbol) e =
        let same : symbol ≡ strip base = ((validate_symbol-IsSymbol base symbol).0 e).0 in
        rw (e, record_new)
          (All-values-insert (Asked (subscribe_live_hook base exchange s.live)) _ _ s.subs_by_id
            (rw (same, live_symbol-strip) (subscribe_live_hook-is_requested base exchange s.live))
            (All-map (Asked s.live) _ (values s.subs_by_id)
              (λ sub. is_requested-hook sub.symbol sub.exchange base exchange s.live) h))
    go empty_symbol e = rw (e, record_new) h
    go (invalid_symbol v) e = rw (e, record_new) h

replay_nothing :
    (subs : List MarketDataSubscription) (live : Live)
    → All (Asked live) subs
    → replay subs live ≡ live
unfolding replay
replay_nothing [] live h = refl
replay_nothing (sub ∷ subs) live h =
    rw (subscribe_live_hook_again sub.symbol sub.exchange live h.0) (replay_nothing subs live h.1)

-- The states that the adapter and the connector come to, from the empty one.
pub data Reachable : State → Type 0 where
  start : Reachable (record {
    subs_by_id = [];
    sub_id_by_symbol = [];
    sub_seq = 0;
    live = record { seen = []; queue = [] };
  })
  subscribing : {s : State} (symbol : Str) → Reachable s → Reachable (subscribe symbol s).1
  unsubscribing : {s : State} (id : Str) → Reachable s → Reachable (unsubscribe id s)
  replaying : {s : State} → Reachable s → Reachable (resubscribe_all s)
  draining :
      {s : State} (available : Bool)
      → Reachable s
      → Reachable (record s { live = (drain_subscribe_queue available s.live).1 })

subscribe-AllRequested :
    (symbol : Str) (s : State) → AllRequested s → AllRequested (subscribe symbol s).1
unfolding subscribe
subscribe-AllRequested symbol s h =
    let base = (split_symbol (strip symbol)).0 in
    let exchange = (split_symbol (strip symbol)).1 in
    elim (Option-cases (lookup (join_key base exchange) s.sub_id_by_symbol)) [
      | inl e ↦ rw (e, subscribe) (record_new-AllRequested base exchange s h)
      | inr (id, e) ↦ rw (e, subscribe) h
    ]

unsubscribe-AllRequested : (id : Str) (s : State) → AllRequested s → AllRequested (unsubscribe id s)
unfolding unsubscribe
unsubscribe-AllRequested id s h = elim (Option-cases (lookup id s.subs_by_id)) [
  | inl e ↦ rw (e, unsubscribe) h
  | inr (sub, e) ↦ rw (e, unsubscribe) (All-values-erase (Asked s.live) id s.subs_by_id h)
]

resubscribe_all_nothing : (s : State) → AllRequested s → resubscribe_all s ≡ s
unfolding resubscribe_all
resubscribe_all_nothing s h =
    ap (λ l. record s { live = l }) (replay_nothing (values s.subs_by_id) s.live h)

drain-AllRequested :
    (available : Bool) (s : State)
    → AllRequested s
    → AllRequested (record s { live = (drain_subscribe_queue available s.live).1 })
unfolding drain_subscribe_queue
drain-AllRequested true s h = h
drain-AllRequested false s h = h

Reachable-AllRequested : {s : State} → Reachable s → AllRequested s
Reachable-AllRequested start = tt
Reachable-AllRequested (subscribing {s} symbol r) =
    subscribe-AllRequested symbol s (Reachable-AllRequested r)
Reachable-AllRequested (unsubscribing {s} id r) =
    unsubscribe-AllRequested id s (Reachable-AllRequested r)
Reachable-AllRequested (replaying {s} r) =
    rw (resubscribe_all_nothing s (Reachable-AllRequested r)) (Reachable-AllRequested r)
Reachable-AllRequested (draining {s} available r) =
    drain-AllRequested available s (Reachable-AllRequested r)

-- In every state that the adapter and the connector come to, replaying the subscriptions changes
-- nothing: no name is put into the connector's queue, also after the queue was drained into a
-- session that has ended since.
pub resubscribe_all-Reachable : {s : State} → Reachable s → resubscribe_all s ≡ s
resubscribe_all-Reachable {s} r = resubscribe_all_nothing s (Reachable-AllRequested r)
