-- ===== src/Adapter/Subscriptions/Stale.antt =====
-- A symbol with a space before the dot of its exchange: the key that `subscribe` records is not
-- the one that `unsubscribe` removes.
use xiaoy_md.Prelude.{◌+◌, ◌≡◌, ◌≢◌, sym, ap, ◌∙◌, true, false, none, some}
use xiaoy_md.Text.{Str, has_char, strip}
use xiaoy_md.Dict.{lookup, insert, erase}
use xiaoy_md.Dict.Laws.{lookup-insert_self, lookup-erase_self, lookup-erase_ne, insert-Distinct}
use xiaoy_md.Adapter.Live.{subscribe_live_hook}
use xiaoy_md.Domain.{MarketDataSubscription, valid, validate_symbol}
use xiaoy_md.Domain.Symbols.{validate_symbol-IsSymbol}
use xiaoy_md.Adapter.Subscriptions.{
  State, key_error, join_key, split_symbol, sub_id, record_new, existing, subscribe, unsubscribe,
  key_of,
}
use xiaoy_md.Adapter.Subscriptions.Keys.{split_symbol-no_dot, join_key_injective}
use xiaoy_md.Adapter.Subscriptions.Consistency.{IsConsistent}

-- the branches of the operations
unsubscribe_known :
    (id : Str) (sub : MarketDataSubscription) (s : State)
    → lookup id s.subs_by_id ≡ some sub
    → unsubscribe id s ≡ record s {
      subs_by_id = erase id s.subs_by_id;
      sub_id_by_symbol = erase (key_of sub) s.sub_id_by_symbol;
    }
unfolding unsubscribe
unsubscribe_known id sub s e = rw (e, unsubscribe)

existing_gone : (id : Str) (s : State) → lookup id s.subs_by_id ≡ none → existing id s ≡ key_error
unfolding existing
existing_gone id s e = rw (e, existing)

module _ (symbol : Str) where
  abbrev base_of : Str
  base_of = (split_symbol (strip symbol)).0

  abbrev exchange_of : Str
  exchange_of = (split_symbol (strip symbol)).1

  subscribe_known :
      (id : Str) (s : State)
      → lookup (join_key base_of exchange_of) s.sub_id_by_symbol ≡ some id
      → subscribe symbol s ≡ (existing id s, s)
  unfolding subscribe
  subscribe_known id s e = rw (e, subscribe)

  subscribe_new :
      (s : State)
      → lookup (join_key base_of exchange_of) s.sub_id_by_symbol ≡ none
      → subscribe symbol s ≡ record_new base_of exchange_of s
  unfolding subscribe
  subscribe_new s e = rw (e, subscribe)

module _ (base exchange stored : Str) (s : State) (no_dot : has_char b'.' exchange ≡ false)
    (spaced : strip base ≢ base) (accepted : validate_symbol base ≡ valid stored)
    (c : IsConsistent s) where
  abbrev new_id : Str
  new_id = sub_id (s.sub_seq + 1)

  abbrev new_sub : MarketDataSubscription
  new_sub = record { subscription_id = new_id; symbol = stored; exchange = exchange; active = true }

  -- the state after `subscribe`
  recorded : (record_new base exchange s).1 ≡ record {
    subs_by_id = insert new_id new_sub s.subs_by_id;
    sub_id_by_symbol = insert (join_key base exchange) new_id s.sub_id_by_symbol;
    sub_seq = s.sub_seq + 1;
    live = subscribe_live_hook base exchange s.live;
  }
  unfolding record_new
  recorded = rw (accepted, record_new)

  other_key : key_of new_sub ≢ join_key base exchange
  other_key p =
      let e = (join_key_injective stored base exchange exchange no_dot no_dot p).0 in
      spaced (sym ((validate_symbol-IsSymbol base stored).0 accepted).0 ∙ e)

  -- the state after `unsubscribe`
  removed : unsubscribe new_id (record_new base exchange s).1 ≡ record {
    subs_by_id = erase new_id (insert new_id new_sub s.subs_by_id);
    sub_id_by_symbol =
        erase (key_of new_sub) (insert (join_key base exchange) new_id s.sub_id_by_symbol);
    sub_seq = s.sub_seq + 1;
    live = subscribe_live_hook base exchange s.live;
  }
  removed =
      ap (unsubscribe new_id) recorded
      ∙ unsubscribe_known new_id new_sub _ (lookup-insert_self new_id new_sub s.subs_by_id)

  still_mapped :
      lookup
        (join_key base exchange)
        (unsubscribe new_id (record_new base exchange s).1).sub_id_by_symbol
      ≡ some new_id
  still_mapped = rw removed (
      rw
        (lookup-erase_ne (key_of new_sub) (join_key base exchange)
          (insert (join_key base exchange) new_id s.sub_id_by_symbol) other_key)
        (lookup-insert_self (join_key base exchange) new_id s.sub_id_by_symbol))

  gone : existing new_id (unsubscribe new_id (record_new base exchange s).1) ≡ key_error
  gone =
      ap (existing new_id) removed
      ∙ existing_gone new_id _ (
          lookup-erase_self new_id (insert new_id new_sub s.subs_by_id)
            (insert-Distinct new_id new_sub s.subs_by_id c.distinct_ids))

-- A valid symbol whose base has a space before the dot, subscribed to from a state in which the
-- dictionaries agree and its key is free, unsubscribed from by the id that it got, and subscribed
-- to again: the third call raises KeyError.
pub subscribe-key_error :
    (symbol stored : Str) (s : State)
    → let (base, exchange) = split_symbol (strip symbol) in
      strip base ≢ base
      → validate_symbol base ≡ valid stored
      → lookup (join_key base exchange) s.sub_id_by_symbol ≡ none
      → IsConsistent s
      → (subscribe symbol (unsubscribe (sub_id (s.sub_seq + 1)) (subscribe symbol s).1)).0
        ≡ key_error
subscribe-key_error symbol stored s spaced accepted free c =
    let base = (split_symbol (strip symbol)).0 in
    let exchange = (split_symbol (strip symbol)).1 in
    let no_dot = split_symbol-no_dot (strip symbol) in
    rw (subscribe_new symbol s free) (
      rw
        (subscribe_known symbol (sub_id (s.sub_seq + 1))
          (unsubscribe (sub_id (s.sub_seq + 1)) (record_new base exchange s).1)
          (still_mapped base exchange stored s no_dot spaced accepted c))
        (gone base exchange stored s no_dot spaced accepted c))
