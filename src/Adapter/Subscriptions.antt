-- ===== src/Adapter/Subscriptions.antt =====
-- `CTPGatewayAdapter.subscribe`, `unsubscribe` and `resubscribe_all`
-- (src/infrastructure/ctp_adapter.py), over the two dictionaries, the sequence number and the
-- connector's queue. A method returns its outcome beside the new state: what was written before an
-- exception stays written.
pub mod Keys
pub mod Consistency
pub mod Preserved
pub mod Replay
pub mod Stale
use xiaoy_md.Prelude.{ℕ, ◌+◌, true, List, [], ◌∷◌, ◌++◌, none, some}
use xiaoy_md.Text.{Str, codes, strip, split_last}
use xiaoy_md.Text.Decimal.{decimal}
use xiaoy_md.Dict.{Dict, lookup, insert, erase, values}
use xiaoy_md.Domain.{MarketDataSubscription, valid, empty_symbol, invalid_symbol, validate_symbol}
use xiaoy_md.Adapter.Live.{Live, subscribe_live_hook}

pub record State : Type 0 where
  pub subs_by_id : Dict MarketDataSubscription
  pub sub_id_by_symbol : Dict Str
  pub sub_seq : ℕ
  pub live : Live

-- `key_error` and `validation_error` are the exceptions that `subscribe` lets through.
pub data Outcome : Type 0 where
  subscribed : MarketDataSubscription → Outcome
  key_error : Outcome
  validation_error : Outcome

abbrev pub join_key : Str → Str → Str
join_key base exchange = base ++ b'.' ∷ exchange

-- the base symbol and the exchange of a stripped symbol
unfoldable pub split_symbol : Str → Str × Str
split_symbol norm = elim (split_last b'.' norm) [
  | some (base, exchange) ↦ (base, exchange)
  | none ↦ (norm, codes "UNKNOWN")
]

abbrev pub sub_id : ℕ → Str
sub_id n = codes "sub-" ++ decimal n

-- the branch of a new symbol key, behind the validation of the model
unfoldable pub record_new : Str → Str → State → Outcome × State
record_new base exchange s =
    let seq = s.sub_seq + 1 in
    let id = sub_id seq in
    elim (validate_symbol base) [
      | valid symbol ↦
          let sub : MarketDataSubscription = record {
            subscription_id = id;
            symbol = symbol;
            exchange = exchange;
            active = true;
          } in
          (
            subscribed sub,
            record {
              subs_by_id = insert id sub s.subs_by_id;
              sub_id_by_symbol = insert (join_key base exchange) id s.sub_id_by_symbol;
              sub_seq = seq;
              live = subscribe_live_hook base exchange s.live;
            },
          )
      | empty_symbol ↦ (validation_error, record s { sub_seq = seq })
      | invalid_symbol _ ↦ (validation_error, record s { sub_seq = seq })
    ]

-- `self._subs_by_id[existing_id]`
unfoldable pub existing : Str → State → Outcome
existing id s = elim (lookup id s.subs_by_id) [ none ↦ key_error | some sub ↦ subscribed sub ]

unfoldable pub subscribe : Str → State → Outcome × State
subscribe symbol s =
    let (base, exchange) = split_symbol (strip symbol) in
    elim (lookup (join_key base exchange) s.sub_id_by_symbol) [
      | some id ↦ (existing id s, s)
      | none ↦ record_new base exchange s
    ]

abbrev pub key_of : MarketDataSubscription → Str
key_of sub = join_key sub.symbol sub.exchange

-- `unsubscribe`; the live hook of this method does nothing
unfoldable pub unsubscribe : Str → State → State
unsubscribe id s = elim (lookup id s.subs_by_id) [
  | none ↦ s
  | some sub ↦ record s {
    subs_by_id = erase id s.subs_by_id;
    sub_id_by_symbol = erase (key_of sub) s.sub_id_by_symbol;
  }
]

-- the loop of `resubscribe_all`
unfoldable pub replay : List MarketDataSubscription → Live → Live
replay [] live = live
replay (sub ∷ subs) live = replay subs (subscribe_live_hook sub.symbol sub.exchange live)

unfoldable pub resubscribe_all : State → State
resubscribe_all s = record s { live = replay (values s.subs_by_id) s.live }
