-- ===== src/Service/State.antt =====
-- The subscriptions of `MarketDataService` (src/application/services.py): `subscribe_to_symbol`,
-- `unsubscribe`, `_mark_subscription_activity` and `list_active_subscriptions`. The market data
-- port is an interface over its own state; the repository is a test that says whether saving goes
-- through. Times are whole milliseconds, and the port tells when a subscription was created.
pub mod Agreement
use xiaoy_md.Prelude.{
  ℕ, Bool, true, false, not, List, [], ◌∷◌, ◌++◌, Option, none, some, is_some, if◌then◌else◌,
}
use xiaoy_md.Text.{Str, codes, or_else, is_empty, strip, has_char}
use xiaoy_md.Dict.{Dict, lookup, insert, erase, set_default, values}
use xiaoy_md.Domain.{MarketDataSubscription}
use xiaoy_md.Health.Evaluate.{str_le}
use xiaoy_md.Service.RateLimit.{check_rate_limit}

-- `MarketDataPort`, on a state P: `subscribe` gives the subscription and its creation time, or
-- raises; `unsubscribe` answers false where it raises.
pub record Port (P : Type 0) : Type 0 where
  pub subscribe : Str → P → Option (MarketDataSubscription × ℕ) × P
  pub unsubscribe : Str → P → Bool × P

-- the ports that are configured
pub record Ports (P : Type 0) : Type 0 where
  pub market_data : Option (Port P)
  pub repository : Option (MarketDataSubscription → Bool)

pub record Service : Type 0 where
  pub subscriptions : Dict MarketDataSubscription
  pub symbol_by_id : Dict Str
  pub last_seen : Dict ℕ
  pub subscribe_timestamps : List ℕ
  pub unsubscribe_timestamps : List ℕ
  pub rate_limit_window : ℕ
  pub rate_limit_max : ℕ

-- the exceptions, and the return
pub data Reply : Type 0 where
  subscribed : MarketDataSubscription → Reply
  unsubscribed : Reply
  rate_limit_error : Reply
  configuration_error : Reply
  port_error : Reply
  repository_error : Reply

-- `_subscription_key_from_parts`
unfoldable pub key_from_parts : Str → Str → Str
key_from_parts symbol exchange =
    or_else symbol (codes "UNKNOWN") ++ b'.' ∷ or_else exchange (codes "UNKNOWN")

-- the three dictionaries after the port has subscribed
unfoldable pub enter : MarketDataSubscription → ℕ → Service → Service
enter sub created_at s =
    let vt_symbol = key_from_parts sub.symbol sub.exchange in
    record s {
      subscriptions = insert sub.subscription_id sub s.subscriptions;
      symbol_by_id = insert sub.subscription_id vt_symbol s.symbol_by_id;
      last_seen = set_default vt_symbol created_at s.last_seen;
    }

-- `repository_port.save_subscription`, if there is a repository
save_reply : Option (MarketDataSubscription → Bool) → MarketDataSubscription → Reply
save_reply none sub = subscribed sub
save_reply (some save) sub = if save sub then subscribed sub else repository_error

-- the three dictionaries after the port has unsubscribed
unfoldable pub leave : Str → Service → Service
leave id s = record s {
  subscriptions = erase id s.subscriptions;
  symbol_by_id = erase id s.symbol_by_id;
  last_seen = elim (lookup id s.symbol_by_id) [
    | none ↦ s.last_seen
    | some vt_symbol ↦ erase vt_symbol s.last_seen
  ];
}

module _ {P : Type 0} (ports : Ports P) where
  -- behind the rate limit
  unfoldable pub subscribe_allowed : Str → Service → P → Reply × Service × P
  unfolding save_reply
  subscribe_allowed symbol s p = elim ports.market_data [
    | none ↦ (configuration_error, s, p)
    | some port ↦
        let (result, p') = port.subscribe symbol p in
        elim result [
          | none ↦ (port_error, s, p')
          | some (sub, created_at) ↦ (save_reply ports.repository sub, enter sub created_at s, p')
        ]
  ]

  unfoldable pub subscribe_to_symbol : ℕ → Str → Service → P → Reply × Service × P
  subscribe_to_symbol now symbol s p =
      let (allowed, timestamps) =
        check_rate_limit s.rate_limit_window s.rate_limit_max now s.subscribe_timestamps in
      if allowed
      then subscribe_allowed symbol (record s { subscribe_timestamps = timestamps }) p
      else (rate_limit_error, record s { subscribe_timestamps = timestamps }, p)

  unfoldable pub unsubscribe_allowed : Str → Service → P → Reply × Service × P
  unsubscribe_allowed id s p = elim ports.market_data [
    | none ↦ (unsubscribed, leave id s, p)
    | some port ↦
        let (done, p') = port.unsubscribe id p in
        if done then (unsubscribed, leave id s, p') else (port_error, s, p')
  ]

  unfoldable pub unsubscribe : ℕ → Str → Service → P → Reply × Service × P
  unsubscribe now id s p =
      let (allowed, timestamps) =
        check_rate_limit s.rate_limit_window s.rate_limit_max now s.unsubscribe_timestamps in
      let s' : Service = record s { unsubscribe_timestamps = timestamps } in
      if allowed
      then if is_some (lookup id s.subscriptions)
        then unsubscribe_allowed id s' p
        else (unsubscribed, s', p)
      else (rate_limit_error, s', p)

-- what a tick says of its symbol: the payload's `vt_symbol` and `exchange`, and `symbol`
pub record TickSymbol : Type 0 where
  pub vt_symbol : Str
  pub exchange : Str
  pub symbol : Str

-- `_resolve_tick_symbol`
unfoldable pub resolve_tick_symbol : TickSymbol → Option Str
resolve_tick_symbol t =
    let vt = strip (or_else t.vt_symbol t.symbol) in
    let exchange = or_else (strip (or_else t.exchange (codes "UNKNOWN"))) (codes "UNKNOWN") in
    if is_empty vt then none else if has_char b'.' vt then some vt else some (vt ++ b'.' ∷ exchange)

-- `_mark_subscription_activity`, for a tick of the given time
unfoldable pub mark_subscription_activity : TickSymbol → ℕ → Service → Service
mark_subscription_activity t timestamp s = elim (resolve_tick_symbol t) [
  | none ↦ s
  | some vt ↦ record s { last_seen = insert vt timestamp s.last_seen }
]

-- an entry of `list_active_subscriptions`
pub record Activity : Type 0 where
  pub subscription : MarketDataSubscription
  pub symbol : Str
  pub last_tick_at : Option ℕ

unfoldable pub activity_of : Service → MarketDataSubscription → Activity
activity_of s sub =
    let vt_symbol : Str = elim (lookup sub.subscription_id s.symbol_by_id) [
      | none ↦ key_from_parts sub.symbol sub.exchange
      | some vt ↦ vt
    ] in
    record { subscription = sub; symbol = vt_symbol; last_tick_at = lookup vt_symbol s.last_seen }

insert_activity : Activity → List Activity → List Activity
insert_activity a [] = a ∷ []
insert_activity a (b ∷ rest) =
    if str_le a.symbol b.symbol then a ∷ b ∷ rest else b ∷ insert_activity a rest

-- the sort by symbol, which keeps the order of equal symbols
sort_activities : List Activity → List Activity
sort_activities [] = []
sort_activities (a ∷ rest) = insert_activity a (sort_activities rest)

activities : Service → List MarketDataSubscription → List Activity
activities s [] = []
activities s (sub ∷ subs) = activity_of s sub ∷ activities s subs

unfoldable pub list_active_subscriptions : Service → List Activity
unfolding insert_activity sort_activities activities
list_active_subscriptions s = sort_activities (activities s (values s.subscriptions))
