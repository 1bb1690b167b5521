-- ===== src/Service/State/Agreement.antt =====
-- The dictionaries of the service know the same subscription ids.
use xiaoy_md.Prelude.{ℕ, ◌≡◌, ◌≢◌, refl, inl, inr, none, is_some, arith, Bool-cases, Option-cases}
use xiaoy_md.Text.{Str, str_eq, str_eq_iff}
use xiaoy_md.Dict.{lookup}
use xiaoy_md.Dict.Laws.{
  Distinct, lookup-insert, lookup-erase_self, lookup-erase_ne, insert-Distinct, erase-Distinct,
}
use xiaoy_md.Domain.{MarketDataSubscription}
use xiaoy_md.Service.RateLimit.{check_rate_limit}
use xiaoy_md.Service.State.{
  Ports, Service, unsubscribed, enter, leave, subscribe_allowed, subscribe_to_symbol,
  unsubscribe_allowed, unsubscribe,
}

pub record IsAligned (s : Service) : Type 0 where
  pub distinct : Distinct s.subscriptions
  pub distinct_symbols : Distinct s.symbol_by_id
  -- an id has a symbol exactly when it has a subscription
  pub aligned :
      (id : Str) → is_some (lookup id s.symbol_by_id) ≡ is_some (lookup id s.subscriptions)

pub enter-IsAligned :
    (sub : MarketDataSubscription) (t : ℕ) (s : Service) → IsAligned s → IsAligned (enter sub t s)
unfolding enter
enter-IsAligned sub t s a = record {
  distinct = insert-Distinct sub.subscription_id sub s.subscriptions a.distinct;
  distinct_symbols = insert-Distinct sub.subscription_id _ s.symbol_by_id a.distinct_symbols;
  aligned = λ id. elim (Bool-cases (str_eq sub.subscription_id id)) [
    | inl e ↦ simp lookup-insert (rw e refl)
    | inr e ↦ simp lookup-insert (rw e (a.aligned id))
  ];
}

leave-IsAligned : (gone : Str) (s : Service) → IsAligned s → IsAligned (leave gone s)
unfolding leave
leave-IsAligned gone s a = record {
  distinct = erase-Distinct gone s.subscriptions a.distinct;
  distinct_symbols = erase-Distinct gone s.symbol_by_id a.distinct_symbols;
  aligned = λ id. elim (Bool-cases (str_eq gone id)) [
    | inl e ↦
        let same : gone ≡ id = (str_eq_iff gone id).0 e in
        rw (← same) (
          rw
            (
              lookup-erase_self gone s.symbol_by_id a.distinct_symbols,
              lookup-erase_self gone s.subscriptions a.distinct,
            )
            refl)
    | inr e ↦
        let other : gone ≢ id = λ p. ground (arith, str_eq_iff gone id) in
        rw
          (
            lookup-erase_ne gone id s.symbol_by_id other,
            lookup-erase_ne gone id s.subscriptions other,
          )
          (a.aligned id)
  ];
}

module _ {P : Type 0} (ports : Ports P) where
  subscribe_allowed-IsAligned :
      (symbol : Str) (s : Service) (p : P)
      → IsAligned s
      → IsAligned (subscribe_allowed ports symbol s p).1
  unfolding subscribe_allowed
  subscribe_allowed-IsAligned symbol s p a = elim (Option-cases ports.market_data) [
    | inl e ↦ rw (e, subscribe_allowed) a
    | inr (port, e) ↦ elim (Option-cases (port.subscribe symbol p).0) [
      | inl f ↦ rw (e, subscribe_allowed) (rw (f, subscribe_allowed) a)
      | inr ((sub, t), f) ↦
          rw (e, subscribe_allowed) (rw (f, subscribe_allowed) (enter-IsAligned sub t s a))
    ]
  ]

  unsubscribe_allowed-IsAligned :
      (id : Str) (s : Service) (p : P)
      → IsAligned s
      → IsAligned (unsubscribe_allowed ports id s p).1
  unfolding unsubscribe_allowed
  unsubscribe_allowed-IsAligned id s p a = elim (Option-cases ports.market_data) [
    | inl e ↦ rw (e, unsubscribe_allowed) (leave-IsAligned id s a)
    | inr (port, e) ↦ elim (Bool-cases (port.unsubscribe id p).0) [
      | inl f ↦ rw (e, unsubscribe_allowed) (rw f (leave-IsAligned id s a))
      | inr f ↦ rw (e, unsubscribe_allowed) (rw f a)
    ]
  ]

  -- Whatever the ports do, and whether the call returns or raises, subscribing to a symbol keeps the
  -- dictionaries of the service on the same ids.
  pub subscribe_to_symbol-IsAligned :
      (now : ℕ) (symbol : Str) (s : Service) (p : P)
      → IsAligned s
      → IsAligned (subscribe_to_symbol ports now symbol s p).1
  unfolding subscribe_to_symbol
  subscribe_to_symbol-IsAligned now symbol s p a =
      let timestamps =
        (check_rate_limit s.rate_limit_window s.rate_limit_max now s.subscribe_timestamps).1 in
      let s' : Service = record s { subscribe_timestamps = timestamps } in
      let a' : IsAligned s' = record {
        distinct = a.distinct;
        distinct_symbols = a.distinct_symbols;
        aligned = a.aligned;
      } in
      elim (Bool-cases
        (check_rate_limit s.rate_limit_window s.rate_limit_max now s.subscribe_timestamps).0) [
          | inl e ↦ rw (e, subscribe_to_symbol) (subscribe_allowed-IsAligned symbol s' p a')
          | inr e ↦ rw (e, subscribe_to_symbol) a'
        ]

  -- Whatever the ports do, and whether the call returns or raises, unsubscribing keeps the
  -- dictionaries of the service on the same ids.
  unsubscribe-IsAligned :
      (now : ℕ) (id : Str) (s : Service) (p : P)
      → IsAligned s
      → IsAligned (unsubscribe ports now id s p).1
  unfolding unsubscribe
  unsubscribe-IsAligned now id s p a =
      let timestamps =
        (check_rate_limit s.rate_limit_window s.rate_limit_max now s.unsubscribe_timestamps).1 in
      let s' : Service = record s { unsubscribe_timestamps = timestamps } in
      let a' : IsAligned s' = record {
        distinct = a.distinct;
        distinct_symbols = a.distinct_symbols;
        aligned = a.aligned;
      } in
      elim (Bool-cases
        (check_rate_limit s.rate_limit_window s.rate_limit_max now s.unsubscribe_timestamps).0) [
          | inl e ↦ elim (Bool-cases (is_some (lookup id s.subscriptions))) [
            | inl f ↦ rw (e, unsubscribe) (rw f (unsubscribe_allowed-IsAligned id s' p a'))
            | inr f ↦ rw (e, unsubscribe) (rw f a')
          ]
          | inr e ↦ rw (e, unsubscribe) a'
        ]

  -- After an unsubscribe that returned, the id has neither a subscription nor a symbol.
  unsubscribe_removes :
      (now : ℕ) (id : Str) (s : Service) (p : P)
      → IsAligned s
      → (unsubscribe ports now id s p).0 ≡ unsubscribed
      → (lookup id (unsubscribe ports now id s p).1.subscriptions ≡ none)
        × (lookup id (unsubscribe ports now id s p).1.symbol_by_id ≡ none)
  unfolding unsubscribe unsubscribe_allowed leave
  unsubscribe_removes now id s p a h = ground (
    arith,
    a.aligned id,
    lookup-erase_self id s.subscriptions a.distinct,
    lookup-erase_self id s.symbol_by_id a.distinct_symbols,
  )
