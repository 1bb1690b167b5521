-- ===== src/Rpc.antt =====
-- The handlers of `NATSRPCServer` (src/infrastructure/rpc_nats.py): `_handle_subscribe_bulk`,
-- `_handle_active_subscriptions` and their helpers. A request is given behind `json.loads`; the
-- service that the server is injected with is a parameter, an operation on a state of its own.
pub mod Bulk
pub mod Active
pub mod Server
use xiaoy_md.Prelude.{
  ℕ, zero, suc, ◌+◌, Bool, true, false, List, [], ◌∷◌, Option, none, some, ltb, length, take,
  if◌then◌else◌,
}
use xiaoy_md.Text.{Str, is_empty, or_else, strip}
use xiaoy_md.Dict.{mem}
use xiaoy_md.Service.State.{
  Ports, Service, Reply, subscribed, unsubscribed, rate_limit_error, configuration_error,
  port_error, repository_error, subscribe_to_symbol,
}

-- the symbols in the order of the request; the rejected ones with the exception
pub record BulkResponse (R : Type 0) : Type 0 where
  pub accepted : List Str
  pub rejected : List (Str × R)

module _ {R S : Type 0} (subscribe_one : Str → S → Option R × S) where
  -- the loop over the symbols: those seen so far, and the state of the service
  unfoldable pub bulk_loop : List Str → List Str → S → BulkResponse R × S
  bulk_loop [] seen s = (record { accepted = []; rejected = [] }, s)
  bulk_loop (symbol ∷ symbols) seen s = elim (mem symbol seen) [
    | true ↦ bulk_loop symbols seen s
    | false ↦
        let (failure, s') = subscribe_one symbol s in
        let (rest, s'') = bulk_loop symbols (symbol ∷ seen) s' in
        elim failure [
          | none ↦ (record rest { accepted = symbol ∷ rest.accepted }, s'')
          | some reason ↦ (record rest { rejected = (symbol, reason) ∷ rest.rejected }, s'')
        ]
  ]

  unfoldable pub handle_subscribe_bulk : List Str → S → BulkResponse R × S
  handle_subscribe_bulk symbols s = bulk_loop symbols [] s

-- what `subscribe_to_symbol` raises, if it does
abbrev pub raised_by : Reply → Option Reply
raised_by (subscribed sub) = none
raised_by unsubscribed = none
raised_by rate_limit_error = some rate_limit_error
raised_by configuration_error = some configuration_error
raised_by port_error = some port_error
raised_by repository_error = some repository_error

-- The market data service as the server calls it: its state, and the ports' with the clock.
unfoldable pub service_call :
    {P : Type 0} → Ports P → (P → ℕ) → Str → Service × P → Option Reply × (Service × P)
service_call ports clock symbol s =
    let (reply, s', p') = subscribe_to_symbol ports (clock s.1) symbol s.0 s.1 in
    (raised_by reply, (s', p'))

-- what `int(value)` makes of the limit
pub data Candidate : Type 0 where
  not_a_number : Candidate
  negative natural : ℕ → Candidate

-- `_parse_subscription_limit`
abbrev pub parse_subscription_limit : Candidate → Option ℕ
parse_subscription_limit not_a_number = none
parse_subscription_limit (negative n) = none
parse_subscription_limit (natural zero) = none
parse_subscription_limit (natural (suc n)) = some (suc n)

-- an entry of the service's list: a dict with its two names, a text, or None
pub data Entry : Type 0 where
  fields : Option Str → Option Str → Entry
  text : Str → Entry
  nothing : Entry

-- `s.strip() or None`
abbrev pub stripped : Str → Option Str
stripped s = let t = strip s in if is_empty t then none else some t

-- `_normalize_subscription_symbol`
unfoldable pub normalize_subscription_symbol : Entry → Option Str
normalize_subscription_symbol nothing = none
normalize_subscription_symbol (text s) = stripped s
normalize_subscription_symbol (fields none none) = none
normalize_subscription_symbol (fields none (some vt)) = stripped vt
normalize_subscription_symbol (fields (some s) none) = stripped s
normalize_subscription_symbol (fields (some s) (some vt)) = stripped (or_else s vt)

unfoldable pub normalized : List Entry → List Str
normalized [] = []
normalized (e ∷ entries) = elim (normalize_subscription_symbol e) [
  | none ↦ normalized entries
  | some s ↦ s ∷ normalized entries
]

-- how the service answers
pub data Fetched : Type 0 where
  unsupported failed : Fetched
  listed : List Entry → Fetched

pub record ActiveResponse : Type 0 where
  pub subscriptions : List Str
  pub total : ℕ
  pub truncated : Bool

limited : Option ℕ → List Str → ℕ → ActiveResponse
limited none symbols total = record { subscriptions = symbols; total = total; truncated = false }
limited (some limit) symbols total =
    if ltb limit (length symbols)
    then record { subscriptions = take limit symbols; total = total; truncated = true }
    else record { subscriptions = symbols; total = total; truncated = false }

unfoldable pub handle_active_subscriptions : Candidate → Fetched → ActiveResponse
unfolding limited
handle_active_subscriptions value unsupported = record {
  subscriptions = [];
  total = 0;
  truncated = false;
}
handle_active_subscriptions value failed = record {
  subscriptions = [];
  total = 0;
  truncated = false;
}
handle_active_subscriptions value (listed entries) =
    limited (parse_subscription_limit value) (normalized entries) (length entries)
