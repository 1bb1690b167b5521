-- ===== src/Health/Records.antt =====
-- `SubscriptionRecord` and `_classify_stalled_contract` (src/operations/check_feed_health.py).
-- Times are whole seconds. The fields of a payload are texts, and a timestamp that is there has
-- been parsed.
use xiaoy_md.Prelude.{
  ℕ, ◌-◌, Bool, true, not, List, [], ◌∷◌, ◌++◌, Option, none, some, leb, if◌then◌else◌,
}
use xiaoy_md.Text.{Str, codes, str_eq, is_empty, or_else, strip, has_char, split_first}

pub record SubscriptionRecord : Type 0 where
  pub symbol : Str
  pub subscription_id : Str
  pub created_at : ℕ
  pub last_tick_at : Option ℕ
  pub active : Bool
  pub exchange : Option Str

-- `_split_symbol_exchange`
unfoldable pub split_symbol_exchange : Str → Str × Option Str
split_symbol_exchange raw = elim (split_first b'.' (strip raw)) [
  | some (base, exchange) ↦ (base, some exchange)
  | none ↦ (strip raw, none)
]

-- `value or default` of a text that may be missing
abbrev pub text_or : Option Str → Str → Str
text_or none default = default
text_or (some s) default = or_else s default

-- `s.endswith(t)`
unfoldable pub ends_with : Str → Str → Bool
ends_with [] t = str_eq [] t
ends_with (c ∷ s) t = if str_eq (c ∷ s) t then true else ends_with s t

-- the property `vt_symbol`
unfoldable pub vt_symbol : SubscriptionRecord → Str
vt_symbol r =
    let exchange = text_or r.exchange (codes "UNKNOWN") in
    if has_char b'.' r.symbol
    then r.symbol
    else if ends_with r.symbol (b'.' ∷ exchange)
    then r.symbol
    else r.symbol ++ b'.' ∷ exchange

-- an entry of the payload: a text, or an object with the fields that are read
pub data Payload : Type 0 where
  text : Str → Payload
  fields :
      (symbol base_symbol subscription_id id subscription : Option Str)
      (created_at last_tick_at : Option ℕ) (active : Bool)
      → Payload

-- `str(exchange).strip() if exchange else None`
abbrev pub exchange_value : Option Str → Option Str
exchange_value none = none
exchange_value (some []) = none
exchange_value (some (c ∷ s)) = some (strip (c ∷ s))

-- `from_payload` at the time `now`; `none` is SubscriptionPayloadError
unfoldable pub from_payload : ℕ → Payload → Option SubscriptionRecord
from_payload now (text payload) =
    let raw = strip payload in
    let (base, exchange) = split_symbol_exchange raw in
    if is_empty raw
    then none
    else some (record {
      symbol = base;
      subscription_id = raw;
      created_at = now;
      last_tick_at = some now;
      active = true;
      exchange = exchange;
    })
from_payload now (fields sym base_symbol sub_id id subscription created_at last_tick_at active) =
    let name = strip (text_or sym (text_or base_symbol [])) in
    let (base, exchange) = split_symbol_exchange name in
    let raw_id = text_or sub_id (text_or id (text_or subscription name)) in
    if is_empty name
    then none
    else some (record {
      symbol = base;
      subscription_id = or_else (strip raw_id) base;
      created_at = elim created_at [ none ↦ now | some t ↦ t ];
      last_tick_at = last_tick_at;
      active = active;
      exchange = exchange_value exchange;
    })

-- `_parse_subscriptions_payload` of a list: entries that raise are skipped
unfoldable pub parse_subscriptions : ℕ → List Payload → List SubscriptionRecord
parse_subscriptions now [] = []
parse_subscriptions now (item ∷ items) = elim (from_payload now item) [
  | none ↦ parse_subscriptions now items
  | some r ↦ r ∷ parse_subscriptions now items
]

pub data Severity : Type 0 where
  warning critical : Severity

pub record StalledContract : Type 0 where
  pub symbol : Str
  pub subscription_id : Str
  pub last_tick_at : Option ℕ
  pub lag_seconds : Option ℕ
  pub severity : Severity

-- `HealthEvaluationConfig`; the threshold is the fraction `threshold / scale`
pub record EvaluationConfig : Type 0 where
  pub threshold : ℕ
  pub scale : ℕ
  pub warning_lag : ℕ
  pub critical_lag : ℕ

classify_lag : SubscriptionRecord → ℕ → EvaluationConfig → ℕ → Option StalledContract
classify_lag r now c last_seen =
    let lag = now - last_seen in
    let entry = λ (severity : Severity).
      let e : StalledContract = record {
        symbol = vt_symbol r;
        subscription_id = r.subscription_id;
        last_tick_at = r.last_tick_at;
        lag_seconds = some lag;
        severity = severity;
      } in
      e in
    if leb c.critical_lag lag
    then some (entry critical)
    else if leb c.warning_lag lag
    then some (entry warning)
    else none

unfoldable pub classify_stalled_contract :
    SubscriptionRecord → ℕ → EvaluationConfig → Option StalledContract
unfolding classify_lag
classify_stalled_contract r now c = if not r.active then none else elim r.last_tick_at [
  | none ↦ some (record {
    symbol = vt_symbol r;
    subscription_id = r.subscription_id;
    last_tick_at = none;
    lag_seconds = none;
    severity = critical;
  })
  | some last_seen ↦ classify_lag r now c last_seen
]
