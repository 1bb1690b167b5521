-- ===== src/Service/Topic.antt =====
-- The topic and the payload of a published tick (src/application/services.py):
-- `_build_publish_payload`, `_derive_base_symbol`, `_derive_exchange` and `_enrich_payload`. Prices
-- are a type of decimals with their text and their number as parameters.
pub mod Split
pub mod Payload
pub mod Translated
use xiaoy_md.Prelude.{
  ℕ, Bool, true, false, not, List, [], ◌∷◌, ◌++◌, Option, none, some, if◌then◌else◌,
}
use xiaoy_md.Text.{Str, codes, is_empty, or_else, has_char, split_first}
use xiaoy_md.Dict.{Dict, lookup, insert, set_default}
use xiaoy_md.Adapter.Translate.{Value, null, text, number}

-- the text of a value, empty for what is not one
unfoldable pub text_of : {N : Type 0} → Option (Value N) → Str
text_of none = []
text_of (some null) = []
text_of (some (number n)) = []
text_of (some (text s)) = s

-- the part before the first dot, or all
unfoldable pub before_dot : Str → Str
unfolding split_first
before_dot s = elim (split_first b'.' s) [ none ↦ s | some (a, b) ↦ a ]

-- the part after the first dot
unfoldable pub after_dot : Str → Option Str
unfolding split_first
after_dot s = elim (split_first b'.' s) [ none ↦ none | some (a, b) ↦ some b ]

-- `_derive_base_symbol`
unfoldable pub derive_base_symbol : Str → Str → Str
unfolding before_dot
derive_base_symbol base vt_symbol = if is_empty base then before_dot vt_symbol else before_dot base

-- `_derive_exchange`
unfoldable pub derive_exchange : Str → Str → Str → Str
unfolding after_dot
derive_exchange exchange symbol_field vt_symbol =
    if is_empty exchange
    then elim (after_dot symbol_field) [
      | some ex ↦ ex
      | none ↦ elim (after_dot vt_symbol) [ some ex ↦ ex | none ↦ codes "UNKNOWN" ]
    ]
    else exchange

-- a tick to publish; N and D are the numbers and the decimals
pub record Tick (N D : Type 0) : Type 0 where
  pub symbol : Str
  pub price : D
  pub volume : Option D
  pub bid : Option D
  pub ask : Option D
  pub china_time : Str
  pub vnpy : Dict (Value N)

-- `float(d)` and `str(d)`
pub record Decimals (N D : Type 0) : Type 0 where
  pub to_float : D → N
  pub show : D → Str

-- the names of a tick, for entries that are texts: symbol, base symbol, the payload's own symbol, exchange
unfoldable pub names_of : {N D : Type 0} → Tick N D → Str × Str × Str × Str
names_of t =
    let vt_symbol = or_else (text_of (lookup (codes "vt_symbol") t.vnpy)) t.symbol in
    let symbol_field = text_of (lookup (codes "symbol") t.vnpy) in
    let base = or_else (text_of (lookup (codes "base_symbol") t.vnpy)) symbol_field in
    (
      vt_symbol,
      derive_base_symbol base vt_symbol,
      symbol_field,
      derive_exchange (text_of (lookup (codes "exchange") t.vnpy)) symbol_field vt_symbol,
    )

-- `f"market.tick.{exchange}.{base_symbol}"`
unfoldable pub topic_of : Str → Str → Str
topic_of exchange base_symbol = (codes "market.tick." ++ exchange) ++ b'.' ∷ base_symbol

module _ {N D : Type 0} (decimals : Decimals N D) where
  -- a quote: its number where none is known, and its text
  unfoldable pub put_quote : Str → Str → Option D → Dict (Value N) → Dict (Value N)
  unfolding set_default insert
  put_quote level side none payload = payload
  put_quote level side (some d) payload =
      insert side (text (decimals.show d))
        (set_default level (number (decimals.to_float d)) payload)

  -- the volume, where it is known
  unfoldable pub put_volume : Option D → Dict (Value N) → Dict (Value N)
  unfolding insert
  put_volume none payload = payload
  put_volume (some d) payload = insert (codes "volume") (text (decimals.show d)) payload

  -- the symbols of `_enrich_payload`
  unfoldable pub put_names : Str → Str → Str → Str → Dict (Value N) → Dict (Value N)
  unfolding set_default
  put_names vt_symbol base_symbol symbol_field exchange payload =
      set_default (codes "exchange") (text exchange) (
        set_default (codes "symbol") (text (or_else symbol_field base_symbol)) (
          set_default (codes "base_symbol") (text base_symbol)
            (set_default (codes "vt_symbol") (text vt_symbol) payload)))

  -- its times and its price
  unfoldable pub put_price : Tick N D → Dict (Value N) → Dict (Value N)
  unfolding set_default insert
  put_price t payload = insert (codes "price") (text (decimals.show t.price)) (
      set_default (codes "last_price") (number (decimals.to_float t.price)) (
        set_default (codes "timestamp") (text t.china_time)
          (set_default (codes "datetime") (text t.china_time) payload)))

  unfoldable pub enrich_payload : Str → Str → Str → Str → Tick N D → Dict (Value N) → Dict (Value N)
  enrich_payload vt_symbol base_symbol symbol_field exchange t payload =
      set_default (codes "source") (text (codes "ctp")) (
        put_quote (codes "ask_price_1") (codes "ask") t.ask (
          put_quote (codes "bid_price_1") (codes "bid") t.bid (
            put_volume t.volume
              (put_price t (put_names vt_symbol base_symbol symbol_field exchange payload)))))

  -- `_build_publish_payload`
  unfoldable pub build_publish_payload : Tick N D → Str × Dict (Value N)
  build_publish_payload t =
      let (vt_symbol, base_symbol, symbol_field, exchange) = names_of t in
      (
        topic_of exchange base_symbol,
        enrich_payload vt_symbol base_symbol symbol_field exchange t t.vnpy,
      )
