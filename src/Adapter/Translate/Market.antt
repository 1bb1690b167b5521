-- ===== src/Adapter/Translate/Market.antt =====
-- The domain tick that `_translate_vnpy_tick` makes (src/infrastructure/ctp_adapter.py), with the
-- validation of `MarketTick` (src/domain/models.py).
use xiaoy_md.Prelude.{Bool, true, ◌&&◌, Option, none, some, if◌then◌else◌}
use xiaoy_md.Text.{Str, codes}
use xiaoy_md.Dict.{Dict, lookup, insert}
use xiaoy_md.Domain.{valid, empty_symbol, invalid_symbol, validate_symbol}
use xiaoy_md.Adapter.Translate.{Value, null, number, Floats, VnpyTick, names_of, build_raw_payload}

-- `MarketTick`, without its time; a Decimal by the number that it stands for
pub record MarketTick (N : Type 0) : Type 0 where
  pub symbol : Str
  pub price : N
  pub volume : Option N
  pub bid : Option N
  pub ask : Option N
  pub vnpy : Dict (Value N)

module _ {N : Type 0} (floats : Floats N) where
  -- `_adjust_price`
  unfoldable pub adjust_price : N → N
  adjust_price price = if floats.is_max price then floats.zero_price else price

  -- `_decimal_from_attr`
  unfoldable pub decimal_from_attr : Option N → Option N
  unfolding adjust_price
  decimal_from_attr none = none
  decimal_from_attr (some v) = some (adjust_price v)

  -- `Decimal(str(volume_val)) if volume_val else None`
  unfoldable pub volume_decimal : Option N → Option N
  volume_decimal none = none
  volume_decimal (some v) = if floats.is_zero v then none else some v

  unfoldable pub is_accepted : Option N → Bool
  is_accepted none = true
  is_accepted (some v) = floats.is_finite v

  unfoldable pub with_symbol : MarketTick N → Str → Option (MarketTick N)
  unfolding is_accepted
  with_symbol m symbol =
      if floats.is_finite m.price
        && (is_accepted m.volume && (is_accepted m.bid && is_accepted m.ask))
      then some (record m { symbol = symbol })
      else none

  -- the validation of `MarketTick`; none is a ValidationError
  unfoldable pub market_tick : MarketTick N → Option (MarketTick N)
  unfolding with_symbol
  market_tick m = elim (validate_symbol m.symbol) [
    | valid symbol ↦ with_symbol m symbol
    | empty_symbol ↦ none
    | invalid_symbol symbol ↦ none
  ]

  -- `if payload.get(key) is None: payload[key] = float(d)`
  unfoldable pub put_number : Str → N → Dict (Value N) → Dict (Value N)
  put_number key n payload = elim (lookup key payload) [
    | none ↦ insert key (number n) payload
    | some null ↦ insert key (number n) payload
    | some v ↦ payload
  ]

  -- the same, for a decimal that may not be there
  unfoldable pub put_decimal : Str → Option N → Dict (Value N) → Dict (Value N)
  unfolding put_number
  put_decimal key none payload = payload
  put_decimal key (some n) payload = put_number key n payload

  -- the prices and the volume of the payload
  unfoldable pub put_numbers : VnpyTick N → Dict (Value N) → Dict (Value N)
  put_numbers t payload = put_decimal (codes "ask_price_1") (decimal_from_attr t.ask_price_1) (
      put_decimal (codes "bid_price_1") (decimal_from_attr t.bid_price_1) (
        put_decimal (codes "volume") (volume_decimal t.volume)
          (put_number (codes "last_price") (adjust_price t.last_price) payload)))

  -- the tick before its validation
  unfoldable pub raw_tick : VnpyTick N → MarketTick N
  raw_tick t =
      let (base, vt, exchange) = names_of t in
      record {
        symbol = vt;
        price = adjust_price t.last_price;
        volume = volume_decimal t.volume;
        bid = decimal_from_attr t.bid_price_1;
        ask = decimal_from_attr t.ask_price_1;
        vnpy = put_numbers t (build_raw_payload floats t base vt exchange);
      }

  -- `_translate_vnpy_tick`; none is an exception, on which `on_tick` drops the tick
  unfoldable pub translate_vnpy_tick : VnpyTick N → Option (MarketTick N)
  unfolding market_tick raw_tick
  translate_vnpy_tick t = market_tick (raw_tick t)
