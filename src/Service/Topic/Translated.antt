-- ===== src/Service/Topic/Translated.antt =====
-- The topic of a tick that the adapter has translated (src/infrastructure/ctp_adapter.py and
-- src/application/services.py).
use xiaoy_md.Prelude.{
  ◌≡◌, refl, ap, ◌∙◌, inl, inr, Bool, true, ◌&&◌, ◌||◌, ◌∷◌, ◌++◌, Option, none, some, Bool-cases,
  arith, if◌then◌else◌,
}
use xiaoy_md.Text.{Str}
use xiaoy_md.Domain.{valid, validate_symbol}
use xiaoy_md.Domain.Symbols.{IsSymbol, validate_symbol-accepts}
use xiaoy_md.Adapter.Translate.{Floats, VnpyTick}
use xiaoy_md.Adapter.Translate.Market.{
  MarketTick, adjust_price, decimal_from_attr, volume_decimal, is_accepted, with_symbol,
  market_tick, raw_tick, translate_vnpy_tick,
}
use xiaoy_md.Service.Topic.Split.{build_publish_payload-known}
use xiaoy_md.Service.Topic.Payload.{ArePlain, with_names, made, lookup-payload}
use xiaoy_md.Service.Topic.{Tick, Decimals, topic_of, build_publish_payload}

module _ {N : Type 0} (floats : Floats N) where
  -- the numbers of a tick that the domain accepts: a price is a sentinel, which stands for 0, or
  -- finite, and a volume is 0, which is left out, or finite
  abbrev pub is_price : N → Bool
  is_price n = floats.is_max n || floats.is_finite n

  abbrev pub is_quote : Option N → Bool
  is_quote none = true
  is_quote (some n) = is_price n

  abbrev pub is_volume : Option N → Bool
  is_volume none = true
  is_volume (some n) = floats.is_zero n || floats.is_finite n

  abbrev pub has_numbers : VnpyTick N → Bool
  has_numbers t =
      is_price t.last_price
      && (is_volume t.volume && (is_quote t.bid_price_1 && is_quote t.ask_price_1))

  module _ (zero_finite : floats.is_finite floats.zero_price ≡ true) where
    adjust_price-finite : (n : N) → floats.is_finite (adjust_price floats n) ≡ is_price n
    unfolding adjust_price
    adjust_price-finite n = ground (arith, zero_finite)

    decimal_from_attr-accepted :
        (q : Option N) → is_accepted floats (decimal_from_attr floats q) ≡ is_quote q
    unfolding decimal_from_attr is_accepted
    decimal_from_attr-accepted none = refl
    decimal_from_attr-accepted (some n) = adjust_price-finite n

    volume_decimal-accepted :
        (v : Option N) → is_accepted floats (volume_decimal floats v) ≡ is_volume v
    unfolding volume_decimal is_accepted
    volume_decimal-accepted none = refl
    volume_decimal-accepted (some n) = elim (Bool-cases (floats.is_zero n)) [
      | inl e ↦ rw e refl
      | inr e ↦ rw e refl
    ]

    raw_tick-has_numbers :
        (t : VnpyTick N)
        → (floats.is_finite (raw_tick floats t).price
            && (is_accepted floats (raw_tick floats t).volume
                && (is_accepted floats (raw_tick floats t).bid
                    && is_accepted floats (raw_tick floats t).ask)))
          ≡ has_numbers t
    unfolding raw_tick
    raw_tick-has_numbers t =
        rw
          (
            adjust_price-finite t.last_price,
            volume_decimal-accepted t.volume,
            decimal_from_attr-accepted t.bid_price_1,
            decimal_from_attr-accepted t.ask_price_1,
          )
          refl

    market_tick-valid :
        (m : MarketTick N) (symbol : Str)
        → validate_symbol m.symbol ≡ valid symbol
        → market_tick floats m ≡ (
            if floats.is_finite m.price
              && (is_accepted floats m.volume
                  && (is_accepted floats m.bid && is_accepted floats m.ask))
            then some (record m { symbol = symbol })
            else none)
    unfolding market_tick with_symbol
    market_tick-valid m symbol h = rw (market_tick, h) refl

    translated :
        (t : VnpyTick N) (base ex : Str)
        → ArePlain base ex
        → IsSymbol (base ++ b'.' ∷ ex)
        → translate_vnpy_tick floats (with_names base ex t) ≡ (
            if has_numbers t
            then some
                (record (raw_tick floats (with_names base ex t)) { symbol = base ++ b'.' ∷ ex })
            else none)
    unfolding translate_vnpy_tick
    translated t base ex p h =
        let vt = base ++ b'.' ∷ ex in
        let raw = raw_tick floats (with_names base ex t) in
        market_tick-valid raw vt
          (ap validate_symbol (made floats t base ex p).0 ∙ validate_symbol-accepts vt h)
        ∙ ap (λ accepted. if accepted then some (record raw { symbol = vt }) else none)
            (raw_tick-has_numbers (with_names base ex t))

module _ {N D : Type 0} (floats : Floats N) (decimals : Decimals N D) where
  -- the topic under which a translated tick is published, with the rest of the domain tick as given;
  -- none for a tick that is dropped
  unfoldable pub published_topic : Tick N D → Option (MarketTick N) → Option Str
  published_topic u none = none
  published_topic u (some m) =
      some (build_publish_payload decimals (record u { symbol = m.symbol; vnpy = m.vnpy })).0

  -- A vn.py tick with a plain symbol, not empty and without a dot, with an exchange whose name is
  -- plain, and without a symbol of its own, where symbol and exchange make a symbol of the domain
  -- (30 letters, digits, dots, dashes and underscores at most, the first a letter or digit), is
  -- published, once the adapter has translated it, under the topic of that exchange and that symbol,
  -- if its last price, bid and ask are sentinels or finite and its volume is 0 or finite; otherwise
  -- it is dropped. The `Decimal` field of the domain has to accept 0.
  pub build_publish_payload-translate :
      (t : VnpyTick N) (base ex : Str) (u : Tick N D)
      → floats.is_finite floats.zero_price ≡ true
      → ArePlain base ex
      → IsSymbol (base ++ b'.' ∷ ex)
      → published_topic u (translate_vnpy_tick floats (with_names base ex t))
        ≡ (if has_numbers floats t then some (topic_of ex base) else none)
  unfolding published_topic
  build_publish_payload-translate t base ex u zero_finite p h =
      let known = lookup-payload floats t base ex p in
      let topic =
        build_publish_payload-known decimals
          (record u {
            symbol = base ++ b'.' ∷ ex;
            vnpy = (raw_tick floats (with_names base ex t)).vnpy;
          })
          base ex p.base_named p.exchange_named p.base_dots known.0 known.1 in
      elim (Bool-cases (has_numbers floats t)) [
        | inl e ↦ rw (translated floats zero_finite t base ex p h, e) (ap some topic)
        | inr e ↦ rw (translated floats zero_finite t base ex p h, e) refl
      ]
