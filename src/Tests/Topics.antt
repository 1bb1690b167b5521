-- ===== src/Tests/Topics.antt =====
-- The translation of ticks and their topics on small inputs.
use xiaoy_md.Prelude.{ℕ, ◌≡◌, refl, [], ◌∷◌, none, some, ◌==◌, not, ◌&&◌, arith}
use xiaoy_md.Text.{
  codes, str_eq, has_char, split_first, split_last, is_space, lstrip, rstrip, strip,
}
use xiaoy_md.Dict.{lookup, insert, set_default}
use xiaoy_md.Adapter.Translate.{
  normalize_address, text, plain, Floats, VnpyTick, symbol_from_exchange, split_pair,
  exchange_from_base, last_part, resolve_vt_symbol, with_pair, names_of, normalize_attribute,
  is_private, public_payload, known_exchange, exchange_entry, put_symbols, put_times,
  build_raw_payload,
}
use xiaoy_md.Adapter.Translate.Market.{
  adjust_price, decimal_from_attr, volume_decimal, is_accepted, with_symbol, market_tick,
  put_number, put_decimal, put_numbers, raw_tick, translate_vnpy_tick,
}
use xiaoy_md.Domain.{is_alnum, is_symbol_char, matches_tail, matches_pattern, validate_symbol}
use xiaoy_md.Domain.Symbols.{IsSymbol}
use xiaoy_md.Service.Topic.{Tick, Decimals, topic_of, build_publish_payload}
use xiaoy_md.Service.Topic.Payload.{ArePlain, with_names}
use xiaoy_md.Service.Topic.Translated.{published_topic, build_publish_payload-translate}

program : Unit {0}
unfolding str_eq has_char split_first split_last lookup insert set_default normalize_address
    symbol_from_exchange split_pair exchange_from_base last_part resolve_vt_symbol with_pair
    names_of normalize_attribute is_private public_payload known_exchange exchange_entry put_symbols
    put_times build_raw_payload adjust_price decimal_from_attr volume_decimal is_accepted
    with_symbol market_tick put_number put_decimal put_numbers raw_tick translate_vnpy_tick is_alnum
    is_symbol_char matches_tail matches_pattern validate_symbol is_space lstrip rstrip strip
    topic_of build_publish_payload published_topic
program = tt

abbrev floats : Floats ℕ
floats = record {
  is_max = λ n. n == 999;
  is_nan = λ n. n == 998;
  is_zero = λ n. n == 0;
  is_finite = λ n. not (n == 998) && not (n == 999);
  zero_price = 0;
}

abbrev decimals : Decimals ℕ ℕ
decimals = record { to_float = λ d. d; show = λ d. codes "price" }

abbrev vnpy_tick : VnpyTick ℕ
vnpy_tick = record {
  symbol = none;
  vt_symbol = none;
  exchange = none;
  iso_time = codes "2024-01-02T09:00:00+08:00";
  date = codes "2024-01-02";
  clock_time = codes "09:00:00.000";
  last_price = 999;
  bid_price_1 = some 998;
  ask_price_1 = some 7;
  volume = some 0;
  attributes =
      (codes "_secret", plain (text (codes "x")))
      ∷ (codes "exchange", plain (text (codes "")))
      ∷ [];
}

abbrev plain_tick : VnpyTick ℕ
plain_tick = with_names (codes "rb2401") (codes "SHFE") vnpy_tick

abbrev domain_tick : Tick ℕ ℕ
domain_tick = record {
  symbol = codes "rb2401.SHFE";
  price = 0;
  volume = none;
  bid = some 7;
  ask = none;
  china_time = codes "2024-01-02T09:00:00+08:00";
  vnpy = [];
}

are_plain : ArePlain (codes "rb2401") (codes "SHFE")
unfolding program
are_plain = record {
  base_named = refl;
  exchange_named = refl;
  base_dots = refl;
  exchange_prefix = refl;
  exchange_chars = refl;
}

rb2401-IsSymbol : IsSymbol (codes "rb2401.SHFE")
unfolding is_alnum is_symbol_char
rb2401-IsSymbol = (
  refl,
  omega arith,
  (refl, (refl, (refl, (refl, (refl, (refl, (refl, (refl, (refl, (refl, tt)))))))))),
)

-- the last price is a sentinel and the volume 0, which are accepted
abbrev good_tick : VnpyTick ℕ
good_tick = record vnpy_tick { bid_price_1 = none }

build_publish_payload-translate_example :
    published_topic floats decimals domain_tick
      (translate_vnpy_tick floats (with_names (codes "rb2401") (codes "SHFE") good_tick))
    ≡ some (topic_of (codes "SHFE") (codes "rb2401"))
build_publish_payload-translate_example =
    build_publish_payload-translate floats decimals good_tick (codes "rb2401") (codes "SHFE")
      domain_tick refl are_plain rb2401-IsSymbol

-- a bid that is not a number
dropped_run : translate_vnpy_tick floats plain_tick ≡ none
unfolding program
dropped_run = refl

topic_of_run : topic_of (codes "SHFE") (codes "rb2401") ≡ codes "market.tick.SHFE.rb2401"
unfolding program
topic_of_run = refl

normalize_address_run : normalize_address (codes "10.0.0.1:41213") ≡ codes "tcp://10.0.0.1:41213"
unfolding program
normalize_address_run = refl
