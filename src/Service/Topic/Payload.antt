-- ===== src/Service/Topic/Payload.antt =====
-- The payload of a tick that the adapter has translated (src/infrastructure/ctp_adapter.py and
-- src/application/services.py).
use xiaoy_md.Prelude.{
  ◌≡◌, refl, ap, ◌∙◌, inl, inr, false, ◌||◌, [], ◌∷◌, ◌++◌, Option, none, some, Option-cases,
}
use xiaoy_md.Text.{Str, codes, str_eq, is_empty, has_char}
use xiaoy_md.Text.Split.{split_last-eq-none}
use xiaoy_md.Dict.{Dict, lookup, insert, set_default}
use xiaoy_md.Dict.Laws.{lookup-insert, lookup-insert_self}
use xiaoy_md.FullFeed.Reasons.{starts_with}
use xiaoy_md.Adapter.Translate.{
  Value, null, text, number, Floats, VnpyTick, symbol_from_exchange, split_pair, resolve_vt_symbol,
  exchange_from_base, with_pair, names_of, exchange_entry, public_payload, put_symbols, put_times,
  build_raw_payload,
}
use xiaoy_md.Adapter.Translate.Market.{put_number, put_decimal, put_numbers, raw_tick}

module _ {V : Type 0} where
  lookup-set_default_ne :
      (k j : Str) (v : V) (d : Dict V)
      → str_eq k j ≡ false
      → lookup j (set_default k v d) ≡ lookup j d
  unfolding set_default
  lookup-set_default_ne k j v d h = elim (Option-cases (lookup k d)) [
    | inl e ↦ rw (set_default, e) (lookup-insert k j v d ∙ rw h refl)
    | inr e ↦ rw (set_default, e.1) refl
  ]

  lookup-insert_other :
      (k j : Str) (v : V) (d : Dict V) → str_eq k j ≡ false → lookup j (insert k v d) ≡ lookup j d
  lookup-insert_other k j v d h = lookup-insert k j v d ∙ rw h refl

-- a plain base symbol, without a dot, and a plain name of an exchange
pub record ArePlain (base exchange : Str) : Type 0 where
  pub base_named : is_empty base ≡ false
  pub exchange_named : is_empty exchange ≡ false
  pub base_dots : has_char b'.' base ≡ false
  pub exchange_prefix : starts_with exchange (codes "Exchange.") ≡ false
  pub exchange_chars : (has_char b'<' exchange || has_char b' ' exchange) ≡ false

-- the tick with this symbol and exchange, and without a symbol of its own
abbrev pub with_names : {N : Type 0} → Str → Str → VnpyTick N → VnpyTick N
with_names base ex t = record t { symbol = some base; vt_symbol = none; exchange = some ex }

symbol_from_exchange-plain :
    (base ex : Str)
    → ArePlain base ex
    → symbol_from_exchange base (some ex) ≡ (base ++ b'.' ∷ ex, some ex)
unfolding symbol_from_exchange
symbol_from_exchange-plain base ex p =
    rw (symbol_from_exchange, p.exchange_prefix, p.exchange_named, p.exchange_chars, p.base_named)
      refl

split_pair-plain : (base : Str) → has_char b'.' base ≡ false → split_pair base ≡ none
unfolding split_pair
split_pair-plain base h = rw (split_pair, split_last-eq-none b'.' base h) refl

names_of-plain :
    {N : Type 0} (t : VnpyTick N) (base ex : Str)
    → ArePlain base ex
    → names_of (with_names base ex t) ≡ (base, base ++ b'.' ∷ ex, some ex)
unfolding names_of resolve_vt_symbol exchange_from_base with_pair
names_of-plain t base ex p =
    ap (λ r. with_pair base (exchange_from_base base r) (split_pair base))
      (symbol_from_exchange-plain base ex p)
    ∙ ap (with_pair base (base ++ b'.' ∷ ex, some ex)) (split_pair-plain base p.base_dots)

module _ {N : Type 0} (floats : Floats N) where
  -- the entries of the payload that the topic reads
  lookup-put_times :
      (t : VnpyTick N) (k : Str) (d : Dict (Value N))
      → str_eq (codes "datetime") k ≡ false
      → str_eq (codes "timestamp") k ≡ false
      → str_eq (codes "date") k ≡ false
      → str_eq (codes "time") k ≡ false
      → str_eq (codes "source") k ≡ false
      → lookup k (put_times floats t d) ≡ lookup k d
  unfolding put_times
  lookup-put_times t k d a b c e f =
      rw
        (
          lookup-set_default_ne (codes "source") k _ _ f,
          lookup-set_default_ne (codes "time") k _ _ e,
          lookup-set_default_ne (codes "date") k _ _ c,
          lookup-set_default_ne (codes "timestamp") k _ _ b,
          lookup-set_default_ne (codes "datetime") k _ _ a,
        )
        refl

  lookup-put_number :
      (key : Str) (n : N) (k : Str) (d : Dict (Value N))
      → str_eq key k ≡ false
      → lookup k (put_number floats key n d) ≡ lookup k d
  unfolding put_number
  lookup-put_number key n k d h = elim (Option-cases (lookup key d)) [
    | inl e ↦ rw (put_number, e) (lookup-insert_other key k (number n) d h)
    | inr (null, e) ↦ rw (put_number, e) (lookup-insert_other key k (number n) d h)
    | inr (text s, e) ↦ rw (put_number, e) refl
    | inr (number m, e) ↦ rw (put_number, e) refl
  ]

  lookup-put_decimal :
      (key : Str) (n : Option N) (k : Str) (d : Dict (Value N))
      → str_eq key k ≡ false
      → lookup k (put_decimal floats key n d) ≡ lookup k d
  unfolding put_decimal
  lookup-put_decimal key none k d h = refl
  lookup-put_decimal key (some n) k d h = lookup-put_number key n k d h

  lookup-put_numbers :
      (t : VnpyTick N) (k : Str) (d : Dict (Value N))
      → str_eq (codes "last_price") k ≡ false
      → str_eq (codes "volume") k ≡ false
      → str_eq (codes "bid_price_1") k ≡ false
      → str_eq (codes "ask_price_1") k ≡ false
      → lookup k (put_numbers floats t d) ≡ lookup k d
  unfolding put_numbers
  lookup-put_numbers t k d a b c e =
      rw
        (
          lookup-put_decimal (codes "ask_price_1") _ k _ e,
          lookup-put_decimal (codes "bid_price_1") _ k _ c,
          lookup-put_decimal (codes "volume") _ k _ b,
          lookup-put_number (codes "last_price") _ k _ a,
        )
        refl

  exchange_entry-named :
      (ex : Str) (known : Option (Value N))
      → is_empty ex ≡ false
      → exchange_entry floats (some ex) known ≡ text ex
  unfolding exchange_entry
  exchange_entry-named [] known h = absurd (cc h)
  exchange_entry-named (c ∷ ex) known h = refl

  lookup-put_symbols :
      (base vt : Str) (d : Dict (Value N))
      → is_empty base ≡ false
      → lookup (codes "base_symbol") (put_symbols floats base vt d) ≡ some (text base)
  unfolding put_symbols str_eq
  lookup-put_symbols base vt d h =
      rw (put_symbols, h)
        (lookup-insert_other (codes "vt_symbol") (codes "base_symbol") (text vt)
            (insert (codes "base_symbol") (text base) (set_default (codes "symbol") (text base) d))
            refl
          ∙ lookup-insert_self (codes "base_symbol") (text base)
              (set_default (codes "symbol") (text base) d))

  -- the payload of a translated plain tick
  abbrev payload_of : VnpyTick N → Dict (Value N)
  payload_of t = (raw_tick floats t).vnpy

  pub made :
      (t : VnpyTick N) (base ex : Str)
      → ArePlain base ex
      → ((raw_tick floats (with_names base ex t)).symbol ≡ base ++ b'.' ∷ ex)
        × (payload_of (with_names base ex t)
            ≡ put_numbers floats t (
                build_raw_payload floats (with_names base ex t) base (base ++ b'.' ∷ ex) (some ex)))
  unfolding raw_tick put_numbers
  made t base ex p = (
    rw (raw_tick, names_of-plain t base ex p) refl,
    rw (raw_tick, names_of-plain t base ex p) refl,
  )

  pub lookup-payload :
      (t : VnpyTick N) (base ex : Str)
      → ArePlain base ex
      → (lookup (codes "base_symbol") (payload_of (with_names base ex t)) ≡ some (text base))
        × (lookup (codes "exchange") (payload_of (with_names base ex t)) ≡ some (text ex))
  unfolding build_raw_payload str_eq
  lookup-payload t base ex p =
      let t' = with_names base ex t in
      let vt = base ++ b'.' ∷ ex in
      let symbols = put_symbols floats base vt (public_payload floats t'.attributes) in
      let shown = exchange_entry floats (some ex) (lookup (codes "exchange") symbols) in
      let raw = insert (codes "exchange") shown symbols in
      (
        ap (lookup (codes "base_symbol")) (made t base ex p).1
            ∙ lookup-put_numbers t (codes "base_symbol") (put_times floats t' raw) refl refl refl
                refl
            ∙ lookup-put_times t' (codes "base_symbol") raw refl refl refl refl refl
            ∙ lookup-insert_other (codes "exchange") (codes "base_symbol") shown symbols refl
            ∙ lookup-put_symbols base vt (public_payload floats t'.attributes) p.base_named,
        ap (lookup (codes "exchange")) (made t base ex p).1
            ∙ lookup-put_numbers t (codes "exchange") (put_times floats t' raw) refl refl refl refl
            ∙ lookup-put_times t' (codes "exchange") raw refl refl refl refl refl
            ∙ lookup-insert_self (codes "exchange") shown symbols
            ∙ ap some
                (exchange_entry-named ex (lookup (codes "exchange") symbols) p.exchange_named),
      )
