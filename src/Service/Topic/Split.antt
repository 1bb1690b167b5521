-- ===== src/Service/Topic/Split.antt =====
-- A topic tells its exchange and its symbol (src/application/services.py).
use xiaoy_md.Prelude.{
  ℕ, ◌≡◌, refl, inl, inr, false, [], ◌∷◌, ◌++◌, none, some, arith, Option-cases, Bool-cases,
}
use xiaoy_md.Text.{Str, codes, is_empty, or_else, has_char, split_first, split_last}
use xiaoy_md.Dict.{lookup}
use xiaoy_md.Text.Split.{split_first_join, split_last-append}
use xiaoy_md.Adapter.Translate.{text}
use xiaoy_md.Service.Topic.{
  text_of, Tick, Decimals, before_dot, derive_base_symbol, derive_exchange, names_of, topic_of,
  build_publish_payload,
}

no_split : (c : ℕ) (s : Str) → split_first c s ≡ none → has_char c s ≡ false
unfolding split_first has_char
no_split c [] h = refl
no_split c (d ∷ s) h = ground (arith, no_split c s)

before_dot-no_dot : (s : Str) → has_char b'.' (before_dot s) ≡ false
unfolding before_dot
before_dot-no_dot s = elim (Option-cases (split_first b'.' s)) [
  | inl e ↦ rw (before_dot, e) (no_split b'.' s e)
  | inr e ↦ rw (before_dot, e.1) ((split_first_join b'.' s e.1).1)
]

derive_base_symbol-no_dot :
    (base vt_symbol : Str) → has_char b'.' (derive_base_symbol base vt_symbol) ≡ false
unfolding derive_base_symbol
derive_base_symbol-no_dot base vt_symbol = elim (Bool-cases (is_empty base)) [
  | inl e ↦ rw (derive_base_symbol, e) (before_dot-no_dot vt_symbol)
  | inr e ↦ rw (derive_base_symbol, e) (before_dot-no_dot base)
]

topic_of-split :
    (exchange base : Str)
    → has_char b'.' base ≡ false
    → split_last b'.' (topic_of exchange base) ≡ some (codes "market.tick." ++ exchange, base)
unfolding topic_of
topic_of-split exchange base h = split_last-append b'.' (codes "market.tick." ++ exchange) base h

dot_in : (a b : Str) → has_char b'.' (a ++ b'.' ∷ b) ≡ false → ⊥
unfolding has_char
dot_in [] b h = cc h
dot_in (c ∷ a) b h = dot_in a b (ground arith)

with_dot : (s a b : Str) → s ≡ a ++ b'.' ∷ b → has_char b'.' s ≡ false → ⊥
unfolding has_char
with_dot s a b e h = dot_in a b (rw e at h)

before_dot-plain : (s : Str) → has_char b'.' s ≡ false → before_dot s ≡ s
unfolding before_dot
before_dot-plain s h = elim (Option-cases (split_first b'.' s)) [
  | inl e ↦ rw (before_dot, e) refl
  | inr e ↦ absurd (with_dot s e.0.0 e.0.1 ((split_first_join b'.' s e.1).0) h)
]

or_else_named : (a b : Str) → is_empty a ≡ false → or_else a b ≡ a
or_else_named [] b h = absurd (cc h)
or_else_named (c ∷ a) b h = refl

module _ {N D : Type 0} (decimals : Decimals N D) where
  -- Whatever a tick and its payload hold, the topic that it is published under splits, at its last
  -- dot, into the prefix with the derived exchange and the derived base symbol: the base symbol
  -- has no dot of its own.
  build_publish_payload-split :
      (t : Tick N D)
      → let (vt_symbol, base_symbol, symbol_field, exchange) = names_of t in
        split_last b'.' (build_publish_payload decimals t).0
        ≡ some (codes "market.tick." ++ exchange, base_symbol)
  unfolding build_publish_payload names_of
  build_publish_payload-split t = topic_of-split (names_of t).3 (names_of t).1 (
      derive_base_symbol-no_dot
        (or_else (text_of (lookup (codes "base_symbol") t.vnpy))
          (text_of (lookup (codes "symbol") t.vnpy)))
        (or_else (text_of (lookup (codes "vt_symbol") t.vnpy)) t.symbol))

  -- the topic of a tick whose payload names its base symbol and its exchange
  pub build_publish_payload-known :
      (t : Tick N D) (base ex : Str)
      → is_empty base ≡ false
      → is_empty ex ≡ false
      → has_char b'.' base ≡ false
      → lookup (codes "base_symbol") t.vnpy ≡ some (text base)
      → lookup (codes "exchange") t.vnpy ≡ some (text ex)
      → (build_publish_payload decimals t).0 ≡ topic_of ex base
  unfolding build_publish_payload names_of text_of derive_exchange derive_base_symbol
  build_publish_payload-known t base ex base_named ex_named dots b e =
      rw
        (
          build_publish_payload,
          names_of,
          b,
          e,
          text_of,
          derive_exchange,
          derive_base_symbol,
          or_else_named base (text_of (lookup (codes "symbol") t.vnpy)) base_named,
          base_named,
          ex_named,
          before_dot-plain base dots,
        )
        refl
