-- ===== src/Adapter/Subscriptions/Preserved.antt =====
-- `subscribe` and `unsubscribe` keep the two dictionaries in agreement.
use xiaoy_md.Prelude.{
  ℕ, ◌+◌, ◌<◌, ◌≡◌, ◌≢◌, refl, ap, ◌∙◌, true, none, some, arith, Option-cases, inl, inr,
}
use xiaoy_md.Text.{Str, strip}
use xiaoy_md.Dict.{lookup, erase}
use xiaoy_md.Dict.Laws.{lookup-erase_self, lookup-erase_ne, erase-Distinct}
use xiaoy_md.Domain.{
  MarketDataSubscription, Validated, valid, empty_symbol, invalid_symbol, validate_symbol,
}
use xiaoy_md.Domain.Symbols.{validate_symbol-IsSymbol}
use xiaoy_md.Adapter.Subscriptions.{
  State, key_error, join_key, split_symbol, sub_id, record_new, existing, subscribe, unsubscribe,
  key_of,
}
use xiaoy_md.Adapter.Subscriptions.Consistency.{IsConsistent, Str-cases, insert-IsConsistent}

record_new-IsConsistent :
    (base exchange : Str) (s : State)
    → strip base ≡ base
    → lookup (join_key base exchange) s.sub_id_by_symbol ≡ none
    → IsConsistent s
    → IsConsistent (record_new base exchange s).1 × ((record_new base exchange s).0 ≢ key_error)
unfolding record_new
record_new-IsConsistent base exchange s trimmed free c = go (validate_symbol base) refl
  where
    skip : IsConsistent (record s { sub_seq = s.sub_seq + 1 })
    skip = record {
      distinct_ids = c.distinct_ids;
      distinct_keys = c.distinct_keys;
      mapped = c.mapped;
      named = c.named;
      fresh = λ n lt. c.fresh n (omega arith);
    }

    go :
        (r : Validated)
        → validate_symbol base ≡ r
        → IsConsistent (record_new base exchange s).1 × ((record_new base exchange s).0 ≢ key_error)
    go (valid symbol) e =
        let same : symbol ≡ base = ((validate_symbol-IsSymbol base symbol).0 e).0 ∙ trimmed in
        rw (e, record_new)
          (
            insert-IsConsistent s _
                (record {
                  subscription_id = sub_id (s.sub_seq + 1);
                  symbol = symbol;
                  exchange = exchange;
                  active = true;
                })
                c refl (rw same free) refl (rw same) refl,
            ground arith,
          )
    go empty_symbol e = rw (e, record_new) (skip, ground arith)
    go (invalid_symbol v) e = rw (e, record_new) (skip, ground arith)

-- Subscribing to a symbol whose base has no space at its end keeps the dictionaries in agreement,
-- and raises no KeyError.
pub subscribe-IsConsistent :
    (symbol : Str) (s : State)
    → strip (split_symbol (strip symbol)).0 ≡ (split_symbol (strip symbol)).0
    → IsConsistent s
    → IsConsistent (subscribe symbol s).1 × ((subscribe symbol s).0 ≢ key_error)
unfolding subscribe
subscribe-IsConsistent symbol s trimmed c =
    let base = (split_symbol (strip symbol)).0 in
    let exchange = (split_symbol (strip symbol)).1 in
    elim (Option-cases (lookup (join_key base exchange) s.sub_id_by_symbol)) [
      | inr (found, e) ↦
          let (sub, at_id, k) = c.mapped (join_key base exchange) found e in
          rw (e, subscribe) (c, unfold existing in ground (arith, at_id))
      | inl e ↦ rw (e, subscribe) (record_new-IsConsistent base exchange s trimmed e c)
    ]

-- Removing a subscription with its key keeps the agreement.
module _ (id : Str) (sub : MarketDataSubscription) (s : State) (c : IsConsistent s)
    (e : lookup id s.subs_by_id ≡ some sub) where
  erase-mapped :
      (key id' : Str)
      → lookup key (erase (key_of sub) s.sub_id_by_symbol) ≡ some id'
      → (found : MarketDataSubscription) × (lookup id' (erase id s.subs_by_id) ≡ some found)
        × (key_of found ≡ key)
  erase-mapped key id' h = elim (Str-cases (key_of sub) key) [
    | inl same ↦ absurd (
        let gone = lookup-erase_self (key_of sub) s.sub_id_by_symbol c.distinct_keys in
        ground arith)
    | inr ne ↦
        let old = rw (lookup-erase_ne (key_of sub) key s.sub_id_by_symbol ne) at h in
        let (found, at_id, k) = c.mapped key id' old in
        let other : id ≢ id' = λ p. ne (let q : sub ≡ found = ground arith in ap key_of q ∙ k) in
        (found, rw (lookup-erase_ne id id' s.subs_by_id other) at_id, k)
  ]

  erase-named :
      (id' : Str) (found : MarketDataSubscription)
      → lookup id' (erase id s.subs_by_id) ≡ some found
      → (lookup (key_of found) (erase (key_of sub) s.sub_id_by_symbol) ≡ some id')
        × (found.subscription_id ≡ id')
  erase-named id' found h = elim (Str-cases id id') [
    | inl same ↦
        absurd (let gone = lookup-erase_self id s.subs_by_id c.distinct_ids in ground arith)
    | inr ne ↦
        let old = rw (lookup-erase_ne id id' s.subs_by_id ne) at h in
        let (back, name) = c.named id' found old in
        let other : key_of sub ≢ key_of found =
          λ p. ne (let mine = (c.named id sub e).0 in ground arith) in
        (rw (lookup-erase_ne (key_of sub) (key_of found) s.sub_id_by_symbol other) back, name)
  ]

  erase-fresh : (n : ℕ) → s.sub_seq < n → lookup (sub_id n) (erase id s.subs_by_id) ≡ none
  erase-fresh n lt = elim (Str-cases id (sub_id n)) [
    | inl same ↦ rw (← same) (lookup-erase_self id s.subs_by_id c.distinct_ids)
    | inr ne ↦ rw (lookup-erase_ne id (sub_id n) s.subs_by_id ne) (c.fresh n lt)
  ]

  erase-IsConsistent : IsConsistent (record s {
    subs_by_id = erase id s.subs_by_id;
    sub_id_by_symbol = erase (key_of sub) s.sub_id_by_symbol;
  })
  erase-IsConsistent = record {
    distinct_ids = erase-Distinct id s.subs_by_id c.distinct_ids;
    distinct_keys = erase-Distinct (key_of sub) s.sub_id_by_symbol c.distinct_keys;
    mapped = erase-mapped;
    named = erase-named;
    fresh = erase-fresh;
  }

-- Unsubscribing keeps the dictionaries in agreement, whatever the id.
pub unsubscribe-IsConsistent :
    (id : Str) (s : State) → IsConsistent s → IsConsistent (unsubscribe id s)
unfolding unsubscribe
unsubscribe-IsConsistent id s c = elim (Option-cases (lookup id s.subs_by_id)) [
  | inl e ↦ rw (e, unsubscribe) c
  | inr (sub, e) ↦ rw (e, unsubscribe) (erase-IsConsistent id sub s c e)
]
