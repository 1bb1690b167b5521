-- ===== src/Adapter/Subscriptions/Consistency.antt =====
-- The two dictionaries of the adapter agree, and stay so.
use xiaoy_md.Prelude.{ℕ, ◌+◌, ◌<◌, ◌≡◌, ◌≢◌, ap, ◌∙◌, none, some, arith, Bool-cases, inl, inr, ◌⊎◌}
use xiaoy_md.Text.{Str, str_eq, str_eq_iff}
use xiaoy_md.Dict.{lookup, insert}
use xiaoy_md.Dict.Laws.{Distinct, lookup-insert_self, lookup-insert_ne, insert-Distinct}
use xiaoy_md.Domain.{MarketDataSubscription}
use xiaoy_md.Adapter.Subscriptions.{State, sub_id, key_of}
use xiaoy_md.Adapter.Subscriptions.Keys.{sub_id_injective}

pub record IsConsistent (s : State) : Type 0 where
  pub distinct_ids : Distinct s.subs_by_id
  pub distinct_keys : Distinct s.sub_id_by_symbol
  -- a symbol key leads to a subscription of that key
  pub mapped :
      (key id : Str)
      → lookup key s.sub_id_by_symbol ≡ some id
      → (sub : MarketDataSubscription) × (lookup id s.subs_by_id ≡ some sub) × (key_of sub ≡ key)
  -- a subscription stands under its own id, and its key leads back to it
  pub named :
      (id : Str) (sub : MarketDataSubscription)
      → lookup id s.subs_by_id ≡ some sub
      → (lookup (key_of sub) s.sub_id_by_symbol ≡ some id) × (sub.subscription_id ≡ id)
  -- the ids to come are free
  pub fresh : (n : ℕ) → s.sub_seq < n → lookup (sub_id n) s.subs_by_id ≡ none

pub Str-cases : (a b : Str) → (a ≡ b) ⊎ (a ≢ b)
Str-cases a b = elim (Bool-cases (str_eq a b)) [
  | inl e ↦ inl ((str_eq_iff a b).0 e)
  | inr e ↦ inr (λ p. ground (arith, str_eq_iff a b))
]

-- Entering a new subscription under a free key and a free id keeps the agreement.
module _ (s s' : State) (sub : MarketDataSubscription) (c : IsConsistent s)
    (own : sub.subscription_id ≡ sub_id (s.sub_seq + 1))
    (free : lookup (key_of sub) s.sub_id_by_symbol ≡ none)
    (ids : s'.subs_by_id ≡ insert (sub_id (s.sub_seq + 1)) sub s.subs_by_id)
    (symbols : s'.sub_id_by_symbol
      ≡ insert (key_of sub) (sub_id (s.sub_seq + 1)) s.sub_id_by_symbol)
    (seq : s'.sub_seq ≡ s.sub_seq + 1) where
  abbrev new_id : Str
  new_id = sub_id (s.sub_seq + 1)

  unused : lookup new_id s.subs_by_id ≡ none
  unused = c.fresh (s.sub_seq + 1) (omega arith)

  insert-mapped :
      (key id' : Str)
      → lookup key s'.sub_id_by_symbol ≡ some id'
      → (found : MarketDataSubscription) × (lookup id' s'.subs_by_id ≡ some found)
        × (key_of found ≡ key)
  insert-mapped key id' h = elim (Str-cases (key_of sub) key) [
    | inl e ↦
        let same : new_id ≡ id' =
          ground (arith, lookup-insert_self (key_of sub) new_id s.sub_id_by_symbol) in
        (sub, rw (ids, ← same) (lookup-insert_self new_id sub s.subs_by_id), e)
    | inr ne ↦
        let old =
          rw (symbols, lookup-insert_ne (key_of sub) key new_id s.sub_id_by_symbol ne) at h in
        let (found, at_id, k) = c.mapped key id' old in
        (
          found,
          rw (ids, lookup-insert_ne new_id id' sub s.subs_by_id (λ p. ground (arith, unused)))
              at_id,
          k,
        )
  ]

  insert-named :
      (id' : Str) (found : MarketDataSubscription)
      → lookup id' s'.subs_by_id ≡ some found
      → (lookup (key_of found) s'.sub_id_by_symbol ≡ some id') × (found.subscription_id ≡ id')
  insert-named id' found h = elim (Str-cases new_id id') [
    | inl e ↦
        let same : sub ≡ found = ground (arith, lookup-insert_self new_id sub s.subs_by_id) in
        (
          rw (symbols, ← same)
              (lookup-insert_self (key_of sub) new_id s.sub_id_by_symbol ∙ ap some e),
          rw (← same) (own ∙ e),
        )
    | inr ne ↦
        let old = rw (ids, lookup-insert_ne new_id id' sub s.subs_by_id ne) at h in
        let (back, name) = c.named id' found old in
        (
          rw
              (
                symbols,
                lookup-insert_ne (key_of sub) (key_of found) new_id s.sub_id_by_symbol
                    (λ p. ground (arith, back)),
              )
              back,
          name,
        )
  ]

  pub insert-IsConsistent : IsConsistent s'
  insert-IsConsistent = record {
    distinct_ids = rw ids (insert-Distinct new_id sub s.subs_by_id c.distinct_ids);
    distinct_keys =
        rw symbols (insert-Distinct (key_of sub) new_id s.sub_id_by_symbol c.distinct_keys);
    mapped = insert-mapped;
    named = insert-named;
    fresh = λ n lt.
        let later : s.sub_seq + 1 ≢ n = omega arith in
        rw
          (
            ids,
            lookup-insert_ne new_id (sub_id n) sub s.subs_by_id
                (λ p. later (sub_id_injective _ n p)),
          )
          (c.fresh n (omega arith));
  }
